-- ===== src/Generator/Definitions.antt =====
-- lbpdefs: the games' definitions and the servers, as `yaml.Unmarshal` is to deliver them. A field
-- that a file leaves out has its zero value; a key without a field is dropped.
use patchwork.Prelude.{[], ◌∷◌, List, codes}
use patchwork.Hooks.Game.{GameNumber, game_unknown, game_lbp1, game_lbp2, game_lbp3, game_lbp3_jp}
use patchwork.Generator.{Game, Server, hook, overwrite}

-- lbpdefs/lbp1.yaml
abbrev pub lbp1_definition : Game
lbp1_definition = record {
  offsets = record {
    user_agent = 0x79FDA0;
    http_url = 0x767CF8;
    https_url = 0x767C40;
    presence_url = 0;
    live_url = 0;
    digest_key = 0x79FBC0;
    network_key = 0;
  };
  user_agent = codes "PatchworkLBP1 2.0";
  name = codes "LittleBigPlanet";
  game_versions = codes "01.30" ∷ [];
  title_ids = codes "BCES00141" ∷ codes "NPUA80472" ∷ codes "BCES00611" ∷ codes "BCUS98148" ∷ [];
  ppu_hash = codes "PPU-545c1abbf1c562d60fca7435401f020beab76b53";
  patches =
      record { symbol = codes "LBP1ForceJoinPatch"; len = 16; type = overwrite; offset = 0x3AB70C }
      ∷ record { symbol = codes "LBP1ScriptHook"; len = 0; type = hook; offset = 0x81BC8 }
      ∷ [];
}

-- lbpdefs/lbp2.yaml
abbrev pub lbp2_definition : Game
lbp2_definition = record {
  offsets = record {
    user_agent = 0xC36320;
    http_url = 0xC51C08;
    https_url = 0xC51B68;
    presence_url = 0;
    live_url = 0;
    digest_key = 0xC361D0;
    network_key = 0;
  };
  user_agent = codes "PatchworkLBP2 2.0";
  name = codes "LittleBigPlanet 2";
  game_versions = codes "01.33" ∷ [];
  title_ids =
      codes "BCES01086"
      ∷ codes "BCES00850"
      ∷ codes "NPEA00437"
      ∷ codes "NPUA80662"
      ∷ codes "BCUS98372"
      ∷ [];
  ppu_hash = codes "PPU-a74423ca913fc18e46cfe926db1d48e41f9858a9";
  patches =
      record { symbol = codes "LBP2ForceJoinPatch"; len = 30; type = overwrite; offset = 0x285FB8 }
      ∷ record { symbol = codes "LBP2ScriptHook"; len = 0; type = hook; offset = 0x153D74 }
      ∷ [];
}

-- lbpdefs/lbp3.yaml
abbrev pub lbp3_definition : Game
lbp3_definition = record {
  offsets = record {
    user_agent = 0xD8BF50;
    http_url = 0xD9E4C4;
    https_url = 0xD9E5D8;
    presence_url = 0xD8429C;
    live_url = 0xD842EC;
    digest_key = 0xD8BD08;
    network_key = 0;
  };
  user_agent = codes "PatchworkLBP3 2.0";
  name = codes "LittleBigPlanet 3";
  game_versions = codes "01.26" ∷ [];
  title_ids = codes "BCES02068" ∷ [];
  ppu_hash = codes "PPU-4ff9503c80ff356080c96f3828890906073b8e43";
  patches =
      record { symbol = codes "LBP3ForceJoinPatch"; len = 28; type = overwrite; offset = 0x285FB8 }
      ∷ record { symbol = codes "LBP3ScriptHook"; len = 0; type = hook; offset = 0x1CFC6C }
      ∷ [];
}

-- lbpdefs/lbp3jp.yaml
abbrev pub lbp3_jp_definition : Game
lbp3_jp_definition = record {
  offsets = record {
    user_agent = 0xD71DE8;
    http_url = 0xD84224;
    https_url = 0xD84338;
    presence_url = 0xD8429C;
    live_url = 0xD842EC;
    digest_key = 0xD71BA0;
    network_key = 0;
  };
  user_agent = codes "PatchworkLBP3 2.0";
  name = codes "LittleBigPlanet 3";
  game_versions = codes "01.21" ∷ [];
  title_ids = codes "BCJS02068" ∷ codes "BCJS30095" ∷ [];
  ppu_hash = codes "PPU-1e12d443bb7b71d73d0e432c13ad6d9ea069f5f7";
  patches =
      record {
        symbol = codes "LBP3JPForceJoinPatch";
        len = 28;
        type = overwrite;
        offset = 0x301E34;
      }
      ∷ record { symbol = codes "LBP3JPScriptHook"; len = 0; type = hook; offset = 0x1CFB08 }
      ∷ [];
}

abbrev pub definition_of : GameNumber → Game
definition_of game_unknown = record {
  offsets = record {
    user_agent = 0;
    http_url = 0;
    https_url = 0;
    presence_url = 0;
    live_url = 0;
    digest_key = 0;
    network_key = 0;
  };
  user_agent = [];
  name = [];
  game_versions = [];
  title_ids = [];
  ppu_hash = [];
  patches = [];
}
definition_of game_lbp1 = lbp1_definition
definition_of game_lbp2 = lbp2_definition
definition_of game_lbp3 = lbp3_definition
definition_of game_lbp3_jp = lbp3_jp_definition

-- lbpdefs/servers.yaml
abbrev pub beacon : Server
beacon = record {
  primary_url = codes "http://lighthouse.lbpunion.com/LITTLEBIGPLANETPS3_XML";
  https_url = [];
  custom_digest = [];
  name = codes "Beacon";
  owner = codes "LBP Union";
  description = codes "LBP Union's custom server running on Project Lighthouse";
}

abbrev pub bonsai : Server
bonsai = record {
  primary_url = codes "http://lbp.lbpbonsai.com/lbp";
  https_url = [];
  custom_digest = codes "CustomServerDigest";
  name = codes "Bonsai";
  owner = codes "Bonsai Team";
  description = codes "The Bonsai custom server running on Refresh";
}

abbrev pub server_definitions : List Server
server_definitions = beacon ∷ bonsai ∷ []
