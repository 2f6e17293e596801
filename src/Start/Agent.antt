-- ===== src/Start/Agent.antt =====
-- The user agent: what `start` passes to `Snprintf`, and the text that it describes.
use patchwork.Prelude.{ℕ, List, [], ◌∷◌, ◌++◌, ◌==◌, if◌then◌else◌, get_or, codes}
use patchwork.Message.{Message, text, number}
use patchwork.Hooks.Game.{GameNumber}
use patchwork.Start.{Services, PatchworkConfigOptions, game_code}

module _ {W : Type 0} (v : Services W) where
  abbrev pub game_char : GameNumber → ℕ
  game_char game = get_or (v.uint_to_str (game_code game)) 0 0

  abbrev pub key_mark : PatchworkConfigOptions → List ℕ
  key_mark options = if options.enable_join_key == 0 then codes "NK" else []

  -- What `start` passes to `Snprintf`, and the text that it describes.
  abbrev pub agent_message : GameNumber → PatchworkConfigOptions → Message
  agent_message game options = record {
    format = codes "PatchworkLBP%c %s.%s %s";
    arguments =
        number (game_char game)
        ∷ text v.major_str
        ∷ text v.minor_str
        ∷ text (key_mark options)
        ∷ [];
  }

  abbrev pub agent_text : GameNumber → PatchworkConfigOptions → List ℕ
  agent_text game options =
      codes "PatchworkLBP"
      ++ game_char game ∷ codes " "
      ++ v.major_str
      ++ codes "."
      ++ v.minor_str
      ++ codes " "
      ++ key_mark options
