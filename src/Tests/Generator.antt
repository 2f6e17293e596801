-- ===== src/Tests/Generator.antt =====
-- The generator on an ELF file with the code of all games.
mod Encoder
mod Emulator
mod Module
use patchwork.Prelude.{
  ℕ, zero, suc, ◌+◌, ◌*◌, ◌-◌, ◌%◌, ◌^◌, ◌≤◌, ◌<◌, ◌≡◌, ◌≢◌, refl, Bool, true, false, some, inr,
  List, [], ◌∷◌, ◌++◌, if◌then◌else◌, length, get_or, All, codes, arith,
}
use patchwork.Memory.{Memory, memcpy}
use patchwork.Hooks.Game.{GameNumber, game_unknown, game_lbp1, game_lbp2, game_lbp3, game_lbp3_jp}
use patchwork.Hooks.Assembly.ScriptBlock.{script_hook}
use patchwork.Generator.{Bytes, Result, ok, failed, Game, Server}
use patchwork.Generator.Dict.{Dict, equal, lookup}
use patchwork.Generator.Definitions.{definition_of, beacon, bonsai, server_definitions}
use patchwork.Generator.Hook.{get_hook}
use patchwork.Generator.Hook.Scan.{IsHook, get_hook-IsHook}
use patchwork.Generator.Hook.Encoded.{assembled}
use patchwork.Generator.Hook.Extracted.{get_hook-script_hook}
use patchwork.Generator.Entries.{PatchEntry, Rpcs3Patch, PatchMap, make_overwrite_patch}
use patchwork.Generator.Make.{combined_key, server_key, make_patches}
use patchwork.Generator.Make.Combined.{IsCombined, make_patches-IsCombined}
use patchwork.Generator.Make.Placed.{IsServer, IsServed}
use patchwork.Generator.Make.Served.{make_patches-IsServed}
use patchwork.Generator.Main.{DirEntry, Surroundings, servers_yaml, main}
use patchwork.Generator.Main.Listing.{AreDefinitions, no_file, other_file, definition}
use patchwork.Generator.Main.Broken.{bad_definition, main-IsBroken}
use patchwork.Generator.Rpcs3.{write_all, make_overwrite_patch-memcpy}
use patchwork.Tests.Generator.Encoder.{encode, encode-IsEncoding}
use patchwork.Tests.Generator.Emulator.{fmt, rpcs3}
use patchwork.Tests.Generator.Module.{
  section_of, section_of-IsSection, module_text, module_text_small, module_text_short, elf,
  elf-IsPlugin,
}

known : game_lbp2 ≢ game_unknown
known e = absurd (ground arith)

-- From the script hook of LBP2 on
get_hook-IsHook_example :
    IsHook module_text
      (section_of module_text)
      (section_of-IsSection module_text module_text_small)
      216
      (get_hook 200 (section_of module_text) 216)
get_hook-IsHook_example =
    get_hook-IsHook module_text (section_of module_text)
      (section_of-IsSection module_text module_text_small) 216 200 (omega arith) module_text_short

-- A hook with a word before it and a word behind it.
abbrev padded : Bytes
padded = (1 ∷ 2 ∷ 3 ∷ 4 ∷ []) ++ (assembled encode (script_hook game_lbp2) ++ 5 ∷ 6 ∷ 7 ∷ 8 ∷ [])

padded-length : length padded ≡ 32
unfolding assembled
padded-length = refl

get_hook-script_hook_example :
    get_hook 9 (section_of padded) 4 ≡ some (ok (assembled encode (script_hook game_lbp2)))
get_hook-script_hook_example =
    get_hook-script_hook encode encode-IsEncoding game_lbp2 (1 ∷ 2 ∷ 3 ∷ 4 ∷ [])
      (5 ∷ 6 ∷ 7 ∷ 8 ∷ []) (section_of padded) 9 known
      (section_of-IsSection padded (omega (arith, padded-length))) (omega (arith, padded-length))

abbrev two_words : Bytes
two_words = 0x60 ∷ 0 ∷ 0 ∷ 0 ∷ 0x4E ∷ 0x80 ∷ 0 ∷ 0x20 ∷ []

abbrev source_memory : Memory
source_memory a = get_or two_words (a - 0x2000000) 0

make_overwrite_patch-memcpy_example :
    (rows : List PatchEntry) × (make_overwrite_patch fmt 0x3AB70C two_words ≡ ok rows)
    × ((a : ℕ)
        → write_all fmt rpcs3 rows source_memory a ≡ memcpy source_memory 0x3AB70C 0x2000000 8 a)
make_overwrite_patch-memcpy_example =
    make_overwrite_patch-memcpy fmt rpcs3 0x3AB70C two_words source_memory 0x2000000 refl
      (omega arith) (ground arith)
      (λ i below. let e : 0x2000000 + i - 0x2000000 ≡ i = omega arith in rw e refl)

make_patches-IsCombined_example :
    (all : PatchMap) × (patches : Dict Rpcs3Patch) × (combined : Rpcs3Patch) × (make_patches fmt 200
        elf
        (definition_of game_lbp2)
        server_definitions
      ≡ some (ok all))
    × (lookup (definition_of game_lbp2).ppu_hash all ≡ some patches)
    × (lookup combined_key patches ≡ some combined)
    × IsCombined encode fmt rpcs3 game_lbp2 combined
make_patches-IsCombined_example =
    make_patches-IsCombined encode encode-IsEncoding fmt 200 game_lbp2 elf known
      (elf-IsPlugin game_lbp2 known) rpcs3 server_definitions

bonsai-IsServer : IsServer bonsai
bonsai-IsServer = record {
  primary_clean = refl;
  https_clean = refl;
  digest_clean = refl;
  primary_short = omega arith;
  https_short = omega arith;
  digest_short = omega arith;
}

make_patches-IsServed_example :
    (all : PatchMap) × (patches : Dict Rpcs3Patch) × (patch : Rpcs3Patch) × (make_patches fmt 200
        elf
        (definition_of game_lbp2)
        (beacon ∷ bonsai ∷ [])
      ≡ some (ok all))
    × (lookup (definition_of game_lbp2).ppu_hash all ≡ some patches)
    × (lookup (server_key bonsai) patches ≡ some patch)
    × ((m : Memory) → IsServed game_lbp2 bonsai (write_all fmt rpcs3 patch.patch m))
make_patches-IsServed_example =
    make_patches-IsServed encode encode-IsEncoding fmt rpcs3 200 game_lbp2 elf (beacon ∷ []) []
      bonsai known (elf-IsPlugin game_lbp2 known) tt bonsai-IsServer

-- A directory with the files of lbpdefs, and one that is passed over. A file's bytes are its name.
abbrev config_file : Bytes → DirEntry
config_file name = record { name = name; is_dir = false }

abbrev lbpdefs : List DirEntry
lbpdefs =
    config_file (codes "lbp1.yaml")
    ∷ config_file (codes "lbp2.yaml")
    ∷ config_file (codes "lbp3.yaml")
    ∷ config_file (codes "lbp3jp.yaml")
    ∷ record { name = codes "old"; is_dir = true }
    ∷ config_file servers_yaml
    ∷ []

abbrev named_game : Bytes → Result Game
named_game name =
    if equal name (codes "lbp1.yaml")
    then ok (definition_of game_lbp1)
    else if equal name (codes "lbp2.yaml")
    then ok (definition_of game_lbp2)
    else if equal name (codes "lbp3.yaml")
    then ok (definition_of game_lbp3)
    else if equal name (codes "lbp3jp.yaml")
    then ok (definition_of game_lbp3_jp)
    else failed

abbrev surroundings : Surroundings
surroundings = record {
  config_files = ok lbpdefs;
  elf_file = ok elf;
  read_file = λ name. ok name;
  unmarshal_servers = λ bytes. ok server_definitions;
  unmarshal_game = named_game;
  encode = λ file. ok file.version;
  write_output = λ bytes. true;
}

abbrev all_games : List GameNumber
all_games = game_lbp1 ∷ game_lbp2 ∷ game_lbp3 ∷ game_lbp3_jp ∷ []

lbpdefs-AreDefinitions :
    (env : Surroundings)
    → ((name : Bytes) → env.read_file name ≡ ok name)
    → ((name : Bytes) → env.unmarshal_game name ≡ named_game name)
    → AreDefinitions env lbpdefs all_games
lbpdefs-AreDefinitions env read made =
    definition game_lbp1 (codes "lbp1.yaml") refl (λ e. absurd (ground arith)) (read _) (made _)
      (definition game_lbp2 (codes "lbp2.yaml") refl (λ e. absurd (ground arith)) (read _) (made _)
        (definition game_lbp3 (codes "lbp3.yaml") refl (λ e. absurd (ground arith)) (read _)
          (made _)
          (definition game_lbp3_jp (codes "lbp3jp.yaml") refl (λ e. absurd (ground arith)) (read _)
            (made _) (other_file refl (other_file refl no_file)))))

-- The same directory, with a file behind the definitions that has no definition.
abbrev broken : Surroundings
broken = record surroundings {
  config_files = ok (lbpdefs ++ config_file (codes "notes.txt") ∷ config_file (codes "z") ∷ []);
}

main-IsBroken_example : main fmt 200 broken ≡ some failed
main-IsBroken_example = main-IsBroken fmt 200 broken encode encode-IsEncoding elf elf-IsPlugin (
    bad_definition lbpdefs (config_file (codes "z") ∷ []) (config_file (codes "notes.txt"))
      all_games refl refl (lbpdefs-AreDefinitions broken (λ name. refl) (λ name. refl)) refl
      (inr (codes "notes.txt", refl, refl)))
