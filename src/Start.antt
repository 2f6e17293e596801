-- ===== src/Start.antt =====
-- src/prx.c: the module's entry, from the configuration to the patches.
-- The configuration reader is in the submodule src/toml, and `Snprintf` in src/tools/printf.c: both
-- are parameters, like the console's calls.
-- A walk over a string has a fuel, as in `Text`; `none` means that some fuel ran out.
pub mod Steps
pub mod Entry
pub mod Hooked
pub mod Configured
pub mod Updating
pub mod Restarting
pub mod Announcing
pub mod Wording
pub mod Announced
pub mod Layout
pub mod Agent
pub mod Objects
pub mod Prepared
pub mod Keyed
pub mod Strung
pub mod Held
pub mod Ready
pub mod Places
pub mod InGame
pub mod Patched
pub mod Booted
pub mod Undetected
pub mod Named
use mathlib.Core.Option
use patchwork.Prelude.{
  ℕ, zero, suc, ◌+◌, ◌*◌, ◌/◌, ◌%◌, ◌^◌, Bool, true, false, not, ◌&&◌, Option, none, some,
}
use patchwork.Prelude.{String, List, [], ◌∷◌, ◌++◌, ◌==◌, if◌then◌else◌, length, codes, get_or}
use patchwork.Memory.{Memory, store_word}
use patchwork.Message.{Message, number, text}
use patchwork.Text.{strlen, trim_end, replace_next}
use patchwork.Files.{read_file, write_file}
use patchwork.Http.{Sha256}
use patchwork.Sysmodules.{SysmoduleIds, load_all_modules, unload_all_modules}
use patchwork.Hooks.Offsets.{
  lbp1_resource_check_offset, lbp2_resource_check_offset, lbp3_resource_check_offset,
  lbp3_jp_resource_check_offset,
}
use patchwork.Hooks.Branch.{relative_branch}
use patchwork.Hooks.Patches.{Symbols}
use patchwork.Hooks.Apply.{Machine, apply_game_patches}
use patchwork.Hooks.Game.{
  GameNumber, game_unknown, game_lbp1, game_lbp2, game_lbp3, game_lbp3_jp, get_lbp_game_number,
  patches_of,
}
use patchwork.Update.{
  Platform, PatchworkLaunchArgs, StackFrame, line, try_update_and_install, try_restart_module,
}

abbrev pub main_config_path : String
main_config_path = "/dev_hdd0/plugins/patchwork/patchwork.toml"

-- Pointers, of which 0 is `NULL`, and `int`s that are only tested against 0.
pub record PatchworkConfigOptions : Type 0 where
  pub server_url : ℕ
  pub join_key : ℕ
  pub digest_key : ℕ
  pub enable_join_key : ℕ
  pub update_server_url : ℕ
  pub enable_updates : ℕ

-- `PatchworkConfigOptions options = {}`
abbrev pub no_options : PatchworkConfigOptions
no_options = record {
  server_url = 0;
  join_key = 0;
  digest_key = 0;
  enable_join_key = 0;
  update_server_url = 0;
  enable_updates = 0;
}

-- The addresses of the hooks of src/hooks/script-block.s.
pub record ScriptHooks : Type 0 where
  pub lbp1 : ℕ
  pub lbp2 : ℕ
  pub lbp3 : ℕ
  pub lbp3_jp : ℕ

-- The addresses of the local arrays of `start`.
pub record Locals : Type 0 where
  pub toml_buf : ℕ
  pub join_key_hash : ℕ
  pub user_agent : ℕ
  pub msg_buf : ℕ
  -- What `fp` of `WriteFile` holds before it is assigned.
  pub fp : ℕ

-- `GameNumber` as the number that it is.
abbrev pub game_code : GameNumber → ℕ
game_code game_unknown = 0
game_code game_lbp1 = 1
game_code game_lbp2 = 2
game_code game_lbp3 = 3
game_code game_lbp3_jp = 4

-- The logger's calls are those of `Log`, here on the world.
pub record Services (W : Type 0) : Type 0 where
  pub platform : Platform W
  pub info_dialog : List ℕ → W → W
  pub print_ln : Message → W → W
  pub init_logger : W → W
  pub destroy_logger : W → W
  pub cell_sysmodule_load_module : ℕ → W → ℕ × W
  pub cell_sysmodule_unload_module : ℕ → W → ℕ × W
  pub ids : SysmoduleIds
  -- The seconds and the nanoseconds.
  pub sys_time_get_current_time : W → ℕ × ℕ × W
  -- The lexer, the reader and the key map, on the buffer at an address.
  pub read_toml : ℕ → Memory → PatchworkConfigOptions × Memory
  -- `UIntToStr(str, 4, game, 10)`
  pub uint_to_str : ℕ → List ℕ
  -- `Snprintf(user_agent, sizeof(user_agent), ...)`: what it leaves, with the NUL.
  pub snprintf : ℕ → Message → List ℕ
  pub major_str : List ℕ
  pub minor_str : List ℕ

-- The bytes at an address, one after another.
unfoldable pub write_bytes : Memory → ℕ → List ℕ → Memory
write_bytes m p [] = m
write_bytes m p (b ∷ bs) = λ a. if a == p then b else write_bytes m (p + 1) bs a

unfoldable pub load_bytes : Memory → ℕ → ℕ → List ℕ
load_bytes m p zero = []
load_bytes m p (suc n) = m p ∷ load_bytes m (p + 1) n

-- The string at an address.
unfoldable pub string_at : ℕ → Memory → ℕ → Option (List ℕ)
string_at fuel m p = Option.map (load_bytes m p) (strlen fuel m p)

-- The `n` bytes of a number, the highest first.
unfoldable pub big_endian : ℕ → ℕ → List ℕ
big_endian zero v = []
big_endian (suc n) v = v / 2 ^ (8 * n) % 256 ∷ big_endian n v

-- The three messages of src/globals.h, with `X` in the place of the game.
unfoldable pub success_message : List ℕ → List ℕ → List ℕ → List ℕ
success_message major minor outcome =
    codes "/popup.ps3?Patchwork%20"
    ++ major
    ++ codes "."
    ++ minor
    ++ codes "%20Loaded%20for%20LBPX%0ALobby%20password%20"
    ++ outcome
    ++ codes "&icon=8&snd=5"

abbrev pub with_pw : List ℕ
with_pw = codes "has%20been%20set"

abbrev pub random_pw : List ℕ
random_pw = codes "has%20been%20randomized"

abbrev pub without_pw : List ℕ
without_pw = codes "is%20disabled"

-- What is copied into `msg_buf`.
unfoldable pub chosen_message : List ℕ → List ℕ → ℕ → Bool → List ℕ
chosen_message major minor enable_join_key join_key_randomized = success_message major minor (
    if enable_join_key == 0 then without_pw else if join_key_randomized then random_pw else with_pw)

-- The size of `msg_buf`: that of a string with its NUL.
unfoldable pub msg_buf_size : List ℕ → List ℕ → ℕ
msg_buf_size major minor = length (success_message major minor without_pw) + 1

-- Whether `start` tries to update.
unfoldable pub wants_update : Option PatchworkLaunchArgs → PatchworkConfigOptions → Bool
wants_update launch_args options = elim launch_args [
  | none ↦ false
  | some args ↦
      args.updated == 0 && not (options.enable_updates == 0) && not (options.update_server_url == 0)
]
