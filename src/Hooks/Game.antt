-- ===== src/Hooks/Game.antt =====
-- `GetLBPGameNumber` of src/hooks/patches.c, `GameNumber` of src/globals.h, and the table that
-- `start` of src/prx.c selects for each game.
pub mod Tables
pub mod Unset
pub mod Detection
use patchwork.Prelude.{ℕ, ◌+◌, ◌≤◌, ◌≡◌, ◌⊎◌, Bool, true, List, [], ◌==◌, if◌then◌else◌}
use patchwork.Memory.{Memory, load_pointer}
use patchwork.Hooks.Offsets.{
  lbp1_user_agent_offset, lbp2_user_agent_offset, lbp3_user_agent_offset, lbp3_jp_user_agent_offset,
}
use patchwork.Hooks.Patches.{
  GamePatch, Symbols, lbp1_patches, lbp2_patches, lbp3_patches, lbp3_jp_patches,
}

pub data GameNumber : Type 0 where
  game_unknown game_lbp1 game_lbp2 game_lbp3 game_lbp3_jp : GameNumber

-- `((char *)LBPn_USER_AGENT_OFFSET)[k] == c`: what the detection takes for each game.
abbrev pub has_mark : GameNumber → Memory → Bool
has_mark game_unknown m = true
has_mark game_lbp1 m = m (lbp1_user_agent_offset + 15) == b'$'
has_mark game_lbp2 m = m (lbp2_user_agent_offset + 18) == b'2'
has_mark game_lbp3 m = m (lbp3_user_agent_offset + 18) == b'2'
has_mark game_lbp3_jp m = m (lbp3_jp_user_agent_offset + 18) == b'2'

unfoldable pub get_lbp_game_number : Memory → GameNumber
get_lbp_game_number m =
    if has_mark game_lbp1 m
    then game_lbp1
    else if has_mark game_lbp2 m
    then game_lbp2
    else if has_mark game_lbp3 m
    then game_lbp3
    else if has_mark game_lbp3_jp m
    then game_lbp3_jp
    else game_unknown

-- `patches` and `patch_count` after the `switch` of `start`.
abbrev pub patches_of : GameNumber → Symbols → List GamePatch
patches_of game_unknown s = []
patches_of game_lbp1 s = lbp1_patches s
patches_of game_lbp2 s = lbp2_patches s
patches_of game_lbp3 s = lbp3_patches s
patches_of game_lbp3_jp s = lbp3_jp_patches s

-- Above every address that a table patches.
abbrev pub game_end : ℕ
game_end = 0x0100_0000

abbrev pub IsOwn : ℕ → Type 0
IsOwn a = game_end ≤ a

abbrev pub IsNullOrOwn : ℕ → Type 0
IsNullOrOwn a = (a ≡ 0) ⊎ IsOwn a

-- The module is loaded above the game: so are its objects, and what its pointers point at.
pub record IsAboveGame (s : Symbols) (m : Memory) : Type 0 where
  pub network_key : IsOwn s.network_key × IsNullOrOwn (load_pointer m s.network_key)
  pub user_agent : IsOwn s.user_agent × IsNullOrOwn (load_pointer m s.user_agent)
  pub server_url : IsOwn s.server_url × IsNullOrOwn (load_pointer m s.server_url)
  pub server_digest : IsOwn s.server_digest × IsNullOrOwn (load_pointer m s.server_digest)
  pub lbp1_playlist_override : IsOwn s.lbp1_playlist_override
  pub script_hook_instruction : IsOwn s.script_hook_instruction
  pub notification_enable_instruction : IsOwn s.notification_enable_instruction
  pub lbp1_force_join_patch : IsOwn s.lbp1_force_join_patch
  pub lbp2_force_join_patch : IsOwn s.lbp2_force_join_patch
  pub lbp3_force_join_patch : IsOwn s.lbp3_force_join_patch
  pub lbp3_jp_force_join_patch : IsOwn s.lbp3_jp_force_join_patch
