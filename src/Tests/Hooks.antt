-- ===== src/Tests/Hooks.antt =====
-- src/hooks/ on a small memory: the module at 0x2000000, and LittleBigPlanet below it.
use patchwork.Prelude.{
  ℕ, ◌+◌, ◌-◌, ◌≡◌, ◌≢◌, ◌↔◌, refl, false, ◌&&◌, some, none, List, [], ◌∷◌, get_elem?, length, ltb,
  leb, if◌then◌else◌, codes, arith,
}
use patchwork.Memory.{Memory, load_pointer}
use patchwork.Message.{Message}
use patchwork.Hooks.Branch.{relative_branch, branch_target, InReach, branch_target-relative_branch}
use patchwork.Hooks.Offsets.{lbp1_https_url_offset, lbp1_user_agent_offset}
use patchwork.Hooks.Patches.{Symbols, direct_patch, indirect_patch}
use patchwork.Hooks.Apply.{source_of, overlay, apply_game_patches, IsSafe}
use patchwork.Hooks.Apply.Laws.{apply_game_patches-overlay, apply_game_patches_end}
use patchwork.Hooks.Game.{
  GameNumber, game_unknown, game_lbp1, game_lbp2, game_lbp3, game_lbp3_jp, has_mark,
  get_lbp_game_number, patches_of, IsAboveGame,
}
use patchwork.Hooks.Game.Tables.{patches_of-IsSafe, apply_game_patches-get_elem?}
use patchwork.Hooks.Game.Unset.{apply_game_patches-null}
use patchwork.Hooks.Game.Detection.{HasNoMark, get_lbp_game_number-apply_game_patches}

-- Memory with the given bytes from the given addresses on, and 0 elsewhere.
byte_at : List ℕ → ℕ → ℕ
byte_at xs i = elim (get_elem? xs i) [ none ↦ 0 | some b ↦ b ]

place : List (ℕ × List ℕ) → Memory
unfolding byte_at
place [] a = 0
place ((start, bytes) ∷ more) a =
    if leb start a && ltb a (start + length bytes) then byte_at bytes (a - start) else place more a

abbrev pub symbols : Symbols
symbols = record {
  network_key = 0x2000000;
  user_agent = 0x2000004;
  server_url = 0x2000008;
  server_digest = 0x200000c;
  lbp1_playlist_override = 0x2000010;
  script_hook_instruction = 0x2000014;
  notification_enable_instruction = 0x2000018;
  lbp1_force_join_patch = 0x2000100;
  lbp2_force_join_patch = 0x2000200;
  lbp3_force_join_patch = 0x2000300;
  lbp3_jp_force_join_patch = 0x2000400;
}

-- LittleBigPlanet is running, and only `UserAgent` is set.
pub lbp1_memory : Memory
unfolding place
lbp1_memory = place (
    (0x79fdaf, b'$' ∷ [])
    ∷ (0x2000004, 2 ∷ 0 ∷ 0x10 ∷ 0 ∷ [])
    ∷ (0x2001000, codes "PatchworkLBP1 2.0 NK")
    ∷ [])

pub quiet : Message → ℕ → ℕ
quiet msg w = w

detected : get_lbp_game_number lbp1_memory ≡ game_lbp1
unfolding get_lbp_game_number lbp1_memory
detected = refl

pub above : IsAboveGame symbols lbp1_memory
unfolding load_pointer lbp1_memory
above = omega arith

safe : IsSafe lbp1_memory (patches_of game_lbp1 symbols)
safe = patches_of-IsSafe game_lbp1 symbols lbp1_memory above

agent_set : load_pointer lbp1_memory 0x2000004 ≢ 0
unfolding load_pointer lbp1_memory
agent_set = omega arith

agent_source : source_of (indirect_patch lbp1_user_agent_offset 0x2000004 22) lbp1_memory ≢ 0
unfolding source_of
agent_source = agent_set

agent_plain : HasNoMark lbp1_memory (load_pointer lbp1_memory 0x2000004)
unfolding load_pointer lbp1_memory
agent_plain = omega arith

only_lbp1 : (k : GameNumber) → k ≢ game_lbp1 → k ≢ game_unknown → has_mark k lbp1_memory ≡ false
unfolding lbp1_memory
only_lbp1 game_unknown a b = absurd (b refl)
only_lbp1 game_lbp1 a b = absurd (a refl)
only_lbp1 game_lbp2 a b = refl
only_lbp1 game_lbp3 a b = refl
only_lbp1 game_lbp3_jp a b = refl

branch_target-relative_branch_example :
    (branch_target (relative_branch quiet 0x2000200 0x81bc8 7).0 0x81bc8 ≡ some 0x2000200)
    ↔ InReach 0x2000200 0x81bc8
branch_target-relative_branch_example =
    branch_target-relative_branch quiet 0x2000200 0x81bc8 7 (omega arith) (omega arith) refl refl

patches_of-IsSafe_example : IsSafe lbp1_memory (patches_of game_lbp1 symbols)
patches_of-IsSafe_example = patches_of-IsSafe game_lbp1 symbols lbp1_memory above

apply_game_patches-overlay_example :
    (apply_game_patches quiet (patches_of game_lbp1 symbols) (lbp1_memory, 7)).0 0x79fdac
    ≡ overlay (patches_of game_lbp1 symbols) lbp1_memory 0x79fdac
apply_game_patches-overlay_example =
    apply_game_patches-overlay quiet (patches_of game_lbp1 symbols) lbp1_memory 7 safe 0x79fdac

apply_game_patches-get_elem?_example :
    (apply_game_patches quiet (patches_of game_lbp1 symbols) (lbp1_memory, 7)).0
      (lbp1_user_agent_offset + 12)
    ≡ lbp1_memory (source_of (indirect_patch lbp1_user_agent_offset 0x2000004 22) lbp1_memory + 12)
apply_game_patches-get_elem?_example =
    apply_game_patches-get_elem? quiet game_lbp1 symbols lbp1_memory 7 1 12 above refl agent_source
      (omega arith)

apply_game_patches_end_example :
    apply_game_patches quiet
      (direct_patch 5 9 1 ∷ direct_patch 0 9 1 ∷ direct_patch 7 9 1 ∷ [])
      (lbp1_memory, 7)
    ≡ apply_game_patches quiet (direct_patch 5 9 1 ∷ []) (lbp1_memory, 7)
apply_game_patches_end_example =
    apply_game_patches_end quiet (direct_patch 5 9 1 ∷ []) (direct_patch 7 9 1 ∷ [])
      (direct_patch 0 9 1) (lbp1_memory, 7) refl

get_lbp_game_number-apply_game_patches_example :
    get_lbp_game_number (apply_game_patches quiet (patches_of game_lbp1 symbols) (lbp1_memory, 7)).0
    ≡ game_unknown
get_lbp_game_number-apply_game_patches_example =
    get_lbp_game_number-apply_game_patches symbols lbp1_memory above agent_set agent_plain quiet
      game_lbp1 7 (cc) only_lbp1

-- No server is set.
no_server : source_of (indirect_patch lbp1_https_url_offset 0x2000008 70) lbp1_memory ≡ 0
unfolding source_of load_pointer lbp1_memory place
no_server = refl

apply_game_patches-null_example :
    (apply_game_patches quiet (patches_of game_lbp1 symbols) (lbp1_memory, 7)).0
      (lbp1_https_url_offset + 5)
    ≡ lbp1_memory (lbp1_https_url_offset + 5)
apply_game_patches-null_example =
    apply_game_patches-null game_lbp1 symbols lbp1_memory above 2 refl quiet 7 5 no_server
      (omega arith)
