-- ===== src/Start/Hooked.antt =====
-- The hook of the script: the branch that `start` prepares and the patches put into the game.
use patchwork.Prelude.{ℕ, ◌+◌, ◌%◌, ◌^◌, ◌<◌, ◌≡◌, ◌≢◌, refl, ap, ◌∙◌, some, get_elem?, arith}
use patchwork.Memory.{Memory, load_pointer, load_pointer_bytes, load_pointer-store_word}
use patchwork.Message.{Message}
use patchwork.Http.{Sha256}
use patchwork.Hooks.Offsets.{
  lbp1_resource_check_offset, lbp2_resource_check_offset, lbp3_resource_check_offset,
  lbp3_jp_resource_check_offset,
}
use patchwork.Hooks.Branch.{relative_branch, branch_target, InReach, branch_target-relative_branch}
use patchwork.Hooks.Patches.{Symbols, direct_patch}
use patchwork.Hooks.Apply.{source_of, apply_game_patches}
use patchwork.Hooks.Game.{
  GameNumber, game_unknown, game_lbp1, game_lbp2, game_lbp3, game_lbp3_jp, patches_of, IsAboveGame,
}
use patchwork.Hooks.Game.Tables.{apply_game_patches-get_elem?}
use patchwork.Start.{Services, ScriptHooks, Locals}
use patchwork.Start.Steps.{set_script_hook, select_instructions}

-- Where each game checks a resource, and the hook that is to run there.
abbrev pub check_of : GameNumber → ℕ
check_of game_unknown = 0
check_of game_lbp1 = lbp1_resource_check_offset
check_of game_lbp2 = lbp2_resource_check_offset
check_of game_lbp3 = lbp3_resource_check_offset
check_of game_lbp3_jp = lbp3_jp_resource_check_offset

abbrev pub hook_of : GameNumber → ScriptHooks → ℕ
hook_of game_unknown hooks = 0
hook_of game_lbp1 hooks = hooks.lbp1
hook_of game_lbp2 hooks = hooks.lbp2
hook_of game_lbp3 hooks = hooks.lbp3
hook_of game_lbp3_jp hooks = hooks.lbp3_jp

relative_branch_bound :
    {W : Type 0} (print_ln : Message → W → W) (destination origin : ℕ) (w : W)
    → (relative_branch print_ln destination origin w).0 < 2 ^ 32
unfolding relative_branch
relative_branch_bound print_ln destination origin w = ground arith

-- The place of the hook in a game's table.
abbrev hook_index : GameNumber → ℕ
hook_index game_unknown = 0
hook_index game_lbp1 = 6
hook_index game_lbp2 = 6
hook_index game_lbp3 = 8
hook_index game_lbp3_jp = 8

module _ {W : Type 0} (v : Services W) (sha : Sha256) (s : Symbols) (hooks : ScriptHooks)
    (locals : Locals) where
  load_hook :
      (game : GameNumber) (m : Memory) (w : W)
      → game ≢ game_unknown
      → load_pointer
          (select_instructions v sha s hooks locals game (m, w)).0
          s.script_hook_instruction
        ≡ (relative_branch v.print_ln (hook_of game hooks) (check_of game) w).0
  unfolding select_instructions set_script_hook
  load_hook game_unknown m w known = absurd (known refl)
  load_hook game_lbp1 m w known =
      load_pointer-store_word m s.script_hook_instruction _
        (relative_branch_bound v.print_ln hooks.lbp1 lbp1_resource_check_offset w)
  load_hook game_lbp2 m w known =
      load_pointer-store_word _ s.script_hook_instruction _
        (relative_branch_bound v.print_ln hooks.lbp2 lbp2_resource_check_offset w)
  load_hook game_lbp3 m w known =
      load_pointer-store_word _ s.script_hook_instruction _
        (relative_branch_bound v.print_ln hooks.lbp3 lbp3_resource_check_offset w)
  load_hook game_lbp3_jp m w known =
      load_pointer-store_word _ s.script_hook_instruction _
        (relative_branch_bound v.print_ln hooks.lbp3_jp lbp3_jp_resource_check_offset w)

  hook_patch :
      (game : GameNumber)
      → game ≢ game_unknown
      → get_elem? (patches_of game s) (hook_index game)
        ≡ some (direct_patch (check_of game) s.script_hook_instruction 4)
  hook_patch game_unknown known = absurd (known refl)
  hook_patch game_lbp1 known = refl
  hook_patch game_lbp2 known = refl
  hook_patch game_lbp3 known = refl
  hook_patch game_lbp3_jp known = refl

  check_of_aligned : (game : GameNumber) → (check_of game < 2 ^ 32) × (check_of game % 4 ≡ 0)
  check_of_aligned game_unknown = (omega arith, refl)
  check_of_aligned game_lbp1 = (omega arith, refl)
  check_of_aligned game_lbp2 = (omega arith, refl)
  check_of_aligned game_lbp3 = (omega arith, refl)
  check_of_aligned game_lbp3_jp = (omega arith, refl)

  module _ (game : GameNumber) (known : game ≢ game_unknown) (m : Memory) (w : W) (later : Memory)
      (then_w : W) (above : IsAboveGame s later)
      (kept : (i : ℕ)
        → i < 4
        → later (s.script_hook_instruction + i)
          ≡ (select_instructions v sha s hooks locals game (m, w)).0
              (s.script_hook_instruction + i)) where
    abbrev patched : Memory
    patched = (apply_game_patches v.platform.log_ln (patches_of game s) (later, then_w)).0

    patched_byte :
        (i : ℕ)
        → i < 4
        → patched (check_of game + i)
          ≡ (select_instructions v sha s hooks locals game (m, w)).0 (s.script_hook_instruction + i)
    unfolding source_of
    patched_byte i below =
        apply_game_patches-get_elem? v.platform.log_ln game s later then_w (hook_index game) i above
          (hook_patch game known) (λ e. absurd (omega (arith, above.script_hook_instruction))) below
        ∙ kept i below

    -- Let `m` be the memory when `start` detects a game, and `later` the one when it applies the
    -- patches, in which the prepared instruction still stands, and with all that the patches read
    -- above the game. If the game's hook is word-aligned, has a 32-bit address and is in reach of a
    -- branch, then the processor takes the word that stands in the game where it checks a resource,
    -- after the patches, for a branch to the hook.
    pub branch_target-apply_game_patches :
        hook_of game hooks < 2 ^ 32
        → hook_of game hooks % 4 ≡ 0
        → InReach (hook_of game hooks) (check_of game)
        → branch_target (load_pointer patched (check_of game)) (check_of game)
          ≡ some (hook_of game hooks)
    branch_target-apply_game_patches bound aligned reach =
        let at = check_of_aligned game in
        let word : load_pointer patched (check_of game)
            ≡ (relative_branch v.print_ln (hook_of game hooks) (check_of game) w).0 =
          load_pointer_bytes patched _ (check_of game) s.script_hook_instruction patched_byte
          ∙ load_hook game m w known in
        ap (λ x. branch_target x (check_of game)) word
        ∙ (branch_target-relative_branch v.print_ln (hook_of game hooks) (check_of game) w bound
              at.0 aligned at.1).1
            reach
