-- ===== src/Hooks/Assembly/Patched.antt =====
-- The code for joining as the patches put it into a game.
use patchwork.Prelude.{ℕ, ◌+◌, ◌*◌, ◌<◌, ◌≡◌, ◌≢◌, refl, some, length, get_elem?, arith}
use patchwork.Memory.{Memory}
use patchwork.Message.{Message}
use patchwork.Hooks.Patches.{Symbols, direct_patch}
use patchwork.Hooks.Apply.{source_of, apply_game_patches}
use patchwork.Hooks.Game.{
  GameNumber, game_unknown, game_lbp1, game_lbp2, game_lbp3, game_lbp3_jp, patches_of, IsAboveGame,
}
use patchwork.Hooks.Game.Tables.{apply_game_patches-get_elem?}
use patchwork.Hooks.Assembly.ForceJoin.{force_join, force_join_offset, force_join_length}

-- The address of a game's code in the module, and its place in the game's table.
abbrev pub force_join_source : GameNumber → Symbols → ℕ
force_join_source game_unknown s = 0
force_join_source game_lbp1 s = s.lbp1_force_join_patch
force_join_source game_lbp2 s = s.lbp2_force_join_patch
force_join_source game_lbp3 s = s.lbp3_force_join_patch
force_join_source game_lbp3_jp s = s.lbp3_jp_force_join_patch

abbrev force_join_index : GameNumber → ℕ
force_join_index game_unknown = 0
force_join_index game_lbp1 = 7
force_join_index game_lbp2 = 7
force_join_index game_lbp3 = 9
force_join_index game_lbp3_jp = 9

force_join_patch :
    (s : Symbols) (game : GameNumber)
    → game ≢ game_unknown
    → get_elem? (patches_of game s) (force_join_index game)
      ≡ some (
          direct_patch (force_join_offset game) (force_join_source game s) (force_join_length game))
force_join_patch s game_unknown known = absurd (known refl)
force_join_patch s game_lbp1 known = refl
force_join_patch s game_lbp2 known = refl
force_join_patch s game_lbp3 known = refl
force_join_patch s game_lbp3_jp known = refl

pub force_join-length :
    (game : GameNumber)
    → game ≢ game_unknown
    → 4 * length (force_join game) ≡ force_join_length game
force_join-length game_unknown known = absurd (known refl)
force_join-length game_lbp1 known = refl
force_join-length game_lbp2 known = refl
force_join-length game_lbp3 known = refl
force_join-length game_lbp3_jp known = refl

force_join_source-ne-zero :
    (s : Symbols) (m : Memory) (game : GameNumber)
    → game ≢ game_unknown
    → IsAboveGame s m
    → force_join_source game s ≢ 0
force_join_source-ne-zero s m game_unknown known above = absurd (known refl)
force_join_source-ne-zero s m game_lbp1 known above =
    λ e. absurd (omega (arith, above.lbp1_force_join_patch))
force_join_source-ne-zero s m game_lbp2 known above =
    λ e. absurd (omega (arith, above.lbp2_force_join_patch))
force_join_source-ne-zero s m game_lbp3 known above =
    λ e. absurd (omega (arith, above.lbp3_force_join_patch))
force_join_source-ne-zero s m game_lbp3_jp known above =
    λ e. absurd (omega (arith, above.lbp3_jp_force_join_patch))

-- If the module and what its pointers point at are loaded above the game, then the patches of a known
-- game put the whole code for joining into the game, at the place where it runs: each of the four
-- bytes of each of its instructions.
pub apply_game_patches-force_join :
    {W : Type 0} (log_ln : Message → W → W) (s : Symbols) (game : GameNumber) (m : Memory) (w : W)
    (i : ℕ)
    → game ≢ game_unknown
    → IsAboveGame s m
    → i < 4 * length (force_join game)
    → (apply_game_patches log_ln (patches_of game s) (m, w)).0 (force_join_offset game + i)
      ≡ m (force_join_source game s + i)
unfolding source_of
apply_game_patches-force_join log_ln s game m w i known above below =
    apply_game_patches-get_elem? log_ln game s m w (force_join_index game) i above
      (force_join_patch s game known) (force_join_source-ne-zero s m game known above)
      (omega (arith, force_join-length game known))
