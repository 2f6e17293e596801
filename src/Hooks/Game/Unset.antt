-- ===== src/Hooks/Game/Unset.antt =====
-- What a game keeps of its own: the patches whose pointer is null are skipped.
use patchwork.Prelude.{
  ℕ, ◌+◌, ◌≤◌, ◌<◌, ◌≡◌, ◌∙◌, some, inr, List, [], ◌∷◌, All, get_elem?, All-get_elem?,
}
use patchwork.Memory.{Memory, Outside}
use patchwork.Message.{Message}
use patchwork.Hooks.Patches.{GamePatch, Symbols}
use patchwork.Hooks.Apply.{source_of, apply_game_patches}
use patchwork.Hooks.Apply.Overlay.{IsUntouched, overlay-IsUntouched, overlay-get_elem?_null}
use patchwork.Hooks.Apply.Laws.{apply_game_patches-overlay}
use patchwork.Hooks.Game.{GameNumber, patches_of, game_end, IsAboveGame}
use patchwork.Hooks.Game.Tables.{IsInto, patches_of-IsInto, patches_of-IsSafe}

module _ (g : GameNumber) (s : Symbols) (m : Memory) (above : IsAboveGame s m) (k : ℕ)
    {p : GamePatch} (at : get_elem? (patches_of g s) k ≡ some p) where
  -- Every patch of a table ends below the end of the game.
  pub patches_of-below : p.offset + p.size ≤ game_end
  patches_of-below =
      let into : IsInto m p =
        All-get_elem? (IsInto m) (patches_of g s) k (patches_of-IsInto g s m above) at in
      into.high

  -- If the module and what its pointers point at are loaded above the game, then after the loop has
  -- run over a game's table each byte that a patch with a null source covers is as it was.
  pub apply_game_patches-null :
      {W : Type 0} (log_ln : Message → W → W) (w : W) (i : ℕ)
      → source_of p m ≡ 0
      → i < p.size
      → (apply_game_patches log_ln (patches_of g s) (m, w)).0 (p.offset + i) ≡ m (p.offset + i)
  apply_game_patches-null log_ln w i unset lt =
      let safe = patches_of-IsSafe g s m above in
      apply_game_patches-overlay log_ln (patches_of g s) m w safe (p.offset + i)
      ∙ overlay-get_elem?_null (patches_of g s) m k i safe at unset lt

IsUntouched-Outside :
    (ps : List GamePatch) (m : Memory) (a : ℕ)
    → All (λ p. Outside a p.offset p.size) ps
    → IsUntouched m ps a
IsUntouched-Outside [] m a h = tt
IsUntouched-Outside (p ∷ ps) m a (h, hs) = (inr h, IsUntouched-Outside ps m a hs)

-- A byte outside the targets of a game's table stays.
pub apply_game_patches-Outside :
    {W : Type 0} (log_ln : Message → W → W) (g : GameNumber) (s : Symbols) (m : Memory) (w : W)
    (a : ℕ)
    → IsAboveGame s m
    → All (λ p. Outside a p.offset p.size) (patches_of g s)
    → (apply_game_patches log_ln (patches_of g s) (m, w)).0 a ≡ m a
apply_game_patches-Outside log_ln g s m w a above out =
    apply_game_patches-overlay log_ln (patches_of g s) m w (patches_of-IsSafe g s m above) a
    ∙ overlay-IsUntouched (patches_of g s) m a (IsUntouched-Outside (patches_of g s) m a out)
