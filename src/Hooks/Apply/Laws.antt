-- ===== src/Hooks/Apply/Laws.antt =====
-- The loop of `ApplyGamePatches` implements the specification.
use patchwork.Prelude.{ℕ, ◌≢◌, ◌≡◌, refl, sym, ◌∙◌, ◌⊎◌, inl, inr, List, [], ◌∷◌, ◌++◌, arith}
use patchwork.Memory.{Memory, memcpy}
use patchwork.Message.{Message}
use patchwork.Hooks.Patches.{GamePatch}
use patchwork.Hooks.Apply.{Machine, apply_patch, apply_game_patches, source_of, overlay, IsSafe}
use patchwork.Hooks.Apply.Overlay.{IsSafe-memcpy, overlay-cons_skip, overlay-copy}

-- One patch, as a copy from its source.
module _ {W : Type 0} (log_ln : Message → W → W) where
  apply_patch-source_of :
      (p : GamePatch) (m : Memory) (w : W)
      → ((source_of p m ≡ 0) × ((apply_patch log_ln p (m, w)).0 ≡ m))
        ⊎ ((source_of p m ≢ 0)
            × ((apply_patch log_ln p (m, w)).0 ≡ memcpy m p.offset (source_of p m) p.size))
  unfolding apply_patch source_of
  apply_patch-source_of p m w = ground arith

  apply_game_patches-cons :
      (p : GamePatch) (ps : List GamePatch) (s : Machine W)
      → p.offset ≢ 0
      → apply_game_patches log_ln (p ∷ ps) s ≡ apply_game_patches log_ln ps (apply_patch log_ln p s)
  unfolding apply_game_patches
  apply_game_patches-cons p ps s h = ground arith

  -- If no patch writes what a later one writes or reads, and no offset is 0, then after the loop
  -- every byte of memory is the one that the specification takes from the memory before it.
  pub apply_game_patches-overlay :
      (ps : List GamePatch) (m : Memory) (w : W)
      → IsSafe m ps
      → (a : ℕ) → (apply_game_patches log_ln ps (m, w)).0 a ≡ overlay ps m a
  unfolding overlay apply_game_patches
  apply_game_patches-overlay [] m w safe a = refl
  apply_game_patches-overlay (p ∷ ps) m w (nonzero, apart, safe) a =
      let s : Machine W = apply_patch log_ln p (m, w) in
      rw (apply_game_patches-cons p ps (m, w) nonzero) (elim (apply_patch-source_of p m w) [
        | inl (null, same) ↦
            apply_game_patches-overlay ps s.0 s.1 (rw same safe) a
            ∙ rw same (sym (overlay-cons_skip p ps m a null))
        | inr (set, copied) ↦
            apply_game_patches-overlay ps s.0 s.1
              (rw copied (IsSafe-memcpy m p (source_of p m) ps apart safe)) a
            ∙ rw copied (overlay-copy p ps m a set apart)
      ])

  -- The loop stops at a patch with offset 0: what follows it is not applied.
  pub apply_game_patches_end :
      (ps qs : List GamePatch) (last : GamePatch) (s : Machine W)
      → last.offset ≡ 0
      → apply_game_patches log_ln (ps ++ last ∷ qs) s ≡ apply_game_patches log_ln ps s
  unfolding apply_game_patches
  apply_game_patches_end [] qs last s h = ground arith
  apply_game_patches_end (p ∷ ps) qs last s h =
      rw (apply_game_patches_end ps qs last (apply_patch log_ln p s) h)
