-- ===== src/Hooks/Game/Detection.antt =====
-- The detection of the game, before and after the patches are applied.
use patchwork.Prelude.{ℕ, ◌+◌, ◌<◌, ◌≢◌, ◌≡◌, refl, ◌∙◌, inr, true, false}
use patchwork.Prelude.{some, arith, Bool, List, [], ◌∷◌, ◌&&◌, ◌||◌, ltb, leb, sym, get_elem?}
use mathlib.Core.Path.{fun_ext}
use patchwork.Memory.{Memory, load_pointer}
use patchwork.Message.{Message}
use patchwork.Hooks.Offsets.{
  lbp1_user_agent_offset, lbp2_user_agent_offset, lbp3_user_agent_offset, lbp3_jp_user_agent_offset,
}
use patchwork.Hooks.Patches.{Symbols, GamePatch}
use patchwork.Hooks.Apply.{source_of, overlay, apply_game_patches}
use patchwork.Hooks.Apply.Laws.{apply_game_patches-overlay}
use patchwork.Hooks.Apply.Overlay.{overlay-get_elem?, overlay-IsUntouched, IsUntouched}
use patchwork.Hooks.Game.{
  GameNumber, game_unknown, game_lbp1, game_lbp2, game_lbp3, game_lbp3_jp, patches_of, has_mark,
  get_lbp_game_number, IsAboveGame,
}
use patchwork.Hooks.Game.Tables.{patches_of-IsSafe}

GameNumber-discrete : Discrete GameNumber
GameNumber-discrete = hlevel

-- Where `get_lbp_game_number` looks for the game.
abbrev mark_address : GameNumber → ℕ
mark_address game_unknown = 0
mark_address game_lbp1 = lbp1_user_agent_offset + 15
mark_address game_lbp2 = lbp2_user_agent_offset + 18
mark_address game_lbp3 = lbp3_user_agent_offset + 18
mark_address game_lbp3_jp = lbp3_jp_user_agent_offset + 18

-- The patched user agent, where the detection looks.
abbrev pub HasNoMark : Memory → ℕ → Type 0
HasNoMark m agent = (m (agent + 15) ≢ b'$') × (m (agent + 18) ≢ b'2')

-- No patch of the list writes the address.
abbrev all_outside : List GamePatch → ℕ → Bool
all_outside [] a = true
all_outside (p ∷ ps) a = (ltb a p.offset || leb (p.offset + p.size) a) && all_outside ps a

IsUntouched-all_outside :
    (m : Memory) (ps : List GamePatch) (a : ℕ) → all_outside ps a ≡ true → IsUntouched m ps a
IsUntouched-all_outside m [] a h = tt
IsUntouched-all_outside m (p ∷ ps) a h =
    (inr (ground arith), IsUntouched-all_outside m ps a (ground arith))

-- No table writes where the other games are looked for.
mark_address-all_outside :
    (g k : GameNumber) (s : Symbols) → g ≢ k → all_outside (patches_of g s) (mark_address k) ≡ true
mark_address-all_outside game_lbp1 game_lbp1 s h = absurd (h refl)
mark_address-all_outside game_lbp2 game_lbp2 s h = absurd (h refl)
mark_address-all_outside game_lbp3 game_lbp3 s h = absurd (h refl)
mark_address-all_outside game_lbp3_jp game_lbp3_jp s h = absurd (h refl)
mark_address-all_outside _ _ s h = refl

has_mark-mark_address :
    (k : GameNumber) (m n : Memory)
    → m (mark_address k) ≡ n (mark_address k)
    → has_mark k m ≡ has_mark k n
has_mark-mark_address game_unknown m n e = refl
has_mark-mark_address game_lbp1 m n e = rw e
has_mark-mark_address game_lbp2 m n e = rw e
has_mark-mark_address game_lbp3 m n e = rw e
has_mark-mark_address game_lbp3_jp m n e = rw e

other_mark :
    (g k : GameNumber) (s : Symbols) (m : Memory)
    → g ≢ k
    → has_mark k (overlay (patches_of g s) m) ≡ has_mark k m
other_mark g k s m h = has_mark-mark_address k (overlay (patches_of g s) m) m (
    overlay-IsUntouched (patches_of g s) m (mark_address k) (
      IsUntouched-all_outside m (patches_of g s) (mark_address k)
        (mark_address-all_outside g k s h)))

module _ (s : Symbols) (m : Memory) (above : IsAboveGame s m)
    (set : load_pointer m s.user_agent ≢ 0)
    (plain : HasNoMark m (load_pointer m s.user_agent)) where
  patched_agent :
      (g : GameNumber) (i : ℕ) {p : GamePatch}
      → get_elem? (patches_of g s) 1 ≡ some p
      → source_of p m ≡ load_pointer m s.user_agent
      → i < p.size
      → overlay (patches_of g s) m (p.offset + i) ≡ m (load_pointer m s.user_agent + i)
  patched_agent g i {p} at agent lt = rw (← agent) (
      overlay-get_elem? (patches_of g s) m 1 i (patches_of-IsSafe g s m above) at (rw agent set) lt)

  own_mark : (g : GameNumber) → g ≢ game_unknown → has_mark g (overlay (patches_of g s) m) ≡ false
  unfolding source_of
  own_mark game_unknown h = absurd (h refl)
  own_mark game_lbp1 h = ground (arith, patched_agent game_lbp1 15 refl refl (omega arith))
  own_mark game_lbp2 h = ground (arith, patched_agent game_lbp2 18 refl refl (omega arith))
  own_mark game_lbp3 h = ground (arith, patched_agent game_lbp3 18 refl refl (omega arith))
  own_mark game_lbp3_jp h = ground (arith, patched_agent game_lbp3_jp 18 refl refl (omega arith))

  -- If the module is loaded above the game, the patched user agent has neither of the characters
  -- by which games are detected where they are looked for, and memory has no mark of another
  -- game, then after a game's patches are applied no game is detected any more.
  pub get_lbp_game_number-apply_game_patches :
      {W : Type 0} (log_ln : Message → W → W) (g : GameNumber) (w : W)
      → g ≢ game_unknown
      → ((k : GameNumber) → k ≢ g → k ≢ game_unknown → has_mark k m ≡ false)
      → get_lbp_game_number (apply_game_patches log_ln (patches_of g s) (m, w)).0 ≡ game_unknown
  unfolding get_lbp_game_number
  get_lbp_game_number-apply_game_patches log_ln g w known others =
      let e : (apply_game_patches log_ln (patches_of g s) (m, w)).0 ≡ overlay (patches_of g s) m =
        fun_ext (
          apply_game_patches-overlay log_ln (patches_of g s) m w (patches_of-IsSafe g s m above)) in
      rw e (
        ground (
          arith,
          unmarked game_lbp1 (cc),
          unmarked game_lbp2 (cc),
          unmarked game_lbp3 (cc),
          unmarked game_lbp3_jp (cc),
        ))
    where
      unmarked :
          (k : GameNumber) → k ≢ game_unknown → has_mark k (overlay (patches_of g s) m) ≡ false
      unmarked k h = elim (GameNumber-discrete k g) [
        | yes same ↦ rw same (own_mark g known)
        | no other ↦ other_mark g k s m (λ e. other (sym e)) ∙ others k other h
      ]
