-- ===== src/Text/Trim.antt =====
-- `TrimEnd` keeps the first character and strips the white space that ends the rest.
use patchwork.Prelude.{ℕ, zero, suc, ◌+◌, ◌≤◌, ◌<◌, ◌≡◌, ◌≢◌, refl, sym, ap, ◌∙◌, inl, inr}
use patchwork.Prelude.{
  List, [], ◌∷◌, some, true, false, Bool-cases, if◌then◌else◌, length, take, arith,
}
use patchwork.Memory.{Memory, store}
use patchwork.Text.{is_space, trim_loop, trim_end}
use patchwork.Text.Strings.{IsString, strlen-IsString, IsString-store_nul}

-- A string without the white space at its end.
unfoldable pub strip : List ℕ → List ℕ
strip [] = []
strip (c ∷ cs) = elim (strip cs) [ [] ↦ if is_space c then [] else c ∷ [] | d ∷ ds ↦ c ∷ d ∷ ds ]

-- What `TrimEnd` leaves: its loop never moves past the first character.
abbrev pub strip_rest : List ℕ → List ℕ
strip_rest [] = []
strip_rest (c ∷ cs) = c ∷ strip cs

pub strip-take :
    (cs : List ℕ) → (length (strip cs) ≤ length cs) × (strip cs ≡ take (length (strip cs)) cs)
unfolding strip
strip-take [] = (omega arith, refl)
strip-take (c ∷ cs) = ground (arith, strip-take cs)

trim_loop_space :
    (m : Memory) (p n : ℕ)
    → is_space (m (p + suc n)) ≡ true
    → trim_loop m p (suc n) ≡ trim_loop m p n
unfolding trim_loop
trim_loop_space m p n h = ground arith

trim_loop_stop :
    (m : Memory) (p n : ℕ) → is_space (m (p + suc n)) ≡ false → trim_loop m p (suc n) ≡ suc n
unfolding trim_loop
trim_loop_stop m p n h = ground arith

-- The loop, unrolled at the front of the string.
abbrev unrolled : Memory → ℕ → ℕ → ℕ
unrolled m p zero = if is_space (m (p + 1)) then 0 else 1
unrolled m p (suc k) = suc (suc k)

trim_loop-suc :
    (m : Memory) (p n : ℕ) → trim_loop m p (suc n) ≡ unrolled m p (trim_loop m (p + 1) n)
trim_loop-suc m p zero = unfold trim_loop in ground arith
trim_loop-suc m p (suc n) =
    let e : p + suc (suc n) ≡ p + 1 + suc n = omega arith in
    elim (Bool-cases (is_space (m (p + 1 + suc n)))) [
      | inl space ↦
          trim_loop_space m p (suc n) (rw e space)
          ∙ trim_loop-suc m p n
          ∙ ap (unrolled m p) (sym (trim_loop_space m (p + 1) n space))
      | inr black ↦
          trim_loop_stop m p (suc n) (rw e black)
          ∙ ap (unrolled m p) (sym (trim_loop_stop m (p + 1) n black))
    ]

trim_loop-strip :
    (m : Memory) (p : ℕ) (cs : List ℕ)
    → IsString m (p + 1) cs
    → trim_loop m p (length cs) ≡ length (strip cs)
unfolding strip
trim_loop-strip m p [] s = unfold trim_loop in refl
trim_loop-strip m p (c ∷ cs) (here, nonzero, rest) =
    trim_loop-suc m p (length cs)
    ∙ ap (unrolled m p) (trim_loop-strip m (p + 1) cs rest)
    ∙ ground arith

-- Of a string that stands in memory, at an address other than NULL, and given fuel for its
-- length, `TrimEnd` returns, keeps the first character and strips all white space at the end of
-- the rest; no other byte of memory changes than the one that becomes NUL.
pub trim_end-strip_rest :
    (fuel : ℕ) (m : Memory) (str : ℕ) (cs : List ℕ)
    → str ≢ 0
    → length cs < fuel
    → IsString m str cs
    → (m' : Memory) × (trim_end fuel m str ≡ some m')
      × IsString m' str (strip_rest cs)
      × ((a : ℕ) → a ≢ str + length (strip_rest cs) → m' a ≡ m a)
unfolding trim_end store
trim_end-strip_rest fuel m str [] nonnull enough s = (m, ground arith, s, λ a h. refl)
trim_end-strip_rest fuel m str (c ∷ cs) nonnull enough (here, nonzero, rest) = (
  store m (str + trim_loop m str (length cs) + 1) 0,
  ground (arith, strlen-IsString fuel m str (c ∷ cs) enough (here, nonzero, rest)),
  rw (strip-take cs).1 (
      IsString-store_nul m str (suc (length (strip cs))) (str + trim_loop m str (length cs) + 1)
        (c ∷ cs) (omega (arith, (strip-take cs).0)) (omega (arith, trim_loop-strip m str cs rest))
        (here, nonzero, rest)),
  λ a h. ground (arith, trim_loop-strip m str cs rest),
)
