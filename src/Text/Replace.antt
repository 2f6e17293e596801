-- ===== src/Text/Replace.antt =====
-- `ReplaceNext` puts a character in the place of the first occurrence of another.
use patchwork.Prelude.{
  ℕ, zero, suc, ◌+◌, ◌≤◌, ◌<◌, ◌≡◌, ◌≢◌, refl, ◌∙◌, ◌⊎◌, inl, inr, Bool-cases, List, [], ◌∷◌, some,
}
use patchwork.Prelude.{◌==◌, if◌then◌else◌, length, arith}
use patchwork.Memory.{Memory, store}
use patchwork.Text.{replace_next}
use patchwork.Text.Strings.{IsString, IsString-store_before}

unfoldable pub replace_first : ℕ → ℕ → List ℕ → List ℕ
replace_first target c [] = []
replace_first target c (d ∷ ds) = if d == target then c ∷ ds else d ∷ replace_first target c ds

-- Of a string that stands in memory, and given fuel for its length, `ReplaceNext` with two
-- characters other than NUL returns, and leaves the string with the first occurrence of the
-- target replaced, or as it was if there is none; no byte
-- outside the string changes.
pub replace_next-replace_first :
    (fuel : ℕ) (m : Memory) (p target c : ℕ) (cs : List ℕ)
    → target ≢ 0
    → c ≢ 0
    → length cs < fuel
    → IsString m p cs
    → (m' : Memory) × (replace_next fuel m p target c ≡ some m')
      × IsString m' p (replace_first target c cs)
      × ((a : ℕ) → (a < p) ⊎ (p + length cs ≤ a) → m' a ≡ m a)
unfolding replace_next replace_first store
replace_next-replace_first zero m p target c cs t n h s = absurd (omega arith)
replace_next-replace_first (suc fuel) m p target c [] t n h s = (m, ground arith, s, λ a out. refl)
replace_next-replace_first (suc fuel) m p target c (d ∷ ds) t n h (here, nonzero, rest) =
    elim (Bool-cases (d == target)) [
      | inl found ↦ (
        store m p c,
        ground arith,
        rw found (ground arith, n, IsString-store_before m (p + 1) p c ds (omega arith) rest),
        λ a out. ground arith,
      )
      | inr other ↦
          let r = replace_next-replace_first fuel m (p + 1) target c ds t n (omega arith) rest in
          (
            r.0,
            ground (arith, r.1),
            rw other (r.3 p (omega arith) ∙ here, nonzero, r.2),
            λ a out. r.3 a (omega arith),
          )
    ]
