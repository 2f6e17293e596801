-- ===== src/Hooks/Assembly/Words.antt =====
-- What the instructions of the hooks compute, in plainer terms.
use Prim.Native.Nat.{digits, max, bit_or, bit_or-bitwise}
use patchwork.Prelude.{ℕ, zero, suc, ◌/◌, ◌≤◌, ◌≡◌, refl, ◌∙◌, arith}

digits_same : (n a : ℕ) → a ≤ n → digits (λ x. x) max n a a ≡ a
digits_same zero zero h = refl
digits_same zero (suc a) h = absurd (omega arith)
digits_same (suc n) zero h = refl
digits_same (suc n) (suc a) h = omega (arith, digits_same n (suc a / 2) (omega arith))

digits-zero : (n a : ℕ) → a ≤ n → digits (λ x. x) max n a 0 ≡ a
digits-zero zero zero h = refl
digits-zero zero (suc a) h = absurd (omega arith)
digits-zero (suc n) zero h = refl
digits-zero (suc n) (suc a) h = omega (arith, digits-zero n (suc a / 2) (omega arith))

-- `or ra, rs, rs` moves a register, and so does `ori ra, rs, 0`.
pub bit_or_same : (a : ℕ) → bit_or a a ≡ a
bit_or_same a = bit_or-bitwise a a ∙ digits_same a a (omega arith)

pub bit_or-zero : (a : ℕ) → bit_or a 0 ≡ a
bit_or-zero a = bit_or-bitwise a 0 ∙ digits-zero a a (omega arith)
