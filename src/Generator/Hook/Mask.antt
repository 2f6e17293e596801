-- ===== src/Generator/Hook/Mask.antt =====
-- The test of `GetHook` on the fields of an instruction.
use Prim.Native.Nat.{min, digits, bit_and, bit_and-bitwise}
use native.Mathlib.Nat.{div-div-eq-div-mul, pow-succ', mul_assoc}
use patchwork.Prelude.{
  ℕ, zero, suc, ◌+◌, ◌*◌, ◌/◌, ◌%◌, ◌^◌, ◌≤◌, ◌≡◌, ◌↔◌, refl, ap, ◌∙◌, sym, true, [], ◌∷◌, arith,
}
use patchwork.Prelude.{Bool, ◌&&◌, ◌==◌, get_or}
use patchwork.Generator.{Bytes}
use patchwork.Generator.Hook.{ba_mask, big_endian_word, is_branch}

-- The operation by its digits: the lowest digits, and the rest.
abbrev and_digits : ℕ → ℕ → ℕ → ℕ
and_digits n a b = digits (λ b. zero) min n a b

and_digits_same : (n m a b : ℕ) → a ≤ n → a ≤ m → and_digits n a b ≡ and_digits m a b
and_digits_same zero zero a b p q = refl
and_digits_same zero (suc m) zero b p q = refl
and_digits_same zero (suc m) (suc a) b p q = absurd (omega arith)
and_digits_same (suc n) zero zero b p q = refl
and_digits_same (suc n) zero (suc a) b p q = absurd (omega arith)
and_digits_same (suc n) (suc m) zero b p q = refl
and_digits_same (suc n) (suc m) (suc a) b p q =
    omega (arith, and_digits_same n m (suc a / 2) (b / 2) (omega arith) (omega arith))

bit_and_halves : (a b : ℕ) → bit_and a b ≡ bit_and (a / 2) (b / 2) * 2 + min (a % 2) (b % 2)
bit_and_halves zero b = omega (arith, bit_and-bitwise 0 b, bit_and-bitwise 0 (b / 2))
bit_and_halves (suc a) b = omega (
  arith,
  bit_and-bitwise (suc a) b,
  bit_and-bitwise (suc a / 2) (b / 2),
  and_digits_same a (suc a / 2) (suc a / 2) (b / 2) (omega arith) (omega arith),
)

bit_and-zero_below : (n a : ℕ) → a ≤ n → bit_and a 0 ≡ 0
bit_and-zero_below n zero h = refl
bit_and-zero_below zero (suc a) h = absurd (omega arith)
bit_and-zero_below (suc n) (suc a) h =
    omega (arith, bit_and_halves (suc a) 0, bit_and-zero_below n (suc a / 2) (omega arith))

bit_and-one : (a : ℕ) → bit_and a 1 ≡ a % 2
bit_and-one a = omega (arith, bit_and_halves a 1, bit_and-zero_below (a / 2) (a / 2) (omega arith))

bit_and_nine : (a : ℕ) → bit_and a 9 ≡ a % 2 + 8 * (a / 8 % 2)
bit_and_nine a = omega (
  arith,
  bit_and_halves a 9,
  bit_and_halves (a / 2) 4,
  bit_and_halves (a / 2 / 2) 2,
  bit_and-one (a / 2 / 2 / 2),
)

-- A mask with zeros at its end
bit_and-shifted : (k a b : ℕ) → bit_and a (2 ^ k * b) ≡ 2 ^ k * bit_and (a / 2 ^ k) b
bit_and-shifted zero a b =
    let one : 1 * b ≡ b = omega arith in
    let whole : a / 1 ≡ a = omega arith in rw (one, whole) (omega arith)
bit_and-shifted (suc k) a b =
    let double : 2 ^ suc k ≡ 2 * 2 ^ k = pow-succ' 2 k in
    let mask : 2 ^ suc k * b ≡ 2 * (2 ^ k * b) = ap (λ n. n * b) double ∙ mul_assoc 2 (2 ^ k) b in
    let halves : a / 2 ^ suc k ≡ a / 2 / 2 ^ k =
      ap (λ n. a / n) double ∙ sym (div-div-eq-div-mul a 2 (2 ^ k)) in
    let rest : 2 * 2 ^ k * bit_and (a / 2 / 2 ^ k) b ≡ 2 * (2 ^ k * bit_and (a / 2 / 2 ^ k) b) =
      mul_assoc 2 (2 ^ k) (bit_and (a / 2 / 2 ^ k) b) in
    let even : 2 * (2 ^ k * b) / 2 ≡ 2 ^ k * b = omega arith in
    let step = bit_and_halves a (2 * (2 ^ k * b)) in
    ap (bit_and a) mask
    ∙ step
    ∙ omega (arith, bit_and-shifted k (a / 2) b, ap (bit_and (a / 2)) even)
    ∙ sym (
        ap (λ n. 2 ^ suc k * bit_and n b) halves
        ∙ ap (λ n. n * bit_and (a / 2 / 2 ^ k) b) double
        ∙ rest)

mask_lem :
    (w : ℕ)
    → bit_and w ba_mask ≡ 2 * (w / 2 % 2) + 2 ^ 27 * (w / 2 ^ 27 % 2) + 2 ^ 30 * (w / 2 ^ 30 % 2)
mask_lem w = omega (
  arith,
  bit_and_halves w 0x48000002,
  bit_and_halves (w / 2) 0x24000001,
  bit_and-shifted 25 (w / 2 / 2) 9,
  bit_and_nine (w / 2 / 2 / 2 ^ 25),
)

-- The pattern of an absolute branch without a link: in a 32-bit word the opcode has the second bit
-- of the word and the fifth, and the lowest two bits are 1 and 0.
pub is_branch_iff :
    (b0 b1 b2 b3 : ℕ)
    → let word = big_endian_word (b0 ∷ b1 ∷ b2 ∷ b3 ∷ []) in
      (is_branch (b0 ∷ b1 ∷ b2 ∷ b3 ∷ []) ≡ true)
      ↔ ((word / 2 ^ 30 % 2 ≡ 1) × (word / 2 ^ 27 % 2 ≡ 1) × (word % 4 ≡ 2))
unfolding is_branch
is_branch_iff b0 b1 b2 b3 =
    let word = big_endian_word (b0 ∷ b1 ∷ b2 ∷ b3 ∷ []) in
    ground (arith, mask_lem word, bit_and-one b3)

-- The same of any bytes, as a test: of the word, the second bit and the fifth are 1, the last but one
-- is 1, and the last is 0.
unfoldable pub is_marked : Bytes → Bool
is_marked bytes =
    let word =
      get_or bytes 0 0 * 2 ^ 24
      + get_or bytes 1 0 * 2 ^ 16
      + get_or bytes 2 0 * 2 ^ 8
      + get_or bytes 3 0 in
    word / 2 ^ 30 % 2 == 1 && word / 2 ^ 27 % 2 == 1 && word % 4 == 2

pub is_branch-is_marked : (bytes : Bytes) → is_branch bytes ≡ is_marked bytes
unfolding is_branch is_marked
is_branch-is_marked bytes = ground (
  arith,
  is_branch_iff (get_or bytes 0 0) (get_or bytes 1 0) (get_or bytes 2 0) (get_or bytes 3 0),
)
