-- ===== src/Generator/Hook/Encoded.antt =====
-- The words of the script hooks, as the test of `GetHook` sees them.
use mathlib.Core.Path.{subst}
use patchwork.Prelude.{
  ℕ, ◌*◌, ◌/◌, ◌%◌, ◌^◌, ◌<◌, ◌≡◌, ◌≢◌, ◌↔◌, ◌⊎◌, refl, Bool, true, false, List, [], ◌∷◌, ◌++◌,
  length, All, Bool-cases, inl, inr, arith,
}
use patchwork.Hooks.Assembly.{
  Instruction, lwz, lbz, cmpwi, beq, bne, b, bla, clrldi, absolute, label,
}
use patchwork.Hooks.Assembly.ScriptBlock.{script_hook}
use patchwork.Hooks.Game.{GameNumber, game_unknown, game_lbp1, game_lbp2, game_lbp3, game_lbp3_jp}
use patchwork.Generator.{Bytes}
use patchwork.Generator.Hook.{big_endian_word, is_branch}
use patchwork.Generator.Hook.Mask.{is_branch_iff}

-- The words of the assembler for the instructions of the hooks, by the PowerPC manual: the primary
-- opcode, and the two lowest bits where they tell instructions apart.
pub record IsEncoding (encode : Instruction → ℕ) : Type 0 where
  pub is_word : (i : Instruction) → encode i < 2 ^ 32
  pub lwz_opcode : (t d a : ℕ) → encode (lwz t d a) / 2 ^ 26 ≡ 32
  pub lbz_opcode : (t d a : ℕ) → encode (lbz t d a) / 2 ^ 26 ≡ 34
  pub cmpwi_opcode : (f a n : ℕ) → encode (cmpwi f a n) / 2 ^ 26 ≡ 11
  pub beq_opcode : (f o : ℕ) → encode (beq f (label o)) / 2 ^ 26 ≡ 16
  pub bne_opcode : (f o : ℕ) → encode (bne f (label o)) / 2 ^ 26 ≡ 16
  -- Rotations by 0 keep the high bit of the distance and the record bit clear.
  pub clrldi_low : (a s n : ℕ) → encode (clrldi a s n) % 4 ≡ 0
  pub bla_low : (a : ℕ) → encode (bla a) % 4 ≡ 3
  pub ba_opcode : (a : ℕ) → encode (b (absolute a)) / 2 ^ 26 ≡ 18
  pub ba_low : (a : ℕ) → encode (b (absolute a)) % 4 ≡ 2

abbrev pub word_bytes : ℕ → Bytes
word_bytes w = w / 2 ^ 24 % 256 ∷ w / 2 ^ 16 % 256 ∷ w / 2 ^ 8 % 256 ∷ w % 256 ∷ []

abbrev pub is_absolute : Instruction → Bool
is_absolute (b (absolute a)) = true
is_absolute i = false

module _ (encode : Instruction → ℕ) where
  unfoldable pub assembled : List Instruction → Bytes
  assembled [] = []
  assembled (i ∷ code) = word_bytes (encode i) ++ assembled code

  pub assembled-length : (code : List Instruction) → length (assembled code) ≡ 4 * length code
  unfolding assembled
  assembled-length [] = refl
  assembled-length (i ∷ code) = omega (arith, assembled-length code)

  pub assembled_bytes : (code : List Instruction) → All (λ b. b < 2 ^ 8) (assembled code)
  unfolding assembled
  assembled_bytes [] = tt
  assembled_bytes (i ∷ code) =
      (omega arith, (omega arith, (omega arith, (omega arith, assembled_bytes code))))

  module _ (law : IsEncoding encode) where
    is_branch_word :
        (i : Instruction)
        → (is_branch (word_bytes (encode i)) ≡ true)
          ↔ ((encode i / 2 ^ 30 % 2 ≡ 1) × (encode i / 2 ^ 27 % 2 ≡ 1) × (encode i % 4 ≡ 2))
    is_branch_word i =
        let w = encode i in
        let bound = law.is_word i in
        let whole : big_endian_word (word_bytes w) ≡ w = omega arith in
        subst
          (λ x.
            (is_branch (word_bytes w) ≡ true)
            ↔ ((x / 2 ^ 30 % 2 ≡ 1) × (x / 2 ^ 27 % 2 ≡ 1) × (x % 4 ≡ 2)))
          whole (is_branch_iff (w / 2 ^ 24 % 256) (w / 2 ^ 16 % 256) (w / 2 ^ 8 % 256) (w % 256))

    -- The test tells a branch to an address from the other instructions of the hooks.
    abbrev pub Fits : Instruction → Type 0
    Fits i = is_branch (word_bytes (encode i)) ≡ is_absolute i

    is_no_branch :
        (i : Instruction)
        → (encode i / 2 ^ 30 % 2 ≢ 1) ⊎ ((encode i / 2 ^ 27 % 2 ≢ 1) ⊎ (encode i % 4 ≢ 2))
        → is_branch (word_bytes (encode i)) ≡ false
    is_no_branch i other = elim (Bool-cases (is_branch (word_bytes (encode i)))) [
      | inl e ↦ let bits = (is_branch_word i).0 e in absurd (omega (arith, bits, other))
      | inr e ↦ e
    ]

    lwz-Fits : (t d a : ℕ) → Fits (lwz t d a)
    lwz-Fits t d a = is_no_branch (lwz t d a) (inl (λ e. omega (arith, law.lwz_opcode t d a)))

    lbz-Fits : (t d a : ℕ) → Fits (lbz t d a)
    lbz-Fits t d a = is_no_branch (lbz t d a) (inl (λ e. omega (arith, law.lbz_opcode t d a)))

    cmpwi-Fits : (f a n : ℕ) → Fits (cmpwi f a n)
    cmpwi-Fits f a n = is_no_branch (cmpwi f a n) (inl (λ e. omega (arith, law.cmpwi_opcode f a n)))

    beq-Fits : (f o : ℕ) → Fits (beq f (label o))
    beq-Fits f o =
        is_no_branch (beq f (label o)) (inr (inl (λ e. omega (arith, law.beq_opcode f o))))

    bne-Fits : (f o : ℕ) → Fits (bne f (label o))
    bne-Fits f o =
        is_no_branch (bne f (label o)) (inr (inl (λ e. omega (arith, law.bne_opcode f o))))

    clrldi-Fits : (a s n : ℕ) → Fits (clrldi a s n)
    clrldi-Fits a s n =
        is_no_branch (clrldi a s n) (inr (inr (λ e. omega (arith, law.clrldi_low a s n))))

    bla-Fits : (a : ℕ) → Fits (bla a)
    bla-Fits a = is_no_branch (bla a) (inr (inr (λ e. omega (arith, law.bla_low a))))

    ba-Fits : (a : ℕ) → Fits (b (absolute a))
    ba-Fits a =
        (is_branch_word (b (absolute a))).1
          (omega (arith, law.ba_opcode a), omega (arith, law.ba_opcode a), law.ba_low a)

    pub script_hook-Fits : (game : GameNumber) → All Fits (script_hook game)
    script_hook-Fits game_unknown = tt
    script_hook-Fits game_lbp1 = (
      lwz-Fits 3 0 3,
      (
        lbz-Fits 3 39 3,
        (
          cmpwi-Fits 7 3 0xB,
          (
            beq-Fits 7 28,
            (clrldi-Fits 3 25 32, (bla-Fits 0x7D1EC, (ba-Fits 0x81BCC, (ba-Fits 0x81B40, tt)))),
          ),
        ),
      ),
    )
    script_hook-Fits game_lbp2 = (
      beq-Fits 7 20,
      (
        lbz-Fits 0 35 29,
        (cmpwi-Fits 7 0 0xB, (beq-Fits 7 20, (ba-Fits 0x153D78, (ba-Fits 0x153D3C, tt)))),
      ),
    )
    script_hook-Fits game_lbp3 = (
      cmpwi-Fits 0 3 0,
      (
        bne-Fits 0 24,
        (
          lbz-Fits 3 0x23 29,
          (cmpwi-Fits 7 3 0xB, (beq-Fits 7 24, (ba-Fits 0x1CFC78, (ba-Fits 0x1CFD10, tt)))),
        ),
      ),
    )
    script_hook-Fits game_lbp3_jp = (
      cmpwi-Fits 0 3 0,
      (
        bne-Fits 0 24,
        (
          lbz-Fits 3 0x23 29,
          (cmpwi-Fits 7 3 0xB, (beq-Fits 7 24, (ba-Fits 0x1CFB14, (ba-Fits 0x1CFBAC, tt)))),
        ),
      ),
    )
