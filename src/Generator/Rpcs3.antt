-- ===== src/Generator/Rpcs3.antt =====
-- What RPCS3 makes of the rows: a parameter, with what its documentation says of two types of rows.
use mathlib.Core.Path.{subst}
use native.Mathlib.Decide.{dec_lt}
use patchwork.Hooks.Apply.Overlay.{range-cases}
use patchwork.Prelude.{
  ℕ, zero, suc, ◌+◌, ◌-◌, ◌%◌, ◌^◌, ◌≤◌, ◌<◌, ◌≡◌, refl, sym, ap, ◌∙◌, inl, inr, true, List, [],
  ◌∷◌, length, All, get_or, codes, arith,
}
use patchwork.Memory.{Memory, Outside, memcpy, memcpy_inside, memcpy-Outside}
use patchwork.Text.Strings.{IsString}
use patchwork.Start.Wording.{avoids}
use patchwork.Generator.{Bytes, ok}
use patchwork.Generator.Entries.{
  PatchEntry, Format, c_utf8_patch_type, overwrite_rows, make_overwrite_patch,
}

abbrev pub word_row : Format → ℕ → Bytes → PatchEntry
word_row fmt address bytes = record {
  type = codes "be32";
  address = address;
  value = fmt.hex_bytes bytes;
}

abbrev pub IsByte : ℕ → Type 0
IsByte b = b < 2 ^ 8

-- A row `be32` stores the word of its hexadecimal number with the highest byte first, and a row
-- `cutf8` the bytes of its text and a NUL.
pub record Rpcs3 (fmt : Format) : Type 0 where
  pub write : PatchEntry → Memory → Memory
  pub be32_word :
      (m : Memory) (address b0 b1 b2 b3 i : ℕ)
      → address + 4 ≤ 2 ^ 32
      → i < 4
      → b0 < 2 ^ 8
      → b1 < 2 ^ 8
      → b2 < 2 ^ 8
      → b3 < 2 ^ 8
      → write (word_row fmt address (b0 ∷ b1 ∷ b2 ∷ b3 ∷ [])) m (address + i)
        ≡ get_or (b0 ∷ b1 ∷ b2 ∷ b3 ∷ []) i 0
  pub be32-Outside :
      (m : Memory) (address b0 b1 b2 b3 a : ℕ)
      → address + 4 ≤ 2 ^ 32
      → Outside a address 4
      → write (word_row fmt address (b0 ∷ b1 ∷ b2 ∷ b3 ∷ [])) m a ≡ m a
  pub c_utf8-IsString :
      (m : Memory) (address : ℕ) (value : Bytes)
      → avoids 0 value ≡ true
      → IsString
          (write (record { type = c_utf8_patch_type; address = address; value = value }) m)
          address
          value
  pub c_utf8-Outside :
      (m : Memory) (address : ℕ) (value : Bytes) (a : ℕ)
      → Outside a address (length value + 1)
      → write (record { type = c_utf8_patch_type; address = address; value = value }) m a ≡ m a

get_or_near :
    (b0 b1 b2 b3 : ℕ) (rest : Bytes) (j : ℕ)
    → j < 4
    → get_or (b0 ∷ b1 ∷ b2 ∷ b3 ∷ []) j 0 ≡ get_or (b0 ∷ b1 ∷ b2 ∷ b3 ∷ rest) j 0
get_or_near b0 b1 b2 b3 rest zero near = refl
get_or_near b0 b1 b2 b3 rest (suc zero) near = refl
get_or_near b0 b1 b2 b3 rest (suc (suc zero)) near = refl
get_or_near b0 b1 b2 b3 rest (suc (suc (suc zero))) near = refl
get_or_near b0 b1 b2 b3 rest (suc (suc (suc (suc j)))) near = absurd (omega arith)

get_or_far :
    (b0 b1 b2 b3 : ℕ) (rest : Bytes) (j : ℕ)
    → 4 ≤ j
    → get_or rest (j - 4) 0 ≡ get_or (b0 ∷ b1 ∷ b2 ∷ b3 ∷ rest) j 0
get_or_far b0 b1 b2 b3 rest zero far = absurd (omega arith)
get_or_far b0 b1 b2 b3 rest (suc zero) far = absurd (omega arith)
get_or_far b0 b1 b2 b3 rest (suc (suc zero)) far = absurd (omega arith)
get_or_far b0 b1 b2 b3 rest (suc (suc (suc zero))) far = absurd (omega arith)
get_or_far b0 b1 b2 b3 rest (suc (suc (suc (suc j)))) far =
    let e : suc (suc (suc (suc j))) - 4 ≡ j = omega arith in ap (λ k. get_or rest k 0) e

module _ (fmt : Format) (rpcs3 : Rpcs3 fmt) where
  abbrev pub write_all : List PatchEntry → Memory → Memory
  write_all [] m = m
  write_all (row ∷ rows) m = write_all rows (rpcs3.write row m)

  overwrite_rows-Outside :
      (off i : ℕ) (patch : Bytes) (m : Memory) (a : ℕ)
      → off + i + length patch ≤ 2 ^ 32
      → Outside a (off + i) (length patch)
      → write_all (overwrite_rows fmt off i patch) m a ≡ m a
  unfolding overwrite_rows
  overwrite_rows-Outside off i (b0 ∷ b1 ∷ b2 ∷ b3 ∷ rest) m a bound away =
      let at : (off + i % 2 ^ 32) % 2 ^ 32 ≡ off + i = omega arith in
      rw at (
        overwrite_rows-Outside off (i + 4) rest _ a (omega arith) (omega arith)
        ∙ rpcs3.be32-Outside m (off + i) b0 b1 b2 b3 a (omega arith) (omega arith))
  overwrite_rows-Outside off i _ m a bound away = refl

  overwrite_rows_inside :
      (off i : ℕ) (patch : Bytes) (m : Memory) (j : ℕ)
      → length patch % 4 ≡ 0
      → off + i + length patch ≤ 2 ^ 32
      → All IsByte patch
      → j < length patch
      → write_all (overwrite_rows fmt off i patch) m (off + i + j) ≡ get_or patch j 0
  unfolding overwrite_rows
  overwrite_rows_inside off i [] m j whole bound bytes below = absurd (omega arith)
  overwrite_rows_inside off i (b0 ∷ []) m j whole bound bytes below = absurd (omega arith)
  overwrite_rows_inside off i (b0 ∷ b1 ∷ []) m j whole bound bytes below = absurd (omega arith)
  overwrite_rows_inside off i (b0 ∷ b1 ∷ b2 ∷ []) m j whole bound bytes below = absurd (omega arith)
  overwrite_rows_inside off i (b0 ∷ b1 ∷ b2 ∷ b3 ∷ rest) m j whole bound (h0, (h1, (h2, (h3, hs))))
        below =
      let at : (off + i % 2 ^ 32) % 2 ^ 32 ≡ off + i = omega arith in
      let first = rpcs3.write (word_row fmt (off + i) (b0 ∷ b1 ∷ b2 ∷ b3 ∷ [])) m in
      rw at (elim (dec_lt j 4) [
        | yes near ↦
            overwrite_rows-Outside off (i + 4) rest first (off + i + j) (omega arith) (omega arith)
            ∙ rpcs3.be32_word m (off + i) b0 b1 b2 b3 j (omega arith) near h0 h1 h2 h3
            ∙ get_or_near b0 b1 b2 b3 rest j near
        | no far ↦
            let k : off + (i + 4) + (j - 4) ≡ off + i + j = omega arith in
            ap (write_all (overwrite_rows fmt off (i + 4) rest) first) (sym k)
            ∙ overwrite_rows_inside off (i + 4) rest first (j - 4) (omega arith) (omega arith) hs
                (omega arith)
            ∙ get_or_far b0 b1 b2 b3 rest j (omega arith)
      ])

  pub overwrite_rows-memcpy :
      (off : ℕ) (patch : Bytes) (m : Memory) (src : ℕ)
      → length patch % 4 ≡ 0
      → off + length patch ≤ 2 ^ 32
      → All IsByte patch
      → ((i : ℕ) → i < length patch → m (src + i) ≡ get_or patch i 0)
      → (a : ℕ) → write_all (overwrite_rows fmt off 0 patch) m a ≡ memcpy m off src (length patch) a
  overwrite_rows-memcpy off patch m src whole bound bytes stands a =
      let start : off + 0 ≡ off = omega arith in
      elim (range-cases a off (length patch)) [
        | inl out ↦
            overwrite_rows-Outside off 0 patch m a (omega arith) (omega arith)
            ∙ sym (memcpy-Outside m off src (length patch) a out)
        | inr (i, below, e) ↦
            subst
              (λ x.
                write_all (overwrite_rows fmt off 0 patch) m x ≡ memcpy m off src (length patch) x)
              e
              (ap (λ s. write_all (overwrite_rows fmt off 0 patch) m (s + i)) (sym start)
                ∙ overwrite_rows_inside off 0 patch m i whole (omega arith) bytes below
                ∙ sym (stands i below)
                ∙ sym (memcpy_inside m off src (length patch) i below))
      ]

  -- Let the bytes of the patch, whole words that end in the 32-bit address space, stand in memory at
  -- `src`. Then `MakeOverwritePatch` does not panic, and the rows that it makes do to memory what the
  -- plugin's `memcpy` of these bytes does: in every byte of memory.
  pub make_overwrite_patch-memcpy :
      (off : ℕ) (patch : Bytes) (m : Memory) (src : ℕ)
      → length patch % 4 ≡ 0
      → off + length patch ≤ 2 ^ 32
      → All IsByte patch
      → ((i : ℕ) → i < length patch → m (src + i) ≡ get_or patch i 0)
      → (rows : List PatchEntry) × (make_overwrite_patch fmt off patch ≡ ok rows)
        × ((a : ℕ) → write_all rows m a ≡ memcpy m off src (length patch) a)
  unfolding make_overwrite_patch
  make_overwrite_patch-memcpy off patch m src whole bound bytes stands = (
    overwrite_rows fmt off 0 patch,
    ground arith,
    overwrite_rows-memcpy off patch m src whole bound bytes stands,
  )
