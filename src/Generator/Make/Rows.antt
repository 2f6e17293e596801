-- ===== src/Generator/Make/Rows.antt =====
-- The rows that `MakePatches` makes of a patch.
use mathlib.Core.List.{append-nil, head-eq_of_cons-eq, tail-eq_of_cons-eq}
use patchwork.Prelude.{
  ℕ, ◌+◌, ◌*◌, ◌/◌, ◌%◌, ◌^◌, ◌<◌, ◌≡◌, ◌≢◌, refl, sym, ap, ◌∙◌, Bool-cases, some, List, [], ◌∷◌,
  ◌++◌, inl, inr, if◌then◌else◌, length, length-append, drop, take-append, drop-append, codes,
  arith,
}
use patchwork.Generator.{Bytes, ok, hook, overwrite, Patch, ReaderAt, Symbol}
use patchwork.Generator.Dict.{equal}
use patchwork.Generator.Hook.{get_hook}
use patchwork.Generator.Hook.Scan.{IsSection}
use patchwork.Generator.Entries.{
  PatchEntry, Format, code_rows, make_code_patch, overwrite_rows, make_overwrite_patch,
}
use patchwork.Generator.Make.{read_whole, symbol_rows, patch_rows}

-- The symbols with a name
abbrev pub named : Bytes → List Symbol → List Symbol
named name [] = []
named name (sym ∷ syms) = if equal sym.name name then sym ∷ named name syms else named name syms

-- The bytes stand in the content at an offset.
pub record StandsAt (content : Bytes) (offset : ℕ) (bytes : Bytes) : Type 0 where
  pub before : Bytes
  pub behind : Bytes
  pub whole : content ≡ before ++ (bytes ++ behind)
  pub place : offset ≡ length before

-- The row that reserves memory for a hook, with the number of its words, and then the words.
abbrev pub hook_rows : Format → ℕ → Bytes → List PatchEntry
hook_rows fmt offset bytes =
    record { type = codes "calloc"; address = offset; value = fmt.decimal (length bytes / 4) }
    ∷ code_rows fmt bytes

pub read_whole-StandsAt :
    (content : Bytes) (read_at : ReaderAt) (offset : ℕ) (bytes : Bytes)
    → IsSection content read_at
    → StandsAt content offset bytes
    → read_whole read_at offset (length bytes) ≡ ok bytes
unfolding read_whole
read_whole-StandsAt content read_at offset bytes section at =
    let start : offset ≡ length at.before + 0 = omega (arith, at.place) in
    let from : drop offset content ≡ bytes ++ at.behind =
      ap (λ xs. drop offset xs) at.whole
      ∙ ap (λ n. drop n (at.before ++ (bytes ++ at.behind))) start
      ∙ drop-append at.before (bytes ++ at.behind) 0 in
    let size : length content ≡ length at.before + (length bytes + length at.behind) = omega (
      arith,
      ap length at.whole,
      length-append at.before (bytes ++ at.behind),
      length-append bytes at.behind,
    ) in
    let here = section.inside offset (length bytes) (omega (arith, at.place)) in
    rw (here, from, take-append bytes at.behind) (ground arith)

module _ (fmt : Format) (fuel : ℕ) (section : ReaderAt) where
  patch_rows_none :
      (patch : Patch) (syms : List Symbol)
      → named patch.symbol syms ≡ []
      → patch_rows fmt fuel (some section) patch syms ≡ some (ok [])
  unfolding patch_rows
  patch_rows_none patch [] e = refl
  patch_rows_none patch (sym ∷ syms) e = elim (Bool-cases (equal sym.name patch.symbol)) [
    | inl same ↦ absurd (ground (arith, same, e))
    | inr other ↦ rw other (patch_rows_none patch syms (ground (arith, other, e)))
  ]

  -- One symbol has the patch's name.
  pub patch_rows_alone :
      (patch : Patch) (syms : List Symbol) (sym : Symbol) (rows : List PatchEntry)
      → named patch.symbol syms ≡ sym ∷ []
      → symbol_rows fmt fuel (some section) patch sym ≡ some (ok rows)
      → patch_rows fmt fuel (some section) patch syms ≡ some (ok rows)
  unfolding patch_rows
  patch_rows_alone patch [] sym rows e made = absurd (cc)
  patch_rows_alone patch (s ∷ syms) sym rows e made =
      elim (Bool-cases (equal s.name patch.symbol)) [
        | inl same ↦
            let split : s ∷ named patch.symbol syms ≡ sym ∷ [] = ground (arith, same, e) in
            let none_left = patch_rows_none patch syms (tail-eq_of_cons-eq split) in
            rw (same, head-eq_of_cons-eq split, none_left, made)
              (ap (λ xs. some (ok xs)) (append-nil rows))
        | inr other ↦
            rw other (patch_rows_alone patch syms sym rows (ground (arith, other, e)) made)
      ]

  pub symbol_rows-overwrite :
      (content : Bytes) (patch : Patch) (sym : Symbol) (bytes : Bytes)
      → IsSection content section
      → patch.type ≡ overwrite
      → patch.len ≢ 0
      → length bytes ≡ patch.len * 4
      → length bytes < 2 ^ 64
      → StandsAt content sym.value bytes
      → symbol_rows fmt fuel (some section) patch sym
        ≡ some (ok (overwrite_rows fmt patch.offset 0 bytes))
  unfolding symbol_rows make_overwrite_patch
  symbol_rows-overwrite content patch sym bytes is_section type long size small at =
      let read = read_whole-StandsAt content section sym.value bytes is_section at in
      let whole : patch.len * 4 % 2 ^ 64 ≡ length bytes = omega arith in
      let words : length bytes % 4 ≡ 0 = omega arith in
      rw (type, whole, read) (ground (arith, words))

  pub symbol_rows-hook :
      (patch : Patch) (sym : Symbol) (bytes : Bytes)
      → patch.type ≡ hook
      → patch.len ≡ 0
      → length bytes % 4 ≡ 0
      → get_hook fuel section sym.value ≡ some (ok bytes)
      → symbol_rows fmt fuel (some section) patch sym ≡ some (ok (hook_rows fmt patch.offset bytes))
  unfolding symbol_rows make_code_patch
  symbol_rows-hook patch sym bytes type short words got =
      rw (type, short, got) (ground (arith, words))
