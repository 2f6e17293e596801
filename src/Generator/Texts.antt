-- ===== src/Generator/Texts.antt =====
-- Rows of texts, each written to its own range.
use mathlib.Core.Path.{subst}
use patchwork.Prelude.{
  ℕ, zero, suc, ◌+◌, ◌≤◌, ◌≡◌, refl, sym, ◌∙◌, ◌⊎◌, some, true, List, [], ◌∷◌, length, All,
  get_elem?, arith,
}
use mathlib.Core.Option.{some-injective}
use patchwork.Memory.{Memory}
use patchwork.Text.Strings.{IsString, IsString-bytes}
use patchwork.Start.Wording.{avoids}
use patchwork.Generator.{Bytes}
use patchwork.Generator.Entries.{PatchEntry, Format}
use patchwork.Generator.Make.{c_utf8_patch}
use patchwork.Generator.Rpcs3.{Rpcs3, write_all}

-- An address and the text that is to stand there.
abbrev pub TextAt : Type 0
TextAt = ℕ × Bytes

abbrev pub text_rows : List TextAt → List PatchEntry
text_rows [] = []
text_rows ((address, value) ∷ texts) = c_utf8_patch address value ∷ text_rows texts

-- The two texts, each with its NUL, do not overlap.
abbrev pub IsApart : TextAt → TextAt → Type 0
IsApart s t = (s.0 + length s.1 + 1 ≤ t.0) ⊎ (t.0 + length t.1 + 1 ≤ s.0)

abbrev pub AreSpaced : List TextAt → Type 0
AreSpaced [] = Unit
AreSpaced (t ∷ texts) = All (IsApart t) texts × AreSpaced texts

module _ (fmt : Format) (rpcs3 : Rpcs3 fmt) where
  text_rows-apart :
      (t : TextAt) (texts : List TextAt) (m : Memory) (i : ℕ)
      → All (IsApart t) texts
      → i ≤ length t.1
      → write_all fmt rpcs3 (text_rows texts) m (t.0 + i) ≡ m (t.0 + i)
  text_rows-apart t [] m i apart below = refl
  text_rows-apart t (s ∷ texts) m i (away, apart) below =
      text_rows-apart t texts _ i apart below
      ∙ rpcs3.c_utf8-Outside m s.0 s.1 (t.0 + i) (omega arith)

  -- Every text stands in memory after the rows.
  pub text_rows-IsString :
      (texts : List TextAt) (m : Memory) (k : ℕ) (t : TextAt)
      → AreSpaced texts
      → get_elem? texts k ≡ some t
      → avoids 0 t.1 ≡ true
      → IsString (write_all fmt rpcs3 (text_rows texts) m) t.0 t.1
  text_rows-IsString [] m k t spaced at clean = absurd (cc)
  text_rows-IsString (s ∷ texts) m zero t (apart, spaced) at clean =
      let same = some-injective s t at in
      let here = subst (λ x. All (IsApart x) texts) same apart in
      subst (λ x. IsString (write_all fmt rpcs3 (text_rows (x ∷ texts)) m) t.0 t.1) (sym same)
        (IsString-bytes (rpcs3.write (c_utf8_patch t.0 t.1) m) _ t.0 t.0 t.1
          (λ i below. text_rows-apart t texts _ i here below)
          (rpcs3.c_utf8-IsString m t.0 t.1 clean))
  text_rows-IsString (s ∷ texts) m (suc k) t (apart, spaced) at clean =
      text_rows-IsString texts _ k t spaced at clean
