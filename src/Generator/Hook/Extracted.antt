-- ===== src/Generator/Hook/Extracted.antt =====
-- `GetHook` on the code of src/hooks/script-block.s.
use mathlib.Core.Path.{subst}
use mathlib.Core.Option.{some-injective}
use patchwork.Prelude.{
  ℕ, zero, suc, ◌+◌, ◌*◌, ◌≤◌, ◌<◌, ◌≡◌, ◌≢◌, refl, sym, ap, ◌∙◌, none, some, List, [], ◌∷◌, ◌++◌,
  if◌then◌else◌, length, length-append, take, drop, get_elem?, All, All-get_elem?, Option-cases,
  drop-append, take-append, inl, inr, arith,
}
use patchwork.Hooks.Assembly.{Instruction}
use patchwork.Hooks.Assembly.ScriptBlock.{script_hook}
use patchwork.Hooks.Game.{GameNumber, game_unknown, game_lbp1, game_lbp2, game_lbp3, game_lbp3_jp}
use patchwork.Generator.{Bytes, ok, ReaderAt}
use patchwork.Generator.Hook.{get_hook}
use patchwork.Generator.Hook.Mask.{is_branch-is_marked}
use patchwork.Generator.Hook.Scan.{IsSection, word_at, branches, get_hook-branches}
use patchwork.Generator.Hook.Encoded.{
  IsEncoding, word_bytes, assembled, assembled-length, is_absolute, Fits, script_hook-Fits,
}

module _ (encode : Instruction → ℕ) where
  code_word :
      (code : List Instruction) (after : Bytes) (n : ℕ) (i : Instruction)
      → get_elem? code n ≡ some i
      → take 4 (drop (4 * n) (assembled encode code ++ after)) ≡ word_bytes (encode i)
  unfolding assembled
  code_word [] after n i at = absurd (cc)
  code_word (j ∷ code) after zero i at = ap (λ k. word_bytes (encode k)) (some-injective j i at)
  code_word (j ∷ code) after (suc n) i at =
      let four : 4 * suc n ≡ suc (suc (suc (suc (4 * n)))) = omega arith in
      rw four (code_word code after n i at)

  get_elem?-none :
      (code : List Instruction) (n : ℕ) → get_elem? code n ≡ none → suc n ≤ length code → ⊥
  get_elem?-none [] n e h = omega arith
  get_elem?-none (i ∷ code) zero e h = cc
  get_elem?-none (i ∷ code) (suc n) e h = get_elem?-none code n e (omega arith)

  module _ (law : IsEncoding encode) where
    -- The code stands in the section, at the offset.
    module _ (before after : Bytes) (code : List Instruction)
        (fit : All (Fits encode law) code) where
      abbrev content : Bytes
      content = before ++ (assembled encode code ++ after)

      abbrev off : ℕ
      off = length before

      -- Branches among the first instructions
      abbrev absolutes : ℕ → ℕ
      absolutes zero = 0
      absolutes (suc n) =
          absolutes n
          + elim (get_elem? code n) [ none ↦ 0 | some i ↦ if is_absolute i then 1 else 0 ]

      word_at-get_elem? :
          (n : ℕ) (i : Instruction)
          → get_elem? code n ≡ some i
          → word_at content (off + 4 * n) ≡ word_bytes (encode i)
      word_at-get_elem? n i at =
          ap (take 4) (drop-append before (assembled encode code ++ after) (4 * n))
          ∙ code_word code after n i at

      branches-absolutes : (n : ℕ) → n ≤ length code → branches content off n ≡ absolutes n
      branches-absolutes zero h = refl
      branches-absolutes (suc n) h = elim (Option-cases (get_elem? code n)) [
        | inl missing ↦ absurd (get_elem?-none code n missing h)
        | inr (i, at) ↦
            let here = word_at-get_elem? n i at in
            let flag =
              sym (is_branch-is_marked (word_bytes (encode i)))
              ∙ All-get_elem? (Fits encode law) code n fit at in
            rw (branches-absolutes n (omega arith), here, flag, at) refl
      ]

      get_hook-code :
          (read_at : ReaderAt) (fuel m : ℕ)
          → IsSection content read_at
          → length content < 4 * fuel
          → length code ≡ suc m
          → absolutes m ≡ 1
          → absolutes (suc m) ≡ 2
          → get_hook fuel read_at off ≡ some (ok (assembled encode code))
      get_hook-code read_at fuel m section enough size one two =
          let counted = branches-absolutes m (omega arith) ∙ one in
          let both = branches-absolutes (suc m) (omega arith) ∙ two in
          let all = length-append before (assembled encode code ++ after) in
          let rest = length-append (assembled encode code) after in
          let whole = assembled-length encode code in
          let words : 4 * suc m ≡ length (assembled encode code) = omega arith in
          let start : drop off content ≡ assembled encode code ++ after =
            subst (λ n. drop n content ≡ assembled encode code ++ after) (omega arith)
              (drop-append before (assembled encode code ++ after) 0) in
          get_hook-branches content read_at section off fuel m enough (omega arith) counted
            (ground (arith, counted, both))
          ∙ ap (λ xs. some (ok xs))
              (ap (take (4 * suc m)) start
                ∙ ap (λ n. take n (assembled encode code ++ after)) words
                ∙ take-append (assembled encode code) after)

    -- Let the words of the assembler have the opcodes and the low bits of the PowerPC manual, and let
    -- the code of a game's script hook stand anywhere in the section. With fuel for more rounds than
    -- the section has words, `GetHook` gives exactly the bytes of that code: every instruction of the
    -- hook, and nothing of what follows.
    pub get_hook-script_hook :
        (game : GameNumber) (before after : Bytes) (read_at : ReaderAt) (fuel : ℕ)
        → game ≢ game_unknown
        → IsSection (before ++ (assembled encode (script_hook game) ++ after)) read_at
        → length (before ++ (assembled encode (script_hook game) ++ after)) < 4 * fuel
        → get_hook fuel read_at (length before) ≡ some (ok (assembled encode (script_hook game)))
    get_hook-script_hook game before after read_at fuel known section enough =
        by_game game (script_hook-Fits encode law game) known section enough
      where
        by_game :
            (g : GameNumber)
            → All (Fits encode law) (script_hook g)
            → g ≢ game_unknown
            → IsSection (before ++ (assembled encode (script_hook g) ++ after)) read_at
            → length (before ++ (assembled encode (script_hook g) ++ after)) < 4 * fuel
            → get_hook fuel read_at (length before) ≡ some (ok (assembled encode (script_hook g)))
        by_game game_unknown fit named here size = absurd (named refl)
        by_game game_lbp1 fit named here size =
            get_hook-code before after (script_hook game_lbp1) fit read_at fuel 7 here size refl
              refl refl
        by_game game_lbp2 fit named here size =
            get_hook-code before after (script_hook game_lbp2) fit read_at fuel 5 here size refl
              refl refl
        by_game game_lbp3 fit named here size =
            get_hook-code before after (script_hook game_lbp3) fit read_at fuel 6 here size refl
              refl refl
        by_game game_lbp3_jp fit named here size =
            get_hook-code before after (script_hook game_lbp3_jp) fit read_at fuel 6 here size refl
              refl refl
