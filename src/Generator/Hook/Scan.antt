-- ===== src/Generator/Hook/Scan.antt =====
-- Where `GetHook` stops: at the second word with the marks of a branch to an address, or at the end of the section.
use mathlib.Core.Path.{subst}
use native.Mathlib.Decide.{ℕ_discrete, dec_lt}
use patchwork.Prelude.{
  ℕ, zero, suc, ◌+◌, ◌*◌, ◌%◌, ◌^◌, ◌≤◌, ◌<◌, ◌≡◌, refl, sym, ap, ◌∙◌, ◌⊎◌, inl, inr, Bool, true,
  false, ◌||◌, some, [], ◌++◌, if◌then◌else◌, length, take, drop, take-add, drop-drop, length-take,
  length-drop, ◌&&◌, arith,
}
use patchwork.Generator.{Bytes, ok, failed, ReaderAt, Fueled}
use patchwork.Generator.Hook.Mask.{is_marked, is_branch-is_marked}
use patchwork.Generator.Hook.{is_branch, get_hook_loop, get_hook}

-- What the code relies on of a section's reader: inside the section it delivers the bytes, and past
-- its end, or at a negative offset, it returns an error.
pub record IsSection (content : Bytes) (read_at : ReaderAt) : Type 0 where
  pub inside :
      (i n : ℕ)
      → i + n ≤ length content
      → read_at i n ≡ record { bytes = take n (drop i content); is_error = false }
  pub beyond : (i n : ℕ) → length content < i + n → (read_at i n).is_error ≡ true
  pub small : length content + 4 < 2 ^ 64

abbrev pub word_at : Bytes → ℕ → Bytes
word_at content i = take 4 (drop i content)

-- How many of the first `n` words from an offset on have those marks.
abbrev pub branches : Bytes → ℕ → ℕ → ℕ
branches content off zero = 0
branches content off (suc n) =
    branches content off n + (if is_marked (word_at content (off + 4 * n)) then 1 else 0)

module _ (content : Bytes) (read_at : ReaderAt) (section : IsSection content read_at)
    (off : ℕ) where
  -- Either the words up to the second marked one, or an error where there are fewer.
  pub record IsHook (r : Fueled Bytes) : Type 0 where
    pub outcome :
        ((n : ℕ) × (r ≡ some (ok (take (4 * suc n) (drop off content))))
          × (off + 4 * suc n ≤ length content)
          × (branches content off n ≡ 1)
          × (is_marked (word_at content (off + 4 * n)) ≡ true))
        ⊎ ((r ≡ some failed)
            × ((n : ℕ) → off + 4 * n ≤ length content → branches content off n ≤ 1))

  branches-le : (k n : ℕ) → k ≤ n → branches content off k ≤ branches content off n
  branches-le k zero h = ground arith
  branches-le k (suc n) h = elim (ℕ_discrete k (suc n)) [
    | yes e ↦ rw e (omega arith)
    | no ne ↦ omega (arith, branches-le k n (omega arith))
  ]

  module _ (k : ℕ) where
    abbrev i : ℕ
    i = off + 4 * k

    abbrev word : Bytes
    word = word_at content i

    abbrev read_so_far : Bytes
    read_so_far = take (4 * k) (drop off content)

    word-length : i + 4 ≤ length content → length word ≡ 4
    word-length within = omega (arith, length-take 4 (drop i content), length-drop i content)

    read_so_far-suc : read_so_far ++ word ≡ take (4 * suc k) (drop off content)
    read_so_far-suc =
        let next : 4 * k + 4 ≡ 4 * suc k = omega arith in
        ap (λ xs. read_so_far ++ take 4 xs) (sym (drop-drop off (4 * k) content))
        ∙ take-add (4 * k) 4 (drop off content)
        ∙ ap (λ n. take n (drop off content)) next

    module _ (fuel : ℕ) (found : Bool) where
      abbrev run : Fueled Bytes
      run = get_hook_loop (suc fuel) read_at i found read_so_far

      run_past : length content < i + 4 → run ≡ some failed
      unfolding get_hook_loop
      run_past past = let e = section.beyond i 4 past in ground (arith, e)

      run_within_branch :
          i + 4 ≤ length content
          → run ≡ (
              if is_branch word && found
              then some (ok (take (4 * suc k) (drop off content)))
              else get_hook_loop fuel read_at
                  (off + 4 * suc k)
                  (found || is_branch word)
                  (take (4 * suc k) (drop off content)))
      unfolding get_hook_loop
      run_within_branch within =
          let four = word-length within in
          let small = section.small in
          let next : (i + 4) % 2 ^ 64 ≡ off + 4 * suc k = omega arith in
          rw (section.inside i 4 within, next, read_so_far-suc) (ground arith)

      -- The test by the bits of the word.
      run_within :
          i + 4 ≤ length content
          → run ≡ (
              if is_marked word && found
              then some (ok (take (4 * suc k) (drop off content)))
              else get_hook_loop fuel read_at
                  (off + 4 * suc k)
                  (found || is_marked word)
                  (take (4 * suc k) (drop off content)))
      run_within within =
          subst
            (λ b. run ≡ (
              if b && found
              then some (ok (take (4 * suc k) (drop off content)))
              else get_hook_loop fuel read_at (off + 4 * suc k) (found || b)
                  (take (4 * suc k) (drop off content))))
            (is_branch-is_marked word) (run_within_branch within)

  abbrev Continues : ℕ → Type 0
  Continues fuel =
      (k : ℕ) (found : Bool)
      → 0 < fuel
      → length content < off + 4 * k + 4 * fuel
      → branches content off k ≡ (if found then 1 else 0)
      → IsHook (get_hook_loop fuel read_at (off + 4 * k) found (take (4 * k) (drop off content)))

  after_word :
      (fuel k : ℕ) (found branch : Bool)
      → is_marked (word k) ≡ branch
      → Continues fuel
      → off + 4 * k + 4 ≤ length content
      → length content < off + 4 * k + 4 * suc fuel
      → branches content off k ≡ (if found then 1 else 0)
      → IsHook (run k fuel found)
  after_word fuel k true true e next within enough counted =
      rw (run_within k fuel true within, e)
        (record { outcome = inl (k, refl, omega arith, counted, e) })
  after_word fuel k false true e next within enough counted =
      rw (run_within k fuel false within, e)
        (next (suc k) true (omega arith) (omega arith) (rw (e) (omega arith)))
  after_word fuel k true false e next within enough counted =
      rw (run_within k fuel true within, e)
        (next (suc k) true (omega arith) (omega arith) (rw (e) (omega arith)))
  after_word fuel k false false e next within enough counted =
      rw (run_within k fuel false within, e)
        (next (suc k) false (omega arith) (omega arith) (rw (e) (omega arith)))

  loop-IsHook : (fuel : ℕ) → Continues fuel
  loop-IsHook zero k found positive enough counted = absurd (omega arith)
  loop-IsHook (suc fuel) k found positive enough counted =
      elim (dec_lt (length content) (off + 4 * k + 4)) [
        | yes past ↦ rw (run_past k fuel found past) (record {
          outcome = inr (refl, λ n within. ground (arith, counted, branches-le n k (omega arith)));
        })
        | no within ↦
            after_word fuel k found (is_marked (word k)) refl (loop-IsHook fuel) (omega arith)
              enough counted
      ]

  -- Call a word marked if its second bit, its fifth and its last but one are 1 and its last is 0: so is
  -- every branch to an address without a link, but other instructions are marked too. Let the reader
  -- deliver the section, and let there be fuel for more rounds than it has words. Then `GetHook`
  -- returns: the words from the offset on up to the second marked one, this included; or an error, if
  -- the complete words from the offset on have fewer than two.
  pub get_hook-IsHook :
      (fuel : ℕ) → 0 < fuel → length content < 4 * fuel → IsHook (get_hook fuel read_at off)
  unfolding get_hook
  get_hook-IsHook fuel positive enough =
      let start : off + 4 * 0 ≡ off = omega arith in
      subst (λ i. IsHook (get_hook_loop fuel read_at i false [])) start
        (loop-IsHook fuel 0 false positive (omega arith) refl)

  -- There is only one such place.
  pub get_hook-branches :
      (fuel m : ℕ)
      → length content < 4 * fuel
      → off + 4 * suc m ≤ length content
      → branches content off m ≡ 1
      → is_marked (word_at content (off + 4 * m)) ≡ true
      → get_hook fuel read_at off ≡ some (ok (take (4 * suc m) (drop off content)))
  get_hook-branches fuel m enough within one last =
      let two : branches content off (suc m) ≡ 2 = rw (last) (omega arith) in
      elim (get_hook-IsHook fuel (omega arith) enough).outcome [
        | inl (n, e, inside, one', last') ↦
            let two' : branches content off (suc n) ≡ 2 = rw (last') (omega arith) in
            let same : n ≡ m = elim (dec_lt n m) [
              | yes below ↦ absurd (omega (arith, two', branches-le (suc n) m (omega arith)))
              | no not_below ↦ elim (dec_lt m n) [
                | yes above ↦ absurd (omega (arith, two, branches-le (suc m) n (omega arith)))
                | no not_above ↦ omega arith
              ]
            ] in
            e ∙ ap (λ k. some (ok (take (4 * suc k) (drop off content)))) same
        | inr (e, few) ↦ absurd (omega (arith, few (suc m) within, two))
      ]
