-- ===== src/Generator/Dict.antt =====
-- Go's maps with strings for keys, as lists of entries; a key has at most one.
use patchwork.Prelude.{
  ℕ, ◌≡◌, ◌↔◌, refl, ◌∙◌, Bool, true, false, ◌&&◌, Option, none, some, List, [], ◌∷◌, ◌==◌,
  if◌then◌else◌, arith,
}

-- `==` of strings
abbrev pub equal : List ℕ → List ℕ → Bool
equal [] [] = true
equal [] (y ∷ ys) = false
equal (x ∷ xs) [] = false
equal (x ∷ xs) (y ∷ ys) = x == y && equal xs ys

pub equal_iff : (xs ys : List ℕ) → (equal xs ys ≡ true) ↔ (xs ≡ ys)
equal_iff [] [] = (λ _. refl, λ _. refl)
equal_iff [] (y ∷ ys) = (λ h. cc, λ h. cc)
equal_iff (x ∷ xs) [] = (λ h. cc, λ h. cc)
equal_iff (x ∷ xs) (y ∷ ys) = ground (arith, equal_iff xs ys)

pub equal_refl : (xs : List ℕ) → equal xs xs ≡ true
equal_refl xs = (equal_iff xs xs).1 refl

abbrev pub Dict : Type 0 → Type 0
Dict V = List (List ℕ × V)

module _ {V : Type 0} where
  -- `d[k]`
  unfoldable pub lookup : List ℕ → Dict V → Option V
  lookup k [] = none
  lookup k ((j, v) ∷ d) = if equal k j then some v else lookup k d

  -- `d[k] = v`
  unfoldable pub insert : List ℕ → V → Dict V → Dict V
  insert k v [] = (k, v) ∷ []
  insert k v ((j, w) ∷ d) = if equal k j then (k, v) ∷ d else (j, w) ∷ insert k v d

  pub lookup-insert :
      (j k : List ℕ) (v : V) (d : Dict V)
      → lookup j (insert k v d) ≡ (if equal j k then some v else lookup j d)
  unfolding insert lookup
  lookup-insert j k v [] = refl
  lookup-insert j k v ((i, w) ∷ d) =
      ground (arith, lookup-insert j k v d, equal_iff k i, equal_iff j k, equal_iff j i)

pub lookup-only : {V : Type 0} (k : List ℕ) (v : V) → lookup k (insert k v []) ≡ some v
lookup-only k v = lookup-insert k k v [] ∙ rw (equal_refl k) refl
