-- ===== src/Start/Layout.antt =====
-- Who owns an address: the linker and the stack give each object of the module addresses of its own.
use patchwork.Prelude.{
  ℕ, ◌+◌, ◌-◌, ◌<◌, ◌≡◌, ◌≢◌, refl, sym, ap, ◌∙◌, inl, inr, Bool, false, ◌||◌, List, [], ◌∷◌, ◌++◌,
  ◌==◌, length, ltb, leb, Bool-cases, arith,
}
use patchwork.Memory.{Memory, Outside, load_pointer, load_pointer_bytes}
use patchwork.Text.Strings.{IsString, IsString-bytes}

-- The object is one of these.
abbrev pub touches : List ℕ → ℕ → Bool
touches [] k = false
touches (x ∷ xs) k = x == k || touches xs k

pub touches-append : (xs ys : List ℕ) (k : ℕ) → touches (xs ++ ys) k ≡ touches xs k || touches ys k
touches-append [] ys k = refl
touches-append (x ∷ xs) ys k = ground (arith, touches-append xs ys k)

module _ (owner : ℕ → ℕ) where
  -- The object has `n` bytes from `start`.
  abbrev pub Owned : ℕ → ℕ → ℕ → Type 0
  Owned start n object = (i : ℕ) → i < n → owner (start + i) ≡ object

  -- No byte changes but those of the objects.
  abbrev pub Changes : List ℕ → Memory → Memory → Type 0
  Changes objects m m' = (a : ℕ) → touches objects (owner a) ≡ false → m' a ≡ m a

  pub Owned-Outside :
      (start n object a : ℕ) → Owned start n object → owner a ≢ object → Outside a start n
  Owned-Outside start n object a owned other = elim (Bool-cases (ltb a start)) [
    | inl below ↦ inl (ground arith)
    | inr above ↦ elim (Bool-cases (leb (start + n) a)) [
      | inl beyond ↦ inr (ground arith)
      | inr inside ↦
          let at : start + (a - start) ≡ a = ground arith in
          absurd (other (ap owner (sym at) ∙ owned (a - start) (ground arith)))
    ]
  ]

  pub Changes-trans :
      (xs ys : List ℕ) (m m' m'' : Memory)
      → Changes xs m m'
      → Changes ys m' m''
      → Changes (xs ++ ys) m m''
  Changes-trans xs ys m m' m'' first second a off =
      let both = touches-append xs ys (owner a) in second a (ground arith) ∙ first a (ground arith)

  -- What an object holds stays if the object is not among those that change.
  pub kept :
      (objects : List ℕ) (m m' : Memory) (start n object : ℕ)
      → Changes objects m m'
      → touches objects object ≡ false
      → Owned start n object
      → (i : ℕ) → i < n
      → m' (start + i) ≡ m (start + i)
  kept objects m m' start n object changes off owned i below =
      changes (start + i) (ap (touches objects) (owned i below) ∙ off)

  pub load_pointer-kept :
      (objects : List ℕ) (m m' : Memory) (start object : ℕ)
      → Changes objects m m'
      → touches objects object ≡ false
      → Owned start 4 object
      → load_pointer m' start ≡ load_pointer m start
  load_pointer-kept objects m m' start object changes off owned =
      load_pointer_bytes m' m start start (kept objects m m' start 4 object changes off owned)

  pub IsString-kept :
      (objects : List ℕ) (m m' : Memory) (start object : ℕ) (cs : List ℕ)
      → Changes objects m m'
      → touches objects object ≡ false
      → Owned start (length cs + 1) object
      → IsString m start cs
      → IsString m' start cs
  IsString-kept objects m m' start object cs changes off owned here =
      IsString-bytes m m' start start cs
        (λ i below.
          kept objects m m' start (length cs + 1) object changes off owned i (omega arith))
        here
