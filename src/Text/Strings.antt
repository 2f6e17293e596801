-- ===== src/Text/Strings.antt =====
-- What it means that a string stands in memory.
use patchwork.Prelude.{ℕ, zero, suc, ◌+◌, ◌≤◌, ◌<◌, ◌≡◌, ◌≢◌, List, [], ◌∷◌, some}
use patchwork.Prelude.{length, take, arith}
use patchwork.Memory.{Memory, store}
use patchwork.Text.{strlen}

-- The characters stand from the address on, none of them is NUL, and a NUL follows.
abbrev pub IsString : Memory → ℕ → List ℕ → Type 0
IsString m p [] = m p ≡ 0
IsString m p (c ∷ cs) = (m p ≡ c) × (c ≢ 0) × IsString m (p + 1) cs

pub strlen-IsString :
    (fuel : ℕ) (m : Memory) (p : ℕ) (cs : List ℕ)
    → length cs < fuel
    → IsString m p cs
    → strlen fuel m p ≡ some (length cs)
unfolding strlen
strlen-IsString zero m p cs h s = absurd (omega arith)
strlen-IsString (suc fuel) m p [] h s = ground arith
strlen-IsString (suc fuel) m p (c ∷ cs) h (here, nonzero, rest) =
    ground (arith, strlen-IsString fuel m (p + 1) cs (omega arith) rest)

-- A NUL that is stored into a string cuts it there.
pub IsString-store_nul :
    (m : Memory) (p k a : ℕ) (cs : List ℕ)
    → k ≤ length cs
    → a ≡ p + k
    → IsString m p cs
    → IsString (store m a 0) p (take k cs)
unfolding store
IsString-store_nul m p zero a cs h e s = ground arith
IsString-store_nul m p (suc k) a [] h e s = absurd (omega arith)
IsString-store_nul m p (suc k) a (c ∷ cs) h e (here, nonzero, rest) =
    (ground arith, nonzero, IsString-store_nul m (p + 1) k a cs (omega arith) (omega arith) rest)

-- A store in front of a string leaves it alone.
pub IsString-store_before :
    (m : Memory) (p a v : ℕ) (cs : List ℕ) → a < p → IsString m p cs → IsString (store m a v) p cs
unfolding store
IsString-store_before m p a v [] h s = ground arith
IsString-store_before m p a v (c ∷ cs) h (here, nonzero, rest) =
    (ground arith, nonzero, IsString-store_before m (p + 1) a v cs (omega arith) rest)

-- The same bytes at another place are the same string.
pub IsString-bytes :
    (m n : Memory) (p q : ℕ) (cs : List ℕ)
    → ((i : ℕ) → i ≤ length cs → n (q + i) ≡ m (p + i))
    → IsString m p cs
    → IsString n q cs
IsString-bytes m n p q [] same s = ground (arith, same 0 (omega arith))
IsString-bytes m n p q (c ∷ cs) same (here, nonzero, rest) = (
  ground (arith, same 0 (omega arith)),
  nonzero,
  IsString-bytes m n (p + 1) (q + 1) cs (λ i below. ground (arith, same (suc i) (omega arith)))
      rest,
)
