-- ===== src/Memory.antt =====
-- The address space that the module shares with the game: a byte for each address.
-- `memcpy` and a load of a pointer, as src/hooks/patches.c uses them. A pointer has 32 bits and
-- stands in memory with its highest byte first.
use patchwork.Prelude.{ℕ, ◌+◌, ◌-◌, ◌*◌, ◌/◌, ◌%◌, ◌^◌, ◌≤◌, ◌<◌, ◌≡◌, ◌⊎◌, ◌&&◌, arith}
use patchwork.Prelude.{◌==◌, ltb, leb, if◌then◌else◌}

abbrev pub Memory : Type 0
Memory = ℕ → ℕ

-- `memcpy(dst, src, n)`: the bytes of the source are those before the call.
unfoldable pub memcpy : Memory → ℕ → ℕ → ℕ → Memory
memcpy m dst src n a = if leb dst a && ltb a (dst + n) then m (src + (a - dst)) else m a

-- `*p = v` for a byte.
unfoldable pub store : Memory → ℕ → ℕ → Memory
store m p v a = if a == p then v else m a

-- `*(void **)p`
unfoldable pub load_pointer : Memory → ℕ → ℕ
load_pointer m p = m p * 2 ^ 24 + m (p + 1) * 2 ^ 16 + m (p + 2) * 2 ^ 8 + m (p + 3)

-- The address lies outside `n` bytes from `start`.
abbrev pub Outside : ℕ → ℕ → ℕ → Type 0
Outside a start n = (a < start) ⊎ (start + n ≤ a)

pub memcpy-Outside : (m : Memory) (dst src n a : ℕ) → Outside a dst n → memcpy m dst src n a ≡ m a
unfolding memcpy
memcpy-Outside m dst src n a h = ground arith

pub memcpy_inside :
    (m : Memory) (dst src n i : ℕ) → i < n → memcpy m dst src n (dst + i) ≡ m (src + i)
unfolding memcpy
memcpy_inside m dst src n i h = let e : dst + i - dst ≡ i = omega arith in rw e (ground arith)

-- `*p = v` for a 32-bit word, or for a pointer.
unfoldable pub store_word : Memory → ℕ → ℕ → Memory
store_word m p v a =
    if a == p
    then v / 2 ^ 24 % 256
    else if a == p + 1
    then v / 2 ^ 16 % 256
    else if a == p + 2
    then v / 2 ^ 8 % 256
    else if a == p + 3
    then v % 256
    else m a

pub load_pointer-store_word :
    (m : Memory) (p v : ℕ) → v < 2 ^ 32 → load_pointer (store_word m p v) p ≡ v
unfolding load_pointer store_word
load_pointer-store_word m p v h = ground arith

pub store_word-Outside : (m : Memory) (p v a : ℕ) → Outside a p 4 → store_word m p v a ≡ m a
unfolding store_word
store_word-Outside m p v a h = ground arith

pub load_pointer_bytes :
    (m n : Memory) (p q : ℕ)
    → ((i : ℕ) → i < 4 → m (p + i) ≡ n (q + i))
    → load_pointer m p ≡ load_pointer n q
unfolding load_pointer
load_pointer_bytes m n p q same =
    let first : m p ≡ n q = ground (arith, same 0 (omega arith)) in
    rw (first, same 1 (omega arith), same 2 (omega arith), same 3 (omega arith))
