-- ===== src/Text.antt =====
-- C strings in memory, and `TrimEnd` and `ReplaceNext` of src/tools/util.c.
-- A walk over a string has a fuel, since nothing but its NUL ends it: `none` means that no NUL was
-- met within the fuel. A string of `n` characters takes `n + 1` rounds.
pub mod Strings
pub mod Trim
pub mod Replace
use mathlib.Core.Option
use patchwork.Prelude.{ℕ, zero, suc, ◌+◌, ◌-◌, Bool, true, false, ◌&&◌, ◌||◌, Option, none, some}
use patchwork.Prelude.{◌==◌, leb, if◌then◌else◌}
use patchwork.Memory.{Memory, store}

-- `strlen` of the C library.
unfoldable pub strlen : ℕ → Memory → ℕ → Option ℕ
strlen zero m p = none
strlen (suc fuel) m p = elim (m p == 0) [
  | true ↦ some 0
  | false ↦ Option.map suc (strlen fuel m (p + 1))
]

-- `isspace` of the C library, in the C locale: a space, or one of the codes 9 to 13.
unfoldable pub is_space : ℕ → Bool
is_space c = c == 32 || (leb 9 c && leb c 13)

-- `while (end > str && isspace(*end)) end--`, from `end = str + n`; the result is `end - str`.
unfoldable pub trim_loop : Memory → ℕ → ℕ → ℕ
trim_loop m str zero = zero
trim_loop m str (suc n) = elim (is_space (m (str + suc n))) [
  | true ↦ trim_loop m str n
  | false ↦ suc n
]

-- The memory after the call; the result of the call is `str`.
unfoldable pub trim_end : ℕ → Memory → ℕ → Option Memory
unfolding strlen trim_loop is_space
trim_end fuel m str =
    if str == 0
    then some m
    else if m str == 0
    then some m
    else Option.map (λ len. store m (str + trim_loop m str (len - 1) + 1) 0) (strlen fuel m str)

-- The memory after the call. The pointer stands for `str + i`.
unfoldable pub replace_next : ℕ → Memory → ℕ → ℕ → ℕ → Option Memory
replace_next zero m p target c = none
replace_next (suc fuel) m p target c =
    let rest = replace_next fuel m (p + 1) target c in
    if m p == target then some (store m p c) else if m p == 0 then some m else rest
