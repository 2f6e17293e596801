-- ===== src/Tests/Text.antt =====
-- Strings in memory.
use patchwork.Prelude.{
  ℕ, ◌+◌, ◌-◌, ◌≡◌, ◌≢◌, ◌⊎◌, ◌≤◌, ◌<◌, some, none, List, get_elem?, length, codes, arith,
}
use patchwork.Memory.{Memory}
use patchwork.Text.{trim_end, replace_next}
use patchwork.Text.Strings.{IsString}
use patchwork.Text.Trim.{strip_rest, trim_end-strip_rest}
use patchwork.Text.Replace.{replace_first, replace_next-replace_first}

-- The bytes of a string from 0x100 on, and 0 elsewhere.
at_100 : List ℕ → Memory
at_100 xs a = elim (get_elem? xs (a - 0x100)) [ none ↦ 0 | some b ↦ b ]

key : IsString (at_100 (codes "key \n")) 0x100 (codes "key \n")
unfolding at_100
key = omega arith

message : IsString (at_100 (codes "LBPX X")) 0x100 (codes "LBPX X")
unfolding at_100
message = omega arith

trim_end-strip_rest_example :
    (m' : Memory) × (trim_end 9 (at_100 (codes "key \n")) 0x100 ≡ some m')
    × IsString m' 0x100 (strip_rest (codes "key \n"))
    × ((a : ℕ)
        → a ≢ 0x100 + length (strip_rest (codes "key \n"))
        → m' a ≡ at_100 (codes "key \n") a)
trim_end-strip_rest_example =
    trim_end-strip_rest 9 (at_100 (codes "key \n")) 0x100 (codes "key \n") (omega arith)
      (omega arith) key

replace_next-replace_first_example :
    (m' : Memory) × (replace_next 9 (at_100 (codes "LBPX X")) 0x100 b'X' b'3' ≡ some m')
    × IsString m' 0x100 (replace_first b'X' b'3' (codes "LBPX X"))
    × ((a : ℕ)
        → (a < 0x100) ⊎ (0x100 + length (codes "LBPX X") ≤ a)
        → m' a ≡ at_100 (codes "LBPX X") a)
replace_next-replace_first_example =
    replace_next-replace_first 9 (at_100 (codes "LBPX X")) 0x100 b'X' b'3' (codes "LBPX X")
      (omega arith) (omega arith) (omega arith) message
