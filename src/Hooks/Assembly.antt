-- ===== src/Hooks/Assembly.antt =====
-- src/hooks/script-block.s and src/hooks/forcejoin-patch.s: the code that runs inside the games,
-- as a list of the source's instructions, over the processor's registers.
-- An instruction does what the PowerPC manual says: general registers have 64 bits, `cmpwi` compares
-- the low 32 bits as signed numbers, and a branch with a number drops the two lowest bits of it, as
-- the assembler does. Left out are the link register, and the carry that `subic` leaves, which no
-- instruction here reads. The games' own functions, which `bla` calls, are a parameter.
pub mod Words
pub mod ScriptBlock
pub mod ForceJoin
pub mod Patched
use Prim.Native.Nat.{Ordering, compare, lt, eq, gt, bit_or}
use patchwork.Prelude.{
  ℕ, zero, suc, ◌+◌, ◌-◌, ◌*◌, ◌/◌, ◌%◌, ◌^◌, Bool, true, false, not, Option, none, some, List,
  ◌==◌, ltb, leb, if◌then◌else◌, length, get_elem?,
}
use patchwork.Memory.{Memory, load_pointer}

-- Where a branch goes: so many bytes after or before itself, to a label that stands so many bytes
-- from the start of the code, or to an address.
pub data Target : Type 0 where
  forward backward label absolute : ℕ → Target

-- The operands stand in the order of the source: `lwz r3, 0x18(r3)` is `lwz 3 0x18 3`, and
-- `cmpwi r3, 0` is `cmpwi 0 3 0`.
pub data Instruction : Type 0 where
  lwz lbz : ℕ → ℕ → ℕ → Instruction
  cmpwi : ℕ → ℕ → ℕ → Instruction
  beq bne bgt : ℕ → Target → Instruction
  b : Target → Instruction
  bla : ℕ → Instruction
  clrldi : ℕ → ℕ → ℕ → Instruction
  rlwinm : ℕ → ℕ → ℕ → ℕ → ℕ → Instruction
  rldicl : ℕ → ℕ → ℕ → ℕ → Instruction
  li lis : ℕ → ℕ → Instruction
  ori or subic : ℕ → ℕ → ℕ → Instruction

pub record Cpu : Type 0 where
  pub gpr : ℕ → ℕ
  pub cr : ℕ → Ordering
  pub memory : Memory

abbrev pub set_gpr : Cpu → ℕ → ℕ → Cpu
set_gpr c r v = record c { gpr = λ k. if k == r then v else c.gpr k }

abbrev pub set_cr : Cpu → ℕ → Ordering → Cpu
set_cr c f o = record c { cr = λ k. if k == f then o else c.cr k }

-- `d(ra)`, where `r0` stands for 0.
abbrev pub effective_address : Cpu → ℕ → ℕ → ℕ
effective_address c d ra = ((if ra == 0 then 0 else c.gpr ra) + d) % 2 ^ 64

-- The low 32 bits against a small number that is not negative.
abbrev pub compare_word : ℕ → ℕ → Ordering
compare_word x imm = compare ((x + 2 ^ 31) % 2 ^ 32) (imm + 2 ^ 31)

abbrev pub rotate_word : ℕ → ℕ → ℕ
rotate_word x sh = (x % 2 ^ 32 * 2 ^ sh + x % 2 ^ 32 / 2 ^ (32 - sh)) % 2 ^ 32

abbrev pub rotate_doubleword : ℕ → ℕ → ℕ
rotate_doubleword x sh = (x % 2 ^ 64 * 2 ^ sh + x % 2 ^ 64 / 2 ^ (64 - sh)) % 2 ^ 64

-- `imm` is a 16-bit pattern; `lis` shifts it and extends its sign.
abbrev pub shifted_immediate : ℕ → ℕ
shifted_immediate imm = if ltb imm (2 ^ 15) then imm * 2 ^ 16 else 2 ^ 64 + imm * 2 ^ 16 - 2 ^ 32

-- Where the execution goes on: at an instruction of the code, or outside it at an address.
pub data Next : Type 0 where
  at leave : ℕ → Next

-- At so many bytes from the start of the code.
abbrev pub at_offset : ℕ → ℕ → ℕ → Next
at_offset base size o = if ltb o (4 * size) then at (o / 4) else leave (base + o)

abbrev pub target_of : ℕ → ℕ → ℕ → Target → Next
target_of base size i (forward d) = at_offset base size (4 * i + d / 4 * 4)
target_of base size i (backward d) =
    if leb d (4 * i) then at_offset base size (4 * i - d) else leave (base + 4 * i - d)
target_of base size i (label o) = at_offset base size o
target_of base size i (absolute a) = leave a

abbrev pub is_eq : Ordering → Bool
is_eq lt = false
is_eq eq = true
is_eq gt = false

abbrev pub is_gt : Ordering → Bool
is_gt lt = false
is_gt eq = false
is_gt gt = true

-- What a called function of the game makes of the registers and of memory.
abbrev pub Callee : Type 0
Callee = ℕ → Cpu → Cpu

-- One instruction: the `i`-th of a code of so many, at a base address.
unfoldable pub step : Callee → ℕ → ℕ → ℕ → Instruction → Cpu → Cpu × Next
step call base size i (lwz rt d ra) c =
    (set_gpr c rt (load_pointer c.memory (effective_address c d ra)), at (i + 1))
step call base size i (lbz rt d ra) c =
    (set_gpr c rt (c.memory (effective_address c d ra)), at (i + 1))
step call base size i (cmpwi f ra imm) c = (set_cr c f (compare_word (c.gpr ra) imm), at (i + 1))
step call base size i (beq f t) c =
    (c, if is_eq (c.cr f) then target_of base size i t else at (i + 1))
step call base size i (bne f t) c =
    (c, if is_eq (c.cr f) then at (i + 1) else target_of base size i t)
step call base size i (bgt f t) c =
    (c, if is_gt (c.cr f) then target_of base size i t else at (i + 1))
step call base size i (b t) c = (c, target_of base size i t)
step call base size i (bla a) c = (call a c, at (i + 1))
step call base size i (clrldi ra rs n) c = (set_gpr c ra (c.gpr rs % 2 ^ (64 - n)), at (i + 1))
step call base size i (rlwinm ra rs sh mb me) c = (
  set_gpr c ra (rotate_word (c.gpr rs) sh % 2 ^ (32 - mb) / 2 ^ (31 - me) * 2 ^ (31 - me)),
  at (i + 1),
)
step call base size i (rldicl ra rs sh mb) c =
    (set_gpr c ra (rotate_doubleword (c.gpr rs) sh % 2 ^ (64 - mb)), at (i + 1))
step call base size i (li rt imm) c = (set_gpr c rt imm, at (i + 1))
step call base size i (lis rt imm) c = (set_gpr c rt (shifted_immediate imm), at (i + 1))
step call base size i (ori ra rs imm) c = (set_gpr c ra (bit_or (c.gpr rs) imm), at (i + 1))
step call base size i (or ra rs rb) c = (set_gpr c ra (bit_or (c.gpr rs) (c.gpr rb)), at (i + 1))
step call base size i (subic rt ra imm) c =
    (set_gpr c rt ((c.gpr ra + 2 ^ 64 - imm) % 2 ^ 64), at (i + 1))

-- From the `i`-th instruction on, until the code is left. `none` is that the fuel ran out.
unfoldable pub run : Callee → ℕ → ℕ → List Instruction → ℕ → Cpu → Option (ℕ × Cpu)
run call zero base code i c = none
run call (suc fuel) base code i c = elim (get_elem? code i) [
  | none ↦ some (base + 4 * i, c)
  | some instruction ↦
      let (c', next) = step call base (length code) i instruction c in
      elim next [ at j ↦ run call fuel base code j c' | leave a ↦ some (a, c') ]
]

-- The code as a whole, with fuel for each instruction once and for the end.
unfoldable pub execute : Callee → ℕ → List Instruction → Cpu → Option (ℕ × Cpu)
execute call base code c = run call (length code + 1) base code 0 c
