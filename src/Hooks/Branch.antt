-- ===== src/Hooks/Branch.antt =====
-- src/hooks/hooks.c: the branch instruction that redirects the game's code into a hook.
use patchwork.Prelude.{codes, ℕ, ◌+◌, ◌-◌, ◌/◌, ◌%◌, ◌^◌, ◌≤◌, ◌<◌, ◌≡◌, ◌↔◌, ◌⊎◌, [], ◌∷◌, arith}
use patchwork.Prelude.{ltb, if◌then◌else◌, ◌==◌, ◌&&◌, Option, none, some}
use patchwork.Message.{Message, number}

abbrev pub opcode_b : ℕ
opcode_b = 0x48000000

-- `PrintLn` is the parameter. Pointers and the result are `uint32_t`; `& 0x3FFFFFF` keeps the
-- low 26 bits.
unfoldable pub relative_branch : {W : Type 0} → (Message → W → W) → ℕ → ℕ → W → ℕ × W
relative_branch print_ln destination origin w = (
  (opcode_b + (destination + 2 ^ 32 - origin) % 2 ^ 32 % 2 ^ 26) % 2 ^ 32,
  print_ln
      (record {
        format = codes "Generating relative branch from %04X to %04X";
        arguments = number origin ∷ number destination ∷ [];
      })
      w,
)

-- What the processor does with an I-form word at `address`, by the PowerPC manual: the primary
-- opcode is 18, the two lowest bits (absolute, link) are clear, and the other 26 bits are a signed
-- distance. `none` is any other instruction.
abbrev pub branch_target : ℕ → ℕ → Option ℕ
branch_target word address =
    let distance = word % 2 ^ 26 in
    if word / 2 ^ 26 == 18 && word % 4 == 0
    then some (
        if ltb distance (2 ^ 25)
        then (address + distance) % 2 ^ 32
        else (address + 2 ^ 32 + distance - 2 ^ 26) % 2 ^ 32)
    else none

-- The destination is at most 32 MiB behind the origin and less than 32 MiB ahead of it, across
-- the wrap of the address space.
abbrev pub InReach : ℕ → ℕ → Type 0
InReach destination origin =
    let distance = (destination + 2 ^ 32 - origin) % 2 ^ 32 in
    (distance < 2 ^ 25) ⊎ (2 ^ 32 - 2 ^ 25 ≤ distance)

-- For word-aligned 32-bit addresses, the processor takes the instruction, at the origin, for a
-- branch to the destination exactly when the destination is in reach of a branch.
pub branch_target-relative_branch :
    {W : Type 0} (print_ln : Message → W → W) (destination origin : ℕ) (w : W)
    → destination < 2 ^ 32
    → origin < 2 ^ 32
    → destination % 4 ≡ 0
    → origin % 4 ≡ 0
    → (branch_target (relative_branch print_ln destination origin w).0 origin ≡ some destination)
      ↔ InReach destination origin
unfolding relative_branch
branch_target-relative_branch print_ln destination origin w d o ad ao = ground arith
