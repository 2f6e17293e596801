-- ===== src/Hooks/Assembly/ForceJoin/Exits.antt =====
-- Where the code of each game's patch ends: who is let in.
use Prim.Native.Nat.{bit_or}
use patchwork.Prelude.{
  ℕ, ◌+◌, ◌*◌, ◌-◌, ◌/◌, ◌%◌, ◌^◌, Option, none, ◌≡◌, refl, Bool, not, ◌&&◌, ◌||◌, some, ◌==◌,
  if◌then◌else◌, ltb, arith,
}
use patchwork.Memory.{Memory, load_pointer}
use patchwork.Hooks.Assembly.{
  Cpu, Callee, compare_word, set_gpr, set_cr, is_eq, is_gt, rotate_word, run, execute, step,
}
use patchwork.Hooks.Assembly.Words.{bit_or_same}
use patchwork.Hooks.Assembly.ForceJoin.{lbp1_force_join}
use patchwork.Hooks.Offsets.{lbp1_forcejoin_patch_offset}

-- The address at which a run leaves the code.
abbrev pub exit_of : Option (ℕ × Cpu) → Option ℕ
exit_of none = none
exit_of (some (a, c)) = some a

-- That address, and the memory then.
abbrev pub end_of : Option (ℕ × Cpu) → Option (ℕ × Memory)
end_of none = none
end_of (some (a, c)) = some (a, c.memory)

-- The low 32 bits of a register are not 0.
abbrev pub is_set : ℕ → Bool
is_set x = not (x % 2 ^ 32 == 0)

-- Positive as a signed 32-bit number.
abbrev pub is_positive : ℕ → Bool
is_positive x = ltb 0 (x % 2 ^ 32) && ltb (x % 2 ^ 32) (2 ^ 31)

abbrev pub low_byte : ℕ → ℕ
low_byte x = rotate_word x 0 % 2 ^ (32 - 0x18) / 2 ^ (31 - 0x1f) * 2 ^ (31 - 0x1f)

pub compare_low_byte : (x : ℕ) → is_eq (compare_word (low_byte x) 0) ≡ (x % 256 == 0)
compare_low_byte x = ground arith

pub compare_zero : (x : ℕ) → is_eq (compare_word x 0) ≡ (x % 2 ^ 32 == 0)
compare_zero x = ground arith

pub compare_positive : (x : ℕ) → is_gt (compare_word x 0) ≡ is_positive x
compare_positive x = ground arith

module _ (call : Callee) (c : Cpu) where
  -- What a game's code makes of a request to join: the call for the friend's entry has the manager of
  -- friends, the player who asks and a null pointer as arguments, and finds memory as it was.
  pub record IsAsked (manager source : ℕ) (asked : Cpu) : Type 0 where
    pub manager_given : asked.gpr 3 ≡ manager
    pub source_given : asked.gpr 4 ≡ source
    pub null_given : asked.gpr 5 ≡ 0
    pub same_memory : asked.memory ≡ c.memory

  abbrev pub manager_lbp1 : ℕ
  manager_lbp1 = load_pointer c.memory ((load_pointer c.memory 0x86d930 + 0x18) % 2 ^ 64)

  abbrev pub manager_lbp2 : ℕ
  manager_lbp2 = load_pointer c.memory ((load_pointer c.memory 0xd9b35c + 0x1c) % 2 ^ 64)

  abbrev asking_lbp1 : Cpu
  asking_lbp1 =
      let low = low_byte (c.gpr 25) in
      let tested = set_cr (set_gpr c 0 low) 7 (compare_word low 0) in
      let loaded = set_gpr (set_gpr tested 3 0x860000) 3 0x86d930 in
      let pointed = set_gpr loaded 3 (load_pointer c.memory 0x86d930) in
      set_gpr (set_gpr (set_gpr pointed 3 manager_lbp1) 4 (bit_or (c.gpr 27) (c.gpr 27))) 5 0

  abbrev pub asking_lbp2 : Cpu
  asking_lbp2 =
      let low = low_byte (c.gpr 23) in
      let tested = set_cr (set_gpr c 0 low) 7 (compare_word low 0) in
      let loaded = set_gpr (set_gpr tested 3 0xd90000) 3 0xd9b35c in
      let pointed = set_gpr loaded 3 (load_pointer c.memory 0xd9b35c) in
      set_gpr (set_gpr (set_gpr pointed 3 manager_lbp2) 4 (bit_or (c.gpr 27) (c.gpr 27))) 5 0

  abbrev pub invited_lbp1 : Cpu → Bool
  invited_lbp1 found =
      is_set (found.gpr 3) && is_set (load_pointer found.memory ((found.gpr 3 + 0x108) % 2 ^ 64))

  abbrev pub invited_lbp2 : Cpu → Bool
  invited_lbp2 found =
      is_set (found.gpr 3)
      && is_positive (load_pointer found.memory ((found.gpr 3 + 0xe8) % 2 ^ 64))

  -- The code of the first game's patch, at its place in the game, comes to an end: where the request
  -- is accepted if a local player joins, or if the entry that the game finds for the player who asks
  -- is not null and says that the player is invited, by any bit pattern but 0; and else where it is
  -- refused.
  pub lbp1_force_join-accepts :
      (asked : Cpu) × IsAsked manager_lbp1 (c.gpr 27) asked
      × (exit_of (execute call lbp1_forcejoin_patch_offset lbp1_force_join c)
          ≡ some (
              if not (c.gpr 25 % 256 == 0) || invited_lbp1 (call 0x128b8c asked)
              then 0x3ab74c
              else 0x3ab808))
  unfolding execute run step
  lbp1_force_join-accepts =
      let found = call 0x128b8c asking_lbp1 in
      (
        asking_lbp1,
        record {
          manager_given = refl;
          source_given = bit_or_same (c.gpr 27);
          null_given = refl;
          same_memory = refl;
        },
        ground (
          arith,
          compare_low_byte (c.gpr 25),
          compare_zero (found.gpr 3),
          compare_zero (load_pointer found.memory ((found.gpr 3 + 0x108) % 2 ^ 64)),
        ),
      )
