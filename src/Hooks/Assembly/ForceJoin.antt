-- ===== src/Hooks/Assembly/ForceJoin.antt =====
-- src/hooks/forcejoin-patch.s: the code that lets only players join whom the player has invited.
pub mod Exits
pub mod Dealt
pub mod Answered
use patchwork.Prelude.{ℕ, List, [], ◌∷◌}
use patchwork.Hooks.Assembly.{
  Instruction, lwz, cmpwi, beq, bne, bgt, b, bla, rlwinm, rldicl, li, lis, ori, or, subic, forward,
  backward,
}
use patchwork.Hooks.Offsets.{
  lbp1_forcejoin_patch_offset, lbp2_forcejoin_patch_offset, lbp3_forcejoin_patch_offset,
  lbp3_jp_forcejoin_patch_offset, lbp1_forcejoin_patch_length, lbp2_forcejoin_patch_length,
  lbp3_forcejoin_patch_length, lbp3_jp_forcejoin_patch_length,
}
use patchwork.Hooks.Game.{GameNumber, game_unknown, game_lbp1, game_lbp2, game_lbp3, game_lbp3_jp}

abbrev pub lbp1_force_join : List Instruction
lbp1_force_join =
    rlwinm 0 25 0x0 0x18 0x1f
    ∷ cmpwi 7 0 0x0
    ∷ bne 7 (forward 0x3b)
    ∷ lis 3 0x86
    ∷ ori 3 3 0xd930
    ∷ lwz 3 0x0 3
    ∷ lwz 3 0x18 3
    ∷ or 4 27 27
    ∷ li 5 0x0
    ∷ bla 0x128b8c
    ∷ cmpwi 7 3 0x0
    ∷ beq 7 (forward 0xd3)
    ∷ lwz 6 0x108 3
    ∷ cmpwi 7 6 0x0
    ∷ beq 7 (forward 0xc7)
    ∷ ori 0 0 0x0
    ∷ []

abbrev pub lbp2_force_join : List Instruction
lbp2_force_join =
    rlwinm 0 23 0x0 0x18 0x1f
    ∷ cmpwi 7 0 0x0
    ∷ bne 7 (forward 0x73)
    ∷ lis 3 0xd9
    ∷ ori 3 3 0xb35c
    ∷ lwz 3 0x0 3
    ∷ lwz 3 0x1c 3
    ∷ or 4 27 27
    ∷ li 5 0x0
    ∷ bla 0x264148
    ∷ cmpwi 7 3 0x0
    ∷ beq 7 (forward 0x10)
    ∷ lwz 6 0xe8 3
    ∷ cmpwi 7 6 0x0
    ∷ bgt 7 (forward 0x43)
    ∷ rldicl 3 25 0x0 0x20
    ∷ rldicl 4 28 0x0 0x20
    ∷ or 5 27 27
    ∷ li 6 0x0
    ∷ li 7 0x0
    ∷ li 8 0xc
    ∷ bla 0x285914
    ∷ rlwinm 3 3 0x0 0x18 0x1f
    ∷ cmpwi 7 3 0x0
    ∷ bne 7 (backward 0xf0)
    ∷ rldicl 3 25 0x0 0x20
    ∷ rldicl 4 28 0x0 0x20
    ∷ or 5 27 27
    ∷ bla 0x282440
    ∷ b (backward 0x104)
    ∷ []

-- The two versions of the third game differ in the address of the friends' manager, in two halves,
-- and in the two functions that are called.
abbrev pub lbp3_version : ℕ → ℕ → ℕ → ℕ → List Instruction
lbp3_version manager_high manager_low find deal =
    cmpwi 0 28 0x0
    ∷ bne 0 (forward 0x33)
    ∷ lis 3 manager_high
    ∷ subic 3 3 manager_low
    ∷ lwz 3 0x1c 3
    ∷ or 4 31 31
    ∷ li 5 0x0
    ∷ bla find
    ∷ cmpwi 0 3 0x0
    ∷ beq 0 (forward 0x1b)
    ∷ lwz 3 0xf0 3
    ∷ cmpwi 0 3 0x0
    ∷ beq 0 (forward 0xf)
    ∷ li 26 0x1
    ∷ b (forward 0x8)
    ∷ li 26 0x0
    ∷ ori 3 29 0x0
    ∷ ori 4 30 0x0
    ∷ ori 5 31 0x0
    ∷ ori 6 28 0x0
    ∷ or 7 26 26
    ∷ li 8 0xd
    ∷ li 9 0x6
    ∷ bla deal
    ∷ cmpwi 0 26 0x0
    ∷ bne 0 (forward 0x33)
    ∷ cmpwi 0 3 0x0
    ∷ bne 0 (forward 0x2b)
    ∷ []

abbrev pub lbp3_force_join : List Instruction
lbp3_force_join = lbp3_version 0xf8 0x5a80 0x2eb594 0x305090

abbrev pub lbp3_jp_force_join : List Instruction
lbp3_jp_force_join = lbp3_version 0xf6 0x6000 0x2e821c 0x3018a8

abbrev pub force_join : GameNumber → List Instruction
force_join game_unknown = []
force_join game_lbp1 = lbp1_force_join
force_join game_lbp2 = lbp2_force_join
force_join game_lbp3 = lbp3_force_join
force_join game_lbp3_jp = lbp3_jp_force_join

-- Where the patch is put, and how many bytes of it.
abbrev pub force_join_offset : GameNumber → ℕ
force_join_offset game_unknown = 0
force_join_offset game_lbp1 = lbp1_forcejoin_patch_offset
force_join_offset game_lbp2 = lbp2_forcejoin_patch_offset
force_join_offset game_lbp3 = lbp3_forcejoin_patch_offset
force_join_offset game_lbp3_jp = lbp3_jp_forcejoin_patch_offset

abbrev pub force_join_length : GameNumber → ℕ
force_join_length game_unknown = 0
force_join_length game_lbp1 = lbp1_forcejoin_patch_length
force_join_length game_lbp2 = lbp2_forcejoin_patch_length
force_join_length game_lbp3 = lbp3_forcejoin_patch_length
force_join_length game_lbp3_jp = lbp3_jp_forcejoin_patch_length
