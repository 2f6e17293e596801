-- ===== src/Tests/Assembly.antt =====
-- Runs of the code inside the games.
use Prim.Native.Nat.{Ordering}
use patchwork.Prelude.{◌+◌, ◌%◌, ◌≡◌, ◌≢◌, refl, some, ◌==◌, not, ◌||◌, if◌then◌else◌, arith}
use patchwork.Memory.{Memory}
use patchwork.Hooks.Game.{game_unknown, game_lbp1, game_lbp2, patches_of}
use patchwork.Hooks.Apply.{apply_game_patches}
use patchwork.Hooks.Assembly.{Cpu, Callee, execute, run, step}
use patchwork.Hooks.Assembly.ScriptBlock.{Leaves, script_hook, script_hook-Leaves}
use patchwork.Hooks.Assembly.ForceJoin.{lbp1_force_join}
use patchwork.Hooks.Assembly.ForceJoin.Exits.{
  exit_of, IsAsked, manager_lbp1, invited_lbp1, lbp1_force_join-accepts,
}
use patchwork.Hooks.Assembly.ForceJoin.Answered.{IsAnswered, lbp2_force_join-IsAnswered}
use patchwork.Hooks.Assembly.ForceJoin.Dealt.{IsDealt, lbp3_version-IsDealt}
use patchwork.Hooks.Assembly.Patched.{apply_game_patches-force_join}
use patchwork.Hooks.Offsets.{lbp1_forcejoin_patch_offset}
use patchwork.Tests.Hooks.{symbols, quiet, lbp1_memory, above}

-- A resource of type 11 at address 64, and registers that point there.
abbrev script_memory : Memory
script_memory a = if a == 99 then 11 else 0

abbrev cpu : Cpu
cpu = record { gpr = λ k. 64; cr = λ k. Ordering.lt; memory = script_memory }

-- The game's functions return at once.
abbrev quick : Callee
quick a c = c

script_hook_run : exit_of (execute quick 0x2000200 (script_hook game_lbp2) cpu) ≡ some 0x153D3C
unfolding execute run step
script_hook_run = refl

known : game_lbp2 ≢ game_unknown
known e = absurd (ground arith)

script_hook-Leaves_example : Leaves quick 0x2000200 cpu game_lbp2
script_hook-Leaves_example = script_hook-Leaves quick 0x2000200 cpu game_lbp2 known (omega arith)

lbp1_force_join-accepts_example :
    (asked : Cpu) × IsAsked quick cpu (manager_lbp1 quick cpu) 64 asked
    × (exit_of (execute quick lbp1_forcejoin_patch_offset lbp1_force_join cpu)
        ≡ some (
            if not (64 % 256 == 0) || invited_lbp1 quick cpu (quick 0x128b8c asked)
            then 0x3ab74c
            else 0x3ab808))
lbp1_force_join-accepts_example = lbp1_force_join-accepts quick cpu

lbp2_force_join-IsAnswered_example : IsAnswered quick cpu
lbp2_force_join-IsAnswered_example = lbp2_force_join-IsAnswered quick cpu

lbp3_version-IsDealt_example :
    IsDealt quick 0xf8 0x5a80 0x2eb594 0x305090 0x30561C cpu (λ a x k low high. refl)
lbp3_version-IsDealt_example =
    lbp3_version-IsDealt quick 0xf8 0x5a80 0x2eb594 0x305090 0x30561C cpu (λ a x k low high. refl)

known_first : game_lbp1 ≢ game_unknown
known_first e = absurd (ground arith)

apply_game_patches-force_join_example :
    (apply_game_patches quiet (patches_of game_lbp1 symbols) (lbp1_memory, 7)).0
      (lbp1_forcejoin_patch_offset + 5)
    ≡ lbp1_memory (0x2000100 + 5)
apply_game_patches-force_join_example =
    apply_game_patches-force_join quiet symbols game_lbp1 lbp1_memory 7 5 known_first above
      (omega arith)
