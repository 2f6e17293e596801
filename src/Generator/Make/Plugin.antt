-- ===== src/Generator/Make/Plugin.antt =====
-- The plugin's ELF file, and what the games' definitions say of it.
use patchwork.Prelude.{
  ℕ, ◌+◌, ◌*◌, ◌^◌, ◌≤◌, ◌<◌, ◌≡◌, ◌≢◌, refl, some, List, [], ◌∷◌, length, codes, arith,
}
use patchwork.Hooks.Offsets.{lbp2_forcejoin_patch_offset}
use patchwork.Hooks.Game.{GameNumber, game_unknown, game_lbp1, game_lbp2, game_lbp3, game_lbp3_jp}
use patchwork.Hooks.Assembly.{Instruction}
use patchwork.Hooks.Assembly.ScriptBlock.{script_hook}
use patchwork.Hooks.Assembly.ForceJoin.{force_join, force_join_offset}
use patchwork.Start.Hooked.{check_of}
use patchwork.Generator.{Bytes, hook, overwrite, Patch, ReaderAt, Symbol, ElfFile}
use patchwork.Generator.Definitions.{definition_of}
use patchwork.Generator.Hook.Scan.{IsSection}
use patchwork.Generator.Hook.Encoded.{assembled}
use patchwork.Generator.Make.Rows.{named, StandsAt}

-- The symbols of the plugin's code for a game.
abbrev pub join_symbol : GameNumber → Bytes
join_symbol game_unknown = []
join_symbol game_lbp1 = codes "LBP1ForceJoinPatch"
join_symbol game_lbp2 = codes "LBP2ForceJoinPatch"
join_symbol game_lbp3 = codes "LBP3ForceJoinPatch"
join_symbol game_lbp3_jp = codes "LBP3JPForceJoinPatch"

abbrev pub script_symbol : GameNumber → Bytes
script_symbol game_unknown = []
script_symbol game_lbp1 = codes "LBP1ScriptHook"
script_symbol game_lbp2 = codes "LBP2ScriptHook"
script_symbol game_lbp3 = codes "LBP3ScriptHook"
script_symbol game_lbp3_jp = codes "LBP3JPScriptHook"

-- Where the code for joining is put: the place of src/offsets.h, but for LBP3 that of LBP2.
abbrev pub joined_at : GameNumber → ℕ
joined_at game_lbp3 = lbp2_forcejoin_patch_offset
joined_at game = force_join_offset game

abbrev pub join_patch : GameNumber → Patch
join_patch game = record {
  symbol = join_symbol game;
  len = length (force_join game);
  type = overwrite;
  offset = joined_at game;
}

abbrev pub script_patch : GameNumber → Patch
script_patch game = record {
  symbol = script_symbol game;
  len = 0;
  type = hook;
  offset = check_of game;
}

pub definition_of_patches :
    (game : GameNumber)
    → game ≢ game_unknown
    → (definition_of game).patches ≡ join_patch game ∷ script_patch game ∷ []
definition_of_patches game_unknown known = absurd (known refl)
definition_of_patches game_lbp1 known = refl
definition_of_patches game_lbp2 known = refl
definition_of_patches game_lbp3 known = refl
definition_of_patches game_lbp3_jp known = refl

-- The ELF file of the plugin: its symbols include each of a game's two once, and its section `.text`
-- holds the assembled code there. It has less than `fuel` words.
pub record IsPlugin (encode : Instruction → ℕ) (fuel : ℕ) (game : GameNumber) (elf : ElfFile)
    : Type 0 where
  pub syms : List Symbol
  pub read_at : ReaderAt
  pub content : Bytes
  pub has_symbols : elf.symbols ≡ some syms
  pub has_section : elf.section ≡ some read_at
  pub section : IsSection content read_at
  pub short : length content < 4 * fuel
  pub join : Symbol
  pub script : Symbol
  pub join_named : named (join_symbol game) syms ≡ join ∷ []
  pub script_named : named (script_symbol game) syms ≡ script ∷ []
  pub join_code : StandsAt content join.value (assembled encode (force_join game))
  pub script_code : StandsAt content script.value (assembled encode (script_hook game))

pub force_join_small :
    (game : GameNumber)
    → game ≢ game_unknown
    → (length (force_join game) ≢ 0)
      × (length (force_join game) < 100)
      × (joined_at game + 4 * length (force_join game) ≤ 2 ^ 32)
force_join_small game_unknown known = absurd (known refl)
force_join_small game_lbp1 known = (λ e. omega arith, omega arith, omega arith)
force_join_small game_lbp2 known = (λ e. omega arith, omega arith, omega arith)
force_join_small game_lbp3 known = (λ e. omega arith, omega arith, omega arith)
force_join_small game_lbp3_jp known = (λ e. omega arith, omega arith, omega arith)
