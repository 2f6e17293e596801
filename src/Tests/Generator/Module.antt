-- ===== src/Tests/Generator/Module.antt =====
-- An ELF file with the code of all games one after another.
use patchwork.Prelude.{
  ◌+◌, ◌*◌, ◌^◌, ◌<◌, ◌≡◌, ◌≢◌, refl, sym, ap, ◌∙◌, true, false, some, List, [], ◌∷◌, ◌++◌, leb,
  if◌then◌else◌, length, take, drop, arith,
}
use patchwork.Hooks.Game.{GameNumber, game_unknown, game_lbp1, game_lbp2, game_lbp3, game_lbp3_jp}
use patchwork.Hooks.Assembly.{Instruction}
use patchwork.Hooks.Assembly.ScriptBlock.{script_hook}
use patchwork.Hooks.Assembly.ForceJoin.{force_join}
use patchwork.Generator.{Bytes, ReaderAt, Symbol, ElfFile}
use patchwork.Generator.Hook.Scan.{IsSection}
use patchwork.Generator.Hook.Encoded.{assembled, assembled-length}
use patchwork.Generator.Make.Rows.{named, StandsAt}
use patchwork.Generator.Make.Plugin.{IsPlugin, join_symbol, script_symbol}
use patchwork.Tests.Generator.Encoder.{encode}

abbrev pub section_of : Bytes → ReaderAt
section_of content i n =
    if leb (i + n) (length content)
    then record { bytes = take n (drop i content); is_error = false }
    else record { bytes = []; is_error = true }

pub section_of-IsSection :
    (content : Bytes) → length content + 4 < 2 ^ 64 → IsSection content (section_of content)
section_of-IsSection content small = record {
  inside = λ i n within. ground arith;
  beyond = λ i n past. ground arith;
  small = small;
}

abbrev code_of : GameNumber → List Instruction
code_of game = force_join game ++ script_hook game

abbrev code_lbp3 : List Instruction
code_lbp3 = code_of game_lbp3 ++ code_of game_lbp3_jp

abbrev module_code : List Instruction
module_code = code_of game_lbp1 ++ (code_of game_lbp2 ++ code_lbp3)

abbrev pub module_text : Bytes
module_text = assembled encode module_code

abbrev join_at : GameNumber → Symbol
join_at game_unknown = record { name = []; value = 0 }
join_at game_lbp1 = record { name = join_symbol game_lbp1; value = 0 }
join_at game_lbp2 = record { name = join_symbol game_lbp2; value = 96 }
join_at game_lbp3 = record { name = join_symbol game_lbp3; value = 240 }
join_at game_lbp3_jp = record { name = join_symbol game_lbp3_jp; value = 380 }

abbrev script_at : GameNumber → Symbol
script_at game_unknown = record { name = []; value = 0 }
script_at game_lbp1 = record { name = script_symbol game_lbp1; value = 64 }
script_at game_lbp2 = record { name = script_symbol game_lbp2; value = 216 }
script_at game_lbp3 = record { name = script_symbol game_lbp3; value = 352 }
script_at game_lbp3_jp = record { name = script_symbol game_lbp3_jp; value = 492 }

abbrev symbols_of : GameNumber → List Symbol
symbols_of game = join_at game ∷ script_at game ∷ []

abbrev module_symbols : List Symbol
module_symbols =
    symbols_of game_lbp1
    ++ (symbols_of game_lbp2 ++ (symbols_of game_lbp3 ++ symbols_of game_lbp3_jp))

abbrev pub elf : ElfFile
elf = record { symbols = some module_symbols; section = some (section_of module_text) }

assembled-append :
    (xs ys : List Instruction)
    → assembled encode (xs ++ ys) ≡ assembled encode xs ++ assembled encode ys
unfolding assembled
assembled-append [] ys = refl
assembled-append (x ∷ xs) ys = rw (assembled-append xs ys) refl

stands :
    (before after code : List Instruction)
    → StandsAt
        (assembled encode (before ++ (code ++ after)))
        (4 * length before)
        (assembled encode code)
stands before after code = record {
  before = assembled encode before;
  behind = assembled encode after;
  whole =
      assembled-append before (code ++ after)
      ∙ ap (λ xs. assembled encode before ++ xs) (assembled-append code after);
  place = sym (assembled-length encode before);
}

pub module_text_small : length module_text + 4 < 2 ^ 64
module_text_small = omega (arith, assembled-length encode module_code)

pub module_text_short : length module_text < 4 * 200
module_text_short = omega (arith, assembled-length encode module_code)

-- The code before a game's, and after it.
abbrev code_before : GameNumber → List Instruction
code_before game_unknown = []
code_before game_lbp1 = []
code_before game_lbp2 = code_of game_lbp1
code_before game_lbp3 = code_of game_lbp1 ++ code_of game_lbp2
code_before game_lbp3_jp = code_of game_lbp1 ++ (code_of game_lbp2 ++ code_of game_lbp3)

abbrev code_after : GameNumber → List Instruction
code_after game_unknown = module_code
code_after game_lbp1 = code_of game_lbp2 ++ code_lbp3
code_after game_lbp2 = code_lbp3
code_after game_lbp3 = code_of game_lbp3_jp
code_after game_lbp3_jp = []

abbrev stands_join :
    (game : GameNumber)
    → StandsAt
        (assembled encode
          (code_before game ++ (force_join game ++ (script_hook game ++ code_after game))))
        (4 * length (code_before game))
        (assembled encode (force_join game))
stands_join game = stands (code_before game) (script_hook game ++ code_after game) (force_join game)

abbrev stands_script :
    (game : GameNumber)
    → StandsAt
        (assembled encode
          ((code_before game ++ force_join game) ++ (script_hook game ++ code_after game)))
        (4 * length (code_before game ++ force_join game))
        (assembled encode (script_hook game))
stands_script game =
    stands (code_before game ++ force_join game) (code_after game) (script_hook game)

pub elf-IsPlugin : (game : GameNumber) → game ≢ game_unknown → IsPlugin encode 200 game elf
elf-IsPlugin game known = record {
  syms = module_symbols;
  read_at = section_of module_text;
  content = module_text;
  has_symbols = refl;
  has_section = refl;
  section = section_of-IsSection module_text module_text_small;
  short = module_text_short;
  join = join_at game;
  script = script_at game;
  join_named = joins game known;
  script_named = scripts game known;
  join_code = join_stands game known;
  script_code = script_stands game known;
}
  where
    joins :
        (g : GameNumber) → g ≢ game_unknown → named (join_symbol g) module_symbols ≡ join_at g ∷ []
    joins game_unknown known = absurd (known refl)
    joins game_lbp1 known = refl
    joins game_lbp2 known = refl
    joins game_lbp3 known = refl
    joins game_lbp3_jp known = refl

    scripts :
        (g : GameNumber)
        → g ≢ game_unknown
        → named (script_symbol g) module_symbols ≡ script_at g ∷ []
    scripts game_unknown known = absurd (known refl)
    scripts game_lbp1 known = refl
    scripts game_lbp2 known = refl
    scripts game_lbp3 known = refl
    scripts game_lbp3_jp known = refl

    join_stands :
        (g : GameNumber)
        → g ≢ game_unknown
        → StandsAt module_text (join_at g).value (assembled encode (force_join g))
    join_stands game_unknown known = absurd (known refl)
    join_stands game_lbp1 known = stands_join game_lbp1
    join_stands game_lbp2 known = stands_join game_lbp2
    join_stands game_lbp3 known = stands_join game_lbp3
    join_stands game_lbp3_jp known = stands_join game_lbp3_jp

    script_stands :
        (g : GameNumber)
        → g ≢ game_unknown
        → StandsAt module_text (script_at g).value (assembled encode (script_hook g))
    script_stands game_unknown known = absurd (known refl)
    script_stands game_lbp1 known = stands_script game_lbp1
    script_stands game_lbp2 known = stands_script game_lbp2
    script_stands game_lbp3 known = stands_script game_lbp3
    script_stands game_lbp3_jp known = stands_script game_lbp3_jp
