-- ===== src/Generator/Make/Combined.antt =====
-- What `MakePatches` makes of the games' definitions, when the ELF file is that of the plugin.
use mathlib.Core.Path.{subst}
use mathlib.Core.List.{append-nil, append_assoc}
use patchwork.Prelude.{
  codes, ◌/◌, ℕ, ◌+◌, ◌*◌, ◌<◌, ◌≡◌, ◌≢◌, refl, ap, ◌∙◌, some, List, [], ◌∷◌, map, ◌++◌, length,
  get_or, arith,
}
use patchwork.Memory.{Memory, memcpy}
use patchwork.Hooks.Game.{GameNumber, game_unknown}
use patchwork.Hooks.Assembly.{Instruction}
use patchwork.Hooks.Assembly.ScriptBlock.{script_hook}
use patchwork.Hooks.Assembly.ForceJoin.{force_join, force_join_length}
use patchwork.Hooks.Assembly.Patched.{force_join-length}
use patchwork.Start.Hooked.{check_of}
use patchwork.Generator.{ok, Game, Server, ElfFile}
use patchwork.Generator.Dict.{Dict, insert, lookup, lookup-only}
use patchwork.Generator.Definitions.{definition_of}
use patchwork.Generator.Hook.{get_hook}
use patchwork.Generator.Hook.Scan.{IsSection}
use patchwork.Generator.Hook.Encoded.{
  IsEncoding, word_bytes, assembled, assembled-length, assembled_bytes,
}
use patchwork.Generator.Hook.Extracted.{get_hook-script_hook}
use patchwork.Generator.Entries.{
  PatchEntry, Rpcs3Patch, PatchMap, Format, code_rows, overwrite_rows,
}
use patchwork.Generator.Make.{
  c_utf8_patch, combined_key, combined_patch, add_servers, all_rows, patch_rows, make_patches,
}
use patchwork.Generator.Make.Rows.{
  hook_rows, patch_rows_alone, symbol_rows-overwrite, symbol_rows-hook,
}
use patchwork.Generator.Rpcs3.{Rpcs3, word_row, write_all, overwrite_rows-memcpy}
use patchwork.Generator.Make.Plugin.{
  joined_at, join_patch, script_patch, definition_of_patches, IsPlugin, force_join_small,
}
use patchwork.Generator.Make.Keys.{none_combined, lookup-add_servers}

-- The last row of the combined patch
abbrev pub agent_row : Game → PatchEntry
agent_row game = c_utf8_patch game.offsets.user_agent game.user_agent

-- The row that reserves memory for so many words, at an address.
abbrev pub reserving_row : Format → ℕ → ℕ → PatchEntry
reserving_row fmt address words = record {
  type = codes "calloc";
  address = address;
  value = fmt.decimal words;
}

-- A row for each instruction, with the bytes of its word.
code_rows-assembled :
    (encode : Instruction → ℕ) (fmt : Format) (code : List Instruction)
    → code_rows fmt (assembled encode code) ≡ map (λ i. word_row fmt 0 (word_bytes (encode i))) code
unfolding code_rows assembled
code_rows-assembled encode fmt [] = refl
code_rows-assembled encode fmt (i ∷ code) =
    ap (λ rows. word_row fmt 0 (word_bytes (encode i)) ∷ rows) (code_rows-assembled encode fmt code)

hook_rows-assembled :
    (encode : Instruction → ℕ) (fmt : Format) (offset : ℕ) (code : List Instruction)
    → hook_rows fmt offset (assembled encode code)
      ≡ reserving_row fmt offset (length code)
        ∷ map (λ i. word_row fmt 0 (word_bytes (encode i))) code
hook_rows-assembled encode fmt offset code =
    let size : length (assembled encode code) / 4 ≡ length code =
      omega (arith, assembled-length encode code) in
    rw (size, code_rows-assembled encode fmt code) refl

-- The parts of the combined patch: rows that do what the plugin's patch for joining does, the rows of
-- the script hook, and the user agent.
pub record IsCombined (encode : Instruction → ℕ) (fmt : Format) (rpcs3 : Rpcs3 fmt)
    (game : GameNumber) (combined : Rpcs3Patch) : Type 0 where
  pub rows : List PatchEntry
  pub parts :
      combined.patch
      ≡ rows
        ++ (reserving_row fmt (check_of game) (length (script_hook game))
              ∷ map (λ i. word_row fmt 0 (word_bytes (encode i))) (script_hook game)
            ++ agent_row (definition_of game) ∷ [])
  pub joined :
      (m : Memory) (src : ℕ)
      → ((i : ℕ)
          → i < force_join_length game
          → m (src + i) ≡ get_or (assembled encode (force_join game)) i 0)
      → (a : ℕ)
      → write_all fmt rpcs3 rows m a ≡ memcpy m (joined_at game) src (force_join_length game) a

module _ (encode : Instruction → ℕ) (law : IsEncoding encode) (fmt : Format) (fuel : ℕ)
    (game : GameNumber) (elf : ElfFile) (known : game ≢ game_unknown)
    (plugin : IsPlugin encode fuel game elf) where
  abbrev join_rows : List PatchEntry
  join_rows = overwrite_rows fmt (joined_at game) 0 (assembled encode (force_join game))

  abbrev script_rows : List PatchEntry
  script_rows = hook_rows fmt (check_of game) (assembled encode (script_hook game))

  patch_rows-join :
      patch_rows fmt fuel (some plugin.read_at) (join_patch game) plugin.syms ≡ some (ok join_rows)
  patch_rows-join =
      let small = force_join_small game known in
      let size = assembled-length encode (force_join game) in
      patch_rows_alone fmt fuel plugin.read_at (join_patch game) plugin.syms plugin.join join_rows
        plugin.join_named
        (symbol_rows-overwrite fmt fuel plugin.read_at plugin.content (join_patch game) plugin.join
          (assembled encode (force_join game)) plugin.section refl small.0 (omega (arith, size))
          (omega (arith, size, small)) plugin.join_code)

  got_hook :
      get_hook fuel plugin.read_at plugin.script.value
      ≡ some (ok (assembled encode (script_hook game)))
  got_hook =
      let at = plugin.script_code in
      ap (λ n. get_hook fuel plugin.read_at n) at.place
      ∙ get_hook-script_hook encode law game at.before at.behind plugin.read_at fuel known
          (subst (λ xs. IsSection xs plugin.read_at) at.whole plugin.section)
          (subst (λ xs. length xs < 4 * fuel) at.whole plugin.short)

  patch_rows-script :
      patch_rows fmt fuel (some plugin.read_at) (script_patch game) plugin.syms
      ≡ some (ok script_rows)
  patch_rows-script =
      let size = assembled-length encode (script_hook game) in
      patch_rows_alone fmt fuel plugin.read_at (script_patch game) plugin.syms plugin.script
        script_rows plugin.script_named
        (symbol_rows-hook fmt fuel plugin.read_at (script_patch game) plugin.script
          (assembled encode (script_hook game)) refl refl (omega (arith, size)) got_hook)

  abbrev pub made : List Server → Dict Rpcs3Patch
  made servers =
      add_servers (definition_of game) servers
        (insert combined_key (combined_patch (definition_of game) (join_rows ++ script_rows)) [])

  pub make_patches-made :
      (servers : List Server)
      → make_patches fmt fuel elf (definition_of game) servers
        ≡ some (ok (insert (definition_of game).ppu_hash (made servers) []))
  unfolding make_patches all_rows
  make_patches-made servers =
      rw
        (
          plugin.has_symbols,
          plugin.has_section,
          definition_of_patches game known,
          patch_rows-join,
          patch_rows-script,
        )
        (rw (append-nil (code_rows fmt (assembled encode (script_hook game)))) refl)

  abbrev pub combined_rows : List PatchEntry
  combined_rows = join_rows ++ script_rows

  pub combined_patch-IsCombined :
      (rpcs3 : Rpcs3 fmt)
      → IsCombined encode fmt rpcs3 game (combined_patch (definition_of game) combined_rows)
  combined_patch-IsCombined rpcs3 =
      let size = assembled-length encode (force_join game) in
      let same : length (assembled encode (force_join game)) ≡ force_join_length game =
        size ∙ force_join-length game known in
      let small = force_join_small game known in
      record {
        rows = join_rows;
        parts =
            append_assoc join_rows script_rows (agent_row (definition_of game) ∷ [])
            ∙ ap (λ rows. join_rows ++ (rows ++ agent_row (definition_of game) ∷ []))
                (hook_rows-assembled encode fmt (check_of game) (script_hook game));
        joined = λ m src stands a.
            overwrite_rows-memcpy fmt rpcs3 (joined_at game) (assembled encode (force_join game)) m
              src (omega (arith, size)) (omega (arith, size, small))
              (assembled_bytes encode (force_join game)) (λ i below. stands i (omega (arith, same)))
              a
            ∙ ap (λ n. memcpy m (joined_at game) src n a) same;
      }

  pub lookup-made :
      (servers : List Server)
      → lookup combined_key (made servers)
        ≡ some (combined_patch (definition_of game) combined_rows)
  lookup-made servers =
      lookup-add_servers (definition_of game) servers combined_key
        (insert combined_key (combined_patch (definition_of game) combined_rows) [])
        (none_combined servers)
      ∙ lookup-only combined_key (combined_patch (definition_of game) combined_rows)

  -- Let the game be a known one, and let the ELF file be the plugin's: its section `.text` holds the
  -- assembled code, whose words have the opcodes and low bits of the PowerPC manual, its symbols name
  -- the code once, and the fuel is more than it has words. Then `MakePatches` returns, whatever the
  -- servers are, and under the game's hash the combined patch has three parts. When the emulator has
  -- written the first rows, the memory is, in every byte, what the plugin's `memcpy` of its code for
  -- joining makes of it, at the place of src/offsets.h; only for LBP3 it is the place of LBP2. The
  -- next row reserves memory for the script hook, at the address where the game checks a resource, for
  -- as many words as the hook has instructions, and after it stands a row for each instruction, in
  -- order, with the four bytes of its word. The last row is the game's user agent.
  pub make_patches-IsCombined :
      (rpcs3 : Rpcs3 fmt) (servers : List Server)
      → (all : PatchMap) × (patches : Dict Rpcs3Patch) × (combined : Rpcs3Patch) × (make_patches fmt
            fuel elf
            (definition_of game)
            servers
          ≡ some (ok all))
        × (lookup (definition_of game).ppu_hash all ≡ some patches)
        × (lookup combined_key patches ≡ some combined)
        × IsCombined encode fmt rpcs3 game combined
  make_patches-IsCombined rpcs3 servers = (
    insert (definition_of game).ppu_hash (made servers) [],
    made servers,
    combined_patch (definition_of game) combined_rows,
    make_patches-made servers,
    lookup-only (definition_of game).ppu_hash (made servers),
    lookup-made servers,
    combined_patch-IsCombined rpcs3,
  )
