-- ===== src/Generator/Entries.antt =====
-- tools/patch_generator/rpcs3_patch/patches.go: the rows of a patch for RPCS3. `Sprintf`,
-- `strconv.ParseFloat` and `strconv.Quote` are parameters.
use patchwork.Prelude.{
  ℕ, ◌+◌, ◌/◌, ◌%◌, ◌^◌, Bool, not, List, [], ◌∷◌, ◌++◌, ◌==◌, if◌then◌else◌, length, codes,
}
use patchwork.Generator.{Result, ok, failed, Bytes}
use patchwork.Generator.Dict.{Dict}

pub record PatchEntry : Type 0 where
  pub type : Bytes
  pub address : ℕ
  pub value : Bytes

abbrev pub PatchGames : Type 0
PatchGames = Dict (Dict (List Bytes))

pub record Rpcs3Patch : Type 0 where
  pub games : PatchGames
  pub author : Bytes
  pub notes : Bytes
  pub patch_version : Bytes
  pub patch : List PatchEntry

abbrev pub PatchMap : Type 0
PatchMap = Dict (Dict Rpcs3Patch)

pub record PatchFile : Type 0 where
  pub version : Bytes
  pub patches : PatchMap

abbrev pub c_utf8_patch_type : Bytes
c_utf8_patch_type = codes "cutf8"

pub record Format : Type 0 where
  -- `%#08x` of four bytes, and of a `uint32`
  pub hex_bytes : Bytes → Bytes
  pub hex_address : ℕ → Bytes
  -- `%d`
  pub decimal : ℕ → Bytes
  -- `ParseFloat` returns no error.
  pub is_float : Bytes → Bool
  pub quote : Bytes → Bytes

module _ (fmt : Format) where
  -- `MarshalYAML` of a row
  unfoldable pub entry_yaml : PatchEntry → Bytes
  entry_yaml e =
      let shown = if fmt.is_float e.value then e.value else fmt.quote e.value in
      if e.address == 0
      then codes "[" ++ e.type ++ codes ", 0x0, " ++ e.value ++ codes "]"
      else codes "["
        ++ e.type
        ++ codes ", "
        ++ fmt.hex_address e.address
        ++ codes ", "
        ++ shown
        ++ codes "]"

  -- `MakeCodePatch`, after the first row
  unfoldable pub code_rows : Bytes → List PatchEntry
  code_rows (b0 ∷ b1 ∷ b2 ∷ b3 ∷ rest) =
      record { type = codes "be32"; address = 0; value = fmt.hex_bytes (b0 ∷ b1 ∷ b2 ∷ b3 ∷ []) }
      ∷ code_rows rest
  code_rows _ = []

  unfoldable pub make_code_patch : ℕ → Bytes → Result (List PatchEntry)
  make_code_patch hook_offset patch =
      if not (length patch % 4 == 0)
      then failed
      else ok (
          record {
            type = codes "calloc";
            address = hook_offset;
            value = fmt.decimal (length patch / 4);
          }
          ∷ code_rows patch)

  -- The loop of `MakeOverwritePatch`, from index `i` on
  unfoldable pub overwrite_rows : ℕ → ℕ → Bytes → List PatchEntry
  overwrite_rows hook_offset i (b0 ∷ b1 ∷ b2 ∷ b3 ∷ rest) =
      record {
        type = codes "be32";
        address = (hook_offset + i % 2 ^ 32) % 2 ^ 32;
        value = fmt.hex_bytes (b0 ∷ b1 ∷ b2 ∷ b3 ∷ []);
      }
      ∷ overwrite_rows hook_offset (i + 4) rest
  overwrite_rows hook_offset i _ = []

  unfoldable pub make_overwrite_patch : ℕ → Bytes → Result (List PatchEntry)
  make_overwrite_patch hook_offset patch =
      if not (length patch % 4 == 0) then failed else ok (overwrite_rows hook_offset 0 patch)

-- `strings.Join`
abbrev join : List Bytes → Bytes → Bytes
join [] sep = []
join (x ∷ []) sep = x
join (x ∷ y ∷ xs) sep = x ++ sep ++ join (y ∷ xs) sep

-- A map is walked in the order of its entries here, and in any order by Go.
unfoldable pub titles_yaml : Dict (List Bytes) → Bytes
titles_yaml [] = []
titles_yaml ((title, versions) ∷ titles) =
    codes "  "
    ++ title
    ++ codes ": ["
    ++ join versions (codes ", ")
    ++ codes "]\n"
    ++ titles_yaml titles

-- `MarshalYAML` of the games
unfoldable pub games_yaml : PatchGames → Bytes
games_yaml [] = []
games_yaml ((game, titles) ∷ games) =
    codes "\"" ++ game ++ codes "\":\n" ++ titles_yaml titles ++ games_yaml games
