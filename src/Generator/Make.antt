-- ===== src/Generator/Make.antt =====
-- `MakePatches` of tools/patch_generator/rpcs3_patch/helpers.go.
pub mod Rows
pub mod Plugin
pub mod Keys
pub mod Combined
pub mod Placed
pub mod Served
use patchwork.Prelude.{
  ℕ, ◌*◌, ◌%◌, ◌^◌, not, Option, none, some, List, [], ◌∷◌, ◌++◌, ◌==◌, if◌then◌else◌, length,
  codes,
}
use patchwork.Generator.{
  Bytes, Result, ok, failed, Fueled, after, then_ok, hook, overwrite, Patch, Game, Server, ReaderAt,
  Symbol, ElfFile,
}
use patchwork.Generator.Dict.{Dict, equal, insert}
use patchwork.Generator.Hook.{get_hook}
use patchwork.Generator.Entries.{
  PatchEntry, PatchGames, Rpcs3Patch, PatchMap, c_utf8_patch_type, Format, make_code_patch,
  make_overwrite_patch,
}

abbrev pub c_utf8_patch : ℕ → Bytes → PatchEntry
c_utf8_patch address value = record { type = c_utf8_patch_type; address = address; value = value }

-- A buffer of so many bytes, filled from an offset.
unfoldable pub read_whole : ReaderAt → ℕ → ℕ → Result Bytes
read_whole read_at offset size =
    let reply = read_at offset size in
    if reply.is_error
    then failed
    else if not (length reply.bytes == size)
    then failed
    else ok reply.bytes

module _ (fmt : Format) (fuel : ℕ) where
  -- The rows of a patch at a symbol with its name.
  unfoldable pub symbol_rows : Option ReaderAt → Patch → Symbol → Fueled (List PatchEntry)
  symbol_rows none patch sym = some failed
  symbol_rows (some read_at) patch sym =
      if equal patch.type overwrite
      then (if patch.len == 0
          then some failed
          else then_ok (read_whole read_at sym.value (patch.len * 4 % 2 ^ 64))
              (λ game_hook. some (make_overwrite_patch fmt patch.offset game_hook)))
      else if equal patch.type hook
      then (if not (patch.len == 0)
          then then_ok (read_whole read_at patch.offset patch.len)
              (λ game_hook. some (make_code_patch fmt patch.offset game_hook))
          else after (get_hook fuel read_at sym.value)
              (λ game_hook. some (make_code_patch fmt patch.offset game_hook)))
      else some (ok [])

  -- The loop over the symbols, and that over the patches.
  unfoldable pub patch_rows : Option ReaderAt → Patch → List Symbol → Fueled (List PatchEntry)
  patch_rows section patch [] = some (ok [])
  patch_rows section patch (sym ∷ syms) =
      let rest = patch_rows section patch syms in
      if equal sym.name patch.symbol
      then after (symbol_rows section patch sym)
          (λ rows. after rest (λ more. some (ok (rows ++ more))))
      else rest

  unfoldable pub all_rows : Option ReaderAt → List Symbol → List Patch → Fueled (List PatchEntry)
  all_rows section syms [] = some (ok [])
  all_rows section syms (patch ∷ patches) =
      after (patch_rows section patch syms)
        (λ rows. after (all_rows section syms patches) (λ more. some (ok (rows ++ more))))

-- The loop that fills `titleIDVersionMap`
unfoldable pub for_titles : List Bytes → List Bytes → Dict (List Bytes) → Dict (List Bytes)
for_titles game_versions [] titles = titles
for_titles game_versions (d ∷ ds) titles =
    for_titles game_versions ds (insert d game_versions titles)

abbrev pub patch_games : Game → PatchGames
patch_games game = insert game.name (for_titles game.game_versions game.title_ids []) []

-- The rows of a server
unfoldable pub server_rows : Game → Server → List PatchEntry
server_rows game server =
    let https = if equal server.https_url [] then server.primary_url else server.https_url in
    let live = c_utf8_patch game.offsets.live_url server.primary_url in
    let presence = c_utf8_patch game.offsets.presence_url server.primary_url in
    let digest = c_utf8_patch game.offsets.digest_key server.custom_digest in
    (c_utf8_patch game.offsets.http_url server.primary_url
      ∷ c_utf8_patch game.offsets.https_url https
      ∷ [])
    ++ (if game.offsets.live_url == 0 then [] else live ∷ [])
    ++ (if game.offsets.presence_url == 0 then [] else presence ∷ [])
    ++ (if equal server.custom_digest [] then [] else digest ∷ [])

abbrev pub combined_key : Bytes
combined_key = codes "Patchwork Combined Patch"

abbrev pub server_key : Server → Bytes
server_key server = server.name ++ codes " Custom Server"

abbrev pub combined_patch : Game → List PatchEntry → Rpcs3Patch
combined_patch game rows = record {
  games = patch_games game;
  author = codes "HugeSpaceship contributors";
  notes = codes "Combined patch from patchwork sources";
  patch_version = codes "1.0";
  patch = rows ++ c_utf8_patch game.offsets.user_agent game.user_agent ∷ [];
}

abbrev pub server_patch : Game → Server → Rpcs3Patch
server_patch game server = record {
  games = patch_games game;
  author = server.owner ++ codes " (Autogenerated by Patchwork)";
  notes = server.description ++ codes "\n" ++ codes "(Autogenerated by patchwork)";
  patch_version = codes "1.0";
  patch = server_rows game server;
}

-- The loop over the servers
unfoldable pub add_servers : Game → List Server → Dict Rpcs3Patch → Dict Rpcs3Patch
add_servers game [] patches = patches
add_servers game (server ∷ servers) patches =
    add_servers game servers (insert (server_key server) (server_patch game server) patches)

unfoldable pub make_patches : Format → ℕ → ElfFile → Game → List Server → Fueled PatchMap
make_patches fmt fuel elf game servers = elim elf.symbols [
  | none ↦ some failed
  | some syms ↦ after (all_rows fmt fuel elf.section syms game.patches) (λ rows.
      let combined = insert combined_key (combined_patch game rows) [] in
      some (ok (insert game.ppu_hash (add_servers game servers combined) [])))
]
