-- ===== src/Generator/Main/Written.antt =====
-- The whole of `main`, on a directory with definitions of lbpdefs.
use patchwork.Prelude.{ℕ, ◌≡◌, ◌≢◌, ◌⊎◌, some, List, [], ◌∷◌, ◌++◌, if◌then◌else◌, get_elem?, All}
use patchwork.Memory.{Memory}
use patchwork.Hooks.Game.{GameNumber, game_unknown}
use patchwork.Hooks.Assembly.{Instruction}
use patchwork.Hooks.Assembly.ScriptBlock.{script_hook}
use patchwork.Hooks.Assembly.ForceJoin.{force_join}
use patchwork.Start.Hooked.{check_of}
use patchwork.Generator.{Bytes, Result, ok, failed, Server, ElfFile}
use patchwork.Generator.Dict.{Dict, lookup, insert}
use patchwork.Generator.Definitions.{definition_of}
use patchwork.Generator.Main.{DirEntry, Surroundings, file_patches}
use patchwork.Generator.Hook.Encoded.{IsEncoding, assembled}
use patchwork.Generator.Entries.{Format, Rpcs3Patch, PatchMap, PatchFile, overwrite_rows}
use patchwork.Generator.Make.{combined_key, combined_patch, add_servers, server_key}
use patchwork.Generator.Make.Rows.{hook_rows}
use patchwork.Generator.Make.Combined.{IsCombined, make_patches-made}
use patchwork.Generator.Make.Plugin.{IsPlugin, joined_at}
use patchwork.Generator.Make.Placed.{IsServer, IsServed}
use patchwork.Generator.Rpcs3.{Rpcs3, write_all}
use patchwork.Generator.Main.Listing.{hash_of}

-- Of a game's patches: the combined one, and one for each server that is the last with its name.
pub record IsPatched (encode : Instruction → ℕ) (fmt : Format) (rpcs3 : Rpcs3 fmt)
    (servers : List Server) (game : GameNumber) (patches : Dict Rpcs3Patch) : Type 0 where
  pub combined : Rpcs3Patch
  pub has_combined : lookup combined_key patches ≡ some combined
  pub is_combined : IsCombined encode fmt rpcs3 game combined
  pub served :
      (before after : List Server) (server : Server)
      → servers ≡ before ++ server ∷ after
      → All (λ s. s.name ≢ server.name) after
      → IsServer server
      → (patch : Rpcs3Patch) × (lookup (server_key server) patches ≡ some patch)
        × ((m : Memory) → IsServed game server (write_all fmt rpcs3 patch.patch m))

-- The encoded file, if it can be encoded and written.
abbrev pub written : Surroundings → PatchFile → Result Bytes
written env file = elim (env.encode file) [
  | failed ↦ failed
  | ok bytes ↦ if env.write_output bytes then ok bytes else failed
]

module _ (encode : Instruction → ℕ) (law : IsEncoding encode) (fmt : Format) (fuel : ℕ)
    (env : Surroundings) (elf : ElfFile)
    (plugin : (game : GameNumber) → game ≢ game_unknown → IsPlugin encode fuel game elf)
    (servers : List Server) where
  -- What `MakePatches` makes under the game's hash.
  abbrev only_combined : GameNumber → Dict Rpcs3Patch
  only_combined game =
      insert combined_key
        (combined_patch (definition_of game) (
          overwrite_rows fmt (joined_at game) 0 (assembled encode (force_join game))
          ++ hook_rows fmt (check_of game) (assembled encode (script_hook game))))
        []

  abbrev patches_for : GameNumber → Dict Rpcs3Patch
  patches_for game = add_servers (definition_of game) servers (only_combined game)

  pub file_patches-definition :
      (file : DirEntry) (game : GameNumber) (bytes : Bytes)
      → game ≢ game_unknown
      → env.read_file file.name ≡ ok bytes
      → env.unmarshal_game bytes ≡ ok (definition_of game)
      → file_patches fmt fuel env elf servers file
        ≡ some (ok (insert (hash_of game) (patches_for game) []))
  unfolding file_patches
  file_patches-definition file game bytes known read made =
      rw (read, made)
        (make_patches-made encode law fmt fuel game elf known (plugin game known) servers)

  abbrev AreKept : PatchMap → List GameNumber → PatchMap → Type 0
  AreKept patches games result =
      (g : GameNumber)
      → g ≢ game_unknown
      → (lookup (hash_of g) patches ≡ some (patches_for g))
        ⊎ ((k : ℕ) × (get_elem? games k ≡ some g))
      → lookup (hash_of g) result ≡ some (patches_for g)
