-- ===== src/Generator/Make/Served.antt =====
-- What the patch of a server makes of the games' memory.
use patchwork.Prelude.{ℕ, ◌≡◌, ◌≢◌, some, List, [], ◌∷◌, ◌++◌, All}
use patchwork.Memory.{Memory}
use patchwork.Hooks.Game.{GameNumber, game_unknown}
use patchwork.Hooks.Assembly.{Instruction}
use patchwork.Generator.{ok, Server, ElfFile}
use patchwork.Generator.Dict.{Dict, lookup, insert, lookup-only}
use patchwork.Generator.Definitions.{definition_of}
use patchwork.Generator.Hook.Encoded.{IsEncoding}
use patchwork.Generator.Entries.{Rpcs3Patch, PatchMap, Format}
use patchwork.Generator.Make.{server_key, server_patch, make_patches}
use patchwork.Generator.Rpcs3.{Rpcs3, write_all}
use patchwork.Generator.Make.Plugin.{IsPlugin}
use patchwork.Generator.Make.Keys.{lookup-server}
use patchwork.Generator.Make.Combined.{made, make_patches-made}
use patchwork.Generator.Make.Placed.{IsServer, IsServed, server_rows-IsServed}

-- Let the game be a known one, and let the ELF file be the plugin's, with code whose words have the
-- opcodes and low bits of the PowerPC manual. Let the server be the last one with its name, and let
-- its texts have no NUL and be not longer than those of the game. Then `MakePatches` returns. When the
-- emulator has written the rows that stand under the game's hash and the server's name, whatever the
-- memory was, the server's address stands at every place where the plugin puts it, but at the first
-- place the secure address, where there is one; and the digest, where there is one, at the place of
-- the digest. Only the last two places of LBP3 are those of the Japanese LBP3.
pub make_patches-IsServed :
    (encode : Instruction → ℕ) (law : IsEncoding encode) (fmt : Format) (rpcs3 : Rpcs3 fmt)
    (fuel : ℕ) (game : GameNumber) (elf : ElfFile) (before after : List Server) (server : Server)
    → game ≢ game_unknown
    → IsPlugin encode fuel game elf
    → All (λ s. s.name ≢ server.name) after
    → IsServer server
    → (all : PatchMap) × (patches : Dict Rpcs3Patch) × (patch : Rpcs3Patch) × (make_patches fmt fuel
          elf
          (definition_of game)
          (before ++ server ∷ after)
        ≡ some (ok all))
      × (lookup (definition_of game).ppu_hash all ≡ some patches)
      × (lookup (server_key server) patches ≡ some patch)
      × ((m : Memory) → IsServed game server (write_all fmt rpcs3 patch.patch m))
make_patches-IsServed encode law fmt rpcs3 fuel game elf before after server known plugin last
      fits =
    let servers = before ++ server ∷ after in
    let patches = made encode law fmt fuel game elf known plugin servers in
    (
      insert (definition_of game).ppu_hash patches [],
      patches,
      server_patch (definition_of game) server,
      make_patches-made encode law fmt fuel game elf known plugin servers,
      lookup-only (definition_of game).ppu_hash patches,
      lookup-server (definition_of game) before after server _ last,
      λ m. server_rows-IsServed fmt rpcs3 game server m known fits,
    )
