-- ===== src/Generator/Main.antt =====
-- `main` of tools/patch_generator/cmd/patch_generator/patch_generator.go. The files, the reader of
-- ELF files and the YAML library are parameters. A failed call ends the program.
pub mod Listing
pub mod Written
pub mod Broken
use patchwork.Prelude.{
  ℕ, Bool, true, false, Option, none, some, List, [], ◌∷◌, ◌||◌, if◌then◌else◌, codes,
}
use patchwork.Generator.{Bytes, Result, ok, failed, Fueled, after, then_ok, Game, Server, ElfFile}
use patchwork.Generator.Dict.{Dict, equal, insert}
use patchwork.Generator.Entries.{Format, Rpcs3Patch, PatchMap, PatchFile}
use patchwork.Generator.Make.{make_patches}

pub record DirEntry : Type 0 where
  pub name : Bytes
  pub is_dir : Bool

abbrev pub servers_yaml : Bytes
servers_yaml = codes "servers.yaml"

-- What the program takes from its surroundings: the directory of the configuration, the ELF file,
-- a file of that directory, the YAML library, and the writing of the output.
pub record Surroundings : Type 0 where
  pub config_files : Result (List DirEntry)
  pub elf_file : Result ElfFile
  pub read_file : Bytes → Result Bytes
  pub unmarshal_servers : Bytes → Result (List Server)
  pub unmarshal_game : Bytes → Result Game
  pub encode : PatchFile → Result Bytes
  pub write_output : Bytes → Bool

module _ (fmt : Format) (fuel : ℕ) (env : Surroundings) where
  -- The loop that looks for the servers
  unfoldable pub find_servers : List DirEntry → Fueled (List Server)
  find_servers [] = some (ok [])
  find_servers (file ∷ files) =
      let rest = find_servers files in
      if equal file.name servers_yaml
      then then_ok (env.read_file servers_yaml) (λ bytes. some (env.unmarshal_servers bytes))
      else rest

  -- `patches[k] = v` for the entries of a map
  unfoldable pub add_all : PatchMap → PatchMap → PatchMap
  add_all [] patches = patches
  add_all ((k, v) ∷ more) patches = add_all more (insert k v patches)

  unfoldable pub file_patches : ElfFile → List Server → DirEntry → Fueled PatchMap
  file_patches elf servers file =
      then_ok (env.read_file file.name) (λ bytes.
        then_ok (env.unmarshal_game bytes) (λ game. make_patches fmt fuel elf game servers))

  -- The loop over the definitions of the games
  unfoldable pub add_games : ElfFile → List Server → List DirEntry → PatchMap → Fueled PatchMap
  add_games elf servers [] patches = some (ok patches)
  add_games elf servers (file ∷ files) patches =
      let skipped = file.is_dir || equal file.name servers_yaml in
      elim skipped [
        | true ↦ add_games elf servers files patches
        | false ↦
            after (file_patches elf servers file)
              (λ made. add_games elf servers files (add_all made patches))
      ]

  -- From the search for the servers on
  unfoldable pub write_patches : List DirEntry → ElfFile → Fueled Bytes
  write_patches files elf = after (find_servers files) (λ servers.
      after (add_games elf servers files []) (λ patches.
        then_ok (env.encode (record { version = codes "1.2"; patches = patches }))
          (λ bytes. some (if env.write_output bytes then ok bytes else failed))))

  -- The bytes that are written.
  unfoldable pub main : Fueled Bytes
  main = then_ok env.config_files (λ files. then_ok env.elf_file (λ elf. write_patches files elf))
