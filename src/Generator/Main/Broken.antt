-- ===== src/Generator/Main/Broken.antt =====
-- What makes `main` fail before it has made a file.
use patchwork.Prelude.{
  ℕ, zero, suc, ◌≡◌, ◌≢◌, refl, ap, ◌∙◌, ◌⊎◌, inl, inr, false, Bool-cases, some, List, [], ◌∷◌,
  ◌++◌, if◌then◌else◌, get_elem?, codes,
}
use mathlib.Core.Option.{some-injective}
use patchwork.Hooks.Game.{GameNumber, game_unknown}
use patchwork.Hooks.Assembly.{Instruction}
use patchwork.Generator.{Bytes, Result, ok, failed, Server, ElfFile, Fueled, after, then_ok}
use patchwork.Generator.Dict.{equal, equal_iff, insert}
use patchwork.Generator.Hook.Encoded.{IsEncoding}
use patchwork.Generator.Entries.{Format, PatchMap}
use patchwork.Generator.Make.{make_patches}
use patchwork.Generator.Make.Plugin.{IsPlugin}
use patchwork.Generator.Main.{
  DirEntry, Surroundings, servers_yaml, find_servers, add_all, file_patches, add_games,
  write_patches, main,
}
use patchwork.Generator.Main.Listing.{is_skipped, AreDefinitions, no_file, other_file, definition}
use patchwork.Generator.Main.Written.{file_patches-definition}

-- The file cannot be read, or `yaml.Unmarshal` gives an error for it.
abbrev IsBad : {A : Type 0} → Surroundings → Bytes → (Bytes → Result A) → Type 0
IsBad env name unmarshal =
    (env.read_file name ≡ failed)
    ⊎ ((bytes : Bytes) × (env.read_file name ≡ ok bytes) × (unmarshal bytes ≡ failed))

-- Where the run breaks off: at the directory, at the ELF file, at `servers.yaml`, or at a definition
-- that stands behind good ones.
pub data IsBroken (env : Surroundings) (elf : ElfFile) : Type 0 where
  no_listing : env.config_files ≡ failed → IsBroken env elf
  no_elf :
      (files : List DirEntry)
      → env.config_files ≡ ok files
      → env.elf_file ≡ failed
      → IsBroken env elf
  bad_servers :
      (files : List DirEntry) (k : ℕ) (file : DirEntry)
      → env.config_files ≡ ok files
      → env.elf_file ≡ ok elf
      → get_elem? files k ≡ some file
      → file.name ≡ servers_yaml
      → IsBad env servers_yaml env.unmarshal_servers
      → IsBroken env elf
  bad_definition :
      (good rest : List DirEntry) (file : DirEntry) (games : List GameNumber)
      → env.config_files ≡ ok (good ++ file ∷ rest)
      → env.elf_file ≡ ok elf
      → AreDefinitions env good games
      → is_skipped file ≡ false
      → IsBad env file.name env.unmarshal_game
      → IsBroken env elf

module _ (fmt : Format) (fuel : ℕ) (env : Surroundings) where
  read_failed :
      {A B : Type 0} (name : Bytes) (unmarshal : Bytes → Result A) (use_it : Result A → Fueled B)
      → IsBad env name unmarshal
      → use_it failed ≡ some failed
      → then_ok (env.read_file name) (λ bytes. use_it (unmarshal bytes)) ≡ some failed
  read_failed name unmarshal use_it (inl unread) e = rw unread refl
  read_failed name unmarshal use_it (inr (bytes, read, bad)) e = rw (read, bad) e

  find_servers_failed :
      (files : List DirEntry) (k : ℕ) (file : DirEntry)
      → get_elem? files k ≡ some file
      → file.name ≡ servers_yaml
      → IsBad env servers_yaml env.unmarshal_servers
      → find_servers fmt fuel env files ≡ some failed
  unfolding find_servers
  find_servers_failed [] k file at name bad = absurd (cc)
  find_servers_failed (f ∷ files) zero file at name bad =
      let named =
        (equal_iff f.name servers_yaml).1 (ap (λ x. x.name) (some-injective f file at) ∙ name) in
      rw named (read_failed servers_yaml env.unmarshal_servers (λ r. some r) bad refl)
  find_servers_failed (f ∷ files) (suc k) file at name bad =
      elim (Bool-cases (equal f.name servers_yaml)) [
        | inl e ↦ rw e (read_failed servers_yaml env.unmarshal_servers (λ r. some r) bad refl)
        | inr e ↦ rw e (find_servers_failed files k file at name bad)
      ]

  find_servers_returns :
      (files : List DirEntry)
      → (r : Result (List Server)) × (find_servers fmt fuel env files ≡ some r)
  unfolding find_servers
  find_servers_returns [] = (ok [], refl)
  find_servers_returns (f ∷ files) = elim (Bool-cases (equal f.name servers_yaml)) [
    | inl e ↦ rw e (returned (env.read_file servers_yaml))
    | inr e ↦ let (r, h) = find_servers_returns files in (r, rw e h)
  ]
    where
      returned :
          (reply : Result Bytes)
          → (r : Result (List Server)) × (then_ok reply
                (λ bytes. some (env.unmarshal_servers bytes))
              ≡ some r)
      returned failed = (failed, refl)
      returned (ok bytes) = (env.unmarshal_servers bytes, refl)

  module _ (encode : Instruction → ℕ) (law : IsEncoding encode) (elf : ElfFile)
      (plugin : (game : GameNumber) → game ≢ game_unknown → IsPlugin encode fuel game elf) where
    file_patches_failed :
        (servers : List Server) (file : DirEntry)
        → IsBad env file.name env.unmarshal_game
        → file_patches fmt fuel env elf servers file ≡ some failed
    unfolding file_patches
    file_patches_failed servers file bad =
        read_failed file.name env.unmarshal_game
          (λ r. then_ok r (λ game. make_patches fmt fuel elf game servers)) bad refl

    add_games_failed :
        (servers : List Server) {good : List DirEntry} {games : List GameNumber}
        (rest : List DirEntry) (file : DirEntry)
        → AreDefinitions env good games
        → is_skipped file ≡ false
        → IsBad env file.name env.unmarshal_game
        → (patches : PatchMap)
        → add_games fmt fuel env elf servers (good ++ file ∷ rest) patches ≡ some failed
    unfolding add_games add_all insert
    add_games_failed servers rest file no_file wanted bad patches =
        rw (wanted, add_games, file_patches_failed servers file bad) refl
    add_games_failed servers rest file (other_file skipped files) wanted bad patches =
        rw (skipped, add_games) (add_games_failed servers rest file files wanted bad patches)
    add_games_failed servers rest file
          (definition {file = f} game bytes named known read made files) wanted bad patches =
        rw
          (
            named,
            add_games,
            file_patches-definition encode law fmt fuel env elf plugin servers f game bytes known
                read made,
          )
          (add_games_failed servers rest file files wanted bad _)

    abbrev from_listing : Result (List DirEntry) → Fueled Bytes
    from_listing listing =
        then_ok listing (λ fs. then_ok env.elf_file (λ e. write_patches fmt fuel env fs e))

    abbrev from_elf : List DirEntry → Result ElfFile → Fueled Bytes
    from_elf files opened = then_ok opened (λ e. write_patches fmt fuel env files e)

    definition_failed :
        (good rest : List DirEntry) (file : DirEntry) (games : List GameNumber)
        → AreDefinitions env good games
        → is_skipped file ≡ false
        → IsBad env file.name env.unmarshal_game
        → write_patches fmt fuel env (good ++ file ∷ rest) elf ≡ some failed
    unfolding write_patches
    definition_failed good rest file games defined wanted bad =
        let (reply, found) = find_servers_returns (good ++ file ∷ rest) in rw found (by_reply reply)
      where
        by_reply :
            (reply : Result (List Server))
            → after (some reply) (λ servers.
              after (add_games fmt fuel env elf servers (good ++ file ∷ rest) []) (λ patches.
                then_ok
                  (env.encode (record { version = codes "1.2"; patches = patches }))
                  (λ bytes. some (if env.write_output bytes then ok bytes else failed))))
              ≡ some failed
        by_reply failed = refl
        by_reply (ok servers) = rw (add_games_failed servers rest file defined wanted bad []) refl

    -- Let the ELF file be the plugin's, with code whose words have the opcodes and low bits of the
    -- PowerPC manual. Then `main` comes to its end, and fails, if the directory or the ELF file cannot
    -- be read; if `servers.yaml` is listed and cannot be read, or `yaml.Unmarshal` gives an error for
    -- it; or if some file, behind definitions of lbpdefs and what `main` passes over, cannot be read,
    -- or `yaml.Unmarshal` gives an error for it.
    pub main-IsBroken : IsBroken env elf → main fmt fuel env ≡ some failed
    unfolding main write_patches
    main-IsBroken (no_listing unlisted) = ap from_listing unlisted
    main-IsBroken (no_elf files listed unopened) =
        ap from_listing listed ∙ ap (from_elf files) unopened
    main-IsBroken (bad_servers files k file listed opened at name bad) =
        ap from_listing listed
        ∙ ap (from_elf files) opened
        ∙ rw (find_servers_failed files k file at name bad) refl
    main-IsBroken (bad_definition good rest file games listed opened defined wanted bad) =
        ap from_listing listed
        ∙ ap (from_elf (good ++ file ∷ rest)) opened
        ∙ definition_failed good rest file games defined wanted bad
