-- ===== src/Generator/Main/Listing.antt =====
-- The directory that `main` reads.
use patchwork.Prelude.{
  ℕ, zero, suc, ◌≡◌, ◌≢◌, refl, ap, ◌∙◌, Bool, true, false, Bool-cases, some, List, [], ◌∷◌, ◌||◌,
  inl, inr, get_elem?, get_or, arith,
}
use mathlib.Core.Option.{some-injective}
use patchwork.Hooks.Game.{GameNumber, game_unknown, game_lbp1, game_lbp2, game_lbp3, game_lbp3_jp}
use patchwork.Generator.{Bytes, ok, Server}
use patchwork.Generator.Dict.{equal, equal_iff}
use patchwork.Generator.Definitions.{definition_of}
use patchwork.Generator.Main.{DirEntry, Surroundings, servers_yaml, find_servers}
use patchwork.Generator.Entries.{Format}

-- The hash of a game's program
abbrev pub hash_of : GameNumber → Bytes
hash_of game = (definition_of game).ppu_hash

-- A byte in which the hashes differ
mark : (g h : GameNumber) → hash_of g ≡ hash_of h → get_or (hash_of g) 4 0 ≡ get_or (hash_of h) 4 0
mark g h e = ap (λ xs. get_or xs 4 0) e

-- Two games have two hashes.
pub hash_of-injective :
    (g h : GameNumber) → g ≢ game_unknown → h ≢ game_unknown → hash_of g ≡ hash_of h → g ≡ h
hash_of-injective game_unknown h p q e = absurd (p refl)
hash_of-injective game_lbp1 game_unknown p q e = absurd (q refl)
hash_of-injective game_lbp1 game_lbp1 p q e = refl
hash_of-injective game_lbp1 game_lbp2 p q e = absurd (omega (arith, mark game_lbp1 game_lbp2 e))
hash_of-injective game_lbp1 game_lbp3 p q e = absurd (omega (arith, mark game_lbp1 game_lbp3 e))
hash_of-injective game_lbp1 game_lbp3_jp p q e =
    absurd (omega (arith, mark game_lbp1 game_lbp3_jp e))
hash_of-injective game_lbp2 game_unknown p q e = absurd (q refl)
hash_of-injective game_lbp2 game_lbp1 p q e = absurd (omega (arith, mark game_lbp2 game_lbp1 e))
hash_of-injective game_lbp2 game_lbp2 p q e = refl
hash_of-injective game_lbp2 game_lbp3 p q e = absurd (omega (arith, mark game_lbp2 game_lbp3 e))
hash_of-injective game_lbp2 game_lbp3_jp p q e =
    absurd (omega (arith, mark game_lbp2 game_lbp3_jp e))
hash_of-injective game_lbp3 game_unknown p q e = absurd (q refl)
hash_of-injective game_lbp3 game_lbp1 p q e = absurd (omega (arith, mark game_lbp3 game_lbp1 e))
hash_of-injective game_lbp3 game_lbp2 p q e = absurd (omega (arith, mark game_lbp3 game_lbp2 e))
hash_of-injective game_lbp3 game_lbp3 p q e = refl
hash_of-injective game_lbp3 game_lbp3_jp p q e =
    absurd (omega (arith, mark game_lbp3 game_lbp3_jp e))
hash_of-injective game_lbp3_jp game_unknown p q e = absurd (q refl)
hash_of-injective game_lbp3_jp game_lbp1 p q e =
    absurd (omega (arith, mark game_lbp3_jp game_lbp1 e))
hash_of-injective game_lbp3_jp game_lbp2 p q e =
    absurd (omega (arith, mark game_lbp3_jp game_lbp2 e))
hash_of-injective game_lbp3_jp game_lbp3 p q e =
    absurd (omega (arith, mark game_lbp3_jp game_lbp3 e))
hash_of-injective game_lbp3_jp game_lbp3_jp p q e = refl

abbrev pub is_skipped : DirEntry → Bool
is_skipped file = file.is_dir || equal file.name servers_yaml

-- The directory's files, each a definition of lbpdefs or none, and the games that they define. The
-- files may have any names and any order, and a game may be defined more than once.
pub data AreDefinitions (env : Surroundings) : List DirEntry → List GameNumber → Type 0 where
  no_file : AreDefinitions env [] []
  other_file :
      {file : DirEntry} {files : List DirEntry} {games : List GameNumber}
      → is_skipped file ≡ true
      → AreDefinitions env files games
      → AreDefinitions env (file ∷ files) games
  definition :
      {file : DirEntry} {files : List DirEntry} {games : List GameNumber} (game : GameNumber)
      (bytes : Bytes)
      → is_skipped file ≡ false
      → game ≢ game_unknown
      → env.read_file file.name ≡ ok bytes
      → env.unmarshal_game bytes ≡ ok (definition_of game)
      → AreDefinitions env files games
      → AreDefinitions env (file ∷ files) (game ∷ games)

pub find_servers_named :
    (fmt : Format) (fuel : ℕ) (env : Surroundings) (files : List DirEntry) (k : ℕ) (file : DirEntry)
    (bytes : Bytes) (servers : List Server)
    → get_elem? files k ≡ some file
    → file.name ≡ servers_yaml
    → env.read_file servers_yaml ≡ ok bytes
    → env.unmarshal_servers bytes ≡ ok servers
    → find_servers fmt fuel env files ≡ some (ok servers)
unfolding find_servers
find_servers_named fmt fuel env [] k file bytes servers at name read made = absurd (cc)
find_servers_named fmt fuel env (f ∷ files) zero file bytes servers at name read made =
    let named : equal f.name servers_yaml ≡ true =
      (equal_iff f.name servers_yaml).1 (ap (λ x. x.name) (some-injective f file at) ∙ name) in
    rw (named, read, made) refl
find_servers_named fmt fuel env (f ∷ files) (suc k) file bytes servers at name read made =
    elim (Bool-cases (equal f.name servers_yaml)) [
      | inl e ↦ rw (e, read, made) refl
      | inr e ↦ rw e (find_servers_named fmt fuel env files k file bytes servers at name read made)
    ]
