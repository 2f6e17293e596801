-- ===== src/Generator/Make/Keys.antt =====
-- The names under which `MakePatches` puts its patches.
use patchwork.Prelude.{
  ℕ, ◌≡◌, ◌≢◌, refl, sym, ap, ◌∙◌, false, Bool-cases, some, List, [], ◌∷◌, ◌++◌, inl, inr, All,
  codes, arith,
}
use patchwork.Generator.{Bytes, Game, Server}
use patchwork.Generator.Dict.{Dict, equal, equal_iff, insert, lookup, lookup-insert, equal_refl}
use patchwork.Generator.Entries.{Rpcs3Patch}
use patchwork.Generator.Make.{combined_key, server_key, server_patch, add_servers}
use mathlib.Core.List.{append_cancel_right}

-- The last of some bytes.
abbrev last : ℕ → Bytes → ℕ
last b [] = b
last b (x ∷ xs) = last x xs

last-append : (b c : ℕ) (xs ys : Bytes) → last b (xs ++ c ∷ ys) ≡ last c ys
last-append b c [] ys = refl
last-append b c (x ∷ xs) ys = last-append x c xs ys

-- The name of the combined patch is not that of a server's.
combined_key-ne-server_key : (server : Server) → equal combined_key (server_key server) ≡ false
combined_key-ne-server_key server = elim (Bool-cases (equal combined_key (server_key server))) [
  | inl same ↦
      let ends = last-append 0 b' ' server.name (codes "Custom Server") in
      let r : last 0 combined_key ≡ b'r' =
        ap (last 0) ((equal_iff combined_key (server_key server)).0 same) ∙ ends in
      absurd (omega (arith, r))
  | inr other ↦ other
]

pub lookup-add_servers :
    (game : Game) (servers : List Server) (j : Bytes) (d : Dict Rpcs3Patch)
    → All (λ s. equal j (server_key s) ≡ false) servers
    → lookup j (add_servers game servers d) ≡ lookup j d
unfolding add_servers
lookup-add_servers game [] j d others = refl
lookup-add_servers game (s ∷ servers) j d (other, others) =
    lookup-add_servers game servers j (insert (server_key s) (server_patch game s) d) others
    ∙ lookup-insert j (server_key s) (server_patch game s) d
    ∙ rw other refl

pub none_combined :
    (servers : List Server) → All (λ s. equal combined_key (server_key s) ≡ false) servers
none_combined [] = tt
none_combined (s ∷ servers) = (combined_key-ne-server_key s, none_combined servers)

other_keys :
    (server : Server) (servers : List Server)
    → All (λ s. s.name ≢ server.name) servers
    → All (λ s. equal (server_key server) (server_key s) ≡ false) servers
other_keys server [] others = tt
other_keys server (s ∷ servers) (other, others) = (
  elim (Bool-cases (equal (server_key server) (server_key s))) [
    | inl e ↦ absurd (
        other (
          sym (
            append_cancel_right server.name s.name (codes " Custom Server")
              ((equal_iff (server_key server) (server_key s)).0 e))))
    | inr e ↦ e
  ],
  other_keys server servers others,
)

-- The patch of a server is that of the last server with its name.
pub lookup-server :
    (game : Game) (before after : List Server) (server : Server) (d : Dict Rpcs3Patch)
    → All (λ s. s.name ≢ server.name) after
    → lookup (server_key server) (add_servers game (before ++ server ∷ after) d)
      ≡ some (server_patch game server)
unfolding add_servers
lookup-server game [] after server d others =
    lookup-add_servers game after (server_key server)
      (insert (server_key server) (server_patch game server) d) (other_keys server after others)
    ∙ lookup-insert (server_key server) (server_key server) (server_patch game server) d
    ∙ rw (equal_refl (server_key server)) refl
lookup-server game (s ∷ before) after server d others =
    lookup-server game before after server (insert (server_key s) (server_patch game s) d) others
