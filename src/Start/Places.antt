-- ===== src/Start/Places.antt =====
-- Where each game keeps what the configuration replaces.
use mathlib.Core.Option
use patchwork.Prelude.{
  ℕ, zero, suc, ◌+◌, ◌≡◌, ◌≢◌, refl, ap, some, List, [], ◌∷◌, ◌++◌, map, drop, length, get_elem?,
  arith,
}
use patchwork.Hooks.Offsets.{
  lbp1_network_key_offset, lbp2_network_key_offset, lbp3_network_key_offset,
  lbp3_jp_network_key_offset, lbp1_user_agent_offset, lbp2_user_agent_offset,
  lbp3_user_agent_offset, lbp3_jp_user_agent_offset, lbp1_digest_offset, lbp2_digest_offset,
  lbp3_digest_offset, lbp3_jp_digest_offset, lbp1_https_url_offset, lbp1_http_url_offset,
  lbp2_https_url_offset, lbp2_http_url_offset, lbp3_https_url_offset, lbp3_http_url_offset,
  lbp3_presence_url_offset, lbp3_live_url_offset, lbp3_jp_https_url_offset, lbp3_jp_http_url_offset,
  lbp3_jp_presence_url_offset, lbp3_jp_live_url_offset, lbp_ps3_prod_url_length,
  lbp_network_key_size, lbp_user_agent_length, lbp_digest_length,
}
use patchwork.Hooks.Patches.{Symbols, GamePatch, indirect_patch}
use patchwork.Hooks.Game.{
  GameNumber, game_unknown, game_lbp1, game_lbp2, game_lbp3, game_lbp3_jp, patches_of,
}

abbrev pub key_place : GameNumber → ℕ
key_place game_unknown = 0
key_place game_lbp1 = lbp1_network_key_offset
key_place game_lbp2 = lbp2_network_key_offset
key_place game_lbp3 = lbp3_network_key_offset
key_place game_lbp3_jp = lbp3_jp_network_key_offset

abbrev pub agent_place : GameNumber → ℕ
agent_place game_unknown = 0
agent_place game_lbp1 = lbp1_user_agent_offset
agent_place game_lbp2 = lbp2_user_agent_offset
agent_place game_lbp3 = lbp3_user_agent_offset
agent_place game_lbp3_jp = lbp3_jp_user_agent_offset

abbrev pub digest_place : GameNumber → ℕ
digest_place game_unknown = 0
digest_place game_lbp1 = lbp1_digest_offset
digest_place game_lbp2 = lbp2_digest_offset
digest_place game_lbp3 = lbp3_digest_offset
digest_place game_lbp3_jp = lbp3_jp_digest_offset

abbrev pub url_places : GameNumber → List ℕ
url_places game_unknown = []
url_places game_lbp1 = lbp1_https_url_offset ∷ lbp1_http_url_offset ∷ []
url_places game_lbp2 = lbp2_https_url_offset ∷ lbp2_http_url_offset ∷ []
url_places game_lbp3 =
    lbp3_https_url_offset ∷ lbp3_http_url_offset ∷ lbp3_presence_url_offset ∷ lbp3_live_url_offset
    ∷ []
url_places game_lbp3_jp =
    lbp3_jp_https_url_offset ∷ lbp3_jp_http_url_offset ∷ lbp3_jp_presence_url_offset
    ∷ lbp3_jp_live_url_offset ∷ []

get_elem?-map :
    (f : ℕ → GamePatch) (xs : List ℕ) (ys : List GamePatch) (j : ℕ) {x : ℕ}
    → get_elem? xs j ≡ some x
    → get_elem? (map f xs ++ ys) j ≡ some (f x)
get_elem?-map f [] ys j at = absurd (ground arith)
get_elem?-map f (x ∷ xs) ys zero at = ap (Option.map f) at
get_elem?-map f (x ∷ xs) ys (suc j) at = get_elem?-map f xs ys j at

module _ (s : Symbols) where
  abbrev url_patch : ℕ → GamePatch
  url_patch offset = indirect_patch offset s.server_url lbp_ps3_prod_url_length

  pub key_patch :
      (game : GameNumber)
      → game ≢ game_unknown
      → get_elem? (patches_of game s) 0
        ≡ some (indirect_patch (key_place game) s.network_key lbp_network_key_size)
  key_patch game_unknown known = absurd (known refl)
  key_patch game_lbp1 known = refl
  key_patch game_lbp2 known = refl
  key_patch game_lbp3 known = refl
  key_patch game_lbp3_jp known = refl

  pub agent_patch :
      (game : GameNumber)
      → game ≢ game_unknown
      → get_elem? (patches_of game s) 1
        ≡ some (indirect_patch (agent_place game) s.user_agent lbp_user_agent_length)
  agent_patch game_unknown known = absurd (known refl)
  agent_patch game_lbp1 known = refl
  agent_patch game_lbp2 known = refl
  agent_patch game_lbp3 known = refl
  agent_patch game_lbp3_jp known = refl

  pub digest_patch :
      (game : GameNumber)
      → game ≢ game_unknown
      → get_elem? (patches_of game s) (2 + length (url_places game))
        ≡ some (indirect_patch (digest_place game) s.server_digest lbp_digest_length)
  digest_patch game_unknown known = absurd (known refl)
  digest_patch game_lbp1 known = refl
  digest_patch game_lbp2 known = refl
  digest_patch game_lbp3 known = refl
  digest_patch game_lbp3_jp known = refl

  -- The table's entries for the server's address, as far as there are places.
  pub url_patch_at :
      (game : GameNumber) (j : ℕ) {offset : ℕ}
      → get_elem? (url_places game) j ≡ some offset
      → get_elem? (patches_of game s) (suc (suc j)) ≡ some (url_patch offset)
  url_patch_at game_unknown j at = absurd (ground arith)
  url_patch_at game_lbp1 j at =
      get_elem?-map url_patch (url_places game_lbp1) (drop 4 (patches_of game_lbp1 s)) j at
  url_patch_at game_lbp2 j at =
      get_elem?-map url_patch (url_places game_lbp2) (drop 4 (patches_of game_lbp2 s)) j at
  url_patch_at game_lbp3 j at =
      get_elem?-map url_patch (url_places game_lbp3) (drop 6 (patches_of game_lbp3 s)) j at
  url_patch_at game_lbp3_jp j at =
      get_elem?-map url_patch (url_places game_lbp3_jp) (drop 6 (patches_of game_lbp3_jp s)) j at
