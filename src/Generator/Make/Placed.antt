-- ===== src/Generator/Make/Placed.antt =====
-- What the rows of a server make of a game's memory.
use patchwork.Prelude.{
  ℕ, zero, suc, ◌≤◌, ◌≡◌, ◌≢◌, refl, true, Bool-cases, some, List, [], ◌∷◌, inl, inr, if◌then◌else◌,
  length, get_elem?, arith,
}
use patchwork.Memory.{Memory}
use patchwork.Text.Strings.{IsString}
use patchwork.Hooks.Offsets.{
  lbp1_https_url_offset, lbp1_http_url_offset, lbp2_https_url_offset, lbp2_http_url_offset,
  lbp3_https_url_offset, lbp3_http_url_offset, lbp3_jp_https_url_offset, lbp3_jp_http_url_offset,
  lbp3_jp_presence_url_offset, lbp3_jp_live_url_offset, lbp_ps3_prod_url_length, lbp_digest_length,
}
use patchwork.Hooks.Game.{GameNumber, game_unknown, game_lbp1, game_lbp2, game_lbp3, game_lbp3_jp}
use patchwork.Start.Places.{url_places, digest_place}
use patchwork.Start.Wording.{avoids}
use patchwork.Generator.{Bytes, Server}
use patchwork.Generator.Dict.{equal, equal_iff}
use patchwork.Generator.Definitions.{definition_of}
use patchwork.Generator.Entries.{Format}
use patchwork.Generator.Make.{server_rows}
use patchwork.Generator.Rpcs3.{Rpcs3, write_all}
use patchwork.Generator.Texts.{TextAt, text_rows, AreSpaced, text_rows-IsString}

-- The places of a server's address: those of src/offsets.h, but the last two of LBP3 are those of the
-- Japanese LBP3. The first place of a game is that of the secure address.
abbrev pub served_places : GameNumber → List ℕ
served_places game_lbp3 =
    lbp3_https_url_offset ∷ lbp3_http_url_offset ∷ lbp3_jp_presence_url_offset
    ∷ lbp3_jp_live_url_offset ∷ []
served_places game = url_places game

-- The secure address, or the first one where there is none.
abbrev pub secure_url : Server → Bytes
secure_url server = if equal server.https_url [] then server.primary_url else server.https_url

abbrev pub url_at : Server → ℕ → Bytes
url_at server zero = secure_url server
url_at server (suc k) = server.primary_url

-- The texts have no NUL, and are not longer than those of the game.
pub record IsServer (server : Server) : Type 0 where
  pub primary_clean : avoids 0 server.primary_url ≡ true
  pub https_clean : avoids 0 server.https_url ≡ true
  pub digest_clean : avoids 0 server.custom_digest ≡ true
  pub primary_short : length server.primary_url ≤ lbp_ps3_prod_url_length
  pub https_short : length server.https_url ≤ lbp_ps3_prod_url_length
  pub digest_short : length server.custom_digest ≤ lbp_digest_length

-- The game's memory holds the server's texts at their places.
pub record IsServed (game : GameNumber) (server : Server) (m : Memory) : Type 0 where
  pub urls :
      (k offset : ℕ)
      → get_elem? (served_places game) k ≡ some offset
      → IsString m offset (url_at server k)
  pub digest : server.custom_digest ≢ [] → IsString m (digest_place game) server.custom_digest

abbrev url_texts : GameNumber → Bytes → Bytes → List TextAt → List TextAt
url_texts game_unknown primary https rest = rest
url_texts game_lbp1 primary https rest =
    (lbp1_http_url_offset, primary) ∷ (lbp1_https_url_offset, https) ∷ rest
url_texts game_lbp2 primary https rest =
    (lbp2_http_url_offset, primary) ∷ (lbp2_https_url_offset, https) ∷ rest
url_texts game_lbp3 primary https rest =
    (lbp3_http_url_offset, primary)
    ∷ (lbp3_https_url_offset, https)
    ∷ (lbp3_jp_live_url_offset, primary)
    ∷ (lbp3_jp_presence_url_offset, primary)
    ∷ rest
url_texts game_lbp3_jp primary https rest =
    (lbp3_jp_http_url_offset, primary)
    ∷ (lbp3_jp_https_url_offset, https)
    ∷ (lbp3_jp_live_url_offset, primary)
    ∷ (lbp3_jp_presence_url_offset, primary)
    ∷ rest

abbrev digest_texts : GameNumber → Bytes → List TextAt
digest_texts game digest = if equal digest [] then [] else (digest_place game, digest) ∷ []

abbrev texts_of : GameNumber → Server → List TextAt
texts_of game server =
    url_texts game server.primary_url (secure_url server) (digest_texts game server.custom_digest)

server_rows-text_rows :
    (game : GameNumber) (server : Server)
    → game ≢ game_unknown
    → server_rows (definition_of game) server ≡ text_rows (texts_of game server)
unfolding server_rows
server_rows-text_rows game_unknown server known = absurd (known refl)
server_rows-text_rows game_lbp1 server known = ground arith
server_rows-text_rows game_lbp2 server known = ground arith
server_rows-text_rows game_lbp3 server known = ground arith
server_rows-text_rows game_lbp3_jp server known = ground arith

secure_url-length : (server : Server) → IsServer server → length (secure_url server) ≤ 70
secure_url-length server fits = ground (arith, fits.primary_short, fits.https_short)

secure_url_clean : (server : Server) → IsServer server → avoids 0 (secure_url server) ≡ true
secure_url_clean server fits = ground (arith, fits.primary_clean, fits.https_clean)

url_texts-AreSpaced :
    (game : GameNumber) (primary https digest : Bytes)
    → game ≢ game_unknown
    → length primary ≤ 70
    → length https ≤ 70
    → length digest ≤ 18
    → AreSpaced (url_texts game primary https (digest_texts game digest))
url_texts-AreSpaced game primary https digest known p h d = elim (Bool-cases (equal digest [])) [
  | inl e ↦ rw e (without game known)
  | inr e ↦ rw e (with_digest game known)
]
  where
    without : (g : GameNumber) → g ≢ game_unknown → AreSpaced (url_texts g primary https [])
    without game_unknown named = absurd (named refl)
    without game_lbp1 named = ground arith
    without game_lbp2 named = ground arith
    without game_lbp3 named = ground arith
    without game_lbp3_jp named = ground arith

    with_digest :
        (g : GameNumber)
        → g ≢ game_unknown
        → AreSpaced (url_texts g primary https ((digest_place g, digest) ∷ []))
    with_digest game_unknown named = absurd (named refl)
    with_digest game_lbp1 named = ground arith
    with_digest game_lbp2 named = ground arith
    with_digest game_lbp3 named = ground arith
    with_digest game_lbp3_jp named = ground arith

-- The texts' positions among the rows
abbrev url_index : ℕ → ℕ
url_index zero = 1
url_index (suc zero) = 0
url_index (suc (suc zero)) = 3
url_index k = 2

url_texts-get_elem? :
    (game : GameNumber) (server : Server) (rest : List TextAt) (k offset : ℕ)
    → get_elem? (served_places game) k ≡ some offset
    → get_elem? (url_texts game server.primary_url (secure_url server) rest) (url_index k)
      ≡ some (offset, url_at server k)
url_texts-get_elem? game_unknown server rest k offset at = absurd (cc)
url_texts-get_elem? game_lbp1 server rest zero offset at = cc
url_texts-get_elem? game_lbp1 server rest (suc zero) offset at = cc
url_texts-get_elem? game_lbp1 server rest (suc (suc k)) offset at = absurd (cc)
url_texts-get_elem? game_lbp2 server rest zero offset at = cc
url_texts-get_elem? game_lbp2 server rest (suc zero) offset at = cc
url_texts-get_elem? game_lbp2 server rest (suc (suc k)) offset at = absurd (cc)
url_texts-get_elem? game_lbp3 server rest zero offset at = cc
url_texts-get_elem? game_lbp3 server rest (suc zero) offset at = cc
url_texts-get_elem? game_lbp3 server rest (suc (suc zero)) offset at = cc
url_texts-get_elem? game_lbp3 server rest (suc (suc (suc zero))) offset at = cc
url_texts-get_elem? game_lbp3 server rest (suc (suc (suc (suc k)))) offset at = absurd (cc)
url_texts-get_elem? game_lbp3_jp server rest zero offset at = cc
url_texts-get_elem? game_lbp3_jp server rest (suc zero) offset at = cc
url_texts-get_elem? game_lbp3_jp server rest (suc (suc zero)) offset at = cc
url_texts-get_elem? game_lbp3_jp server rest (suc (suc (suc zero))) offset at = cc
url_texts-get_elem? game_lbp3_jp server rest (suc (suc (suc (suc k)))) offset at = absurd (cc)

url_at_clean : (server : Server) (k : ℕ) → IsServer server → avoids 0 (url_at server k) ≡ true
url_at_clean server zero fits = secure_url_clean server fits
url_at_clean server (suc k) fits = fits.primary_clean

digest_row :
    (game : GameNumber) (server : Server)
    → game ≢ game_unknown
    → server.custom_digest ≢ []
    → (k : ℕ) × (get_elem? (texts_of game server) k
        ≡ some (digest_place game, server.custom_digest))
digest_row game server known digest = elim (Bool-cases (equal server.custom_digest [])) [
  | inl e ↦ absurd (digest ((equal_iff server.custom_digest []).0 e))
  | inr e ↦ rw e (by_game game known)
]
  where
    by_game :
        (g : GameNumber)
        → g ≢ game_unknown
        → (k : ℕ) × (get_elem?
              (url_texts g server.primary_url
                (secure_url server)
                ((digest_place g, server.custom_digest) ∷ []))
              k
            ≡ some (digest_place g, server.custom_digest))
    by_game game_unknown named = absurd (named refl)
    by_game game_lbp1 named = (2, refl)
    by_game game_lbp2 named = (2, refl)
    by_game game_lbp3 named = (4, refl)
    by_game game_lbp3_jp named = (4, refl)

pub server_rows-IsServed :
    (fmt : Format) (rpcs3 : Rpcs3 fmt) (game : GameNumber) (server : Server) (m : Memory)
    → game ≢ game_unknown
    → IsServer server
    → IsServed game server (write_all fmt rpcs3 (server_rows (definition_of game) server) m)
server_rows-IsServed fmt rpcs3 game server m known fits =
    let spaced =
      url_texts-AreSpaced game server.primary_url (secure_url server) server.custom_digest known
        fits.primary_short (secure_url-length server fits) fits.digest_short in
    rw (server_rows-text_rows game server known) (record {
      urls = λ k offset at.
          text_rows-IsString fmt rpcs3 (texts_of game server) m (url_index k)
            (offset, url_at server k) spaced
            (url_texts-get_elem? game server (digest_texts game server.custom_digest) k offset at)
            (url_at_clean server k fits);
      digest = λ some_digest.
          let (k, at) = digest_row game server known some_digest in
          text_rows-IsString fmt rpcs3 (texts_of game server) m k
            (digest_place game, server.custom_digest) spaced at fits.digest_clean;
    })
