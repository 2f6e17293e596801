-- ===== src/Start/Objects.antt =====
-- The objects of the module, the room that the linker and the stack give them, and what the
-- configuration and the services are to hold for the rest of `start`.
use patchwork.Prelude.{
  ℕ, ◌+◌, ◌^◌, ◌<◌, ◌≡◌, ◌≢◌, sym, ap, ◌∙◌, inl, inr, Bool, true, false, List, [], ◌∷◌, ◌++◌,
  length, ltb, Bool-cases, arith,
}
use patchwork.Memory.{Memory, load_pointer}
use patchwork.Text.Strings.{IsString}
use patchwork.Http.{Sha256}
use patchwork.Hooks.Offsets.{
  lbp1_user_agent_offset, lbp2_user_agent_offset, lbp3_user_agent_offset, lbp3_jp_user_agent_offset,
}
use patchwork.Hooks.Patches.{Symbols}
use patchwork.Hooks.Game.{GameNumber, get_lbp_game_number, game_end, IsOwn}
use patchwork.Hooks.Assembly.ForceJoin.{force_join_length}
use patchwork.Hooks.Assembly.Patched.{force_join_source}
use patchwork.Text.Trim.{strip_rest}
use patchwork.Update.{fits_log}
use patchwork.Start.Steps.{string_message}
use patchwork.Start.{Services, Locals, PatchworkConfigOptions, chosen_message}
use patchwork.Start.Wording.{avoids}
use patchwork.Start.Layout.{touches, Owned, Changes, IsString-kept}
use patchwork.Start.Agent.{game_char, agent_message, agent_text}

-- The objects of the module, as the owners of their addresses; 0 is the game.
abbrev pub network_key_word : ℕ
network_key_word = 1

abbrev pub user_agent_word : ℕ
user_agent_word = 2

abbrev pub server_url_word : ℕ
server_url_word = 3

abbrev pub server_digest_word : ℕ
server_digest_word = 4

abbrev pub script_hook_word : ℕ
script_hook_word = 5

abbrev pub notification_word : ℕ
notification_word = 6

abbrev pub join_key_hash_bytes : ℕ
join_key_hash_bytes = 7

abbrev pub user_agent_bytes : ℕ
user_agent_bytes = 8

abbrev pub msg_buf_bytes : ℕ
msg_buf_bytes = 9

abbrev pub key_text : ℕ
key_text = 10

abbrev pub url_text : ℕ
url_text = 11

abbrev pub digest_text : ℕ
digest_text = 12

abbrev pub code_bytes : ℕ
code_bytes = 13

module _ (owner : ℕ → ℕ) (fuel : ℕ) where
  -- An option of the configuration, if it is set, is the address of a string that is an object.
  pub record IsOption (object option : ℕ) (cs : List ℕ) (m : Memory) : Type 0 where
    pub bound : option < 2 ^ 32
    pub enough : length cs < fuel
    pub here : IsString m option cs
    pub owned : Owned owner option (length cs + 1) object

pub get_lbp_game_number-below :
    (m n : Memory)
    → ((a : ℕ) → a < game_end → m a ≡ n a)
    → get_lbp_game_number m ≡ get_lbp_game_number n
unfolding get_lbp_game_number
get_lbp_game_number-below m n same = ground (
  arith,
  same (lbp1_user_agent_offset + 15) (omega arith),
  same (lbp2_user_agent_offset + 18) (omega arith),
  same (lbp3_user_agent_offset + 18) (omega arith),
  same (lbp3_jp_user_agent_offset + 18) (omega arith),
)

pub Owned-IsOwn :
    (owner : ℕ → ℕ) (start n object : ℕ)
    → ((a : ℕ) → a < game_end → owner a ≡ 0)
    → object ≢ 0
    → 0 < n
    → Owned owner start n object
    → IsOwn start
Owned-IsOwn owner start n object below other some_room owned =
    elim (Bool-cases (ltb start game_end)) [
      | inl low ↦ absurd (
          other (sym (owned 0 (omega arith)) ∙ ap owner (omega arith) ∙ below start (ground arith)))
      | inr high ↦ ground arith
    ]

pub IsOption-kept :
    (owner : ℕ → ℕ) (fuel object option : ℕ) (cs objects : List ℕ) (m m' : Memory)
    → Changes owner objects m m'
    → touches objects object ≡ false
    → IsOption owner fuel object option cs m
    → IsOption owner fuel object option cs m'
IsOption-kept owner fuel object option cs objects m m' changes off string = record {
  bound = string.bound;
  enough = string.enough;
  here = IsString-kept owner objects m m' option object cs changes off string.owned string.here;
  owned = string.owned;
}

module _ {W : Type 0} (owner : ℕ → ℕ) (fuel : ℕ) (v : Services W) (sha : Sha256) (s : Symbols)
    (locals : Locals) (options : PatchworkConfigOptions) where
  -- The objects of the module have addresses of their own, above the game. The message has so much
  -- room: it may reach past the end of its buffer, where nothing else stands.
  pub record IsLaidOut (room : ℕ) : Type 0 where
    pub game_owner : (a : ℕ) → a < game_end → owner a ≡ 0
    pub network_key : Owned owner s.network_key 4 network_key_word
    pub user_agent : Owned owner s.user_agent 4 user_agent_word
    pub server_url : Owned owner s.server_url 4 server_url_word
    pub server_digest : Owned owner s.server_digest 4 server_digest_word
    pub script_hook_instruction : Owned owner s.script_hook_instruction 4 script_hook_word
    pub notification_enable_instruction :
        Owned owner s.notification_enable_instruction 4 notification_word
    pub join_key_hash : Owned owner locals.join_key_hash 32 join_key_hash_bytes
    pub user_agent_buf : Owned owner locals.user_agent 64 user_agent_bytes
    pub msg_buf : Owned owner locals.msg_buf room msg_buf_bytes
    pub bounds : (locals.join_key_hash < 2 ^ 32) × (locals.user_agent < 2 ^ 32)
    pub lbp1_playlist_override : Owned owner s.lbp1_playlist_override 1 code_bytes
    pub force_join :
        (game : GameNumber)
        → Owned owner (force_join_source game s) (force_join_length game) code_bytes

  -- The pointers are still `NULL`, and the options that are set are strings, for whose messages the
  -- logger has room.
  pub record IsConfigured (key url digest : List ℕ) (m : Memory) : Type 0 where
    pub network_key : load_pointer m s.network_key ≡ 0
    pub server_url : load_pointer m s.server_url ≡ 0
    pub server_digest : load_pointer m s.server_digest ≡ 0
    pub key_option : options.join_key ≢ 0 → IsOption owner fuel key_text options.join_key key m
    pub url_option : options.server_url ≢ 0 → IsOption owner fuel url_text options.server_url url m
    pub digest_option :
        options.digest_key ≢ 0 → IsOption owner fuel digest_text options.digest_key digest m
    pub url_logged :
        options.server_url ≢ 0
        → fits_log v.platform (string_message "Server URL: %s" (strip_rest url)) ≡ true
    pub digest_logged :
        options.digest_key ≢ 0
        → fits_log v.platform (string_message "Digest Key: %s" (strip_rest digest)) ≡ true

  -- What the code relies on of SHA-256 and of `Snprintf`, and the sizes of the texts.
  pub record IsWorded (game : GameNumber) (room : ℕ) : Type 0 where
    pub sized : (bytes : List ℕ) → length (sha.digest bytes) ≡ 32
    pub formats : v.snprintf 64 (agent_message v game options) ≡ agent_text v game options ++ 0 ∷ []
    pub plain : avoids 0 (agent_text v game options) ≡ true
    pub agent_fits : length (agent_text v game options) < 22
    pub agent_enough : length (agent_text v game options) < fuel
    pub major : (avoids b'X' v.major_str ≡ true) × (avoids 0 v.major_str ≡ true)
    pub minor : (avoids b'X' v.minor_str ≡ true) × (avoids 0 v.minor_str ≡ true)
    pub digit : game_char v game ≢ 0
    pub message_fits :
        (b : Bool)
        → length (chosen_message v.major_str v.minor_str options.enable_join_key b) < room
    pub message_enough :
        (b : Bool)
        → length (chosen_message v.major_str v.minor_str options.enable_join_key b) < fuel
