-- ===== src/Start/InGame.antt =====
-- What is in the game's memory once `start` has applied its patches.
use patchwork.Prelude.{
  ℕ, ◌+◌, ◌*◌, ◌%◌, ◌^◌, ◌<◌, ◌≡◌, ◌≢◌, some, List, length, get_elem?, All, get_or,
}
use patchwork.Memory.{Memory, Outside, load_pointer}
use patchwork.Text.Strings.{IsString}
use patchwork.Text.Trim.{strip_rest}
use patchwork.Http.{Sha256}
use patchwork.Hooks.Offsets.{lbp_ps3_prod_url_length, lbp_digest_length, lbp_network_key_size}
use patchwork.Hooks.Branch.{branch_target, InReach}
use patchwork.Hooks.Patches.{Symbols}
use patchwork.Hooks.Game.{GameNumber, patches_of, game_end}
use patchwork.Hooks.Assembly.ForceJoin.{force_join, force_join_offset}
use patchwork.Hooks.Assembly.Patched.{force_join_source}
use patchwork.Start.{Services, ScriptHooks, PatchworkConfigOptions}
use patchwork.Start.Hooked.{check_of, hook_of}
use patchwork.Start.Agent.{agent_text}
use patchwork.Start.Places.{key_place, agent_place, digest_place, url_places}

module _ {W : Type 0} (v : Services W) (sha : Sha256) (s : Symbols) (hooks : ScriptHooks)
    (options : PatchworkConfigOptions) (key url digest : List ℕ) (game : GameNumber)
    (m : Memory) where
  -- The game's memory holds the configuration.
  pub record IsInGame (memory : Memory) : Type 0 where
    pub user_agent : IsString memory (agent_place game) (agent_text v game options)
    pub server_url :
        options.server_url ≢ 0
        → length (strip_rest url) < lbp_ps3_prod_url_length
        → (j place : ℕ) → get_elem? (url_places game) j ≡ some place
        → IsString memory place (strip_rest url)
    pub server_digest :
        options.digest_key ≢ 0
        → length (strip_rest digest) < lbp_digest_length
        → IsString memory (digest_place game) (strip_rest digest)
    -- Without a URL or a digest key, or with the key disabled, the game keeps its own, and it keeps
    -- every byte outside the targets of its table.
    pub server_url_unset :
        options.server_url ≡ 0
        → (j place : ℕ) → get_elem? (url_places game) j ≡ some place
        → (i : ℕ) → i < lbp_ps3_prod_url_length
        → memory (place + i) ≡ m (place + i)
    pub server_digest_unset :
        options.digest_key ≡ 0
        → (i : ℕ) → i < lbp_digest_length
        → memory (digest_place game + i) ≡ m (digest_place game + i)
    pub network_key_disabled :
        options.enable_join_key ≡ 0
        → (i : ℕ) → i < lbp_network_key_size
        → memory (key_place game + i) ≡ m (key_place game + i)
    pub other :
        (a : ℕ)
        → a < game_end
        → All (λ p. Outside a p.offset p.size) (patches_of game s)
        → memory a ≡ m a
    pub hashed : List ℕ
    pub hashed_key : options.join_key ≢ 0 → hashed ≡ strip_rest key
    pub network_key :
        options.enable_join_key ≢ 0
        → (i : ℕ) → i < lbp_network_key_size
        → memory (key_place game + i) ≡ get_or (sha.digest hashed) i 0
    pub script_hook :
        hook_of game hooks < 2 ^ 32
        → hook_of game hooks % 4 ≡ 0
        → InReach (hook_of game hooks) (check_of game)
        → branch_target (load_pointer memory (check_of game)) (check_of game)
          ≡ some (hook_of game hooks)
    pub force_join_code :
        (i : ℕ)
        → i < 4 * length (force_join game)
        → memory (force_join_offset game + i) ≡ m (force_join_source game s + i)
