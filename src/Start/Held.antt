-- ===== src/Start/Held.antt =====
-- What the pointers hold: the later steps leave it alone, and it is above the game.
use patchwork.Prelude.{
  ℕ, ◌+◌, ◌<◌, ◌≡◌, ◌≢◌, ◌∙◌, inl, inr, false, List, ◌==◌, length, Bool-cases, arith,
}
use native.Mathlib.Decide.{ℕ_discrete}
use patchwork.Memory.{Memory, load_pointer}
use patchwork.Http.{Sha256}
use patchwork.Hooks.Patches.{Symbols}
use patchwork.Hooks.Game.{
  game_lbp1, game_lbp2, game_lbp3, game_lbp3_jp, game_end, IsNullOrOwn, IsAboveGame,
}
use patchwork.Hooks.Assembly.ForceJoin.{force_join_length}
use patchwork.Start.{Services, ScriptHooks, Locals, PatchworkConfigOptions}
use patchwork.Start.Layout.{touches, Owned, Changes, kept, load_pointer-kept}
use patchwork.Start.Objects.{
  network_key_word, user_agent_word, server_url_word, server_digest_word, script_hook_word,
  notification_word, join_key_hash_bytes, user_agent_bytes, url_text, digest_text, code_bytes,
  IsOption, IsLaidOut, IsConfigured, Owned-IsOwn,
}
use patchwork.Start.Strung.{IsHeld, stripped-kept}

module _ {W : Type 0} (owner : ℕ → ℕ) (fuel : ℕ) (v : Services W) (sha : Sha256) (s : Symbols)
    (hooks : ScriptHooks) (locals : Locals) (options : PatchworkConfigOptions) where
  option_own :
      (object option pointer : ℕ) (cs : List ℕ) (m : Memory)
      → object ≢ 0
      → ((a : ℕ) → a < game_end → owner a ≡ 0)
      → pointer ≡ option
      → (option ≢ 0 → IsOption owner fuel object option cs m)
      → IsNullOrOwn pointer
  option_own object option pointer cs m other below held string = elim (ℕ_discrete option 0) [
    | yes unset ↦ inl (held ∙ unset)
    | no set ↦
        let owned = (string set).owned in
        inr (
          omega (
            arith,
            held,
            Owned-IsOwn owner option (length cs + 1) object below other (omega arith) owned,
          ))
  ]

  module _ (key url digest : List ℕ) (before : Memory)
      (conf : IsConfigured owner fuel v sha s locals options key url digest before) where
    -- A step that leaves their objects alone leaves what the pointers hold.
    pub IsHeld-kept :
        (room : ℕ) (objects : List ℕ) (m m' : Memory)
        → IsLaidOut owner fuel v sha s locals options room
        → Changes owner objects m m'
        → touches objects network_key_word ≡ false
        → touches objects join_key_hash_bytes ≡ false
        → touches objects server_url_word ≡ false
        → touches objects url_text ≡ false
        → touches objects server_digest_word ≡ false
        → touches objects digest_text ≡ false
        → IsHeld owner fuel v sha s hooks locals options key url digest m
        → IsHeld owner fuel v sha s hooks locals options key url digest m'
    IsHeld-kept room objects m m' laid changes off_key off_hash off_url off_url_text off_digest
          off_digest_text held =
        record {
          key_pointer =
              load_pointer-kept owner objects m m' s.network_key network_key_word changes off_key
                laid.network_key
              ∙ held.key_pointer;
          hashed = held.hashed;
          hashed_key = held.hashed_key;
          key_digest = λ enabled i below.
              kept owner objects m m' locals.join_key_hash 32 join_key_hash_bytes changes off_hash
                laid.join_key_hash i below
              ∙ held.key_digest enabled i below;
          url_pointer =
              load_pointer-kept owner objects m m' s.server_url server_url_word changes off_url
                laid.server_url
              ∙ held.url_pointer;
          url_string = λ set.
              stripped-kept owner fuel url_text options.server_url url objects before m m' changes
                off_url_text (conf.url_option set) (held.url_string set);
          digest_pointer =
              load_pointer-kept owner objects m m' s.server_digest server_digest_word changes
                off_digest laid.server_digest
              ∙ held.digest_pointer;
          digest_string = λ set.
              stripped-kept owner fuel digest_text options.digest_key digest objects before m m'
                changes off_digest_text (conf.digest_option set) (held.digest_string set);
        }

    -- The module's objects, and what its pointers hold, are above the game.
    pub IsHeld-IsAboveGame :
        (room : ℕ) (m : Memory)
        → IsLaidOut owner fuel v sha s locals options room
        → IsHeld owner fuel v sha s hooks locals options key url digest m
        → load_pointer m s.user_agent ≡ locals.user_agent
        → IsAboveGame s m
    IsHeld-IsAboveGame room m laid held named =
        let own =
          λ (start n object : ℕ) (other : object ≢ 0) (some_room : 0 < n)
              (owned : Owned owner start n object).
            Owned-IsOwn owner start n object laid.game_owner other some_room owned in
        let word = λ (start object : ℕ) (other : object ≢ 0) (owned : Owned owner start 4 object).
          own start 4 object other (omega arith) owned in
        record {
          network_key = (
            word s.network_key network_key_word (λ e. absurd (omega arith)) laid.network_key,
            elim (Bool-cases (options.enable_join_key == 0)) [
              | inl disabled ↦ inl (ground (arith, held.key_pointer))
              | inr enabled ↦
                  let above =
                    own locals.join_key_hash 32 join_key_hash_bytes (λ e. absurd (omega arith))
                      (omega arith) laid.join_key_hash in
                  inr (ground (arith, held.key_pointer, above))
            ],
          );
          user_agent = (
            word s.user_agent user_agent_word (λ e. absurd (omega arith)) laid.user_agent,
            inr (
                omega (
                  arith,
                  own locals.user_agent 64 user_agent_bytes (λ e. absurd (omega arith))
                      (omega arith) laid.user_agent_buf,
                )),
          );
          server_url = (
            word s.server_url server_url_word (λ e. absurd (omega arith)) laid.server_url,
            option_own url_text options.server_url (load_pointer m s.server_url) url before
                (λ e. absurd (omega arith)) (λ a low. laid.game_owner a low) held.url_pointer
                conf.url_option,
          );
          server_digest = (
            word s.server_digest server_digest_word (λ e. absurd (omega arith)) laid.server_digest,
            option_own digest_text options.digest_key (load_pointer m s.server_digest) digest before
                (λ e. absurd (omega arith)) (λ a low. laid.game_owner a low) held.digest_pointer
                conf.digest_option,
          );
          lbp1_playlist_override =
              own s.lbp1_playlist_override 1 code_bytes (λ e. absurd (omega arith)) (omega arith)
                laid.lbp1_playlist_override;
          script_hook_instruction =
              word s.script_hook_instruction script_hook_word (λ e. absurd (omega arith))
                laid.script_hook_instruction;
          notification_enable_instruction =
              word s.notification_enable_instruction notification_word (λ e. absurd (omega arith))
                laid.notification_enable_instruction;
          lbp1_force_join_patch =
              own s.lbp1_force_join_patch (force_join_length game_lbp1) code_bytes
                (λ e. absurd (omega arith)) (omega arith) (laid.force_join game_lbp1);
          lbp2_force_join_patch =
              own s.lbp2_force_join_patch (force_join_length game_lbp2) code_bytes
                (λ e. absurd (omega arith)) (omega arith) (laid.force_join game_lbp2);
          lbp3_force_join_patch =
              own s.lbp3_force_join_patch (force_join_length game_lbp3) code_bytes
                (λ e. absurd (omega arith)) (omega arith) (laid.force_join game_lbp3);
          lbp3_jp_force_join_patch =
              own s.lbp3_jp_force_join_patch (force_join_length game_lbp3_jp) code_bytes
                (λ e. absurd (omega arith)) (omega arith) (laid.force_join game_lbp3_jp);
        }
