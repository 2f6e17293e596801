-- ===== src/Start/Keyed.antt =====
-- What the step of `start` for the network key changes, and what it leaves for the patches.
use patchwork.Prelude.{
  ℕ, ◌+◌, ◌%◌, ◌^◌, ◌<◌, ◌≡◌, ◌≢◌, refl, ◌∙◌, Bool, true, false, some, List, [], ◌∷◌, ◌==◌,
  if◌then◌else◌, length, get_or, arith,
}
use native.Mathlib.Decide.{ℕ_discrete}
use patchwork.Memory.{Memory, load_pointer, store_word, load_pointer-store_word, store_word-Outside}
use patchwork.Text.Trim.{strip_rest, trim_end-strip_rest}
use patchwork.Http.{Sha256}
use patchwork.Hooks.Patches.{Symbols}
use patchwork.Update.{line}
use patchwork.Start.{Services, ScriptHooks, Locals, PatchworkConfigOptions, write_bytes, big_endian}
use patchwork.Start.Steps.{copy_hashed_join_key, setup_join_key}
use patchwork.Start.Configured.{strip_rest-length, string_at-IsString, write_bytes-get_or}
use patchwork.Start.Wording.{write_bytes-Outside}
use patchwork.Start.Layout.{Owned, Changes, Owned-Outside}
use patchwork.Start.Objects.{IsOption, network_key_word, join_key_hash_bytes, key_text}

module _ (owner : ℕ → ℕ) (fuel : ℕ) where
  module _ {W : Type 0} (v : Services W) (sha : Sha256) (s : Symbols) (hooks : ScriptHooks)
      (locals : Locals) where
    module _ (options : PatchworkConfigOptions) (key : List ℕ) (m : Memory) (w : W) where
      -- The network key points at the digest of the stripped key, or of the time if there is none; it
      -- stays `NULL` if the key is disabled.
      pub record IsKeySet : Type 0 where
        pub randomized : Bool
        pub memory : Memory
        pub world : W
        pub returns :
            setup_join_key v sha s hooks locals fuel options (m, w)
            ≡ some (randomized, (memory, world))
        pub changes :
            Changes owner (network_key_word ∷ join_key_hash_bytes ∷ key_text ∷ []) m memory
        pub pointer :
            load_pointer memory s.network_key
            ≡ (if options.enable_join_key == 0 then 0 else locals.join_key_hash)
        pub hashed : List ℕ
        pub hashed_key : options.join_key ≢ 0 → hashed ≡ strip_rest key
        pub digest :
            options.enable_join_key ≢ 0
            → (i : ℕ) → i < 32
            → memory (locals.join_key_hash + i) ≡ get_or (sha.digest hashed) i 0

      module _ (sized : (bytes : List ℕ) → length (sha.digest bytes) ≡ 32)
          (unset : load_pointer m s.network_key ≡ 0) (bound : locals.join_key_hash < 2 ^ 32)
          (word : Owned owner s.network_key 4 network_key_word)
          (buffer : Owned owner locals.join_key_hash 32 join_key_hash_bytes) where
        no_key : options.enable_join_key ≡ 0 → IsKeySet
        unfolding setup_join_key
        no_key disabled = record {
          randomized = false;
          memory = m;
          world = w;
          returns = rw disabled refl;
          changes = λ a off. refl;
          pointer = unset ∙ ground arith;
          hashed = strip_rest key;
          hashed_key = λ _. refl;
          digest = λ enabled. absurd (enabled disabled);
        }

        -- The digest is stored, and the pointer set to it.
        stored_digest : Memory → List ℕ → Memory
        stored_digest m1 bytes =
            store_word (write_bytes m1 locals.join_key_hash (sha.digest bytes)) s.network_key
              locals.join_key_hash

        stored_digest-Changes :
            (m1 : Memory) (bytes : List ℕ)
            → Changes owner (key_text ∷ []) m m1
            → Changes owner
                (network_key_word ∷ join_key_hash_bytes ∷ key_text ∷ [])
                m
                (stored_digest m1 bytes)
        unfolding stored_digest
        stored_digest-Changes m1 bytes before a off =
            let hashed = write_bytes m1 locals.join_key_hash (sha.digest bytes) in
            let size = sized bytes in
            store_word-Outside hashed s.network_key locals.join_key_hash a
              (Owned-Outside owner s.network_key 4 network_key_word a word (λ e. ground arith))
            ∙ write_bytes-Outside m1 locals.join_key_hash (sha.digest bytes) a (
                rw (size) (
                  Owned-Outside owner locals.join_key_hash 32 join_key_hash_bytes a buffer
                    (λ e. ground arith)))
            ∙ before a (ground arith)

        stored_digest-get_or :
            (m1 : Memory) (bytes : List ℕ) (i : ℕ)
            → i < 32
            → stored_digest m1 bytes (locals.join_key_hash + i) ≡ get_or (sha.digest bytes) i 0
        unfolding stored_digest
        stored_digest-get_or m1 bytes i below =
            let hashed = write_bytes m1 locals.join_key_hash (sha.digest bytes) in
            store_word-Outside hashed s.network_key locals.join_key_hash (locals.join_key_hash + i)
              (Owned-Outside owner s.network_key 4 network_key_word (locals.join_key_hash + i) word
                (λ e. absurd (omega (arith, buffer i below))))
            ∙ write_bytes-get_or m1 locals.join_key_hash (sha.digest bytes) i
                (omega (arith, sized bytes))

        random_key : options.enable_join_key ≢ 0 → options.join_key ≡ 0 → IsKeySet
        unfolding setup_join_key copy_hashed_join_key stored_digest
        random_key enabled none_given =
            let now = v.sys_time_get_current_time w in
            let time = big_endian 8 ((now.1 + now.0) % 2 ^ 64) in
            record {
              randomized = true;
              memory = stored_digest m time;
              world = v.platform.log_ln (line "Setup join key") now.2;
              returns = ground arith;
              changes = stored_digest-Changes m time (λ a off. refl);
              pointer =
                  load_pointer-store_word (write_bytes m locals.join_key_hash (sha.digest time))
                    s.network_key locals.join_key_hash bound
                  ∙ ground arith;
              hashed = time;
              hashed_key = λ given. absurd (given none_given);
              digest = λ _. stored_digest-get_or m time;
            }

        given_key :
            options.enable_join_key ≢ 0
            → options.join_key ≢ 0
            → IsOption owner fuel key_text options.join_key key m
            → IsKeySet
        unfolding setup_join_key copy_hashed_join_key stored_digest
        given_key enabled given string =
            let (m1, returned, stripped, same) =
              trim_end-strip_rest fuel m options.join_key key given string.enough string.here in
            let shorter = strip_rest-length key in
            let enough = string.enough in
            let read =
              string_at-IsString fuel m1 options.join_key (strip_rest key) (omega arith) stripped in
            record {
              randomized = false;
              memory = stored_digest m1 (strip_rest key);
              world = v.platform.log_ln (line "Setup join key") w;
              returns = ground (arith, returned, read);
              changes = stored_digest-Changes m1 (strip_rest key) (λ a off.
                  let away =
                    Owned-Outside owner options.join_key (length key + 1) key_text a string.owned
                      (λ e. ground arith) in
                  same a (λ e. absurd (omega arith)));
              pointer =
                  load_pointer-store_word
                    (write_bytes m1 locals.join_key_hash (sha.digest (strip_rest key)))
                    s.network_key locals.join_key_hash bound
                  ∙ ground arith;
              hashed = strip_rest key;
              hashed_key = λ _. refl;
              digest = λ _. stored_digest-get_or m1 (strip_rest key);
            }

        pub setup_join_key-IsKeySet :
            (options.join_key ≢ 0 → IsOption owner fuel key_text options.join_key key m) → IsKeySet
        setup_join_key-IsKeySet string = elim (ℕ_discrete options.enable_join_key 0) [
          | yes disabled ↦ no_key disabled
          | no enabled ↦ elim (ℕ_discrete options.join_key 0) [
            | yes none_given ↦ random_key enabled none_given
            | no given ↦ given_key enabled given (string given)
          ]
        ]
