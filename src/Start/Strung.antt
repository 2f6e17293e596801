-- ===== src/Start/Strung.antt =====
-- The key and the strings of the configuration, one after another.
use patchwork.Prelude.{
  ℕ, ◌+◌, ◌<◌, ◌≡◌, ◌≢◌, refl, ◌∙◌, Bool, false, some, List, [], ◌∷◌, ◌++◌, ◌==◌, if◌then◌else◌,
  length, get_or, arith,
}
use patchwork.Memory.{Memory, load_pointer}
use patchwork.Text.Strings.{IsString}
use patchwork.Text.Trim.{strip_rest}
use patchwork.Http.{Sha256}
use patchwork.Hooks.Patches.{Symbols}
use patchwork.Hooks.Apply.{Machine}
use patchwork.Start.{Services, ScriptHooks, Locals, PatchworkConfigOptions}
use patchwork.Start.Steps.{setup_join_key, set_string}
use patchwork.Start.Entry.{configure_and_patch, patch_game}
use patchwork.Start.Configured.{strip_rest-length}
use patchwork.Start.Layout.{touches, Changes, Changes-trans, load_pointer-kept, IsString-kept, kept}
use patchwork.Start.Objects.{
  network_key_word, server_url_word, server_digest_word, join_key_hash_bytes, key_text, url_text,
  digest_text, IsOption, IsOption-kept, IsLaidOut, IsConfigured,
}
use patchwork.Start.Prepared.{set_string-IsAssigned}
use patchwork.Start.Keyed.{setup_join_key-IsKeySet}

-- A stripped string is in the room of the whole.
pub stripped-kept :
    (owner : ℕ → ℕ) (fuel object option : ℕ) (cs objects : List ℕ) (before m m' : Memory)
    → Changes owner objects m m'
    → touches objects object ≡ false
    → IsOption owner fuel object option cs before
    → IsString m option (strip_rest cs)
    → IsString m' option (strip_rest cs)
stripped-kept owner fuel object option cs objects before m m' changes off string here =
    let shorter = strip_rest-length cs in
    IsString-kept owner objects m m' option object (strip_rest cs) changes off
      (λ i below. string.owned i (omega arith)) here

abbrev pub key_objects : List ℕ
key_objects = network_key_word ∷ join_key_hash_bytes ∷ key_text ∷ []

abbrev pub url_objects : List ℕ
url_objects = server_url_word ∷ url_text ∷ []

abbrev pub digest_objects : List ℕ
digest_objects = server_digest_word ∷ digest_text ∷ []

module _ {W : Type 0} (owner : ℕ → ℕ) (fuel : ℕ) (v : Services W) (sha : Sha256) (s : Symbols)
    (hooks : ScriptHooks) (locals : Locals) (options : PatchworkConfigOptions)
    (key url digest : List ℕ) where
  -- What the pointers hold and what stands there.
  pub record IsHeld (memory : Memory) : Type 0 where
    pub key_pointer :
        load_pointer memory s.network_key
        ≡ (if options.enable_join_key == 0 then 0 else locals.join_key_hash)
    pub hashed : List ℕ
    pub hashed_key : options.join_key ≢ 0 → hashed ≡ strip_rest key
    pub key_digest :
        options.enable_join_key ≢ 0
        → (i : ℕ) → i < 32
        → memory (locals.join_key_hash + i) ≡ get_or (sha.digest hashed) i 0
    pub url_pointer : load_pointer memory s.server_url ≡ options.server_url
    pub url_string : options.server_url ≢ 0 → IsString memory options.server_url (strip_rest url)
    pub digest_pointer : load_pointer memory s.server_digest ≡ options.digest_key
    pub digest_string :
        options.digest_key ≢ 0 → IsString memory options.digest_key (strip_rest digest)

  configure_and_patch-steps :
      (b : Bool) (machine with_key with_url with_digest : Machine W)
      → setup_join_key v sha s hooks locals fuel options machine ≡ some (b, with_key)
      → set_string v sha s hooks locals fuel s.server_url options.server_url "Server URL: %s"
          with_key
        ≡ some with_url
      → set_string v sha s hooks locals fuel s.server_digest options.digest_key "Digest Key: %s"
          with_url
        ≡ some with_digest
      → configure_and_patch v sha s hooks locals fuel options machine
        ≡ patch_game v sha s hooks locals fuel options b with_digest
  unfolding configure_and_patch
  configure_and_patch-steps b machine with_key with_url with_digest first second third =
      rw (first, second, third, configure_and_patch) refl

  module _ (m : Memory) (w : W) where
    -- The strings are set up, and what is left of `start` goes on from there.
    pub record IsStrung : Type 0 where
      pub randomized : Bool
      pub memory : Memory
      pub world : W
      pub returns :
          configure_and_patch v sha s hooks locals fuel options (m, w)
          ≡ patch_game v sha s hooks locals fuel options randomized (memory, world)
      pub changes : Changes owner (key_objects ++ url_objects ++ digest_objects) m memory
      pub held : IsHeld memory

    pub configure_and_patch-IsStrung :
        (room : ℕ)
        → ((bytes : List ℕ) → length (sha.digest bytes) ≡ 32)
        → IsLaidOut owner fuel v sha s locals options room
        → IsConfigured owner fuel v sha s locals options key url digest m
        → IsStrung
    configure_and_patch-IsStrung room sized laid conf =
        let keyed =
          setup_join_key-IsKeySet owner fuel v sha s hooks locals options key m w sized
            conf.network_key laid.bounds.0 laid.network_key laid.join_key_hash conf.key_option in
        let m1 = keyed.memory in
        let urled =
          set_string-IsAssigned owner fuel v sha s hooks locals server_url_word url_text
            s.server_url options.server_url "Server URL: %s" url m1 keyed.world
            (λ e. absurd (omega arith)) laid.server_url
            (load_pointer-kept owner key_objects m m1 s.server_url server_url_word keyed.changes
                refl laid.server_url
              ∙ conf.server_url)
            (λ set.
              IsOption-kept owner fuel url_text options.server_url url key_objects m m1
                keyed.changes refl (conf.url_option set))
            conf.url_logged in
        let m2 = urled.memory in
        let before_digest =
          Changes-trans owner key_objects url_objects m m1 m2 keyed.changes urled.changes in
        let digested =
          set_string-IsAssigned owner fuel v sha s hooks locals server_digest_word digest_text
            s.server_digest options.digest_key "Digest Key: %s" digest m2 urled.world
            (λ e. absurd (omega arith)) laid.server_digest
            (load_pointer-kept owner (key_objects ++ url_objects) m m2 s.server_digest
                server_digest_word before_digest refl laid.server_digest
              ∙ conf.server_digest)
            (λ set.
              IsOption-kept owner fuel digest_text options.digest_key digest
                (key_objects ++ url_objects) m m2 before_digest refl (conf.digest_option set))
            conf.digest_logged in
        let m3 = digested.memory in
        let after_key =
          Changes-trans owner url_objects digest_objects m1 m2 m3 urled.changes digested.changes in
        record {
          randomized = keyed.randomized;
          memory = m3;
          world = digested.world;
          returns =
              configure_and_patch-steps keyed.randomized (m, w) (m1, keyed.world) (m2, urled.world)
                (m3, digested.world) keyed.returns urled.returns digested.returns;
          changes =
              Changes-trans owner key_objects (url_objects ++ digest_objects) m m1 m3 keyed.changes
                after_key;
          held = record {
            key_pointer =
                load_pointer-kept owner (url_objects ++ digest_objects) m1 m3 s.network_key
                  network_key_word after_key refl laid.network_key
                ∙ keyed.pointer;
            hashed = keyed.hashed;
            hashed_key = keyed.hashed_key;
            key_digest = λ enabled i below.
                kept owner (url_objects ++ digest_objects) m1 m3 locals.join_key_hash 32
                  join_key_hash_bytes after_key refl laid.join_key_hash i below
                ∙ keyed.digest enabled i below;
            url_pointer =
                load_pointer-kept owner digest_objects m2 m3 s.server_url server_url_word
                  digested.changes refl laid.server_url
                ∙ urled.pointer;
            url_string = λ set.
                stripped-kept owner fuel url_text options.server_url url digest_objects m m2 m3
                  digested.changes refl (conf.url_option set) (urled.stripped set);
            digest_pointer = digested.pointer;
            digest_string = digested.stripped;
          };
        }
