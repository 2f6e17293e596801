-- ===== src/Start/Patched.antt =====
-- The patches put the configuration into the game.
use patchwork.Prelude.{
  ℕ, suc, ◌+◌, ◌*◌, ◌≤◌, ◌<◌, ◌≡◌, ◌≢◌, refl, sym, ap, ◌∙◌, some, List, ◌++◌, length, get_elem?,
  get_or, arith,
}
use mathlib.Core.Path.{subst}
use patchwork.Memory.{Memory, load_pointer}
use patchwork.Text.Strings.{IsString}
use patchwork.Text.Trim.{strip_rest}
use patchwork.Http.{Sha256}
use patchwork.Hooks.Offsets.{
  lbp_ps3_prod_url_length, lbp_digest_length, lbp_network_key_size, lbp_user_agent_length,
}
use patchwork.Hooks.Patches.{Symbols, indirect_patch}
use patchwork.Hooks.Apply.{source_of, apply_game_patches}
use patchwork.Hooks.Game.{GameNumber, game_unknown, get_lbp_game_number, patches_of, game_end}
use patchwork.Hooks.Game.Unset.{
  patches_of-below, apply_game_patches-null, apply_game_patches-Outside,
}
use patchwork.Hooks.Game.Tables.{apply_game_patches-get_elem?}
use patchwork.Hooks.Assembly.ForceJoin.{force_join, force_join_offset, force_join_length}
use patchwork.Hooks.Assembly.Patched.{
  force_join_source, force_join-length, apply_game_patches-force_join,
}
use patchwork.Start.{Services, ScriptHooks, Locals, PatchworkConfigOptions}
use patchwork.Start.Entry.{configure_and_patch}
use patchwork.Start.Configured.{apply_game_patches-IsString}
use patchwork.Start.Hooked.{branch_target-apply_game_patches}
use patchwork.Start.Layout.{touches, Changes, Changes-trans, kept}
use patchwork.Start.Agent.{agent_text}
use patchwork.Start.Objects.{
  IsLaidOut, IsConfigured, IsWorded, get_lbp_game_number-below, code_bytes, user_agent_bytes,
  Owned-IsOwn, join_key_hash_bytes,
}
use patchwork.Start.Strung.{
  key_objects, url_objects, digest_objects, IsStrung, configure_and_patch-IsStrung,
}
use patchwork.Start.Ready.{select_objects, agent_objects, msg_objects, IsReady, patch_game-IsReady}
use patchwork.Start.Places.{
  key_place, agent_place, digest_place, url_places, key_patch, agent_patch, digest_patch,
  url_patch_at,
}
use patchwork.Start.InGame.{IsInGame}

module _ {W : Type 0} (owner : ℕ → ℕ) (fuel : ℕ) (v : Services W) (sha : Sha256) (s : Symbols)
    (hooks : ScriptHooks) (locals : Locals) (options : PatchworkConfigOptions)
    (key url digest : List ℕ) (game : GameNumber) (m : Memory) (w : W) where
  abbrev InGame : Memory → Type 0
  InGame = IsInGame v sha s hooks options key url digest game m

  pub record IsPatched : Type 0 where
    pub memory : Memory
    pub world : W
    pub returns :
        configure_and_patch v sha s hooks locals fuel options (m, w) ≡ some (memory, world)
    pub in_game : InGame memory

  module _ (room : ℕ) (laid : IsLaidOut owner fuel v sha s locals options room)
      (conf : IsConfigured owner fuel v sha s locals options key url digest m)
      (worded : IsWorded owner fuel v sha s locals options game room) (known : game ≢ game_unknown)
      (detected : get_lbp_game_number m ≡ game) where
    strung : IsStrung owner fuel v sha s hooks locals options key url digest m w
    strung =
        configure_and_patch-IsStrung owner fuel v sha s hooks locals options key url digest m w room
          worded.sized laid conf

    still_detected : get_lbp_game_number strung.memory ≡ game
    still_detected =
        get_lbp_game_number-below strung.memory m (λ a low.
          let at = laid.game_owner a low in
          strung.changes a (ap (touches (key_objects ++ url_objects ++ digest_objects)) at))
        ∙ detected

    ready :
        IsReady owner fuel v sha s hooks locals options key url digest m conf game strung.randomized
          strung.memory strung.world
    ready =
        patch_game-IsReady owner fuel v sha s hooks locals options key url digest m conf game
          strung.randomized strung.memory strung.world room laid worded known still_detected
          strung.held

    abbrev patched : Memory
    patched =
        (apply_game_patches v.platform.log_ln (patches_of game s) (ready.memory, ready.world)).0

    agent_own : game_end ≤ locals.user_agent
    agent_own =
        Owned-IsOwn owner locals.user_agent 64 user_agent_bytes laid.game_owner
          (λ e. absurd (omega arith)) (omega arith) laid.user_agent_buf

    hash_own : game_end ≤ locals.join_key_hash
    hash_own =
        Owned-IsOwn owner locals.join_key_hash 32 join_key_hash_bytes laid.game_owner
          (λ e. absurd (omega arith)) (omega arith) laid.join_key_hash

    configured :
        (k place source option size : ℕ) (cs : List ℕ)
        → get_elem? (patches_of game s) k ≡ some (indirect_patch place source size)
        → load_pointer ready.memory source ≡ option
        → option ≢ 0
        → IsString ready.memory option cs
        → length cs < size
        → IsString patched place cs
    configured k place source option size cs at held set here fits =
        apply_game_patches-IsString v.platform.log_ln s game k place source size ready.memory
          ready.world cs ready.above at (λ e. set (sym held ∙ e))
          (subst (λ p. IsString ready.memory p cs) (sym held) here) fits

    key_byte :
        options.enable_join_key ≢ 0
        → (i : ℕ) → i < lbp_network_key_size
        → patched (key_place game + i) ≡ get_or (sha.digest ready.held.hashed) i 0
    unfolding source_of
    key_byte enabled i below =
        let held : load_pointer ready.memory s.network_key ≡ locals.join_key_hash =
          ready.held.key_pointer ∙ ground arith in
        apply_game_patches-get_elem? v.platform.log_ln game s ready.memory ready.world 0 i
          ready.above (key_patch s game known) (λ e. absurd (omega (arith, held, hash_own))) below
        ∙ ap (λ p. ready.memory (p + i)) held
        ∙ ready.held.key_digest enabled i (omega arith)

    abbrev all_objects : List ℕ
    all_objects =
        (key_objects ++ url_objects ++ digest_objects)
        ++ (select_objects ++ agent_objects ++ msg_objects)

    changes : Changes owner all_objects m ready.memory
    changes =
        Changes-trans owner (key_objects ++ url_objects ++ digest_objects)
          (select_objects ++ agent_objects ++ msg_objects) m strung.memory ready.memory
          strung.changes ready.changes

    force_join_byte :
        (i : ℕ)
        → i < 4 * length (force_join game)
        → patched (force_join_offset game + i) ≡ m (force_join_source game s + i)
    force_join_byte i below =
        apply_game_patches-force_join v.platform.log_ln s game ready.memory ready.world i known
          ready.above below
        ∙ kept owner all_objects m ready.memory (force_join_source game s) (force_join_length game)
            code_bytes changes refl (laid.force_join game) i
            (omega (arith, below, force_join-length game known))

    -- Nothing in the game has changed before the patches.
    game_byte : (a : ℕ) → a < game_end → ready.memory a ≡ m a
    game_byte a low = let at = laid.game_owner a low in changes a (ap (touches all_objects) at)

    unset :
        (k place source size : ℕ)
        → get_elem? (patches_of game s) k ≡ some (indirect_patch place source size)
        → load_pointer ready.memory source ≡ 0
        → (i : ℕ) → i < size
        → patched (place + i) ≡ m (place + i)
    unfolding source_of
    unset k place source size at null i below =
        apply_game_patches-null game s ready.memory ready.above k at v.platform.log_ln ready.world i
          null below
        ∙ game_byte (place + i)
            (omega (arith, patches_of-below game s ready.memory ready.above k at))

    in_game : InGame patched
    in_game = record {
      user_agent =
          apply_game_patches-IsString v.platform.log_ln s game 1 (agent_place game) s.user_agent
            lbp_user_agent_length ready.memory ready.world (agent_text v game options) ready.above
            (agent_patch s game known) (λ e. absurd (omega (arith, ready.agent_pointer, agent_own)))
            (subst (λ p. IsString ready.memory p (agent_text v game options))
              (sym ready.agent_pointer) ready.agent_string)
            worded.agent_fits;
      server_url = λ set fits j place at.
          configured (suc (suc j)) place s.server_url options.server_url lbp_ps3_prod_url_length
            (strip_rest url) (url_patch_at s game j at) ready.held.url_pointer set
            (ready.held.url_string set) fits;
      server_digest = λ set fits.
          configured (2 + length (url_places game)) (digest_place game) s.server_digest
            options.digest_key lbp_digest_length (strip_rest digest) (digest_patch s game known)
            ready.held.digest_pointer set (ready.held.digest_string set) fits;
      server_url_unset = λ null j place at.
          unset (suc (suc j)) place s.server_url lbp_ps3_prod_url_length (url_patch_at s game j at)
            (ready.held.url_pointer ∙ null);
      server_digest_unset = λ null.
          unset (2 + length (url_places game)) (digest_place game) s.server_digest lbp_digest_length
            (digest_patch s game known) (ready.held.digest_pointer ∙ null);
      network_key_disabled = λ disabled.
          unset 0 (key_place game) s.network_key lbp_network_key_size (key_patch s game known)
            (ready.held.key_pointer ∙ ground arith);
      other = λ a low out.
          apply_game_patches-Outside v.platform.log_ln game s ready.memory ready.world a ready.above
            out
          ∙ game_byte a low;
      hashed = ready.held.hashed;
      hashed_key = ready.held.hashed_key;
      network_key = λ enabled i below. key_byte enabled i below;
      script_hook = λ bound aligned reach.
          branch_target-apply_game_patches v sha s hooks locals game known strung.memory
            strung.world ready.memory ready.world ready.above ready.selected bound aligned reach;
      force_join_code = λ i below. force_join_byte i below;
    }

    pub configure_and_patch-IsPatched : IsPatched
    configure_and_patch-IsPatched = record {
      memory = patched;
      world =
          (apply_game_patches v.platform.log_ln (patches_of game s) (ready.memory, ready.world)).1;
      returns = strung.returns ∙ ready.returns;
      in_game = in_game;
    }
