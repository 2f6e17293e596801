-- ===== src/Start/Booted.antt =====
-- The whole of `start`, with or without an update.
use patchwork.Prelude.{
  ℕ, ◌≡◌, ◌≢◌, refl, ◌∙◌, false, Option, none, some, List, [], ◌∷◌, ◌++◌, codes, inl, inr, ap, sym,
  Option-cases, arith,
}
use patchwork.Memory.{Memory}
use patchwork.Message.{number}
use patchwork.Files.{read_file}
use patchwork.Http.{Sha256}
use patchwork.Sysmodules.{load_all_modules, unload_all_modules}
use patchwork.Hooks.Patches.{Symbols}
use patchwork.Hooks.Game.{GameNumber, game_unknown, get_lbp_game_number}
use patchwork.Update.{PatchworkLaunchArgs, StackFrame, line}
use patchwork.Start.{
  Services, ScriptHooks, Locals, PatchworkConfigOptions, no_options, main_config_path, write_bytes,
  wants_update,
}
use mathlib.Core.Path.{subst}
use mathlib.Core.Bool.{true≢false}
use patchwork.Start.Steps.{update_and_restart}
use patchwork.Start.Restarting.{IsSettled, update_and_restart-some}
use patchwork.Start.Entry.{read_config, start}
use patchwork.Start.Objects.{IsLaidOut, IsConfigured, IsWorded}
use patchwork.Start.InGame.{IsInGame}
use patchwork.Start.Patched.{configure_and_patch-IsPatched}

module _ {W : Type 0} (v : Services W) where
  -- The world once the modules are loaded.
  abbrev pub loaded : Option PatchworkLaunchArgs → W → W
  loaded launch_args w = v.init_logger (
      load_all_modules v.platform.log_ln v.cell_sysmodule_load_module v.ids (elim launch_args [
        | none ↦ w
        | some args ↦
            v.info_dialog
              (codes "Patchwork has been updated to version "
                ++ v.major_str
                ++ codes "."
                ++ v.minor_str)
              (v.platform.log_ln
                (record {
                  format = codes "PRX was reloaded from PRX ID: %d";
                  arguments = number args.old_process ∷ [];
                })
                w)
      ]))

  -- What the bytes of the configuration file are read as, or what is taken without them.
  abbrev pub configuration : Locals → Memory → Option (List ℕ) → PatchworkConfigOptions × Memory
  configuration locals m none = (no_options, m)
  configuration locals m (some bytes) =
      v.read_toml locals.toml_buf (write_bytes m locals.toml_buf bytes)

  abbrev pub config_file : W → Option (List ℕ)
  config_file w = (read_file v.platform.fs v.platform.error_dialog main_config_path 312 w).0

  -- The world once the configuration file is read.
  abbrev pub parsed_world : W → W
  parsed_world w = v.platform.log_ln (line "Mapped config entries to patch options") (
      v.platform.log_ln (line "Parsed config file buffer")
        (read_file v.platform.fs v.platform.error_dialog main_config_path 312 w).1)

module _ {W : Type 0} (v : Services W) (sha : Sha256) (s : Symbols) (hooks : ScriptHooks)
    (locals : Locals) (fuel : ℕ) (frame : StackFrame)
    (launch_args : Option PatchworkLaunchArgs) where
  -- Without a configuration no update is wanted.
  unconfigured : (args : Option PatchworkLaunchArgs) → wants_update args no_options ≡ false
  unfolding wants_update
  unconfigured none = refl
  unconfigured (some args) = ground arith

  unsettled :
      (options : PatchworkConfigOptions) (m1 later : Memory) {m : Memory} {w : W}
      → no_options ≡ options
      → m ≡ m1
      → IsSettled v sha fuel frame options m1 w launch_args later
      → m ≡ later
  unsettled options m1 later unset same (inl (_, e)) = same ∙ sym e
  unsettled options m1 later unset same (inr (wanted, _)) = absurd (
      true≢false
        (sym wanted ∙ ap (wants_update launch_args) (sym unset) ∙ unconfigured launch_args))

  pub read_config-some :
      (options : PatchworkConfigOptions) (m m1 later : Memory) (w : W)
      → configuration v locals m (config_file v w) ≡ (options, m1)
      → IsSettled v sha fuel frame options m1 (parsed_world v w) launch_args later
      → (w' : W) × (read_config v sha s hooks locals fuel frame launch_args (m, w)
          ≡ some (options, (later, w')))
  unfolding read_config
  read_config-some options m m1 later w read settled = elim (Option-cases (config_file v w)) [
    | inl missing ↦
        let same = sym (ap (configuration v locals m) missing) ∙ read in
        let w1 = (read_file v.platform.fs v.platform.error_dialog main_config_path 312 w).1 in
        let w2 =
          v.platform.error_dialog "Failed to read the Patchwork configuration!"
            (v.platform.log_ln (line "Failed to read config file, options are unset") w1) in
        let kept : m ≡ later =
          unsettled options m1 later (ap (λ c. c.0) same) (ap (λ c. c.1) same) settled in
        (
          w2,
          rw (missing, read_config)
              (ap (λ c. some (c.0, (c.1, w2))) same
                ∙ ap (λ x. some (options, (x, w2))) (sym (ap (λ c. c.1) same) ∙ kept)),
        )
    | inr (bytes, found) ↦
        let same = sym (ap (configuration v locals m) found) ∙ read in
        let w2 = parsed_world v w in
        let (w3, updated) =
          update_and_restart-some v sha fuel frame options m1 w2 launch_args later settled in
        let onward =
          subst (λ c. update_and_restart v sha fuel frame launch_args c.0 c.1 w2 ≡ some (later, w3))
            (sym same) updated in
        (w3, rw (found, onward, read_config) (ap (λ c. some (c.0, (later, w3))) same))
  ]

  module _ (owner : ℕ → ℕ) (options : PatchworkConfigOptions) (key url digest : List ℕ)
      (game : GameNumber) (m m0 m1 : Memory) (w : W) where
    -- `start` comes to its end, and the game's memory holds the configuration.
    pub record IsStarted : Type 0 where
      pub memory : Memory
      pub world : W
      pub returns : start v sha s hooks locals fuel frame launch_args (m, w) ≡ some (memory, world)
      pub in_game : IsInGame v sha s hooks options key url digest game m1 memory

    -- Let no update be wanted, or let an update have what it needs: a URL that is a string, fuel for
    -- the answer, and calls that leave other files alone. Let the objects of the module have addresses
    -- of their own above the game, let the options that are set be strings that the logger has room
    -- for, and let the user agent and the message be formatted as they should and have fuel and room.
    -- All this is to hold in the memory in which `start` goes on after the configuration and the
    -- update; if an update has started the module anew, that is the memory as the other instance has
    -- left it. If it is the memory of a known game, then `start` comes to its end, and in the game
    -- stand the user agent; the stripped URL, if one is set and shorter than the game's own room, at
    -- every place of the game for a URL; the stripped digest key likewise; if the key is enabled, the
    -- first bytes of a digest (of the stripped join key, if one is set); the code for joining; and
    -- where the game checks a resource, a branch to its hook, if that is an aligned 32-bit address in
    -- reach. A URL or digest key that is not set, and a key that is disabled, leave the game its own,
    -- and no byte of the game outside the targets of its table changes from then on.
    pub start-IsStarted :
        (room : ℕ)
        → configuration v locals m (config_file v (loaded v launch_args w)) ≡ (options, m0)
        → IsSettled v sha fuel frame options m0
            (parsed_world v (loaded v launch_args w))
            launch_args
            m1
        → IsLaidOut owner fuel v sha s locals options room
        → IsConfigured owner fuel v sha s locals options key url digest m1
        → IsWorded owner fuel v sha s locals options game room
        → game ≢ game_unknown
        → get_lbp_game_number m1 ≡ game
        → IsStarted
    unfolding start
    start-IsStarted room read settled laid conf worded known detected =
        let (w1, configured) =
          read_config-some options m m0 m1 (loaded v launch_args w) read settled in
        let patched =
          configure_and_patch-IsPatched owner fuel v sha s hooks locals options key url digest game
            m1 w1 room laid conf worded known detected in
        record {
          memory = patched.memory;
          world =
              unload_all_modules v.platform.log_ln v.cell_sysmodule_unload_module v.ids
                (v.destroy_logger patched.world);
          returns = rw (configured, patched.returns, start) refl;
          in_game = patched.in_game;
        }
