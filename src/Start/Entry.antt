-- ===== src/Start/Entry.antt =====
-- `start` itself, put together from its steps.
use mathlib.Core.Option
use patchwork.Prelude.{ℕ, Bool, Option, none, some}
use patchwork.Prelude.{[], ◌∷◌, ◌++◌, ◌==◌, if◌then◌else◌, codes}
use patchwork.Message.{number}
use patchwork.Files.{read_file}
use patchwork.Http.{Sha256}
use patchwork.Sysmodules.{load_all_modules, unload_all_modules}
use patchwork.Hooks.Patches.{Symbols}
use patchwork.Hooks.Apply.{Machine, apply_game_patches}
use patchwork.Hooks.Game.{get_lbp_game_number, patches_of}
use patchwork.Update.{Platform, PatchworkLaunchArgs, StackFrame, line}
use patchwork.Start.{
  main_config_path, PatchworkConfigOptions, no_options, ScriptHooks, Locals, game_code, Services,
  write_bytes,
}
use patchwork.Start.Steps.{
  update_and_restart, setup_join_key, set_string, select_instructions, set_user_agent, announce,
}

module _ {W : Type 0} (v : Services W) (sha : Sha256) where
  abbrev p : Platform W
  p = v.platform

  module _ (s : Symbols) (hooks : ScriptHooks) (locals : Locals) where
    -- The configuration, and the world after the block that reads it, with its update.
    unfoldable pub read_config :
        ℕ
        → StackFrame
        → Option PatchworkLaunchArgs
        → Machine W
        → Option (PatchworkConfigOptions × Machine W)
    read_config fuel frame launch_args (m, w) =
        let (file, w1) = read_file p.fs p.error_dialog main_config_path 312 w in
        elim file [
          | none ↦ some (
            no_options,
            (
              m,
              p.error_dialog "Failed to read the Patchwork configuration!"
                  (p.log_ln (line "Failed to read config file, options are unset") w1),
            ),
          )
          | some bytes ↦
              let (options, m1) =
                v.read_toml locals.toml_buf (write_bytes m locals.toml_buf bytes) in
              let w2 =
                p.log_ln (line "Mapped config entries to patch options")
                  (p.log_ln (line "Parsed config file buffer") w1) in
              elim (update_and_restart v sha fuel frame launch_args options m1 w2) [
                | none ↦ none
                | some machine ↦ some (options, machine)
              ]
        ]

    -- From the detection of the game to its patches.
    unfoldable pub patch_game : ℕ → PatchworkConfigOptions → Bool → Machine W → Option (Machine W)
    patch_game fuel options join_key_randomized (m, w) =
        let game = get_lbp_game_number m in
        let selected = select_instructions v sha s hooks locals game (m, w) in
        if game_code game == 0
        then some (
          selected.0,
          p.error_dialog "Failed to detect game, your online is not safe!" selected.1,
        )
        else elim (set_user_agent v sha s hooks locals fuel game options selected) [
          | none ↦ none
          | some named ↦
              Option.map (apply_game_patches p.log_ln (patches_of game s))
                (announce v sha s hooks locals fuel game options join_key_randomized named)
        ]

    -- The strings and the key of the configuration, and what follows.
    unfoldable pub configure_and_patch : ℕ → PatchworkConfigOptions → Machine W → Option (Machine W)
    configure_and_patch fuel options machine =
        elim (setup_join_key v sha s hooks locals fuel options machine) [
          | none ↦ none
          | some (randomized, with_key) ↦
              elim (set_string v sha s hooks locals fuel s.server_url options.server_url
                "Server URL: %s" with_key) [
                  | none ↦ none
                  | some with_url ↦
                      elim (set_string v sha s hooks locals fuel s.server_digest options.digest_key
                        "Digest Key: %s" with_url) [
                          | none ↦ none
                          | some with_digest ↦ patch_game fuel options randomized with_digest
                        ]
                ]
        ]

    -- The launch arguments are `none` where the code has `NULL`.
    unfoldable pub start :
        ℕ → StackFrame → Option PatchworkLaunchArgs → Machine W → Option (Machine W)
    start fuel frame launch_args (m, w) =
        let w1 : W = elim launch_args [
          | none ↦ w
          | some args ↦
              v.info_dialog
                (codes "Patchwork has been updated to version "
                  ++ v.major_str
                  ++ codes "."
                  ++ v.minor_str)
                (p.log_ln
                  (record {
                    format = codes "PRX was reloaded from PRX ID: %d";
                    arguments = number args.old_process ∷ [];
                  })
                  w)
        ] in
        let w2 = v.init_logger (load_all_modules p.log_ln v.cell_sysmodule_load_module v.ids w1) in
        elim (read_config fuel frame launch_args (m, w2)) [
          | none ↦ none
          | some (options, machine) ↦
              Option.map
                (λ done. (
                  done.0,
                  unload_all_modules p.log_ln v.cell_sysmodule_unload_module v.ids
                      (v.destroy_logger done.1),
                ))
                (configure_and_patch fuel options machine)
        ]
