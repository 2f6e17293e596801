-- ===== src/Start/Undetected.antt =====
-- The whole of `start` beside a game that it does not know.
use patchwork.Prelude.{ℕ, ◌<◌, ◌≡◌, refl, ap, ◌∙◌, Bool, Option, some, List, ◌++◌, length}
use patchwork.Memory.{Memory}
use patchwork.Http.{Sha256}
use patchwork.Sysmodules.{unload_all_modules}
use patchwork.Hooks.Patches.{Symbols}
use patchwork.Hooks.Game.{game_unknown, get_lbp_game_number, game_end}
use patchwork.Update.{PatchworkLaunchArgs, StackFrame}
use patchwork.Start.{Services, ScriptHooks, Locals, PatchworkConfigOptions}
use patchwork.Start.Steps.{select_instructions}
use patchwork.Start.Entry.{patch_game, start}
use patchwork.Start.Layout.{touches}
use patchwork.Start.Objects.{IsLaidOut, IsConfigured, get_lbp_game_number-below}
use patchwork.Start.Strung.{key_objects, url_objects, digest_objects, configure_and_patch-IsStrung}
use patchwork.Start.Restarting.{IsSettled}
use patchwork.Start.Booted.{loaded, configuration, config_file, parsed_world, read_config-some}

patch_game-unknown :
    {W : Type 0} (v : Services W) (sha : Sha256) (s : Symbols) (hooks : ScriptHooks)
    (locals : Locals) (fuel : ℕ) (options : PatchworkConfigOptions) (b : Bool) (m : Memory) (w : W)
    → get_lbp_game_number m ≡ game_unknown
    → patch_game v sha s hooks locals fuel options b (m, w)
      ≡ some (m, v.platform.error_dialog "Failed to detect game, your online is not safe!" w)
unfolding patch_game select_instructions
patch_game-unknown v sha s hooks locals fuel options b m w undetected =
    rw (undetected, patch_game) refl

module _ {W : Type 0} (owner : ℕ → ℕ) (fuel : ℕ) (v : Services W) (sha : Sha256) (s : Symbols)
    (hooks : ScriptHooks) (locals : Locals) (options : PatchworkConfigOptions)
    (key url digest : List ℕ) (frame : StackFrame) (launch_args : Option PatchworkLaunchArgs)
    (m m0 m1 : Memory) (w : W) where
  -- `start` comes to its end with an error dialog before it closes down, and the game is as it was.
  pub record IsLeftAlone : Type 0 where
    pub memory : Memory
    pub world : W
    pub returns :
        start v sha s hooks locals fuel frame launch_args (m, w)
        ≡ some (
          memory,
          unload_all_modules v.platform.log_ln v.cell_sysmodule_unload_module v.ids (
              v.destroy_logger
                (v.platform.error_dialog "Failed to detect game, your online is not safe!" world)),
        )
    pub untouched : (a : ℕ) → a < game_end → memory a ≡ m1 a

  -- Let no update be wanted, or let an update have what it needs: a URL that is a string, fuel for
  -- the answer, and calls that leave other files alone. Let the objects of the module have addresses
  -- of their own above the game, and let the options that are set be strings that the logger has room
  -- for, in the memory in which `start` goes on after the configuration and the update; if an update
  -- has started the module anew, that is the memory as the other instance has left it, with its
  -- patches. If no known game is detected in that memory, then `start` comes to its end all the same:
  -- it closes down after the error dialog about the game, and no byte of the game has changed from
  -- then on.
  pub start-IsLeftAlone :
      (room : ℕ)
      → ((bytes : List ℕ) → length (sha.digest bytes) ≡ 32)
      → configuration v locals m (config_file v (loaded v launch_args w)) ≡ (options, m0)
      → IsSettled v sha fuel frame options m0
          (parsed_world v (loaded v launch_args w))
          launch_args
          m1
      → IsLaidOut owner fuel v sha s locals options room
      → IsConfigured owner fuel v sha s locals options key url digest m1
      → get_lbp_game_number m1 ≡ game_unknown
      → IsLeftAlone
  unfolding start
  start-IsLeftAlone room sized read settled laid conf undetected =
      let (w1, configured) =
        read_config-some v sha s hooks locals fuel frame launch_args options m m0 m1
          (loaded v launch_args w) read settled in
      let strung =
        configure_and_patch-IsStrung owner fuel v sha s hooks locals options key url digest m1 w1
          room sized laid conf in
      let same = λ (a : ℕ) (low : a < game_end).
        let at = laid.game_owner a low in
        strung.changes a (ap (touches (key_objects ++ url_objects ++ digest_objects)) at) in
      let still = get_lbp_game_number-below strung.memory m1 same ∙ undetected in
      let ended =
        patch_game-unknown v sha s hooks locals fuel options strung.randomized strung.memory
          strung.world still in
      record {
        memory = strung.memory;
        world = strung.world;
        returns = rw (configured, strung.returns, ended, start) refl;
        untouched = same;
      }
