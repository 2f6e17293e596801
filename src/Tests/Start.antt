-- ===== src/Tests/Start.antt =====
-- The start of the module with the console of `Tests.Update`.
use patchwork.Prelude.{
  ℕ, ◌+◌, ◌≤◌, ◌≡◌, ◌≢◌, ◌↔◌, ◌⊎◌, refl, true, Option, none, some, [], ◌∷◌, length, codes, arith,
}
use patchwork.Memory.{Memory, load_pointer, store_word}
use patchwork.FileSystem.InMemory.{World}
use patchwork.Hooks.Offsets.{lbp1_resource_check_offset}
use patchwork.Hooks.Branch.{branch_target}
use patchwork.Hooks.Apply.{apply_game_patches}
use patchwork.Hooks.Game.{game_unknown, game_lbp1, patches_of, IsAboveGame}
use patchwork.Update.{PatchworkLaunchArgs, restart_args}
use patchwork.Start.{
  Services, ScriptHooks, Locals, PatchworkConfigOptions, no_options, chosen_message,
  success_message, msg_buf_size,
}
use patchwork.Start.Steps.{select_instructions, set_script_hook, update_and_restart}
use patchwork.Start.{write_bytes}
use patchwork.Start.Announced.{IsAnnounced, announce-message_for}
use patchwork.Text.Strings.{IsString}
use patchwork.Prelude.{false, ◌<◌}
use patchwork.Start.Hooked.{branch_target-apply_game_patches}
use patchwork.Start.Updating.{update_and_restart_cases}
use patchwork.Start.Announcing.{chosen_message_fits}
use patchwork.Tests.Http.{short_digest, online}
use patchwork.Tests.Update.{console, frame}
use patchwork.Tests.Hooks.{symbols}

abbrev pub services : Services World
services = record {
  platform = console;
  info_dialog = λ text w. w;
  print_ln = λ m w. w;
  init_logger = λ w. w;
  destroy_logger = λ w. w;
  cell_sysmodule_load_module = λ id w. (0, w);
  cell_sysmodule_unload_module = λ id w. (0, w);
  ids = record { fs = 1; net = 2; http = 3 };
  sys_time_get_current_time = λ w. (4, 5, w);
  read_toml = λ p m. (no_options, m);
  uint_to_str = λ n. (n + 48) ∷ [];
  snprintf = λ n m. m.format;
  major_str = codes "2";
  minor_str = codes "0";
}

abbrev pub hooks : ScriptHooks
hooks = record { lbp1 = 0x2000200; lbp2 = 0x2000204; lbp3 = 0x2000208; lbp3_jp = 0x200020c }

abbrev locals : Locals
locals = record {
  toml_buf = 0x2000300;
  join_key_hash = 0x2000500;
  user_agent = 0x2000600;
  msg_buf = 0x2000700;
  fp = 0;
}

abbrev blank : Memory
blank a = 0

abbrev ready : Memory
ready = (select_instructions services short_digest symbols hooks locals game_lbp1 (blank, online)).0

ready_above : IsAboveGame symbols ready
unfolding select_instructions set_script_hook store_word load_pointer
ready_above = omega arith

known : game_lbp1 ≢ game_unknown
known e = absurd (ground arith)

branch_target-apply_game_patches_example :
    branch_target
      (load_pointer
        (apply_game_patches console.log_ln (patches_of game_lbp1 symbols) (ready, online)).0
        lbp1_resource_check_offset)
      lbp1_resource_check_offset
    ≡ some 0x2000200
branch_target-apply_game_patches_example =
    branch_target-apply_game_patches services short_digest symbols hooks locals game_lbp1 known
      blank online ready online ready_above (λ i below. refl) (omega arith) refl (omega arith)

abbrev options : PatchworkConfigOptions
options = record no_options { update_server_url = 0x2000400; enable_updates = 1 }

update_and_restart_cases_example :
    ((launch_args : Option PatchworkLaunchArgs)
      → (update_and_restart services short_digest 9 frame launch_args options blank online
          ≡ some (blank, online))
        ⊎ (((args : PatchworkLaunchArgs) × (launch_args ≡ some args) × (args.updated ≡ 0))
            × (options.enable_updates ≢ 0)
            × (options.update_server_url ≢ 0)))
    × (update_and_restart services short_digest 9 frame none options blank online
        ≡ some (blank, online))
    × ((my_id : ℕ)
        → update_and_restart services short_digest 9 frame
            (some (restart_args my_id))
            options
            blank
            online
          ≡ some (blank, online))
update_and_restart_cases_example =
    update_and_restart_cases services short_digest 9 frame options blank online

chosen_message_fits_example :
    (length (chosen_message (codes "2") (codes "0") 1 true) + 1
      ≤ msg_buf_size (codes "2") (codes "0"))
    ↔ (◌≡◌ {A = ℕ} 1 0)
chosen_message_fits_example = chosen_message_fits (codes "2") (codes "0") 1 true

-- A memory with an address of a server in it.
abbrev configured : Memory
configured = write_bytes blank 0x2000400 (codes "psn.com \n")

configured-IsString : IsString configured 0x2000400 (codes "psn.com \n")
unfolding write_bytes
configured-IsString = ground arith

abbrev pointed : Memory
pointed = store_word configured 0x2000008 0x2000400

pointed_above : IsAboveGame symbols pointed
unfolding write_bytes store_word load_pointer
pointed_above = omega arith

pointed_at : load_pointer pointed 0x2000008 ≡ 0x2000400
unfolding store_word load_pointer
pointed_at = refl

pointed-IsString : IsString pointed (load_pointer pointed 0x2000008) (codes "psn.com \n")
unfolding write_bytes store_word load_pointer
pointed-IsString = ground arith

short_message : length (chosen_message (codes "2") (codes "0") 0 false) < 120
unfolding chosen_message success_message
short_message = omega arith

announce-message_for_example :
    IsAnnounced services short_digest symbols hooks locals 120 game_lbp1 no_options false blank
      online
announce-message_for_example =
    announce-message_for services short_digest symbols hooks locals 120 game_lbp1 no_options false
      blank online refl refl refl refl (λ e. absurd (omega arith)) short_message
