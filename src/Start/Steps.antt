-- ===== src/Start/Steps.antt =====
-- The steps of `start`: the update, the key, the strings, the instructions and the messages.
use mathlib.Core.Option
use patchwork.Prelude.{ℕ, ◌+◌, ◌%◌, ◌^◌, Bool, true, false, Option, none, some}
use patchwork.Prelude.{String, List, [], ◌∷◌, ◌++◌, ◌==◌, if◌then◌else◌, codes, get_or}
use patchwork.Memory.{Memory, store_word}
use patchwork.Message.{Message, number, text}
use patchwork.Text.{trim_end, replace_next}
use patchwork.Files.{write_file}
use patchwork.Http.{Sha256}
use patchwork.Hooks.Offsets.{
  lbp1_resource_check_offset, lbp2_resource_check_offset, lbp3_resource_check_offset,
  lbp3_jp_resource_check_offset,
}
use patchwork.Hooks.Branch.{relative_branch}
use patchwork.Hooks.Patches.{Symbols}
use patchwork.Hooks.Apply.{Machine}
use patchwork.Hooks.Game.{GameNumber, game_unknown, game_lbp1, game_lbp2, game_lbp3, game_lbp3_jp}
use patchwork.Update.{
  Platform, PatchworkLaunchArgs, StackFrame, fits_log, line, try_update_and_install,
  try_restart_module,
}
use patchwork.Start.{
  PatchworkConfigOptions, ScriptHooks, Locals, game_code, Services, write_bytes, string_at,
  big_endian, chosen_message, wants_update,
}

abbrev pub string_message : String → List ℕ → Message
string_message format value = record { format = codes format; arguments = text value ∷ [] }

module _ {W : Type 0} (v : Services W) (sha : Sha256) where
  abbrev p : Platform W
  p = v.platform

  -- The block of `start` that updates and restarts.
  unfoldable pub update_and_restart :
      ℕ
      → StackFrame
      → Option PatchworkLaunchArgs
      → PatchworkConfigOptions
      → Memory
      → W
      → Option (Machine W)
  update_and_restart fuel frame launch_args options m w =
      if wants_update launch_args options
      then elim (string_at fuel m options.update_server_url) [
        | none ↦ none
        | some url ↦ elim (try_update_and_install p sha fuel frame url w) [
          | none ↦ none
          | some (result, w1) ↦
              some (if result == 0 then (m, w1) else (try_restart_module p sha (m, w1)).1)
        ]
      ]
      else some (m, w)

  -- Whether the key is random, and the machine with the hash in the buffer.
  unfoldable pub copy_hashed_join_key : ℕ → ℕ → ℕ → Machine W → Option (Bool × Machine W)
  copy_hashed_join_key fuel hash_buf join_key (m, w) =
      let (sec, nsec, w1) = v.sys_time_get_current_time w in
      if join_key == 0
      then some
          (true, (write_bytes m hash_buf (sha.digest (big_endian 8 ((nsec + sec) % 2 ^ 64))), w1))
      else elim (trim_end fuel m join_key) [
        | none ↦ none
        | some m1 ↦ elim (string_at fuel m1 join_key) [
          | none ↦ none
          | some key ↦ some (false, (write_bytes m1 hash_buf (sha.digest key), w))
        ]
      ]

  module _ (s : Symbols) (hooks : ScriptHooks) (locals : Locals) where
    unfoldable pub setup_join_key :
        ℕ → PatchworkConfigOptions → Machine W → Option (Bool × Machine W)
    setup_join_key fuel options (m, w) =
        if options.enable_join_key == 0
        then some (false, (m, w))
        else elim (copy_hashed_join_key fuel locals.join_key_hash options.join_key (m, w)) [
          | none ↦ none
          | some (randomized, (m1, w1)) ↦ some (
            randomized,
            (store_word m1 s.network_key locals.join_key_hash, p.log_ln (line "Setup join key") w1),
          )
        ]

    -- `none` is also that the logger's buffer is left.
    -- `if (option) { Global = TrimEnd(option); LogLn(format, Global); }`
    unfoldable pub set_string : ℕ → ℕ → ℕ → String → Machine W → Option (Machine W)
    set_string fuel global option format (m, w) =
        if option == 0 then some (m, w) else elim (trim_end fuel m option) [
          | none ↦ none
          | some m1 ↦ elim (string_at fuel m1 option) [
            | none ↦ none
            | some value ↦
                if fits_log p (string_message format value)
                then some (store_word m1 global option, p.log_ln (string_message format value) w)
                else none
          ]
        ]

    -- The two instructions that the `switch` sets.
    unfoldable pub set_notification_enable : ℕ → Memory → Memory
    set_notification_enable instruction m =
        store_word m s.notification_enable_instruction instruction

    unfoldable pub set_script_hook : ℕ → ℕ → Machine W → Machine W
    set_script_hook hook origin (m, w) =
        let (instruction, w1) = relative_branch v.print_ln hook origin w in
        (store_word m s.script_hook_instruction instruction, w1)

    -- The `switch`, less the choice of the table, which is `patches_of`.
    unfoldable pub select_instructions : GameNumber → Machine W → Machine W
    select_instructions game_unknown (m, w) = (m, w)
    select_instructions game_lbp1 (m, w) =
        set_script_hook hooks.lbp1 lbp1_resource_check_offset (m, w)
    select_instructions game_lbp2 (m, w) =
        set_script_hook hooks.lbp2 lbp2_resource_check_offset
          (set_notification_enable 0x38000000 m, w)
    select_instructions game_lbp3 (m, w) =
        set_script_hook hooks.lbp3 lbp3_resource_check_offset
          (set_notification_enable 0x38600000 m, w)
    select_instructions game_lbp3_jp (m, w) =
        set_script_hook hooks.lbp3_jp lbp3_jp_resource_check_offset
          (set_notification_enable 0x38600000 m, w)

    -- The user agent is formatted and put in place.
    unfoldable pub set_user_agent :
        ℕ → GameNumber → PatchworkConfigOptions → Machine W → Option (Machine W)
    set_user_agent fuel game options (m, w) =
        let game_num_str = v.uint_to_str (game_code game) in
        let w1 =
          p.log_ln
            (record {
              format = codes "Selected patches for LBP%s";
              arguments = text game_num_str ∷ [];
            })
            w in
        let formatted = v.snprintf 64 (record {
          format = codes "PatchworkLBP%c %s.%s %s";
          arguments =
              number (get_or game_num_str 0 0)
              ∷ text v.major_str
              ∷ text v.minor_str
              ∷ text (if options.enable_join_key == 0 then codes "NK" else [])
              ∷ [];
        }) in
        let m1 =
          store_word (write_bytes m locals.user_agent formatted) s.user_agent locals.user_agent in
        Option.map
          (λ agent. (
            m1,
            p.log_ln (record { format = codes "User agent: %s"; arguments = text agent ∷ [] }) w1,
          ))
          (string_at fuel m1 locals.user_agent)

    -- The message to the user, left in a file for the web server of the console.
    unfoldable pub announce :
        ℕ → GameNumber → PatchworkConfigOptions → Bool → Machine W → Option (Machine W)
    announce fuel game options join_key_randomized (m, w) =
        let message =
          chosen_message v.major_str v.minor_str options.enable_join_key join_key_randomized in
        let m1 = write_bytes m locals.msg_buf (message ++ 0 ∷ []) in
        let game_char = get_or (v.uint_to_str (game_code game)) 0 0 in
        elim (replace_next fuel m1 locals.msg_buf b'X' game_char) [
          | none ↦ none
          | some m2 ↦ elim (string_at fuel m2 locals.msg_buf) [
            | none ↦ none
            | some sent ↦ some (m2, write_file p.fs locals.fp "/dev_hdd0/tmp/wm_request" sent w)
          ]
        ]
