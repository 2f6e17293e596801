-- ===== src/Start/Announced.antt =====
-- The message that `start` leaves for the console's web server.
use patchwork.Prelude.{
  ℕ, ◌+◌, ◌<◌, ◌≡◌, ◌≢◌, ◌∙◌, Bool, true, some, List, [], ◌∷◌, ◌++◌, length, length-append, get_or,
  arith,
}
use patchwork.Memory.{Memory, Outside}
use patchwork.Files.{write_file}
use patchwork.Http.{Sha256}
use patchwork.Hooks.Patches.{Symbols}
use patchwork.Hooks.Game.{GameNumber}
use patchwork.Start.{Services, ScriptHooks, Locals, PatchworkConfigOptions, game_code}
use patchwork.Start.Steps.{announce}
use patchwork.Start.Configured.{string_at-IsString}
use patchwork.Text.Replace.{replace_first, replace_next-replace_first}
use patchwork.Start.{write_bytes, chosen_message}
use patchwork.Start.Wording.{
  avoids, message_for, outcome_of, write_bytes-IsString, write_bytes-Outside, replace_first-length,
  chosen_message-avoids, chosen_message-message_for,
}

module _ {W : Type 0} (v : Services W) (sha : Sha256) (s : Symbols) (hooks : ScriptHooks)
    (locals : Locals) where
  module _ (fuel : ℕ) (game : GameNumber) (options : PatchworkConfigOptions) (randomized : Bool)
      (m : Memory) (w : W) where
    abbrev game_char : ℕ
    game_char = get_or (v.uint_to_str (game_code game)) 0 0

    abbrev outcome : List ℕ
    outcome = outcome_of options.enable_join_key randomized

    abbrev chosen : List ℕ
    chosen = chosen_message v.major_str v.minor_str options.enable_join_key randomized

    pub record IsAnnounced : Type 0 where
      pub memory : Memory
      pub returns :
          announce v sha s hooks locals fuel game options randomized (m, w)
          ≡ some (
            memory,
            write_file v.platform.fs locals.fp "/dev_hdd0/tmp/wm_request"
                (message_for game_char v.major_str v.minor_str outcome)
                w,
          )
      pub same : (a : ℕ) → Outside a locals.msg_buf (length chosen + 1) → memory a ≡ m a

    -- Let the parts of the version have neither a NUL nor an `X` in them, let the character of the
    -- game be no NUL, and let there be fuel for the length of the message. Then the announcement
    -- returns, and writes the message that names the game and says what became of the lobby's key;
    -- of memory only the bytes of the message and of its NUL change.
    pub announce-message_for :
        avoids b'X' v.major_str ≡ true
        → avoids b'X' v.minor_str ≡ true
        → avoids 0 v.major_str ≡ true
        → avoids 0 v.minor_str ≡ true
        → game_char ≢ 0
        → length chosen < fuel
        → IsAnnounced
    unfolding announce
    announce-message_for x_major x_minor nul_major nul_minor nonzero enough =
        let m1 = write_bytes m locals.msg_buf (chosen ++ 0 ∷ []) in
        let free =
          chosen_message-avoids v.major_str v.minor_str options.enable_join_key randomized nul_major
            nul_minor in
        let (m2, replaced, here, kept) =
          replace_next-replace_first fuel m1 locals.msg_buf b'X' game_char chosen
            (λ e. absurd (omega arith)) nonzero enough
            (write_bytes-IsString m locals.msg_buf chosen free) in
        let short = replace_first-length b'X' game_char chosen in
        let read =
          string_at-IsString fuel m2 locals.msg_buf (replace_first b'X' game_char chosen)
            (omega arith) here in
        let named =
          chosen_message-message_for game_char v.major_str v.minor_str options.enable_join_key
            randomized x_major x_minor in
        record {
          memory = m2;
          returns = rw (replaced, read, named, announce);
          same = λ a away.
              let size = length-append chosen (0 ∷ []) in
              kept a (omega arith)
              ∙ write_bytes-Outside m locals.msg_buf (chosen ++ 0 ∷ []) a (omega arith);
        }
