-- ===== src/Start/Announcing.antt =====
-- The buffer of the message to the user.
use patchwork.Prelude.{ℕ, ◌+◌, ◌≤◌, ◌≡◌, ◌↔◌, Bool, List, length, length-append, arith}
use patchwork.Start.{chosen_message, success_message, msg_buf_size, with_pw, random_pw, without_pw}

success_message-length :
    (major minor outcome : List ℕ)
    → length (success_message major minor outcome)
      ≡ 81 + length major + length minor + length outcome
unfolding success_message
success_message-length major minor outcome =
    rw (length-append, length-append, length-append, length-append, length-append, length-append)
      (omega arith)

-- The message with its final NUL fits into `msg_buf` exactly if the key of the lobby is disabled.
pub chosen_message_fits :
    (major minor : List ℕ) (enable_join_key : ℕ) (join_key_randomized : Bool)
    → (length (chosen_message major minor enable_join_key join_key_randomized) + 1
        ≤ msg_buf_size major minor)
      ↔ (enable_join_key ≡ 0)
unfolding chosen_message msg_buf_size
chosen_message_fits major minor enable_join_key join_key_randomized = ground (
  arith,
  success_message-length major minor without_pw,
  success_message-length major minor random_pw,
  success_message-length major minor with_pw,
)
