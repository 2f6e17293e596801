-- ===== src/Tests/Booted.antt =====
-- The whole of `start` beside LittleBigPlanet, and beside a game that it does not know.
use patchwork.Prelude.{
  ℕ, inl, ◌+◌, ◌%◌, ◌≡◌, ◌≢◌, refl, false, none, List, [], ◌∷◌, ◌++◌, length, ltb, if◌then◌else◌,
  codes, arith,
}
use patchwork.Text.{is_space}
use patchwork.Text.Trim.{strip}
use patchwork.Memory.{Memory, load_pointer}
use patchwork.FileSystem.InMemory.{World, in_memory}
use patchwork.Files.{read_file}
use patchwork.Http.{Sha256}
use patchwork.Sysmodules.{load_all_modules, for_modules}
use patchwork.Hooks.Offsets.{lbp1_user_agent_offset}
use patchwork.Hooks.Game.{
  GameNumber, game_unknown, game_lbp1, game_lbp2, game_lbp3, game_lbp3_jp, get_lbp_game_number,
}
use patchwork.Hooks.Assembly.ForceJoin.{force_join_length}
use patchwork.Hooks.Assembly.Patched.{force_join_source}
use patchwork.Start.Layout.{Owned}
use patchwork.Start.{
  Services, Locals, PatchworkConfigOptions, chosen_message, success_message, write_bytes,
  wants_update,
}
use patchwork.Start.Objects.{code_bytes, IsOption, IsLaidOut, IsConfigured, IsWorded}
use patchwork.Start.Booted.{IsStarted, start-IsStarted, configuration, config_file, loaded}
use patchwork.Start.Undetected.{IsLeftAlone, start-IsLeftAlone}
use patchwork.Tests.Http.{online}
use patchwork.Tests.Update.{frame}
use patchwork.Tests.Hooks.{symbols}
use patchwork.Tests.Start.{services as quiet_services, hooks}

-- The module's objects from 0x2000000 on, in this order.
abbrev owner : ℕ → ℕ
owner a =
    if ltb a 0x2000000
    then 0
    else if ltb a 0x2000004
    then 1
    else if ltb a 0x2000008
    then 2
    else if ltb a 0x200000c
    then 3
    else if ltb a 0x2000010
    then 4
    else if ltb a 0x2000014
    then 13
    else if ltb a 0x2000018
    then 5
    else if ltb a 0x200001c
    then 6
    else if ltb a 0x2000a00
    then 13
    else if ltb a 0x2000b00
    then 7
    else if ltb a 0x2000c00
    then 8
    else if ltb a 0x2000d00
    then 9
    else if ltb a 0x2000e00
    then 11
    else if ltb a 0x2000f00
    then 10
    else 12

abbrev locals : Locals
locals = record {
  toml_buf = 0x2000800;
  join_key_hash = 0x2000a00;
  user_agent = 0x2000b00;
  msg_buf = 0x2000c00;
  fp = 0;
}

abbrev options : PatchworkConfigOptions
options = record {
  server_url = 0x2000d00;
  join_key = 0x2000e00;
  digest_key = 0;
  enable_join_key = 1;
  update_server_url = 0;
  enable_updates = 0;
}

abbrev zeros : List ℕ
zeros = codes "00000000" ++ codes "00000000" ++ codes "00000000"

-- A digest of 32 bytes.
abbrev long_digest : Sha256
long_digest = record {
  WorkArea = List ℕ;
  block_init = [];
  block_update = λ area bytes. area ++ bytes;
  block_result = λ area. length area % 256 ∷ codes "0000000" ++ zeros;
  digest = λ bytes. length bytes % 256 ∷ codes "0000000" ++ zeros;
}

-- The memory with the strings of the configuration and the mark of a game.
abbrev parsed : ℕ → Memory
parsed mark =
    write_bytes
      (write_bytes (write_bytes (λ a. 0) 0x2000d00 (codes "psn.com \n")) 0x2000e00 (codes "secret"))
      (lbp1_user_agent_offset + 15) (mark ∷ [])

abbrev services : ℕ → Services World
services mark = record quiet_services {
  read_toml = λ p m. (options, parsed mark);
  snprintf = λ n m. codes "PatchworkLBP1 2.0 " ++ 0 ∷ [];
}

abbrev blank : Memory
blank a = 0

code_owned :
    (game : GameNumber)
    → Owned owner (force_join_source game symbols) (force_join_length game) code_bytes
code_owned game_unknown i below = absurd (omega arith)
code_owned game_lbp1 i below = ground arith
code_owned game_lbp2 i below = ground arith
code_owned game_lbp3 i below = ground arith
code_owned game_lbp3_jp i below = ground arith

module _ (mark : ℕ) where
  laid : IsLaidOut owner 300 (services mark) long_digest symbols locals options 200
  laid = record {
    game_owner = λ a low. ground arith;
    network_key = λ i below. ground arith;
    user_agent = λ i below. ground arith;
    server_url = λ i below. ground arith;
    server_digest = λ i below. ground arith;
    script_hook_instruction = λ i below. ground arith;
    notification_enable_instruction = λ i below. ground arith;
    join_key_hash = λ i below. ground arith;
    user_agent_buf = λ i below. ground arith;
    msg_buf = λ i below. ground arith;
    bounds = (omega arith, omega arith);
    lbp1_playlist_override = λ i below. ground arith;
    force_join = code_owned;
  }

  url-IsOption : IsOption owner 300 11 0x2000d00 (codes "psn.com \n") (parsed mark)
  unfolding write_bytes
  url-IsOption = record {
    bound = omega arith;
    enough = omega arith;
    here = ground arith;
    owned = λ i below. ground arith;
  }

  key-IsOption : IsOption owner 300 10 0x2000e00 (codes "secret") (parsed mark)
  unfolding write_bytes
  key-IsOption = record {
    bound = omega arith;
    enough = omega arith;
    here = ground arith;
    owned = λ i below. ground arith;
  }

  configured :
      IsConfigured owner 300
        (services mark)
        long_digest
        symbols
        locals
        options
        (codes "secret")
        (codes "psn.com \n")
        []
        (parsed mark)
  unfolding write_bytes load_pointer strip is_space
  configured = record {
    network_key = refl;
    server_url = refl;
    server_digest = refl;
    key_option = λ set. key-IsOption;
    url_option = λ set. url-IsOption;
    digest_option = λ set. absurd (set refl);
    url_logged = λ set. refl;
    digest_logged = λ set. absurd (set refl);
  }

  read :
      configuration
        (services mark)
        locals
        blank
        (config_file (services mark) (loaded (services mark) none online))
      ≡ (options, parsed mark)
  unfolding read_file in_memory load_all_modules for_modules
  read = refl

worded : IsWorded owner 300 (services b'$') long_digest symbols locals options game_lbp1 200
unfolding chosen_message success_message
worded = record {
  sized = λ bytes. refl;
  formats = refl;
  plain = refl;
  agent_fits = omega arith;
  agent_enough = omega arith;
  major = (refl, refl);
  minor = (refl, refl);
  digit = λ e. absurd (omega arith);
  message_fits = λ b. ground arith;
  message_enough = λ b. ground arith;
}

known : game_lbp1 ≢ game_unknown
known e = absurd (ground arith)

detected : get_lbp_game_number (parsed b'$') ≡ game_lbp1
unfolding get_lbp_game_number write_bytes
detected = refl

undetected : get_lbp_game_number (parsed b'?') ≡ game_unknown
unfolding get_lbp_game_number write_bytes
undetected = refl

no_update : wants_update none options ≡ false
unfolding wants_update
no_update = refl

start-IsStarted_example :
    IsStarted
      (services b'$')
      long_digest
      symbols
      hooks
      locals
      300
      frame
      none
      owner
      options
      (codes "secret")
      (codes "psn.com \n")
      []
      game_lbp1
      blank
      (parsed b'$')
      (parsed b'$')
      online
start-IsStarted_example =
    start-IsStarted (services b'$') long_digest symbols hooks locals 300 frame none owner options
      (codes "secret") (codes "psn.com \n") [] game_lbp1 blank (parsed b'$') (parsed b'$') online
      200 (read b'$') (inl (no_update, refl)) (laid b'$') (configured b'$') worded known detected

start-IsLeftAlone_example :
    IsLeftAlone owner 300
      (services b'?')
      long_digest
      symbols
      hooks
      locals
      options
      (codes "secret")
      (codes "psn.com \n")
      []
      frame
      none
      blank
      (parsed b'?')
      (parsed b'?')
      online
start-IsLeftAlone_example =
    start-IsLeftAlone owner 300 (services b'?') long_digest symbols hooks locals options
      (codes "secret") (codes "psn.com \n") [] frame none blank (parsed b'?') (parsed b'?') online
      200 (λ bytes. refl) (read b'?') (inl (no_update, refl)) (laid b'?') (configured b'?')
      undetected
