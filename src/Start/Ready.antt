-- ===== src/Start/Ready.antt =====
-- From the detection of the game to its patches: what stands ready when they are applied.
use mathlib.Core.Path.{subst}
use patchwork.Prelude.{
  ℕ, ◌+◌, ◌<◌, ◌≡◌, ◌≢◌, refl, ◌∙◌, Bool, false, some, List, [], ◌∷◌, ◌++◌, ◌==◌, length, arith,
}
use patchwork.Memory.{Memory, load_pointer}
use patchwork.Text.Strings.{IsString}
use patchwork.Http.{Sha256}
use patchwork.Hooks.Patches.{Symbols}
use patchwork.Hooks.Apply.{Machine, apply_game_patches}
use patchwork.Hooks.Game.{
  GameNumber, game_unknown, game_lbp1, game_lbp2, game_lbp3, game_lbp3_jp, get_lbp_game_number,
  patches_of, IsAboveGame,
}
use patchwork.Start.{
  Services, ScriptHooks, Locals, PatchworkConfigOptions, chosen_message, game_code,
}
use patchwork.Start.Steps.{select_instructions, set_user_agent, announce}
use patchwork.Start.Entry.{patch_game}
use patchwork.Start.Announced.{announce-message_for}
use patchwork.Files.{write_file}
use patchwork.Start.Wording.{message_for, outcome_of}
use patchwork.Start.Layout.{
  Changes, Owned-Outside, Changes-trans, kept, load_pointer-kept, IsString-kept,
}
use patchwork.Start.Agent.{game_char, agent_text}
use patchwork.Start.Objects.{
  user_agent_word, script_hook_word, notification_word, user_agent_bytes, msg_buf_bytes, IsLaidOut,
  IsConfigured, IsWorded,
}
use patchwork.Start.Named.{select_instructions-Changes, set_user_agent-IsNamed}
use patchwork.Start.Strung.{IsHeld}
use patchwork.Start.Held.{IsHeld-kept, IsHeld-IsAboveGame}

game_code-known : (game : GameNumber) → game ≢ game_unknown → (game_code game == 0) ≡ false
game_code-known game_unknown known = absurd (known refl)
game_code-known game_lbp1 known = refl
game_code-known game_lbp2 known = refl
game_code-known game_lbp3 known = refl
game_code-known game_lbp3_jp known = refl

abbrev pub select_objects : List ℕ
select_objects = script_hook_word ∷ notification_word ∷ []

abbrev pub agent_objects : List ℕ
agent_objects = user_agent_word ∷ user_agent_bytes ∷ []

abbrev pub msg_objects : List ℕ
msg_objects = msg_buf_bytes ∷ []

module _ {W : Type 0} (owner : ℕ → ℕ) (fuel : ℕ) (v : Services W) (sha : Sha256) (s : Symbols)
    (hooks : ScriptHooks) (locals : Locals) (options : PatchworkConfigOptions) where
  abbrev GameSteps : Bool → Machine W → Machine W → Machine W → GameNumber → Type 0
  GameSteps b machine named done game =
      game ≢ game_unknown
      → set_user_agent v sha s hooks locals fuel game options
          (select_instructions v sha s hooks locals game machine)
        ≡ some named
      → announce v sha s hooks locals fuel game options b named ≡ some done
      → patch_game v sha s hooks locals fuel options b machine
        ≡ some (apply_game_patches v.platform.log_ln (patches_of game s) done)

  patch_game-steps :
      (b : Bool) (m : Memory) (w : W) (named done : Machine W)
      → GameSteps b (m, w) named done (get_lbp_game_number m)
  unfolding patch_game
  patch_game-steps b m w named done known first second =
      rw (game_code-known (get_lbp_game_number m) known, first, second, patch_game) refl

  module _ (key url digest : List ℕ) (before : Memory)
      (conf : IsConfigured owner fuel v sha s locals options key url digest before) where
    module _ (game : GameNumber) (b : Bool) (m : Memory) (w : W) where
      -- The patches are applied in a memory that holds the strings, the user agent and the prepared
      -- instructions.
      pub record IsReady : Type 0 where
        pub memory : Memory
        pub world : W
        pub returns :
            patch_game v sha s hooks locals fuel options b (m, w)
            ≡ some (apply_game_patches v.platform.log_ln (patches_of game s) (memory, world))
        pub changes : Changes owner (select_objects ++ agent_objects ++ msg_objects) m memory
        pub held : IsHeld owner fuel v sha s hooks locals options key url digest memory
        pub agent_pointer : load_pointer memory s.user_agent ≡ locals.user_agent
        pub agent_string : IsString memory locals.user_agent (agent_text v game options)
        pub above : IsAboveGame s memory
        pub selected :
            (i : ℕ)
            → i < 4
            → memory (s.script_hook_instruction + i)
              ≡ (select_instructions v sha s hooks locals game (m, w)).0
                  (s.script_hook_instruction + i)

      pub patch_game-IsReady :
          (room : ℕ)
          → IsLaidOut owner fuel v sha s locals options room
          → IsWorded owner fuel v sha s locals options game room
          → game ≢ game_unknown
          → get_lbp_game_number m ≡ game
          → IsHeld owner fuel v sha s hooks locals options key url digest m
          → IsReady
      patch_game-IsReady room laid worded known detected held =
          let selected = select_instructions v sha s hooks locals game (m, w) in
          let m4 = selected.0 in
          let at_select =
            select_instructions-Changes v sha s hooks locals owner game m w
              laid.script_hook_instruction laid.notification_enable_instruction in
          let fits = worded.agent_fits in
          let named =
            set_user_agent-IsNamed v sha s hooks locals owner fuel game options m4 selected.1
              worded.formats worded.plain (omega arith) worded.agent_enough laid.bounds.1
              laid.user_agent laid.user_agent_buf in
          let m5 = named.memory in
          let announced =
            announce-message_for v sha s hooks locals fuel game options b m5 named.world
              worded.major.0 worded.minor.0 worded.major.1 worded.minor.1 worded.digit
              (worded.message_enough b) in
          let m6 = announced.memory in
          let written =
            write_file v.platform.fs locals.fp "/dev_hdd0/tmp/wm_request"
              (message_for (game_char v game) v.major_str v.minor_str
                (outcome_of options.enable_join_key b))
              named.world in
          let at_message : Changes owner msg_objects m5 m6 = λ a off. announced.same a (
            Owned-Outside owner locals.msg_buf
              (length (chosen_message v.major_str v.minor_str options.enable_join_key b) + 1)
              msg_buf_bytes a (λ i below. laid.msg_buf i (omega (arith, worded.message_fits b)))
              (λ e. ground arith)) in
          let after_select =
            Changes-trans owner agent_objects msg_objects m4 m5 m6 named.changes at_message in
          let all =
            Changes-trans owner select_objects (agent_objects ++ msg_objects) m m4 m6 at_select
              after_select in
          let held_on =
            IsHeld-kept owner fuel v sha s hooks locals options key url digest before conf room
              (select_objects ++ agent_objects ++ msg_objects) m m6 laid all refl refl refl refl
              refl refl held in
          let pointer =
            load_pointer-kept owner msg_objects m5 m6 s.user_agent user_agent_word at_message refl
              laid.user_agent
            ∙ named.pointer in
          record {
            memory = m6;
            world = written;
            returns =
                subst (GameSteps b (m, w) (m5, named.world) (m6, written)) detected
                  (patch_game-steps b m w (m5, named.world) (m6, written)) known named.returns
                  announced.returns;
            changes = all;
            held = held_on;
            agent_pointer = pointer;
            agent_string =
                IsString-kept owner msg_objects m5 m6 locals.user_agent user_agent_bytes
                  (agent_text v game options) at_message refl
                  (λ i below. laid.user_agent_buf i (omega arith)) named.name;
            above =
                IsHeld-IsAboveGame owner fuel v sha s hooks locals options key url digest before
                  conf room m6 laid held_on pointer;
            selected = λ i below.
                kept owner (agent_objects ++ msg_objects) m4 m6 s.script_hook_instruction 4
                  script_hook_word after_select refl laid.script_hook_instruction i below;
          }
