-- ===== src/Start/Named.antt =====
-- The instructions that `start` prepares for a game, and the user agent.
use patchwork.Prelude.{
  ℕ, ◌+◌, ◌^◌, ◌<◌, ◌≡◌, refl, ◌∙◌, true, some, List, [], ◌∷◌, ◌++◌, length, length-append, codes,
  arith,
}
use patchwork.Memory.{Memory, load_pointer, store_word, load_pointer-store_word, store_word-Outside}
use patchwork.Message.{text}
use patchwork.Text.Strings.{IsString, IsString-bytes}
use patchwork.Http.{Sha256}
use patchwork.Hooks.Patches.{Symbols}
use patchwork.Hooks.Game.{GameNumber, game_unknown, game_lbp1, game_lbp2, game_lbp3, game_lbp3_jp}
use patchwork.Start.{Services, ScriptHooks, Locals, PatchworkConfigOptions, game_code, write_bytes}
use patchwork.Start.Steps.{
  set_script_hook, set_notification_enable, select_instructions, set_user_agent,
}
use patchwork.Start.Configured.{string_at-IsString}
use patchwork.Start.Wording.{avoids, write_bytes-IsString, write_bytes-Outside}
use patchwork.Start.Layout.{Owned, Changes, Owned-Outside}
use patchwork.Start.Agent.{agent_message, agent_text}
use patchwork.Start.Objects.{script_hook_word, notification_word, user_agent_word, user_agent_bytes}

module _ {W : Type 0} (v : Services W) where
  module _ (sha : Sha256) (s : Symbols) (hooks : ScriptHooks) (locals : Locals)
      (owner : ℕ → ℕ) where
    set_script_hook-Changes :
        (hook origin : ℕ) (m : Memory) (w : W)
        → Owned owner s.script_hook_instruction 4 script_hook_word
        → Changes owner
            (script_hook_word ∷ [])
            m
            (set_script_hook v sha s hooks locals hook origin (m, w)).0
    unfolding set_script_hook
    set_script_hook-Changes hook origin m w word a off =
        store_word-Outside m s.script_hook_instruction _ a (
          Owned-Outside owner s.script_hook_instruction 4 script_hook_word a word
            (λ e. ground arith))

    set_notification_enable-Changes :
        (instruction : ℕ) (m : Memory)
        → Owned owner s.notification_enable_instruction 4 notification_word
        → Changes owner
            (notification_word ∷ [])
            m
            (set_notification_enable v sha s hooks locals instruction m)
    unfolding set_notification_enable
    set_notification_enable-Changes instruction m word a off =
        store_word-Outside m s.notification_enable_instruction instruction a (
          Owned-Outside owner s.notification_enable_instruction 4 notification_word a word
            (λ e. ground arith))

    pub select_instructions-Changes :
        (game : GameNumber) (m : Memory) (w : W)
        → Owned owner s.script_hook_instruction 4 script_hook_word
        → Owned owner s.notification_enable_instruction 4 notification_word
        → Changes owner
            (script_hook_word ∷ notification_word ∷ [])
            m
            (select_instructions v sha s hooks locals game (m, w)).0
    unfolding select_instructions
    select_instructions-Changes game_unknown m w hook word a off = refl
    select_instructions-Changes game_lbp1 m w hook word a off =
        set_script_hook-Changes _ _ m w hook a (ground arith)
    select_instructions-Changes game_lbp2 m w hook word a off =
        set_script_hook-Changes _ _ _ w hook a (ground arith)
        ∙ set_notification_enable-Changes _ m word a (ground arith)
    select_instructions-Changes game_lbp3 m w hook word a off =
        set_script_hook-Changes _ _ _ w hook a (ground arith)
        ∙ set_notification_enable-Changes _ m word a (ground arith)
    select_instructions-Changes game_lbp3_jp m w hook word a off =
        set_script_hook-Changes _ _ _ w hook a (ground arith)
        ∙ set_notification_enable-Changes _ m word a (ground arith)

    module _ (fuel : ℕ) (game : GameNumber) (options : PatchworkConfigOptions) (m : Memory)
        (w : W) where
      abbrev agent : List ℕ
      agent = agent_text v game options

      pub record IsNamed : Type 0 where
        pub memory : Memory
        pub world : W
        pub returns :
            set_user_agent v sha s hooks locals fuel game options (m, w) ≡ some (memory, world)
        pub changes : Changes owner (user_agent_word ∷ user_agent_bytes ∷ []) m memory
        pub pointer : load_pointer memory s.user_agent ≡ locals.user_agent
        pub name : IsString memory locals.user_agent agent

      -- The user agent points at the formatted text.
      pub set_user_agent-IsNamed :
          v.snprintf 64 (agent_message v game options) ≡ agent ++ 0 ∷ []
          → avoids 0 agent ≡ true
          → length agent < 64
          → length agent < fuel
          → locals.user_agent < 2 ^ 32
          → Owned owner s.user_agent 4 user_agent_word
          → Owned owner locals.user_agent 64 user_agent_bytes
          → IsNamed
      unfolding set_user_agent
      set_user_agent-IsNamed formats plain fits enough bound word buffer =
          let written = write_bytes m locals.user_agent (agent ++ 0 ∷ []) in
          let named = store_word written s.user_agent locals.user_agent in
          let here : IsString named locals.user_agent agent =
            IsString-bytes written named locals.user_agent locals.user_agent agent
              (λ i below.
                store_word-Outside written s.user_agent locals.user_agent (locals.user_agent + i) (
                  Owned-Outside owner s.user_agent 4 user_agent_word (locals.user_agent + i) word
                    (λ e. absurd (omega (arith, buffer i (omega arith))))))
              (write_bytes-IsString m locals.user_agent agent plain) in
          let read = string_at-IsString fuel named locals.user_agent agent enough here in
          record {
            memory = named;
            world =
                v.platform.log_ln
                  (record { format = codes "User agent: %s"; arguments = text agent ∷ [] })
                  (v.platform.log_ln
                    (record {
                      format = codes "Selected patches for LBP%s";
                      arguments = text (v.uint_to_str (game_code game)) ∷ [];
                    })
                    w);
            returns = rw (formats, read, set_user_agent) refl;
            changes = λ a off.
                let size = length-append agent (0 ∷ []) in
                let away =
                  Owned-Outside owner locals.user_agent 64 user_agent_bytes a buffer
                    (λ e. ground arith) in
                store_word-Outside written s.user_agent locals.user_agent a
                  (Owned-Outside owner s.user_agent 4 user_agent_word a word (λ e. ground arith))
                ∙ write_bytes-Outside m locals.user_agent (agent ++ 0 ∷ []) a (omega arith);
            pointer = load_pointer-store_word written s.user_agent locals.user_agent bound;
            name = here;
          }
