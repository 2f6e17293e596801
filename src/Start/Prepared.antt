-- ===== src/Start/Prepared.antt =====
-- Setting the pointer of an option: what the step of `start` changes, and what it leaves for the patches.
use patchwork.Prelude.{true}
use patchwork.Prelude.{
  ℕ, zero, suc, ◌+◌, ◌≤◌, ◌<◌, ◌≡◌, ◌≢◌, refl, sym, ap, ◌∙◌, ◌⊎◌, some, String, List, [], ◌∷◌,
  length, arith,
}
use patchwork.Memory.{Memory, load_pointer}
use patchwork.Text.Strings.{IsString}
use patchwork.Text.Trim.{strip_rest}
use patchwork.Http.{Sha256}
use patchwork.Hooks.Patches.{Symbols}
use patchwork.Start.{Services, ScriptHooks, Locals}
use patchwork.Update.{fits_log}
use patchwork.Start.Steps.{string_message, set_string}
use patchwork.Start.Configured.{set_string-IsPointed}
use patchwork.Start.Layout.{Owned, Changes, Owned-Outside}
use patchwork.Start.Objects.{IsOption}

module _ (owner : ℕ → ℕ) (fuel : ℕ) where
  module _ {W : Type 0} (v : Services W) (sha : Sha256) (s : Symbols) (hooks : ScriptHooks)
      (locals : Locals) where
    pub record IsAssigned (word object global option : ℕ) (format : String) (cs : List ℕ)
        (m : Memory) (w : W) : Type 0 where
      pub memory : Memory
      pub world : W
      pub returns :
          set_string v sha s hooks locals fuel global option format (m, w) ≡ some (memory, world)
      pub changes : Changes owner (word ∷ object ∷ []) m memory
      pub pointer : load_pointer memory global ≡ option
      pub stripped : option ≢ 0 → IsString memory option (strip_rest cs)

    -- Owned by different objects, the pointer and the string do not overlap.
    owned_apart :
        (word object global option n : ℕ)
        → word ≢ object
        → Owned owner global 4 word
        → Owned owner option (n + 1) object
        → (global + 4 ≤ option) ⊎ (option + n < global)
    owned_apart word object global option n other pointer owned =
        let off = λ (i : ℕ) (below : i < 4).
          Owned-Outside owner option (n + 1) object (global + i) owned
            (λ e. other (sym (pointer i below) ∙ e)) in
        ground (
          arith,
          off 0 (omega arith),
          off 1 (omega arith),
          off 2 (omega arith),
          off 3 (omega arith),
          Owned-Outside owner global 4 word option pointer
              (λ e. other (sym e ∙ ap owner (omega arith) ∙ owned 0 (omega arith))),
        )

    IsAssigned-null :
        (word object global : ℕ) (format : String) (cs : List ℕ) (m : Memory) (w : W)
        → load_pointer m global ≡ 0
        → IsAssigned word object global 0 format cs m w
    unfolding set_string
    IsAssigned-null word object global format cs m w unset = record {
      memory = m;
      world = w;
      returns = refl;
      changes = λ a off. refl;
      pointer = unset;
      stripped = λ set. absurd (set refl);
    }

    IsAssigned-text :
        (word object global option : ℕ) (format : String) (cs : List ℕ) (m : Memory) (w : W)
        → option ≢ 0
        → word ≢ object
        → Owned owner global 4 word
        → IsOption owner fuel object option cs m
        → fits_log v.platform (string_message format (strip_rest cs)) ≡ true
        → IsAssigned word object global option format cs m w
    IsAssigned-text word object global option format cs m w set other pointer string fits =
        let done =
          set_string-IsPointed v sha s hooks locals fuel global option format m w cs set
            string.bound string.enough string.here
            (owned_apart word object global option (length cs) other pointer string.owned) fits in
        record {
          memory = done.memory;
          world = done.world;
          returns = done.returns;
          changes = λ a off.
              done.same a (Owned-Outside owner global 4 word a pointer (λ e. ground arith)) (
                Owned-Outside owner option (length cs + 1) object a string.owned
                  (λ e. ground arith));
          pointer = done.pointer;
          stripped = λ _. done.stripped;
        }

    -- A pointer that is `NULL` holds the option afterwards, and its string is stripped.
    pub set_string-IsAssigned :
        (word object global option : ℕ) (format : String) (cs : List ℕ) (m : Memory) (w : W)
        → word ≢ object
        → Owned owner global 4 word
        → load_pointer m global ≡ 0
        → (option ≢ 0 → IsOption owner fuel object option cs m)
        → (option ≢ 0 → fits_log v.platform (string_message format (strip_rest cs)) ≡ true)
        → IsAssigned word object global option format cs m w
    set_string-IsAssigned word object global zero format cs m w other pointer unset string fits =
        IsAssigned-null word object global format cs m w unset
    set_string-IsAssigned word object global (suc n) format cs m w other pointer unset string fits =
        let set : suc n ≢ 0 = λ e. absurd (omega arith) in
        IsAssigned-text word object global (suc n) format cs m w set other pointer (string set)
          (fits set)
