-- ===== src/Hooks/Assembly/ScriptBlock.antt =====
-- src/hooks/script-block.s: the hooks that keep scripts from being loaded.
use patchwork.Prelude.{
  ℕ, ◌+◌, ◌%◌, ◌^◌, ◌≡◌, ◌≢◌, refl, Bool, true, false, not, ◌||◌, some, List, [], ◌∷◌, ◌==◌,
  if◌then◌else◌, ◌<◌, Bool-cases, inl, inr, arith,
}
use patchwork.Memory.{load_pointer}
use patchwork.Hooks.Assembly.{
  Instruction, lwz, lbz, cmpwi, beq, bne, b, bla, clrldi, label, absolute, Cpu, Callee,
  effective_address, compare_word, set_gpr, set_cr, is_eq, run, execute, step,
}
use patchwork.Hooks.Game.{GameNumber, game_unknown, game_lbp1, game_lbp2, game_lbp3, game_lbp3_jp}

abbrev pub resource_type_script : ℕ
resource_type_script = 0xB

abbrev pub lbp1_script_hook : List Instruction
lbp1_script_hook =
    lwz 3 0 3
    ∷ lbz 3 39 3
    ∷ cmpwi 7 3 resource_type_script
    ∷ beq 7 (label 28)
    ∷ clrldi 3 25 32
    ∷ bla 0x7D1EC
    ∷ b (absolute 0x81BCC)
    ∷ b (absolute 0x81B40)
    ∷ []

abbrev pub lbp2_script_hook : List Instruction
lbp2_script_hook =
    beq 7 (label 20)
    ∷ lbz 0 35 29
    ∷ cmpwi 7 0 resource_type_script
    ∷ beq 7 (label 20)
    ∷ b (absolute 0x153D78)
    ∷ b (absolute 0x153D3C)
    ∷ []

abbrev pub lbp3_script_hook : List Instruction
lbp3_script_hook =
    cmpwi 0 3 0
    ∷ bne 0 (label 24)
    ∷ lbz 3 0x23 29
    ∷ cmpwi 7 3 resource_type_script
    ∷ beq 7 (label 24)
    ∷ b (absolute 0x1CFC78)
    ∷ b (absolute 0x1CFD10)
    ∷ []

abbrev pub lbp3_jp_script_hook : List Instruction
lbp3_jp_script_hook =
    cmpwi 0 3 0
    ∷ bne 0 (label 24)
    ∷ lbz 3 0x23 29
    ∷ cmpwi 7 3 resource_type_script
    ∷ beq 7 (label 24)
    ∷ b (absolute 0x1CFB14)
    ∷ b (absolute 0x1CFBAC)
    ∷ []

abbrev pub script_hook : GameNumber → List Instruction
script_hook game_unknown = []
script_hook game_lbp1 = lbp1_script_hook
script_hook game_lbp2 = lbp2_script_hook
script_hook game_lbp3 = lbp3_script_hook
script_hook game_lbp3_jp = lbp3_jp_script_hook

-- Where the type of the resource stands when the game reaches the hook.
abbrev pub type_address : GameNumber → Cpu → ℕ
type_address game_unknown c = 0
type_address game_lbp1 c = (load_pointer c.memory (c.gpr 3 % 2 ^ 64) + 39) % 2 ^ 64
type_address game_lbp2 c = (c.gpr 29 + 35) % 2 ^ 64
type_address game_lbp3 c = (c.gpr 29 + 35) % 2 ^ 64
type_address game_lbp3_jp c = (c.gpr 29 + 35) % 2 ^ 64

-- The game's own check, whose branch the hook has replaced, has failed.
abbrev pub is_refused : GameNumber → Cpu → Bool
is_refused game_unknown c = false
is_refused game_lbp1 c = false
is_refused game_lbp2 c = is_eq (c.cr 7)
is_refused game_lbp3 c = not (c.gpr 3 % 2 ^ 32 == 0)
is_refused game_lbp3_jp c = not (c.gpr 3 % 2 ^ 32 == 0)

abbrev pub is_blocked : GameNumber → Cpu → Bool
is_blocked game c = is_refused game c || c.memory (type_address game c) == resource_type_script

-- Where the game goes on with the resource, and where it gives it up.
abbrev pub resume_of : GameNumber → ℕ
resume_of game_unknown = 0
resume_of game_lbp1 = 0x81BCC
resume_of game_lbp2 = 0x153D78
resume_of game_lbp3 = 0x1CFC78
resume_of game_lbp3_jp = 0x1CFB14

abbrev pub bail_of : GameNumber → ℕ
bail_of game_unknown = 0
bail_of game_lbp1 = 0x81B40
bail_of game_lbp2 = 0x153D3C
bail_of game_lbp3 = 0x1CFD10
bail_of game_lbp3_jp = 0x1CFBAC

compare_byte :
    (x : ℕ) → x < 256 → is_eq (compare_word x resource_type_script) ≡ (x == resource_type_script)
compare_byte x h = ground arith

compare_zero : (x : ℕ) → is_eq (compare_word x 0) ≡ (x % 2 ^ 32 == 0)
compare_zero x = ground arith

module _ (call : Callee) (base : ℕ) (c : Cpu) where
  pub record Leaves (game : GameNumber) : Type 0 where
    pub cpu : Cpu
    pub returns :
        execute call base (script_hook game) c
        ≡ some (if is_blocked game c then bail_of game else resume_of game, cpu)
    pub untouched : is_blocked game c ≡ true → cpu.memory ≡ c.memory

  -- The registers after the check of the type.
  abbrev checked_lbp1 : Cpu
  checked_lbp1 =
      let found = c.memory (type_address game_lbp1 c) in
      set_cr (set_gpr (set_gpr c 3 (load_pointer c.memory (effective_address c 0 3))) 3 found) 7
        (compare_word found resource_type_script)

  abbrev checked_lbp2 : Cpu
  checked_lbp2 =
      let found = c.memory (type_address game_lbp2 c) in
      set_cr (set_gpr c 0 found) 7 (compare_word found resource_type_script)

  abbrev refused_lbp3 : Cpu
  refused_lbp3 = set_cr c 0 (compare_word (c.gpr 3) 0)

  abbrev checked_lbp3 : Cpu
  checked_lbp3 =
      let found = c.memory (type_address game_lbp3 c) in
      set_cr (set_gpr refused_lbp3 3 found) 7 (compare_word found resource_type_script)

  lbp1-Leaves : c.memory (type_address game_lbp1 c) < 256 → Leaves game_lbp1
  unfolding execute run step
  lbp1-Leaves byte =
      let same = compare_byte (c.memory (type_address game_lbp1 c)) byte in
      elim (Bool-cases (is_blocked game_lbp1 c)) [
        | inl blocked ↦ record {
          cpu = checked_lbp1;
          returns = ground (arith, same);
          untouched = λ e. refl;
        }
        | inr free ↦ record {
          cpu = call 0x7D1EC (set_gpr checked_lbp1 3 (c.gpr 25 % 2 ^ 32));
          returns = ground (arith, same);
          untouched = λ e. cc;
        }
      ]

  lbp2-Leaves : c.memory (type_address game_lbp2 c) < 256 → Leaves game_lbp2
  unfolding execute run step
  lbp2-Leaves byte =
      let same = compare_byte (c.memory (type_address game_lbp2 c)) byte in
      elim (Bool-cases (is_refused game_lbp2 c)) [
        | inl refused ↦ record { cpu = c; returns = ground arith; untouched = λ e. refl }
        | inr free ↦ record {
          cpu = checked_lbp2;
          returns = ground (arith, same);
          untouched = λ e. refl;
        }
      ]

  lbp3-Leaves : c.memory (type_address game_lbp3 c) < 256 → Leaves game_lbp3
  unfolding execute run step
  lbp3-Leaves byte =
      let same = compare_byte (c.memory (type_address game_lbp3 c)) byte in
      elim (Bool-cases (is_refused game_lbp3 c)) [
        | inl refused ↦ record {
          cpu = refused_lbp3;
          returns = ground (arith, compare_zero (c.gpr 3));
          untouched = λ e. refl;
        }
        | inr free ↦ record {
          cpu = checked_lbp3;
          returns = ground (arith, same, compare_zero (c.gpr 3));
          untouched = λ e. refl;
        }
      ]

  lbp3_jp-Leaves : c.memory (type_address game_lbp3_jp c) < 256 → Leaves game_lbp3_jp
  unfolding execute run step
  lbp3_jp-Leaves byte =
      let same = compare_byte (c.memory (type_address game_lbp3_jp c)) byte in
      elim (Bool-cases (is_refused game_lbp3_jp c)) [
        | inl refused ↦ record {
          cpu = refused_lbp3;
          returns = ground (arith, compare_zero (c.gpr 3));
          untouched = λ e. refl;
        }
        | inr free ↦ record {
          cpu = checked_lbp3;
          returns = ground (arith, same, compare_zero (c.gpr 3));
          untouched = λ e. refl;
        }
      ]

  -- Where the type of the resource is a byte, a game's hook comes to an end outside its code: at the
  -- address where the game gives the resource up if the game's own check, which the hook has moved,
  -- has failed or the resource is a script; and else at the address where the game goes on with it.
  -- Memory is untouched if it gives the resource up, so that nothing was queued.
  pub script_hook-Leaves :
      (game : GameNumber) → game ≢ game_unknown → c.memory (type_address game c) < 256 → Leaves game
  script_hook-Leaves game_unknown known byte = absurd (known refl)
  script_hook-Leaves game_lbp1 known byte = lbp1-Leaves byte
  script_hook-Leaves game_lbp2 known byte = lbp2-Leaves byte
  script_hook-Leaves game_lbp3 known byte = lbp3-Leaves byte
  script_hook-Leaves game_lbp3_jp known byte = lbp3_jp-Leaves byte
