-- ===== src/Hooks/Assembly/ForceJoin/Dealt.antt =====
-- The code of the third game's patch, in both versions: what the game is asked to do.
use Prim.Native.Nat.{bit_or}
use patchwork.Prelude.{
  ℕ, ◌+◌, ◌-◌, ◌%◌, ◌^◌, ◌≤◌, ◌<◌, ◌≡◌, refl, ◌∙◌, Bool, true, false, ◌&&◌, ◌||◌, some, ◌==◌,
  if◌then◌else◌, Bool-cases, inl, inr, arith,
}
use patchwork.Memory.{load_pointer}
use patchwork.Hooks.Assembly.{
  Cpu, Callee, shifted_immediate, compare_word, set_gpr, set_cr, run, execute, step,
}
use patchwork.Hooks.Assembly.Words.{bit_or_same, bit_or-zero}
use patchwork.Hooks.Assembly.ForceJoin.{lbp3_version}
use patchwork.Hooks.Assembly.ForceJoin.Exits.{end_of, is_set, compare_zero, IsAsked}

module _ (call : Callee) (manager_high manager_low find deal base : ℕ) (c : Cpu)
    (keeps : (a : ℕ) (x : Cpu) (k : ℕ) → 14 ≤ k → k < 32 → (call a x).gpr k ≡ x.gpr k) where
  abbrev manager_address : ℕ
  manager_address = (shifted_immediate manager_high + 2 ^ 64 - manager_low) % 2 ^ 64

  abbrev manager : ℕ
  manager = load_pointer c.memory ((manager_address + 0x1c) % 2 ^ 64)

  abbrev tested : Cpu
  tested = set_cr c 0 (compare_word (c.gpr 28) 0)

  abbrev asking : Cpu
  asking =
      let addressed =
        set_gpr (set_gpr tested 3 (shifted_immediate manager_high)) 3 manager_address in
      set_gpr (set_gpr (set_gpr addressed 3 manager) 4 (bit_or (c.gpr 31) (c.gpr 31))) 5 0

  abbrev found : Cpu
  found = call find asking

  abbrev invitation : ℕ
  invitation = load_pointer found.memory ((found.gpr 3 + 0xf0) % 2 ^ 64)

  -- A local player joins, or the player who asks has an entry that says that they are invited.
  abbrev pub is_welcome : Bool
  is_welcome = is_set (c.gpr 28) || (is_set (found.gpr 3) && is_set invitation)

  -- The registers for the call that deals with the request.
  abbrev prepared : Cpu → ℕ → Cpu
  prepared x skip =
      let skipping = set_gpr x 26 skip in
      let party = set_gpr skipping 3 (bit_or (x.gpr 29) 0) in
      let message = set_gpr party 4 (bit_or (x.gpr 30) 0) in
      let source = set_gpr message 5 (bit_or (x.gpr 31) 0) in
      let joining = set_gpr source 6 (bit_or (x.gpr 28) 0) in
      set_gpr (set_gpr (set_gpr joining 7 (bit_or skip skip)) 8 0xd) 9 0x6

  pub record IsDealt : Type 0 where
    pub asked : Cpu
    pub is_asked : IsAsked call c manager (c.gpr 31) asked
    pub dealing : Cpu
    pub arguments :
        (dealing.gpr 3 ≡ c.gpr 29)
        × (dealing.gpr 4 ≡ c.gpr 30)
        × (dealing.gpr 5 ≡ c.gpr 31)
        × (dealing.gpr 6 ≡ c.gpr 28)
        × (dealing.gpr 7 ≡ (if is_welcome then 1 else 0))
    pub leaves :
        end_of (execute call base (lbp3_version manager_high manager_low find deal) c)
        ≡ some (
          if is_welcome || is_set ((call deal dealing).gpr 3) then base + 148 else base + 112,
          (call deal dealing).memory,
        )
    -- The memory is as the call for the entry, if there was one, has left it.
    pub finds : dealing.memory ≡ (if is_set (c.gpr 28) then c.memory else (call find asked).memory)

  Kept : Cpu → Type 0
  Kept x =
      (x.gpr 28 ≡ c.gpr 28) × (x.gpr 29 ≡ c.gpr 29) × (x.gpr 30 ≡ c.gpr 30) × (x.gpr 31 ≡ c.gpr 31)

  prepared_arguments :
      (x : Cpu) (skip : ℕ)
      → Kept x
      → ((prepared x skip).gpr 3 ≡ c.gpr 29)
        × ((prepared x skip).gpr 4 ≡ c.gpr 30)
        × ((prepared x skip).gpr 5 ≡ c.gpr 31)
        × ((prepared x skip).gpr 6 ≡ c.gpr 28)
        × ((prepared x skip).gpr 7 ≡ skip)
  unfolding Kept
  prepared_arguments x skip (is_28, is_29, is_30, is_31) = (
    bit_or-zero (x.gpr 29) ∙ is_29,
    bit_or-zero (x.gpr 30) ∙ is_30,
    bit_or-zero (x.gpr 31) ∙ is_31,
    bit_or-zero (x.gpr 28) ∙ is_28,
    bit_or_same skip,
  )

  asking-IsAsked : IsAsked call c manager (c.gpr 31) asking
  asking-IsAsked = record {
    manager_given = refl;
    source_given = bit_or_same (c.gpr 31);
    null_given = refl;
    same_memory = refl;
  }

  found-Kept : Kept found
  unfolding Kept
  found-Kept = (
    keeps find asking 28 (omega arith) (omega arith),
    keeps find asking 29 (omega arith) (omega arith),
    keeps find asking 30 (omega arith) (omega arith),
    keeps find asking 31 (omega arith) (omega arith),
  )

  -- The flag `skip_checks` survives the call.
  skip_kept : (x : Cpu) (skip : ℕ) → (call deal (prepared x skip)).gpr 26 ≡ skip
  skip_kept x skip = keeps deal (prepared x skip) 26 (omega arith) (omega arith)

  -- The lemmas on the tests of a run in which the request is dealt with from `x`.
  dealt :
      (x : Cpu) (skip : ℕ)
      → Kept x
      → is_welcome ≡ (skip == 1)
      → skip < 2
      → end_of (execute call base (lbp3_version manager_high manager_low find deal) c)
        ≡ some (
          if is_welcome || is_set ((call deal (prepared x skip)).gpr 3)
              then base + 148
              else base + 112,
          (call deal (prepared x skip)).memory,
        )
      → x.memory ≡ (if is_set (c.gpr 28) then c.memory else found.memory)
      → IsDealt
  dealt x skip kept welcome bit exit same =
      let (a3, a4, a5, a6, a7) = prepared_arguments x skip kept in
      record {
        asked = asking;
        is_asked = asking-IsAsked;
        dealing = prepared x skip;
        arguments = (a3, a4, a5, a6, a7 ∙ ground arith);
        leaves = exit;
        finds = same;
      }

  abbrev unknown : Cpu
  unknown = set_cr found 0 (compare_word (found.gpr 3) 0)

  abbrev known : Cpu
  known = set_cr (set_gpr unknown 3 invitation) 0 (compare_word invitation 0)

  lbp3_local : is_set (c.gpr 28) ≡ true → IsDealt
  unfolding execute run step Kept
  lbp3_local here =
      let after = call deal (prepared tested 1) in
      dealt tested 1 (refl, refl, refl, refl) (ground arith) (omega arith)
        (ground (
          arith,
          compare_zero (c.gpr 28),
          compare_zero (after.gpr 26),
          compare_zero (after.gpr 3),
          skip_kept tested 1,
        ))
        (ground (arith, here))

  lbp3_null : is_set (c.gpr 28) ≡ false → is_set (found.gpr 3) ≡ false → IsDealt
  unfolding execute run step Kept
  lbp3_null away null =
      let after = call deal (prepared unknown 0) in
      dealt unknown 0 found-Kept (ground arith) (omega arith)
        (ground (
          arith,
          compare_zero (c.gpr 28),
          compare_zero (found.gpr 3),
          compare_zero (after.gpr 26),
          compare_zero (after.gpr 3),
          skip_kept unknown 0,
        ))
        (ground (arith, away))

  lbp3_invited :
      is_set (c.gpr 28) ≡ false → is_set (found.gpr 3) ≡ true → is_set invitation ≡ true → IsDealt
  unfolding execute run step Kept
  lbp3_invited away entry invited =
      let after = call deal (prepared known 1) in
      dealt known 1 found-Kept (ground arith) (omega arith)
        (ground (
          arith,
          compare_zero (c.gpr 28),
          compare_zero (found.gpr 3),
          compare_zero invitation,
          compare_zero (after.gpr 26),
          compare_zero (after.gpr 3),
          skip_kept known 1,
        ))
        (ground (arith, away))

  lbp3_uninvited :
      is_set (c.gpr 28) ≡ false → is_set (found.gpr 3) ≡ true → is_set invitation ≡ false → IsDealt
  unfolding execute run step Kept
  lbp3_uninvited away entry uninvited =
      let after = call deal (prepared known 0) in
      dealt known 0 found-Kept (ground arith) (omega arith)
        (ground (
          arith,
          compare_zero (c.gpr 28),
          compare_zero (found.gpr 3),
          compare_zero invitation,
          compare_zero (after.gpr 26),
          compare_zero (after.gpr 3),
          skip_kept known 0,
        ))
        (ground (arith, away))

  -- If the game's functions keep the registers 14 to 31, as its calling convention demands, the code
  -- of the third game's patch comes to an end. It has dealt with the request with the game's own
  -- arguments and with the flag that skips the checks, which is 1 exactly if a local player joins or
  -- the entry that the game finds for the player who asks is not null and says that the player is
  -- invited. The memory in which it ends is that which dealing has
  -- left. It ends 148 bytes from its start if the flag is set or the result of dealing is not 0, and
  -- 112 bytes from its start, where the patch ends, if not.
  pub lbp3_version-IsDealt : IsDealt
  lbp3_version-IsDealt = elim (Bool-cases (is_set (c.gpr 28))) [
    | inl here ↦ lbp3_local here
    | inr away ↦ elim (Bool-cases (is_set (found.gpr 3))) [
      | inr null ↦ lbp3_null away null
      | inl entry ↦ elim (Bool-cases (is_set invitation)) [
        | inl invited ↦ lbp3_invited away entry invited
        | inr uninvited ↦ lbp3_uninvited away entry uninvited
      ]
    ]
  ]
