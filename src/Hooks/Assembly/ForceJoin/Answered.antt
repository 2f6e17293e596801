-- ===== src/Hooks/Assembly/ForceJoin/Answered.antt =====
-- The code of the second game's patch: what it answers, and what the game is asked to do.
use Prim.Native.Nat.{bit_or}
use patchwork.Prelude.{
  ℕ, ◌+◌, ◌-◌, ◌%◌, ◌^◌, ◌≡◌, refl, Bool, true, false, not, ◌||◌, some, ◌==◌, if◌then◌else◌,
  Bool-cases, inl, inr, arith,
}
use patchwork.Memory.{load_pointer}
use patchwork.Hooks.Assembly.{
  Cpu, Callee, compare_word, set_gpr, set_cr, rotate_doubleword, run, execute, step,
}
use patchwork.Hooks.Assembly.Words.{bit_or_same}
use patchwork.Hooks.Assembly.ForceJoin.{lbp2_force_join}
use patchwork.Hooks.Assembly.ForceJoin.Exits.{
  end_of, is_set, is_positive, low_byte, compare_low_byte, compare_zero, compare_positive, IsAsked,
  manager_lbp2, asking_lbp2, invited_lbp2,
}
use patchwork.Hooks.Offsets.{lbp2_forcejoin_patch_offset}

low_word : (x : ℕ) → rotate_doubleword x 0 % 2 ^ (64 - 0x20) ≡ x % 2 ^ 32
low_word x = omega arith

module _ (call : Callee) (c : Cpu) where
  abbrev pub found : Cpu
  found = call 0x264148 (asking_lbp2 call c)

  abbrev pub is_local : Bool
  is_local = not (c.gpr 23 % 256 == 0)

  -- The registers for a call about the request that `x` holds: the party, the message, the source.
  pub record IsPassed (x passed : Cpu) : Type 0 where
    pub party : passed.gpr 3 ≡ x.gpr 25 % 2 ^ 32
    pub message : passed.gpr 4 ≡ x.gpr 28 % 2 ^ 32
    pub source : passed.gpr 5 ≡ x.gpr 27
    pub same_memory : passed.memory ≡ x.memory

  -- The game's function at 0x285914 deals with the request and, where its result has a low byte that
  -- is 0, that at 0x282440 forwards it.
  pub record IsRefused : Type 0 where
    pub dealing : Cpu
    pub passed : IsPassed found dealing
    pub more : (dealing.gpr 6 ≡ 0) × (dealing.gpr 7 ≡ 0) × (dealing.gpr 8 ≡ 0xc)
    pub forwarding : Cpu
    pub forwarded : IsPassed (call 0x285914 dealing) forwarding
    pub ends :
        end_of (execute call lbp2_forcejoin_patch_offset lbp2_force_join c)
        ≡ some (
          0x285f28,
          if (call 0x285914 dealing).gpr 3 % 256 == 0
              then (call 0x282440 forwarding).memory
              else (call 0x285914 dealing).memory,
        )

  pub record IsAnswered : Type 0 where
    pub is_asked : IsAsked call c (manager_lbp2 call c) (c.gpr 27) (asking_lbp2 call c)
    pub accepted :
        is_local || invited_lbp2 call c found ≡ true
        → end_of (execute call lbp2_forcejoin_patch_offset lbp2_force_join c)
          ≡ some (0x286030, if is_local then c.memory else found.memory)
    pub refused : is_local || invited_lbp2 call c found ≡ false → IsRefused

  asking-IsAsked : IsAsked call c (manager_lbp2 call c) (c.gpr 27) (asking_lbp2 call c)
  asking-IsAsked = record {
    manager_given = refl;
    source_given = bit_or_same (c.gpr 27);
    null_given = refl;
    same_memory = refl;
  }

  abbrev invitation : ℕ
  invitation = load_pointer found.memory ((found.gpr 3 + 0xe8) % 2 ^ 64)

  abbrev passing : Cpu → Cpu
  passing x =
      let party = set_gpr x 3 (rotate_doubleword (x.gpr 25) 0 % 2 ^ (64 - 0x20)) in
      let message = set_gpr party 4 (rotate_doubleword (x.gpr 28) 0 % 2 ^ (64 - 0x20)) in
      set_gpr message 5 (bit_or (x.gpr 27) (x.gpr 27))

  passing-IsPassed : (x : Cpu) → IsPassed x (passing x)
  passing-IsPassed x = record {
    party = low_word (x.gpr 25);
    message = low_word (x.gpr 28);
    source = bit_or_same (x.gpr 27);
    same_memory = refl;
  }

  abbrev dealt_from : Cpu → Cpu
  dealt_from x = set_gpr (set_gpr (set_gpr (passing x) 6 0) 7 0) 8 0xc

  -- The answer's low byte is in register 3 when the request is forwarded.
  abbrev tested : Cpu → Cpu
  tested x = let low = low_byte (x.gpr 3) in set_cr (set_gpr x 3 low) 7 (compare_word low 0)

  accepted_lem :
      is_local || invited_lbp2 call c found ≡ true
      → end_of (execute call lbp2_forcejoin_patch_offset lbp2_force_join c)
        ≡ some (0x286030, if is_local then c.memory else found.memory)
  unfolding execute run step
  accepted_lem welcome = ground (
    arith,
    welcome,
    compare_low_byte (c.gpr 23),
    compare_zero (found.gpr 3),
    compare_positive invitation,
  )

  -- The registers where the entry is null, and where it does not say that the player is invited.
  abbrev unknown : Cpu
  unknown = set_cr found 7 (compare_word (found.gpr 3) 0)

  abbrev uninvited : Cpu
  uninvited = set_cr (set_gpr unknown 6 invitation) 7 (compare_word invitation 0)

  abbrev Ends : Cpu → Type 0
  Ends x =
      let done = call 0x285914 (dealt_from x) in
      end_of (execute call lbp2_forcejoin_patch_offset lbp2_force_join c)
      ≡ some (
        0x285f28,
        if done.gpr 3 % 256 == 0
            then (call 0x282440 (passing (tested done))).memory
            else done.memory,
      )

  refused_from : (x : Cpu) → IsPassed found (dealt_from x) → Ends x → IsRefused
  refused_from x passed ends =
      let done = call 0x285914 (dealt_from x) in
      record {
        dealing = dealt_from x;
        passed = passed;
        more = (refl, refl, refl);
        forwarding = passing (tested done);
        forwarded = record {
          party = low_word (done.gpr 25);
          message = low_word (done.gpr 28);
          source = bit_or_same (done.gpr 27);
          same_memory = refl;
        };
        ends = ends;
      }

  null-Ends : is_local ≡ false → is_set (found.gpr 3) ≡ false → Ends unknown
  unfolding execute run step
  null-Ends away null =
      let done = call 0x285914 (dealt_from unknown) in
      ground (
        arith,
        compare_low_byte (c.gpr 23),
        compare_zero (found.gpr 3),
        compare_low_byte (done.gpr 3),
      )

  uninvited-Ends :
      is_local ≡ false
      → is_set (found.gpr 3) ≡ true
      → is_positive invitation ≡ false
      → Ends uninvited
  unfolding execute run step
  uninvited-Ends away entry negative =
      let done = call 0x285914 (dealt_from uninvited) in
      ground (
        arith,
        compare_low_byte (c.gpr 23),
        compare_zero (found.gpr 3),
        compare_positive invitation,
        compare_low_byte (done.gpr 3),
      )

  refused_lem : is_local || invited_lbp2 call c found ≡ false → IsRefused
  refused_lem unwelcome = elim (Bool-cases (is_set (found.gpr 3))) [
    | inr null ↦
        refused_from unknown
          (record {
            party = low_word (found.gpr 25);
            message = low_word (found.gpr 28);
            source = bit_or_same (found.gpr 27);
            same_memory = refl;
          })
          (null-Ends (ground (arith, unwelcome)) null)
    | inl entry ↦
        refused_from uninvited
          (record {
            party = low_word (found.gpr 25);
            message = low_word (found.gpr 28);
            source = bit_or_same (found.gpr 27);
            same_memory = refl;
          })
          (uninvited-Ends (ground (arith, unwelcome)) entry (ground (arith, unwelcome, entry)))
  ]

  -- The code of the second game's patch, at its place in the game, comes to an end. If no local player
  -- joins, it has asked the game for the entry of the player who wants to. If a local player joins, or
  -- if the entry is not null and the bit pattern of its invitation is positive as a signed number, it
  -- ends where the request is accepted, with the memory as it was, or as that call has left it. If not,
  -- the game's own function has dealt with the request, and was given the party, the message and the
  -- source that stood in the game's registers after that call; if the low byte of its result is 0, a
  -- second function has forwarded the request; the memory is what they have made of it; and the code
  -- ends where the game goes on.
  pub lbp2_force_join-IsAnswered : IsAnswered
  lbp2_force_join-IsAnswered = record {
    is_asked = asking-IsAsked;
    accepted = accepted_lem;
    refused = refused_lem;
  }
