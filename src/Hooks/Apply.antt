-- ===== src/Hooks/Apply.antt =====
-- `ApplyGamePatches` of src/hooks/patches.c over the shared address space, and the specification
-- that it implements.
pub mod Overlay
pub mod Laws
use patchwork.Prelude.{codes, ℕ, ◌+◌, ◌-◌, ◌≤◌, ◌≢◌, ◌≡◌, ◌⊎◌, List, [], ◌∷◌, All, not, ◌&&◌}
use patchwork.Prelude.{ltb, leb, ◌==◌, if◌then◌else◌}
use patchwork.Memory.{Memory, memcpy, load_pointer}
use patchwork.Message.{Message, number}
use patchwork.Hooks.Patches.{GamePatch, direct, indirect}

-- What the call changes: memory, and the world that the log is written to.
abbrev pub Machine : Type 0 → Type 0
Machine W = Memory × W

abbrev indirect_message : ℕ → Message
indirect_message offset = record {
  format = codes "Applying indirect patch to offset 0x%X";
  arguments = number offset ∷ [];
}

abbrev direct_message : ℕ → Message
direct_message offset = record {
  format = codes "Applying direct patch to offset 0x%X";
  arguments = number offset ∷ [];
}

module _ {W : Type 0} (log_ln : Message → W → W) where
  -- One round of the loop, past the test of the offset.
  unfoldable pub apply_patch : GamePatch → Machine W → Machine W
  apply_patch p (m, w) = elim p.type [
    | indirect ↦
        let source = load_pointer m p.source in
        if source == 0
        then (m, w)
        else (memcpy m p.offset source p.size, log_ln (indirect_message p.offset) w)
    | direct ↦
        if p.source == 0
        then (m, w)
        else (memcpy m p.offset p.source p.size, log_ln (direct_message p.offset) w)
  ]

  unfoldable pub apply_game_patches : List GamePatch → Machine W → Machine W
  unfolding apply_patch
  apply_game_patches [] s = s
  apply_game_patches (p ∷ ps) s =
      let rest = apply_game_patches ps (apply_patch p s) in if p.offset == 0 then s else rest

-- Where a patch takes its bytes from; 0 is a patch that is not applied.
unfoldable pub source_of : GamePatch → Memory → ℕ
source_of p m = elim p.type [ indirect ↦ load_pointer m p.source | direct ↦ p.source ]

-- The specification: every byte is taken from the memory before the call, from the source of the
-- patch that covers its address, if there is one.
unfoldable pub overlay : List GamePatch → Memory → Memory
overlay [] m a = m a
overlay (p ∷ ps) m a =
    if leb p.offset a && ltb a (p.offset + p.size) && not (source_of p m == 0)
    then m (source_of p m + (a - p.offset))
    else overlay ps m a

-- Two ranges of addresses, by their starts and lengths.
abbrev pub AreDisjoint : ℕ → ℕ → ℕ → ℕ → Type 0
AreDisjoint a n b k = (a + n ≤ b) ⊎ (b + k ≤ a)

-- What the patch writes is none of what the other one writes or reads.
pub record IsApart (m : Memory) (p q : GamePatch) : Type 0 where
  pub targets : AreDisjoint p.offset p.size q.offset q.size
  pub pointer : (q.type ≡ direct) ⊎ AreDisjoint p.offset p.size q.source 4
  pub bytes : AreDisjoint p.offset p.size (source_of q m) q.size

-- No patch writes what a later one needs, and none is taken for the end of the table.
abbrev pub IsSafe : Memory → List GamePatch → Type 0
IsSafe m [] = Unit {0}
IsSafe m (p ∷ ps) = (p.offset ≢ 0) × All (IsApart m p) ps × IsSafe m ps
