-- ===== src/Hooks/Game/Tables.antt =====
-- The four tables: their targets do not overlap, and the loop meets its specification on them.
use patchwork.Prelude.{ℕ, ◌+◌, ◌≤◌, ◌<◌, ◌≢◌, ◌≡◌, refl, ◌⊎◌, inl, inr, Bool, true, ◌&&◌, ◌||◌}
use patchwork.Prelude.{List, [], ◌∷◌, All, leb, get_elem?, some, ◌∙◌, arith}
use patchwork.Memory.{Memory, load_pointer}
use patchwork.Message.{Message}
use patchwork.Hooks.Patches.{GamePatch, Symbols, direct, direct_patch, indirect_patch}
use patchwork.Hooks.Apply.{source_of, IsApart, IsSafe, apply_game_patches}
use patchwork.Hooks.Apply.Laws.{apply_game_patches-overlay}
use patchwork.Hooks.Apply.Overlay.{overlay-get_elem?}
use patchwork.Hooks.Game.{
  GameNumber, game_unknown, game_lbp1, game_lbp2, game_lbp3, game_lbp3_jp, patches_of, game_end,
  IsOwn, IsNullOrOwn, IsAboveGame,
}

abbrev are_disjoint : GamePatch → GamePatch → Bool
are_disjoint p q = leb (p.offset + p.size) q.offset || leb (q.offset + q.size) p.offset

abbrev apart_from_all : GamePatch → List GamePatch → Bool
apart_from_all p [] = true
apart_from_all p (q ∷ ps) = are_disjoint p q && apart_from_all p ps

abbrev all_apart : List GamePatch → Bool
all_apart [] = true
all_apart (p ∷ ps) = apart_from_all p ps && all_apart ps

-- The patch writes into the game, below `game_end`, and reads from the module, above it.
pub record IsInto (m : Memory) (p : GamePatch) : Type 0 where
  low : 0x1000 ≤ p.offset
  small : p.size ≤ 0x1000
  pub high : p.offset + p.size ≤ game_end
  own : (p.type ≡ direct) ⊎ IsOwn p.source
  bytes : IsNullOrOwn (source_of p m)

IsApart-are_disjoint :
    (m : Memory) (p q : GamePatch)
    → IsInto m p
    → IsInto m q
    → are_disjoint p q ≡ true
    → IsApart m p q
IsApart-are_disjoint m p q hp hq h = record {
  targets = ground arith;
  pointer = ground arith;
  bytes = ground arith;
}

All-IsApart :
    (m : Memory) (p : GamePatch) (ps : List GamePatch)
    → IsInto m p
    → All (IsInto m) ps
    → apart_from_all p ps ≡ true
    → All (IsApart m p) ps
All-IsApart m p [] hp hs h = tt
All-IsApart m p (q ∷ ps) hp (hq, hs) h =
    (IsApart-are_disjoint m p q hp hq (ground arith), All-IsApart m p ps hp hs (ground arith))

IsSafe-all_apart :
    (m : Memory) (ps : List GamePatch) → All (IsInto m) ps → all_apart ps ≡ true → IsSafe m ps
IsSafe-all_apart m [] hs h = tt
IsSafe-all_apart m (p ∷ ps) (hp, hs) h = (
  ground (arith, hp.low),
  All-IsApart m p ps hp hs (ground arith),
  IsSafe-all_apart m ps hs (ground arith),
)

abbrev fits : ℕ → ℕ → Bool
fits o n = leb 0x1000 o && leb n 0x1000 && leb (o + n) game_end

indirect_patch-IsInto :
    (m : Memory) (o s n : ℕ)
    → fits o n ≡ true
    → IsOwn s × IsNullOrOwn (load_pointer m s)
    → IsInto m (indirect_patch o s n)
unfolding source_of
indirect_patch-IsInto m o s n h (own, bytes) = record {
  low = ground arith;
  small = ground arith;
  high = ground arith;
  own = inr own;
  bytes = bytes;
}

direct_patch-IsInto :
    (m : Memory) (o s n : ℕ) → fits o n ≡ true → IsOwn s → IsInto m (direct_patch o s n)
unfolding source_of
direct_patch-IsInto m o s n h own = record {
  low = ground arith;
  small = ground arith;
  high = ground arith;
  own = inl refl;
  bytes = inr own;
}

pub patches_of-IsInto :
    (g : GameNumber) (s : Symbols) (m : Memory) → IsAboveGame s m → All (IsInto m) (patches_of g s)
patches_of-IsInto game_unknown s m h = tt
patches_of-IsInto game_lbp1 s m h = (
  indirect_patch-IsInto m _ _ _ refl h.network_key,
  (
    indirect_patch-IsInto m _ _ _ refl h.user_agent,
    (
      indirect_patch-IsInto m _ _ _ refl h.server_url,
      (
        indirect_patch-IsInto m _ _ _ refl h.server_url,
        (
          indirect_patch-IsInto m _ _ _ refl h.server_digest,
          (
            direct_patch-IsInto m _ _ _ refl h.lbp1_playlist_override,
            (
              direct_patch-IsInto m _ _ _ refl h.script_hook_instruction,
              (direct_patch-IsInto m _ _ _ refl h.lbp1_force_join_patch, tt),
            ),
          ),
        ),
      ),
    ),
  ),
)
patches_of-IsInto game_lbp2 s m h = (
  indirect_patch-IsInto m _ _ _ refl h.network_key,
  (
    indirect_patch-IsInto m _ _ _ refl h.user_agent,
    (
      indirect_patch-IsInto m _ _ _ refl h.server_url,
      (
        indirect_patch-IsInto m _ _ _ refl h.server_url,
        (
          indirect_patch-IsInto m _ _ _ refl h.server_digest,
          (
            direct_patch-IsInto m _ _ _ refl h.notification_enable_instruction,
            (
              direct_patch-IsInto m _ _ _ refl h.script_hook_instruction,
              (direct_patch-IsInto m _ _ _ refl h.lbp2_force_join_patch, tt),
            ),
          ),
        ),
      ),
    ),
  ),
)
patches_of-IsInto game_lbp3 s m h = (
  indirect_patch-IsInto m _ _ _ refl h.network_key,
  (
    indirect_patch-IsInto m _ _ _ refl h.user_agent,
    (
      indirect_patch-IsInto m _ _ _ refl h.server_url,
      (
        indirect_patch-IsInto m _ _ _ refl h.server_url,
        (
          indirect_patch-IsInto m _ _ _ refl h.server_url,
          (
            indirect_patch-IsInto m _ _ _ refl h.server_url,
            (
              indirect_patch-IsInto m _ _ _ refl h.server_digest,
              (
                direct_patch-IsInto m _ _ _ refl h.notification_enable_instruction,
                (
                  direct_patch-IsInto m _ _ _ refl h.script_hook_instruction,
                  (direct_patch-IsInto m _ _ _ refl h.lbp3_force_join_patch, tt),
                ),
              ),
            ),
          ),
        ),
      ),
    ),
  ),
)
patches_of-IsInto game_lbp3_jp s m h = (
  indirect_patch-IsInto m _ _ _ refl h.network_key,
  (
    indirect_patch-IsInto m _ _ _ refl h.user_agent,
    (
      indirect_patch-IsInto m _ _ _ refl h.server_url,
      (
        indirect_patch-IsInto m _ _ _ refl h.server_url,
        (
          indirect_patch-IsInto m _ _ _ refl h.server_url,
          (
            indirect_patch-IsInto m _ _ _ refl h.server_url,
            (
              indirect_patch-IsInto m _ _ _ refl h.server_digest,
              (
                direct_patch-IsInto m _ _ _ refl h.notification_enable_instruction,
                (
                  direct_patch-IsInto m _ _ _ refl h.script_hook_instruction,
                  (direct_patch-IsInto m _ _ _ refl h.lbp3_jp_force_join_patch, tt),
                ),
              ),
            ),
          ),
        ),
      ),
    ),
  ),
)

-- If the module and what its pointers point at are loaded above the game, the patches of every
-- game's table are safe: their targets do not overlap, none of them is at 0, and no patch writes
-- what a later one reads.
pub patches_of-IsSafe :
    (g : GameNumber) (s : Symbols) (m : Memory) → IsAboveGame s m → IsSafe m (patches_of g s)
patches_of-IsSafe g s m h =
    IsSafe-all_apart m (patches_of g s) (patches_of-IsInto g s m h) (apart g)
  where
    apart : (k : GameNumber) → all_apart (patches_of k s) ≡ true
    apart game_unknown = refl
    apart game_lbp1 = refl
    apart game_lbp2 = refl
    apart game_lbp3 = refl
    apart game_lbp3_jp = refl

-- If the module and what its pointers point at are loaded above the game, then after the loop has
-- run over a game's table each byte that a patch of the table covers is the byte of its source
-- before the loop, unless that source is null.
pub apply_game_patches-get_elem? :
    {W : Type 0} (log_ln : Message → W → W) (g : GameNumber) (s : Symbols) (m : Memory) (w : W)
    (k i : ℕ) {p : GamePatch}
    → IsAboveGame s m
    → get_elem? (patches_of g s) k ≡ some p
    → source_of p m ≢ 0
    → i < p.size
    → (apply_game_patches log_ln (patches_of g s) (m, w)).0 (p.offset + i) ≡ m (source_of p m + i)
apply_game_patches-get_elem? log_ln g s m w k i {p} above at set lt =
    let safe = patches_of-IsSafe g s m above in
    apply_game_patches-overlay log_ln (patches_of g s) m w safe (p.offset + i)
    ∙ overlay-get_elem? (patches_of g s) m k i safe at set lt
