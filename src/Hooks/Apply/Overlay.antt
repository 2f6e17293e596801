-- ===== src/Hooks/Apply/Overlay.antt =====
-- The specification under a copy that is apart from the patches that follow.
use patchwork.Prelude.{ℕ, ◌+◌, ◌-◌, ◌<◌, ◌≢◌, ◌≡◌, refl, ◌∙◌, ◌⊎◌, inl, inr, List, [], ◌∷◌}
use native.Mathlib.Decide.{dec_lt}
use mathlib.Core.Path.{subst}
use mathlib.Core.Option.{some-injective}
use patchwork.Prelude.{All, All-get_elem?, sym, arith, get_elem?, zero, suc, some}
use patchwork.Memory.{Memory, memcpy, load_pointer, Outside, memcpy-Outside, memcpy_inside}
use patchwork.Hooks.Patches.{GamePatch}
use patchwork.Hooks.Apply.{source_of, overlay, AreDisjoint, IsApart, IsSafe}

load_pointer-memcpy :
    (m : Memory) (dst src n p : ℕ)
    → AreDisjoint dst n p 4
    → load_pointer (memcpy m dst src n) p ≡ load_pointer m p
unfolding load_pointer
load_pointer-memcpy m dst src n p apart =
    let e0 = memcpy-Outside m dst src n p (omega arith) in
    let e1 = memcpy-Outside m dst src n (p + 1) (omega arith) in
    let e2 = memcpy-Outside m dst src n (p + 2) (omega arith) in
    let e3 = memcpy-Outside m dst src n (p + 3) (omega arith) in rw (e0, e1, e2, e3)

-- A copy that is apart from a patch leaves the patch its source.
source_of-memcpy :
    (m : Memory) (p q : GamePatch) (src : ℕ)
    → IsApart m p q
    → source_of q (memcpy m p.offset src p.size) ≡ source_of q m
unfolding source_of
source_of-memcpy m p q src apart =
    ground (arith, load_pointer-memcpy m p.offset src p.size q.source, apart.pointer)

module _ (m : Memory) (p : GamePatch) (src : ℕ) where
  -- Outside the target of the copy, patches that are apart from it do what they did.
  overlay-memcpy-Outside :
      (ps : List GamePatch) (a : ℕ)
      → All (IsApart m p) ps
      → Outside a p.offset p.size
      → overlay ps (memcpy m p.offset src p.size) a ≡ overlay ps m a
  unfolding overlay
  overlay-memcpy-Outside [] a apart out = memcpy-Outside m p.offset src p.size a out
  overlay-memcpy-Outside (q ∷ ps) a (apart, rest) out = ground (
    arith,
    source_of-memcpy m p q src apart,
    memcpy-Outside m p.offset src p.size (source_of q m + (a - q.offset)),
    apart.bytes,
    overlay-memcpy-Outside ps a rest out,
  )

  -- On the target of the copy, they do nothing.
  overlay-memcpy_inside :
      (ps : List GamePatch) (i : ℕ)
      → All (IsApart m p) ps
      → i < p.size
      → overlay ps (memcpy m p.offset src p.size) (p.offset + i) ≡ m (src + i)
  unfolding overlay
  overlay-memcpy_inside [] i apart h = memcpy_inside m p.offset src p.size i h
  overlay-memcpy_inside (q ∷ ps) i (apart, rest) h =
      ground (arith, apart.targets, overlay-memcpy_inside ps i rest h)

-- Safe patches stay safe under a copy that is apart from all of them.
IsApart-memcpy :
    (m : Memory) (p q r : GamePatch) (src : ℕ)
    → IsApart m p r
    → IsApart m q r
    → IsApart (memcpy m p.offset src p.size) q r
IsApart-memcpy m p q r src pr qr = record {
  targets = qr.targets;
  pointer = qr.pointer;
  bytes = rw (source_of-memcpy m p r src pr) qr.bytes;
}

module _ (m : Memory) (p : GamePatch) (src : ℕ) where
  All-IsApart-memcpy :
      (q : GamePatch) (ps : List GamePatch)
      → All (IsApart m p) ps
      → All (IsApart m q) ps
      → All (IsApart (memcpy m p.offset src p.size) q) ps
  All-IsApart-memcpy q [] _ _ = tt
  All-IsApart-memcpy q (r ∷ ps) (pr, prs) (qr, qrs) =
      (IsApart-memcpy m p q r src pr qr, All-IsApart-memcpy q ps prs qrs)

  pub IsSafe-memcpy :
      (ps : List GamePatch)
      → All (IsApart m p) ps
      → IsSafe m ps
      → IsSafe (memcpy m p.offset src p.size) ps
  IsSafe-memcpy [] _ _ = tt
  IsSafe-memcpy (q ∷ ps) (_, prs) (nonzero, qrs, safe) =
      (nonzero, All-IsApart-memcpy q ps prs qrs, IsSafe-memcpy ps prs safe)

pub overlay-cons_skip :
    (p : GamePatch) (ps : List GamePatch) (m : Memory) (a : ℕ)
    → source_of p m ≡ 0
    → overlay (p ∷ ps) m a ≡ overlay ps m a
unfolding overlay
overlay-cons_skip p ps m a h = ground arith

overlay-cons-Outside :
    (p : GamePatch) (ps : List GamePatch) (m : Memory) (a : ℕ)
    → Outside a p.offset p.size
    → overlay (p ∷ ps) m a ≡ overlay ps m a
unfolding overlay
overlay-cons-Outside p ps m a h = ground arith

overlay-cons_inside :
    (p : GamePatch) (ps : List GamePatch) (m : Memory) (i : ℕ)
    → source_of p m ≢ 0
    → i < p.size
    → overlay (p ∷ ps) m (p.offset + i) ≡ m (source_of p m + i)
unfolding overlay
overlay-cons_inside p ps m i h lt =
    let e : p.offset + i - p.offset ≡ i = omega arith in rw (e, overlay) (ground arith)

pub range-cases : (a start n : ℕ) → Outside a start n ⊎ ((i : ℕ) × (i < n) × (start + i ≡ a))
range-cases a start n = elim (dec_lt a start) [
  | yes below ↦ inl (omega arith)
  | no above ↦ elim (dec_lt a (start + n)) [
    | yes within ↦ inr (a - start, omega arith, omega arith)
    | no past ↦ inl (omega arith)
  ]
]

-- The first patch, as a copy, followed by the specification of the others.
pub overlay-copy :
    (p : GamePatch) (ps : List GamePatch) (m : Memory) (a : ℕ)
    → source_of p m ≢ 0
    → All (IsApart m p) ps
    → overlay ps (memcpy m p.offset (source_of p m) p.size) a ≡ overlay (p ∷ ps) m a
overlay-copy p ps m a set apart = elim (range-cases a p.offset p.size) [
  | inl out ↦
      overlay-memcpy-Outside m p (source_of p m) ps a apart out
      ∙ sym (overlay-cons-Outside p ps m a out)
  | inr (i, lt, e) ↦ rw (← e) (
      overlay-memcpy_inside m p (source_of p m) ps i apart lt
      ∙ sym (overlay-cons_inside p ps m i set lt))
]

-- A byte that no patch covers, or only patches whose source is null, keeps its value.
abbrev pub IsUntouched : Memory → List GamePatch → ℕ → Type 0
IsUntouched m ps a = All (λ p. (source_of p m ≡ 0) ⊎ Outside a p.offset p.size) ps

pub overlay-IsUntouched :
    (ps : List GamePatch) (m : Memory) (a : ℕ) → IsUntouched m ps a → overlay ps m a ≡ m a
unfolding overlay
overlay-IsUntouched [] m a h = refl
overlay-IsUntouched (p ∷ ps) m a (h, hs) = ground (arith, overlay-IsUntouched ps m a hs)

-- A byte that a patch with a source covers is the one of the source, if the patches are safe.
pub overlay-get_elem? :
    (ps : List GamePatch) (m : Memory) (k i : ℕ) {p : GamePatch}
    → IsSafe m ps
    → get_elem? ps k ≡ some p
    → source_of p m ≢ 0
    → i < p.size
    → overlay ps m (p.offset + i) ≡ m (source_of p m + i)
overlay-get_elem? [] m k i safe at set lt = cc
overlay-get_elem? (q ∷ ps) m zero i {p} safe at set lt =
    subst
      (λ r.
        source_of r m ≢ 0 → i < r.size → overlay (q ∷ ps) m (r.offset + i) ≡ m (source_of r m + i))
      (some-injective q p at) (overlay-cons_inside q ps m i) set lt
overlay-get_elem? (q ∷ ps) m (suc k) i {p} (nonzero, apart, safe) at set lt =
    let pair : IsApart m q p = All-get_elem? (IsApart m q) ps k apart at in
    overlay-cons-Outside q ps m (p.offset + i) (ground (arith, pair.targets))
    ∙ overlay-get_elem? ps m k i safe at set lt

IsApart-IsUntouched :
    (m : Memory) (p : GamePatch) (ps : List GamePatch) (i : ℕ)
    → All (IsApart m p) ps
    → i < p.size
    → IsUntouched m ps (p.offset + i)
IsApart-IsUntouched m p [] i apart lt = tt
IsApart-IsUntouched m p (q ∷ ps) i (pair, apart) lt =
    (inr (ground (arith, pair.targets)), IsApart-IsUntouched m p ps i apart lt)

-- A byte that a patch without a source covers keeps its value, if the patches are safe.
pub overlay-get_elem?_null :
    (ps : List GamePatch) (m : Memory) (k i : ℕ) {p : GamePatch}
    → IsSafe m ps
    → get_elem? ps k ≡ some p
    → source_of p m ≡ 0
    → i < p.size
    → overlay ps m (p.offset + i) ≡ m (p.offset + i)
overlay-get_elem?_null [] m k i safe at unset lt = cc
overlay-get_elem?_null (q ∷ ps) m zero i {p} (nonzero, apart, safe) at unset lt =
    subst
      (λ r. source_of r m ≡ 0 → i < r.size → overlay (q ∷ ps) m (r.offset + i) ≡ m (r.offset + i))
      (some-injective q p at)
      (λ null below.
        overlay-cons_skip q ps m (q.offset + i) null
        ∙ overlay-IsUntouched ps m (q.offset + i) (IsApart-IsUntouched m q ps i apart below))
      unset lt
overlay-get_elem?_null (q ∷ ps) m (suc k) i {p} (nonzero, apart, safe) at unset lt =
    let pair : IsApart m q p = All-get_elem? (IsApart m q) ps k apart at in
    overlay-cons-Outside q ps m (p.offset + i) (ground (arith, pair.targets))
    ∙ overlay-get_elem?_null ps m k i safe at unset lt
