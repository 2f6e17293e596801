-- ===== src/Files/Copying.antt =====
-- The outer loop of `CopyFile`: what it has copied when it returns.
use patchwork.Prelude.{ℕ, zero, suc, ◌+◌, ◌≤◌, ◌<◌, ◌≡◌, ◌≢◌, refl, sym, ap, ◌∙◌, ◌⊎◌, inl, inr}
use patchwork.Prelude.{Bool, true, false, Option, none, some, String, List, [], ◌∷◌, length, take}
use patchwork.Prelude.{drop, take-add, take-take, arith}
use patchwork.FileSystem.{FileSystem}
use patchwork.FileSystem.Disk.{Disk, closed, reader, writer}
use patchwork.Files.{minus_one, buffer_size, write_rest, close_both, copy_loop}
use patchwork.Files.Writing.{IsWritten, write_rest-IsWritten}

module _ {W : Type 0} (fs : FileSystem W) (disk : Disk fs) (src dst : String) (src_fd dst_fd : ℕ)
    (apart : src ≢ dst) (two : src_fd ≢ dst_fd) where
  open disk use {file, handle}

  -- Nothing changes but the two descriptors and the destination.
  pub record Kept (w v : W) : Type 0 where
    pub others : (f : ℕ) → f ≢ src_fd → f ≢ dst_fd → handle v f ≡ handle w f
    pub files : (q : String) → q ≢ dst → file v q ≡ file w q

  Kept-trans : {u v w : W} → Kept u v → Kept v w → Kept u w
  Kept-trans h k = record {
    others = λ f a b. k.others f a b ∙ h.others f a b;
    files = λ q a. k.files q a ∙ h.files q a;
  }

  -- Between two rounds: `pos` bytes are copied.
  pub record IsBetween (pos : ℕ) (w : W) : Type 0 where
    pub reads : handle w src_fd ≡ reader src pos
    pub writes : handle w dst_fd ≡ writer dst
    pub copied : file w dst ≡ take pos (file w src)
    pub within : pos ≤ length (file w src)

  -- The loop has returned, with a prefix of the source copied: all of it for 0.
  pub record IsCopied (fuel : ℕ) (w : W) : Type 0 where
    pub status : ℕ
    pub world : W
    pub count : ℕ
    pub returns : copy_loop fs fuel src_fd dst_fd w ≡ some (status, world)
    pub known : (status ≡ 0) × (count ≡ length (file w src)) ⊎ (status ≡ minus_one)
    pub content : file world dst ≡ take count (file w src)
    pub src_closed : handle world src_fd ≡ closed
    pub dst_closed : handle world dst_fd ≡ closed
    pub kept : Kept w world

  read-Kept : (n : ℕ) (w : W) → Kept w (fs.cell_fs_read src_fd n w).1
  read-Kept n w = record {
    others = λ f a _. (disk.read_keeps src_fd n w).0 f a;
    files = λ q _. (disk.read_keeps src_fd n w).1 q;
  }

  -- The end of the loop in the world `v`, which the rounds so far have reached from `w`.
  close_both-IsCopied :
      (fuel status count : ℕ) (w v : W)
      → copy_loop fs fuel src_fd dst_fd w ≡ some (status, close_both fs src_fd dst_fd v)
      → (status ≡ 0) × (count ≡ length (file w src)) ⊎ (status ≡ minus_one)
      → file v dst ≡ take count (file w src)
      → Kept w v
      → IsCopied fuel w
  unfolding close_both
  close_both-IsCopied fuel status count w v ret known content kept =
      let one = disk.close_keeps src_fd v in
      let both = disk.close_keeps dst_fd (fs.cell_fs_close src_fd v) in
      record {
        status = status;
        world = close_both fs src_fd dst_fd v;
        count = count;
        returns = ret;
        known = known;
        content = both.2 dst ∙ one.2 dst ∙ content;
        src_closed = both.1 src_fd two ∙ one.0;
        dst_closed = both.0;
        kept = record {
          others = λ f a b. both.1 f b ∙ one.1 f a ∙ kept.others f a b;
          files = λ q a. both.2 q ∙ one.2 q ∙ kept.files q a;
        };
      }

  IsCopied-Kept :
      (fuel : ℕ) (w v : W)
      → copy_loop fs (suc fuel) src_fd dst_fd w ≡ copy_loop fs fuel src_fd dst_fd v
      → Kept w v
      → IsCopied fuel v
      → IsCopied (suc fuel) w
  IsCopied-Kept fuel w v step kept rest = record {
    status = rest.status;
    world = rest.world;
    count = rest.count;
    returns = step ∙ rest.returns;
    known = rw (sym (kept.files src apart)) rest.known;
    content = rw (sym (kept.files src apart)) rest.content;
    src_closed = rest.src_closed;
    dst_closed = rest.dst_closed;
    kept = Kept-trans kept rest.kept;
  }

  -- What a round that has read `bytes` leaves, after the inner loop.
  IsBetween-IsWritten :
      (pos : ℕ) (b : ℕ) (bs : List ℕ) (w : W) (at : IsBetween pos w)
      → (fs.cell_fs_read src_fd buffer_size w).0 ≡ some (b ∷ bs)
      → (out : IsWritten fs disk
          (suc (length bs))
          dst_fd
          dst
          (b ∷ bs)
          (fs.cell_fs_read src_fd buffer_size w).1)
      → (file out.world dst ≡ take (pos + out.count) (file w src))
        × (pos + suc (length bs) ≤ length (file w src))
        × (handle out.world src_fd ≡ reader src (pos + suc (length bs)))
        × (handle out.world dst_fd ≡ writer dst)
        × Kept w out.world
  IsBetween-IsWritten pos b bs w at got out =
      let law = disk.read_some src pos src_fd buffer_size w at.reads at.within got in
      let keep = disk.read_keeps src_fd buffer_size w in
      let v = (fs.cell_fs_read src_fd buffer_size w).1 in
      let part : take out.count (b ∷ bs) ≡ take out.count (drop pos (file w src)) =
        ap (take out.count) law.0
        ∙ take-take out.count (suc (length bs)) (drop pos (file w src)) out.bounded in
      (
        out.appended ∙ rw (keep.1 dst, at.copied, part) (take-add pos out.count (file w src)),
        law.2,
        out.same_handles src_fd ∙ law.4,
        out.same_handles dst_fd ∙ keep.0 dst_fd (λ e. two (sym e)) ∙ at.writes,
        record {
          others = λ f a b'. out.same_handles f ∙ keep.0 f a;
          files = λ q a. out.same_files q a ∙ keep.1 q;
        },
      )

  abbrev read : W → Option (List ℕ) × W
  read w = fs.cell_fs_read src_fd buffer_size w

  copy_loop_error :
      (fuel : ℕ) (w : W)
      → (read w).0 ≡ none
      → copy_loop fs (suc fuel) src_fd dst_fd w
        ≡ some (minus_one, close_both fs src_fd dst_fd (read w).1)
  unfolding copy_loop
  copy_loop_error fuel w e = rw (e, copy_loop)

  copy_loop_end :
      (fuel : ℕ) (w : W)
      → (read w).0 ≡ some []
      → copy_loop fs (suc fuel) src_fd dst_fd w ≡ some (0, close_both fs src_fd dst_fd (read w).1)
  unfolding copy_loop
  copy_loop_end fuel w e = rw (e, copy_loop)

  copy_loop_stop :
      (fuel : ℕ) (w u : W) (b : ℕ) (bs : List ℕ)
      → (read w).0 ≡ some (b ∷ bs)
      → write_rest fs (suc (length bs)) dst_fd (b ∷ bs) (read w).1 ≡ some (false, u)
      → copy_loop fs (suc fuel) src_fd dst_fd w ≡ some (minus_one, close_both fs src_fd dst_fd u)
  unfolding copy_loop
  copy_loop_stop fuel w u b bs e out = rw (e, copy_loop) (rw (out, copy_loop))

  copy_loop_more :
      (fuel : ℕ) (w u : W) (b : ℕ) (bs : List ℕ)
      → (read w).0 ≡ some (b ∷ bs)
      → write_rest fs (suc (length bs)) dst_fd (b ∷ bs) (read w).1 ≡ some (true, u)
      → copy_loop fs (suc fuel) src_fd dst_fd w ≡ copy_loop fs fuel src_fd dst_fd u
  unfolding copy_loop
  copy_loop_more fuel w u b bs e out = rw (e, copy_loop) (rw (out, copy_loop))

  -- What the rest of the loop does, from any point between two rounds.
  abbrev pub Continues : ℕ → Type 0
  Continues fuel =
      (pos : ℕ) (w : W) → IsBetween pos w → length (file w src) < pos + fuel → IsCopied fuel w

  after_write :
      (fuel pos : ℕ) (w : W) (b : ℕ) (bs : List ℕ) (complete : Bool)
      → Continues fuel
      → (at : IsBetween pos w) → length (file w src) < pos + suc fuel
      → (read w).0 ≡ some (b ∷ bs)
      → (out : IsWritten fs disk (suc (length bs)) dst_fd dst (b ∷ bs) (read w).1)
      → out.complete ≡ complete
      → IsCopied (suc fuel) w
  after_write fuel pos w b bs false continue at enough got out e =
      let (content, _, _, _, kept) = IsBetween-IsWritten pos b bs w at got out in
      close_both-IsCopied (suc fuel) minus_one (pos + out.count) w out.world
        (copy_loop_stop fuel w out.world b bs got (rw (← e) out.returns)) (inr refl) content kept
  after_write fuel pos w b bs true continue at enough got out e =
      let (content, within, reads, writes, kept) = IsBetween-IsWritten pos b bs w at got out in
      let same : file out.world src ≡ file w src = kept.files src apart in
      let all : out.count ≡ suc (length bs) = out.all_written e in
      IsCopied-Kept fuel w out.world
        (copy_loop_more fuel w out.world b bs got (rw (← e) out.returns)) kept
        (continue (pos + suc (length bs)) out.world
          (record {
            reads = reads;
            writes = writes;
            copied = rw (same, ← all) content;
            within = rw same within;
          })
          (rw same (omega arith)))

  after_read :
      (fuel pos : ℕ) (w : W) (bytes : Option (List ℕ))
      → Continues fuel
      → IsBetween pos w
      → length (file w src) < pos + suc fuel
      → (read w).0 ≡ bytes
      → IsCopied (suc fuel) w
  after_read fuel pos w none continue at enough e =
      close_both-IsCopied (suc fuel) minus_one pos w (read w).1 (copy_loop_error fuel w e)
        (inr refl) ((disk.read_keeps src_fd buffer_size w).1 dst ∙ at.copied)
        (read-Kept buffer_size w)
  after_read fuel pos w (some []) continue at enough e =
      let law = disk.read_some src pos src_fd buffer_size w at.reads at.within e in
      close_both-IsCopied (suc fuel) 0 pos w (read w).1 (copy_loop_end fuel w e)
        (inl (refl, law.3 (omega arith) refl))
        ((disk.read_keeps src_fd buffer_size w).1 dst ∙ at.copied) (read-Kept buffer_size w)
  after_read fuel pos w (some (b ∷ bs)) continue at enough e =
      let out =
        write_rest-IsWritten fs disk (suc (length bs)) dst_fd dst (b ∷ bs) (read w).1 (omega arith)
          ((disk.read_keeps src_fd buffer_size w).0 dst_fd (λ q. two (sym q)) ∙ at.writes) in
      after_write fuel pos w b bs out.complete continue at enough e out refl

  pub copy_loop-IsCopied : (fuel : ℕ) → Continues fuel
  copy_loop-IsCopied zero pos w at enough = absurd (omega (arith, at.within))
  copy_loop-IsCopied (suc fuel) pos w at enough =
      after_read fuel pos w (read w).0 (copy_loop-IsCopied fuel) at enough refl
