-- ===== src/Files/Results.antt =====
-- `CopyFile` as a whole: what it returns, and what it leaves on the disk.
use mathlib.Core.Path.{subst}
use native.Mathlib.Decide.{ℕ_discrete}
use patchwork.Prelude.{ℕ, ◌<◌, ◌≡◌, ◌≢◌, refl, sym, ap, ◌∙◌, ◌⊎◌, inl, inr, arith}
use patchwork.Prelude.{Option, none, some, String, length, take}
use patchwork.FileSystem.{FileSystem, read_only, create_truncate}
use patchwork.FileSystem.Disk.{Disk, closed, reader}
use patchwork.Files.{minus_one, copy_loop, copy_file}
use patchwork.Files.Copying.{IsBetween, copy_loop-IsCopied}

module _ {W : Type 0} (fs : FileSystem W) (disk : Disk fs) (fuel : ℕ) (src dst : String)
    (w : W) where
  open disk use {file, handle}

  abbrev pub opened_src : Option ℕ × W
  opened_src = fs.cell_fs_open src read_only w

  abbrev pub opened_dst : Option ℕ × W
  opened_dst = fs.cell_fs_open dst create_truncate opened_src.1

  -- The call has returned, and has closed what it opened.
  pub record IsReturned : Type 0 where
    pub status : ℕ
    pub world : W
    pub returns : copy_file fs fuel src dst w ≡ some (status, world)
    pub same_handles : (f : ℕ) → handle world f ≡ handle w f
    pub same_files : (q : String) → q ≢ dst → file world q ≡ file w q
    -- A file could not be opened, and nothing has changed; or the destination holds a part of the
    -- source from its start, all of it if the status is 0.
    pub outcome :
        ((opened_src.0 ≡ none) ⊎ (opened_dst.0 ≡ none))
          × (status ≡ 0)
          × ((q : String) → file world q ≡ file w q)
        ⊎ (((opened_src.0 ≢ none) × (opened_dst.0 ≢ none))
            × ((count : ℕ) × (file world dst ≡ take count (file w src))
                × ((status ≡ 0) × (count ≡ length (file w src)) ⊎ (status ≡ minus_one))))

  copy_file_no_src : opened_src.0 ≡ none → copy_file fs fuel src dst w ≡ some (0, opened_src.1)
  unfolding copy_file
  copy_file_no_src e = rw (e, copy_file)

  copy_file_no_dst :
      (src_fd : ℕ)
      → opened_src.0 ≡ some src_fd
      → opened_dst.0 ≡ none
      → copy_file fs fuel src dst w ≡ some (0, fs.cell_fs_close src_fd opened_dst.1)
  unfolding copy_file
  copy_file_no_dst src_fd e d = rw (e, copy_file) (rw (d, copy_file))

  copy_file_opened :
      (src_fd dst_fd : ℕ)
      → opened_src.0 ≡ some src_fd
      → opened_dst.0 ≡ some dst_fd
      → copy_file fs fuel src dst w ≡ copy_loop fs fuel src_fd dst_fd opened_dst.1
  unfolding copy_file
  copy_file_opened src_fd dst_fd e d = rw (e, copy_file) (rw (d, copy_file))

  no_src : opened_src.0 ≡ none → IsReturned
  no_src e =
      let law = disk.open_read_error src w e in
      record {
        status = 0;
        world = opened_src.1;
        returns = copy_file_no_src e;
        same_handles = law.0;
        same_files = λ q _. law.1 q;
        outcome = inl (inl e, refl, law.1);
      }

  module _ (src_fd : ℕ) (got_src : opened_src.0 ≡ some src_fd) where
    no_dst : opened_dst.0 ≡ none → IsReturned
    no_dst e =
        let one = disk.open_read src w got_src in
        let law = disk.open_write_error dst opened_src.1 e in
        let last = disk.close_keeps src_fd opened_dst.1 in
        let world : W = fs.cell_fs_close src_fd opened_dst.1 in
        let files = λ (q : String). last.2 q ∙ law.1 q ∙ one.3 q in
        record {
          status = 0;
          world = world;
          returns = copy_file_no_dst src_fd got_src e;
          same_handles = λ f. elim (ℕ_discrete f src_fd) [
            | yes e ↦ rw e (last.0 ∙ sym one.0)
            | no ne ↦ last.1 f ne ∙ law.0 f ∙ one.2 f ne
          ];
          same_files = λ q _. files q;
          outcome = inl (inr e, refl, files);
        }

    module _ (dst_fd : ℕ) (got_dst : opened_dst.0 ≡ some dst_fd) (apart : src ≢ dst) where
      two : src_fd ≢ dst_fd
      two e =
          let one = disk.open_read src w got_src in
          let other = disk.open_write dst opened_src.1 got_dst in
          let clash : reader src 0 ≡ closed = sym one.1 ∙ rw e other.0 in cc

      start : IsBetween fs disk src dst src_fd dst_fd apart two 0 opened_dst.1
      start =
          let one = disk.open_read src w got_src in
          let other = disk.open_write dst opened_src.1 got_dst in
          record {
            reads = other.2 src_fd two ∙ one.1;
            writes = other.1;
            copied = other.3;
            within = omega arith;
          }

      both_opened : length (file w src) < fuel → IsReturned
      both_opened enough =
          let one = disk.open_read src w got_src in
          let other = disk.open_write dst opened_src.1 got_dst in
          let same : file opened_dst.1 src ≡ file w src = other.4 src apart ∙ one.3 src in
          let done =
            copy_loop-IsCopied fs disk src dst src_fd dst_fd apart two fuel 0 opened_dst.1 start
              (rw same (omega arith)) in
          record {
            status = done.status;
            world = done.world;
            returns = copy_file_opened src_fd dst_fd got_src got_dst ∙ done.returns;
            same_handles = λ f. elim (ℕ_discrete f src_fd) [
              | yes e ↦ rw e (done.src_closed ∙ sym one.0)
              | no ne ↦ elim (ℕ_discrete f dst_fd) [
                | yes e ↦ rw e (done.dst_closed ∙ sym other.0 ∙ one.2 dst_fd (λ q. two (sym q)))
                | no nd ↦ done.kept.others f ne nd ∙ other.2 f nd ∙ one.2 f ne
              ]
            ];
            same_files = λ q ne. done.kept.files q ne ∙ other.4 q ne ∙ one.3 q;
            outcome = inr (
              (λ e. cc, λ e. cc),
              (
                done.count,
                done.content ∙ ap (take done.count) same,
                subst
                    (λ bs. (done.status ≡ 0) × (done.count ≡ length bs) ⊎ (done.status ≡ minus_one))
                    same done.known,
              ),
            );
          }

  -- `CopyFile` between two different paths, with fuel for the length of the source, returns, closes
  -- what it has opened, and touches no other file. If a file cannot be opened it returns 0 and
  -- changes nothing; else the destination holds a part of the source from its start, the whole of
  -- it if the call returns 0, and the call returns 0 or -1.
  pub copy_file-IsReturned : src ≢ dst → length (file w src) < fuel → IsReturned
  copy_file-IsReturned apart enough = by_src opened_src.0 refl
    where
      by_dst :
          (src_fd : ℕ) → opened_src.0 ≡ some src_fd → (d : Option ℕ) → opened_dst.0 ≡ d → IsReturned
      by_dst src_fd e none d = no_dst src_fd e d
      by_dst src_fd e (some dst_fd) d = both_opened src_fd e dst_fd d apart enough

      by_src : (s : Option ℕ) → opened_src.0 ≡ s → IsReturned
      by_src none e = no_src e
      by_src (some src_fd) e = by_dst src_fd e opened_dst.0 refl
