-- ===== src/Files/Whole.antt =====
-- `ReadFile` and `WriteFile`: what they give, and what they leave on the disk.
use native.Mathlib.Decide.{ℕ_discrete}
use patchwork.Prelude.{
  ℕ, ◌≤◌, ◌<◌, ◌≡◌, ◌≢◌, refl, sym, ◌∙◌, ◌⊎◌, inl, inr, Option, none, some, Option-cases, String,
  List, [], ◌++◌, length, take, ap, arith,
}
use patchwork.FileSystem.{FileSystem, read_only, create_truncate}
use patchwork.FileSystem.Disk.{Disk, closed}
use patchwork.Files.{read_file, write_file}

module _ {W : Type 0} (fs : FileSystem W) (disk : Disk fs) where
  open disk use {file, handle}

  -- Every file and every descriptor is as before.
  abbrev SameDisk : W → W → Type 0
  SameDisk w' w = ((f : ℕ) → handle w' f ≡ handle w f) × ((q : String) → file w' q ≡ file w q)

  module _ (error_dialog : String → W → W) (path : String) (buf_size : ℕ) (w : W) where
    abbrev opened : Option ℕ × W
    opened = fs.cell_fs_open path read_only w

    abbrev result : Option (List ℕ) × W
    result = read_file fs error_dialog path buf_size w

    pub record IsRead : Type 0 where
      pub same : SameDisk result.1 w
      pub outcome :
          ((result.0 ≡ none)
            × ((opened.0 ≡ none)
                ⊎ ((fp : ℕ) × (opened.0 ≡ some fp)
                    × ((fs.cell_fs_read fp buf_size opened.1).0 ≡ none))))
          ⊎ ((bytes : List ℕ) × (result.0 ≡ some bytes)
              × (bytes ≡ take (length bytes) (file w path))
              × (length bytes ≤ buf_size)
              × (0 < buf_size → bytes ≡ [] → length (file w path) ≡ 0))

    unopened : opened.0 ≡ none → result ≡ (none, opened.1)
    unfolding read_file
    unopened e = rw (e, read_file) refl

    module _ (fp : ℕ) (e : opened.0 ≡ some fp) where
      abbrev reply : Option (List ℕ) × W
      reply = fs.cell_fs_read fp buf_size opened.1

      read_failed :
          reply.0 ≡ none
          → result ≡ (none, fs.cell_fs_close fp (error_dialog "Failed to read file" reply.1))
      unfolding read_file
      read_failed d = rw (e, read_file) (rw (d) refl)

      read_done :
          (bytes : List ℕ)
          → reply.0 ≡ some bytes
          → result ≡ (some bytes, fs.cell_fs_close fp reply.1)
      unfolding read_file
      read_done bytes d = rw (e, read_file) (rw (d) refl)

      -- The descriptor is closed again.
      closed_again : (w' : W) → SameDisk w' reply.1 → SameDisk (fs.cell_fs_close fp w') w
      closed_again w' same =
          let one = disk.open_read path w e in
          let two = disk.read_keeps fp buf_size opened.1 in
          let last = disk.close_keeps fp w' in
          (
            λ f. elim (ℕ_discrete f fp) [
              | yes q ↦ rw q (last.0 ∙ sym one.0)
              | no ne ↦ last.1 f ne ∙ same.0 f ∙ two.0 f ne ∙ one.2 f ne
            ],
            λ q. last.2 q ∙ same.1 q ∙ two.1 q ∙ one.3 q,
          )

      what_was_read :
          (bytes : List ℕ)
          → reply.0 ≡ some bytes
          → (bytes ≡ take (length bytes) (file w path))
            × (length bytes ≤ buf_size)
            × (0 < buf_size → bytes ≡ [] → length (file w path) ≡ 0)
      what_was_read bytes d =
          let one = disk.open_read path w e in
          let law = disk.read_some path 0 fp buf_size opened.1 one.1 (omega arith) d in
          (
            law.0 ∙ ap (take (length bytes)) (one.3 path),
            law.1,
            λ positive empty. omega (arith, law.3 positive empty, ap length (one.3 path)),
          )

    -- Let the error dialog leave the disk alone. `ReadFile` leaves every file and every descriptor as
    -- it was. It gives nothing exactly when the file cannot be opened or read; else it gives a
    -- part of the file from its start, no longer than the buffer, and an empty part into a buffer
    -- that is not empty only of an empty file.
    pub read_file-IsRead : ((text : String) (v : W) → SameDisk (error_dialog text v) v) → IsRead
    read_file-IsRead quiet = elim (Option-cases opened.0) [
      | inl e ↦
          let law = disk.open_read_error path w e in
          record { same = rw (unopened e) law; outcome = inl (ap (λ r. r.0) (unopened e), inl e) }
      | inr (fp, e) ↦
          let reply = fs.cell_fs_read fp buf_size opened.1 in
          elim (Option-cases reply.0) [
            | inl d ↦
                let shown = error_dialog "Failed to read file" reply.1 in
                record {
                  same =
                      rw (read_failed fp e d)
                        (closed_again fp e shown (quiet "Failed to read file" reply.1));
                  outcome = inl (ap (λ r. r.0) (read_failed fp e d), inr (fp, e, d));
                }
            | inr (bytes, d) ↦ record {
              same = rw (read_done fp e bytes d) (closed_again fp e reply.1 (λ f. refl, λ q. refl));
              outcome =
                  let part = what_was_read fp e bytes d in
                  inr (bytes, ap (λ r. r.0) (read_done fp e bytes d), part.0, part.1, part.2);
            }
          ]
    ]

  module _ (fp : ℕ) (path : String) (buf : List ℕ) (w : W) where
    abbrev created : Option ℕ × W
    created = fs.cell_fs_open path create_truncate w

    abbrev written : W
    written = write_file fs fp path buf w

    -- No other file changes. Either the file could be opened, and holds as many of the bytes as the
    -- call of `cellFsWrite` says that it has written, and every descriptor is as before; or the file is as before too, and the descriptor that
    -- happens to stand in `fp` is closed.
    pub record IsStored (after : W) : Type 0 where
      pub same_files : (q : String) → q ≢ path → file after q ≡ file w q
      pub outcome :
          ((fd : ℕ) × (created.0 ≡ some fd)
            × ((fs.cell_fs_write fd buf created.1).1 ≤ length buf)
            × (file after path ≡ take (fs.cell_fs_write fd buf created.1).1 buf)
            × ((f : ℕ) → handle after f ≡ handle w f))
          ⊎ ((created.0 ≡ none)
              × (file after path ≡ file w path)
              × (handle after fp ≡ closed)
              × ((f : ℕ) → f ≢ fp → handle after f ≡ handle w f))

    not_created : created.0 ≡ none → written ≡ fs.cell_fs_close fp created.1
    unfolding write_file
    not_created e = rw (e, write_file) refl

    was_created :
        (fd : ℕ)
        → created.0 ≡ some fd
        → written ≡ fs.cell_fs_close fd (fs.cell_fs_write fd buf created.1).2
    unfolding write_file
    was_created fd e = rw (e, write_file) refl

    stored : (fd : ℕ) → created.0 ≡ some fd → IsStored written
    stored fd e =
        let one = disk.open_write path w e in
        let two = disk.write_some path fd buf created.1 one.1 in
        let w2 = (fs.cell_fs_write fd buf created.1).2 in
        let last = disk.close_keeps fd w2 in
        rw (was_created fd e) (record {
          same_files = λ q ne. last.2 q ∙ two.3 q ne ∙ one.4 q ne;
          outcome = inl (
            fd,
            e,
            two.0,
            last.2 path
                ∙ two.1
                ∙ ap (λ xs. xs ++ take (fs.cell_fs_write fd buf created.1).1 buf) one.3,
            λ f. elim (ℕ_discrete f fd) [
              | yes q ↦ rw q (last.0 ∙ sym one.0)
              | no ne ↦ last.1 f ne ∙ two.2 f ∙ one.2 f ne
            ],
          );
        })

    left_alone : created.0 ≡ none → IsStored written
    left_alone e =
        let law = disk.open_write_error path w e in
        let last = disk.close_keeps fp created.1 in
        rw (not_created e) (record {
          same_files = λ q _. last.2 q ∙ law.1 q;
          outcome = inr (e, last.2 path ∙ law.1 path, last.0, λ f ne. last.1 f ne ∙ law.0 f);
        })

    -- `WriteFile` changes no other file. If the file can be opened, it then holds the bytes from
    -- their start, as many as the one call of `cellFsWrite` says that it has written, and every
    -- descriptor is as before. If not, the
    -- file is as before too, but the descriptor that happens to stand in the unassigned variable is
    -- closed.
    pub write_file-IsStored : IsStored written
    write_file-IsStored = elim (Option-cases created.0) [
      | inl e ↦ left_alone e
      | inr (fd, e) ↦ stored fd e
    ]
