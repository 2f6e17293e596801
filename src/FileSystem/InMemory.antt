-- ===== src/FileSystem/InMemory.antt =====
-- A file system that meets the laws of `Disk`: files as a function, a table of handles, and
-- descriptors that are used once. Opening a missing file for reading is an error, and a write
-- takes at most `chunk` bytes.
use mathlib.Core.Path.{subst}
use patchwork.Prelude.{
  ℕ, ◌+◌, ◌≤◌, ◌<◌, ◌≡◌, ◌≢◌, refl, sym, ap, ◌∙◌, ◌-◌, true, false, String, none, some,
}
use patchwork.Prelude.{
  List, [], ◌++◌, length, take, drop, min, take-length-take, length-take, length-drop, ◌==◌,
  if◌then◌else◌, arith,
}
use patchwork.FileSystem.{FileSystem, read_only, create_truncate}
use patchwork.FileSystem.Disk.{Disk, Handle, closed, reader, writer}
use text.Mathlib.Text.{◌==◌ as str_eq}
use text.Mathlib.TextEquality.{eq_iff}

pub record World : Type 0 where
  pub file : String → List ℕ
  pub handle : ℕ → Handle
  pub next : ℕ
  -- What the network has still to deliver; no file operation looks at it.
  pub inbox : List ℕ

abbrev put : {A : Type 0} → (ℕ → A) → ℕ → A → ℕ → A
put f k v j = if j == k then v else f j

abbrev put_file : (String → List ℕ) → String → List ℕ → String → List ℕ
put_file f p bytes q = if str_eq q p then bytes else f q

unfoldable pub in_memory : ℕ → FileSystem World
in_memory chunk = record {
  cell_fs_open = λ p mode w. elim (w.handle w.next) [
    | closed ↦ (
      some w.next,
      elim mode [
        | read_only ↦ record w { handle = put w.handle w.next (reader p 0); next = w.next + 1 }
        | create_truncate ↦ record w {
          file = put_file w.file p [];
          handle = put w.handle w.next (writer p);
          next = w.next + 1;
        }
      ],
    )
    | reader q pos ↦ (none, w)
    | writer q ↦ (none, w)
  ];
  cell_fs_read = λ fd n w. elim (w.handle fd) [
    | closed ↦ (none, w)
    | reader p pos ↦
        let bytes = take n (drop pos (w.file p)) in
        (some bytes, record w { handle = put w.handle fd (reader p (pos + length bytes)) })
    | writer p ↦ (none, w)
  ];
  cell_fs_write = λ fd bytes w. elim (w.handle fd) [
    | closed ↦ (false, 0, w)
    | reader p pos ↦ (false, 0, w)
    | writer p ↦
        let n = min chunk (length bytes) in
        (true, n, record w { file = put_file w.file p (w.file p ++ take n bytes) })
  ];
  cell_fs_close = λ fd w. record w { handle = put w.handle fd closed };
}

put_file_self : (f : String → List ℕ) (p : String) (bytes : List ℕ) → put_file f p bytes p ≡ bytes
put_file_self f p bytes = ground (arith, eq_iff p p)

put_file_ne :
    (f : String → List ℕ) (p q : String) (bytes : List ℕ) → q ≢ p → put_file f p bytes q ≡ f q
put_file_ne f p q bytes ne = ground (arith, eq_iff q p)

-- What a read of `n` bytes gives, as a part of what is left.
read_part :
    (n pos : ℕ) (bytes xs : List ℕ)
    → pos ≤ length xs
    → take n (drop pos xs) ≡ bytes
    → (bytes ≡ take (length bytes) (drop pos xs))
      × (length bytes ≤ n)
      × (pos + length bytes ≤ length xs)
      × (0 < n → bytes ≡ [] → pos ≡ length xs)
read_part n pos bytes xs within e =
    let count : length bytes ≡ min n (length xs - pos) =
      ap length (sym e) ∙ length-take n (drop pos xs) ∙ ap (min n) (length-drop pos xs) in
    (
      subst (λ ys. ys ≡ take (length ys) (drop pos xs)) e (sym (take-length-take n (drop pos xs))),
      omega arith,
      omega arith,
      λ positive empty. omega (arith, ap length empty),
    )

pub in_memory_disk : (chunk : ℕ) → Disk (in_memory chunk)
unfolding in_memory
in_memory_disk chunk = record {
  file = λ w. w.file;
  handle = λ w. w.handle;
  open_read = λ p w got. ground arith;
  open_read_error = λ p w got. ground arith;
  open_write = λ p w got. (
    ground arith,
    ground arith,
    λ f ne. ground arith,
    ground (arith, put_file_self w.file p []),
    λ q ne. ground (arith, put_file_ne w.file p q [] ne),
  );
  open_write_error = λ p w got. ground arith;
  read_some = λ p pos fd n w {bytes} h within got.
      let part : take n (drop pos (w.file p)) ≡ bytes = ground arith in
      let law = read_part n pos bytes (w.file p) within part in
      (law.0, law.1, law.2, law.3, ground arith);
  read_keeps = λ fd n w. ground arith;
  write_some = λ p fd bytes w h. (
    ground arith,
    ground (arith, put_file_self w.file p (w.file p ++ take (min chunk (length bytes)) bytes)),
    λ f. ground arith,
    λ q ne.
        ground
          (arith, put_file_ne w.file p q (w.file p ++ take (min chunk (length bytes)) bytes) ne),
  );
  close_keeps = λ fd w. ground arith;
}

pub in_memory_disk-file :
    (chunk : ℕ) (w : World) (p : String) → (in_memory_disk chunk).file w p ≡ w.file p
unfolding in_memory_disk
in_memory_disk-file chunk w p = refl

pub in_memory_disk-handle :
    (chunk : ℕ) (w : World) (fd : ℕ) → (in_memory_disk chunk).handle w fd ≡ w.handle fd
unfolding in_memory_disk
in_memory_disk-handle chunk w fd = refl

pub in_memory-inbox :
    (chunk : ℕ) (p : String) (fd : ℕ) (bytes : List ℕ) (w : World)
    → (((in_memory chunk).cell_fs_open p create_truncate w).1.inbox ≡ w.inbox)
      × (((in_memory chunk).cell_fs_write fd bytes w).2.inbox ≡ w.inbox)
unfolding in_memory
in_memory-inbox chunk p fd bytes w = (ground arith, ground arith)
