-- ===== src/FileSystem/Disk.antt =====
-- What the code relies on of the file system: an open descriptor reads a file from a position, or
-- writes a file that its opening has emptied. Each law is the console's documented behaviour of
-- one call.
use patchwork.Prelude.{
  ℕ, ◌+◌, ◌≤◌, ◌<◌, ◌≡◌, ◌≢◌, String, some, none, List, [], ◌++◌, length, take, drop,
}
use patchwork.FileSystem.{FileSystem, read_only, create_truncate}

pub data Handle : Type 0 where
  closed : Handle
  reader : String → ℕ → Handle
  writer : String → Handle

pub record Disk {W : Type 0} (fs : FileSystem W) : Type 0 where
  pub file : W → String → List ℕ
  pub handle : W → ℕ → Handle
  -- A descriptor that was not in use now reads the file from its start.
  pub open_read :
      (p : String) (w : W) {fd : ℕ}
      → (fs.cell_fs_open p read_only w).0 ≡ some fd
      → (handle w fd ≡ closed)
        × (handle (fs.cell_fs_open p read_only w).1 fd ≡ reader p 0)
        × ((f : ℕ) → f ≢ fd → handle (fs.cell_fs_open p read_only w).1 f ≡ handle w f)
        × ((q : String) → file (fs.cell_fs_open p read_only w).1 q ≡ file w q)
  pub open_read_error :
      (p : String) (w : W)
      → (fs.cell_fs_open p read_only w).0 ≡ none
      → ((f : ℕ) → handle (fs.cell_fs_open p read_only w).1 f ≡ handle w f)
        × ((q : String) → file (fs.cell_fs_open p read_only w).1 q ≡ file w q)
  -- A descriptor that was not in use now writes the file, which is empty.
  pub open_write :
      (p : String) (w : W) {fd : ℕ}
      → (fs.cell_fs_open p create_truncate w).0 ≡ some fd
      → (handle w fd ≡ closed)
        × (handle (fs.cell_fs_open p create_truncate w).1 fd ≡ writer p)
        × ((f : ℕ) → f ≢ fd → handle (fs.cell_fs_open p create_truncate w).1 f ≡ handle w f)
        × (file (fs.cell_fs_open p create_truncate w).1 p ≡ [])
        × ((q : String) → q ≢ p → file (fs.cell_fs_open p create_truncate w).1 q ≡ file w q)
  pub open_write_error :
      (p : String) (w : W)
      → (fs.cell_fs_open p create_truncate w).0 ≡ none
      → ((f : ℕ) → handle (fs.cell_fs_open p create_truncate w).1 f ≡ handle w f)
        × ((q : String) → file (fs.cell_fs_open p create_truncate w).1 q ≡ file w q)
  -- The bytes from the position on, at most as many as asked for, and none only at the end.
  pub read_some :
      (p : String) (pos fd n : ℕ) (w : W) {bytes : List ℕ}
      → handle w fd ≡ reader p pos
      → pos ≤ length (file w p)
      → (fs.cell_fs_read fd n w).0 ≡ some bytes
      → (bytes ≡ take (length bytes) (drop pos (file w p)))
        × (length bytes ≤ n)
        × (pos + length bytes ≤ length (file w p))
        × (0 < n → bytes ≡ [] → pos ≡ length (file w p))
        × (handle (fs.cell_fs_read fd n w).1 fd ≡ reader p (pos + length bytes))
  pub read_keeps :
      (fd n : ℕ) (w : W)
      → ((f : ℕ) → f ≢ fd → handle (fs.cell_fs_read fd n w).1 f ≡ handle w f)
        × ((q : String) → file (fs.cell_fs_read fd n w).1 q ≡ file w q)
  -- As many of the bytes as the call says are appended, in case of an error too.
  pub write_some :
      (p : String) (fd : ℕ) (bytes : List ℕ) (w : W)
      → handle w fd ≡ writer p
      → ((fs.cell_fs_write fd bytes w).1 ≤ length bytes)
        × (file (fs.cell_fs_write fd bytes w).2 p
            ≡ file w p ++ take (fs.cell_fs_write fd bytes w).1 bytes)
        × ((f : ℕ) → handle (fs.cell_fs_write fd bytes w).2 f ≡ handle w f)
        × ((q : String) → q ≢ p → file (fs.cell_fs_write fd bytes w).2 q ≡ file w q)
  pub close_keeps :
      (fd : ℕ) (w : W)
      → (handle (fs.cell_fs_close fd w) fd ≡ closed)
        × ((f : ℕ) → f ≢ fd → handle (fs.cell_fs_close fd w) f ≡ handle w f)
        × ((q : String) → file (fs.cell_fs_close fd w) q ≡ file w q)
