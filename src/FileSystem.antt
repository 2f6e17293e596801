-- ===== src/FileSystem.antt =====
-- The calls of the console's file system that the code makes (`cell/cell_fs.h`), over an unknown
-- world. A reply keeps what the callers look at.
pub mod Disk
pub mod InMemory
use patchwork.Prelude.{ℕ, String, Bool, Option, List}

-- `CELL_FS_O_RDONLY`, and `CELL_FS_O_WRONLY | CELL_FS_O_CREAT | CELL_FS_O_TRUNC`.
pub data OpenMode : Type 0 where
  read_only create_truncate : OpenMode

pub record FileSystem (W : Type 0) : Type 0 where
  -- The descriptor; `none` is an error, which leaves the caller's variable as it was.
  pub cell_fs_open : String → OpenMode → W → Option ℕ × W
  -- The bytes that were read, at most as many as asked for; `none` is an error.
  pub cell_fs_read : ℕ → ℕ → W → Option (List ℕ) × W
  -- Whether the call succeeded, the value of `*written` after it, and the world.
  pub cell_fs_write : ℕ → List ℕ → W → Bool × ℕ × W
  pub cell_fs_close : ℕ → W → W
