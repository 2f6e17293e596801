-- ===== src/Files.antt =====
-- src/tools/fs.c: `ReadFile`, `WriteFile` and `CopyFile` over the console's file system.
-- The outer loop of `CopyFile` ends when the source does, which is up to the file system: it takes
-- fuel, a round for each read, and `none` means that the fuel ran out.
pub mod Writing
pub mod Copying
pub mod Results
pub mod Whole
use patchwork.Prelude.{
  ℕ, zero, suc, ◌-◌, ◌^◌, Bool, true, false, not, ◌||◌, Option, none, some, String,
}
use patchwork.Prelude.{List, [], ◌∷◌, ◌==◌, if◌then◌else◌, length, drop}
use patchwork.FileSystem.{FileSystem, read_only, create_truncate}

-- The `int` -1.
abbrev pub minus_one : ℕ
minus_one = 2 ^ 32 - 1

-- `char buffer[2048]`
abbrev pub buffer_size : ℕ
buffer_size = 2048

module _ {W : Type 0} (fs : FileSystem W) where
  -- The bytes that the call puts into its buffer, or `none` where it returns 0.
  unfoldable pub read_file : (String → W → W) → String → ℕ → W → Option (List ℕ) × W
  read_file error_dialog path buf_size w =
      let (opened, w1) = fs.cell_fs_open path read_only w in
      elim opened [
        | none ↦ (none, w1)
        | some fp ↦
            let (bytes, w2) = fs.cell_fs_read fp buf_size w1 in
            elim bytes [
              | none ↦ (none, fs.cell_fs_close fp (error_dialog "Failed to read file" w2))
              | some bs ↦ (some bs, fs.cell_fs_close fp w2)
            ]
      ]

  -- `fp` has no value before the call of `cellFsOpen`: the first argument stands for what it holds.
  unfoldable pub write_file : ℕ → String → List ℕ → W → W
  write_file fp path buf w =
      let (opened, w1) = fs.cell_fs_open path create_truncate w in
      elim opened [
        | none ↦ fs.cell_fs_close fp w1
        | some fd ↦ fs.cell_fs_close fd (fs.cell_fs_write fd buf w1).2
      ]

  -- The inner loop, on the bytes from `buffer + offset` on: whether all were written.
  unfoldable pub write_rest : ℕ → ℕ → List ℕ → W → Option (Bool × W)
  write_rest fuel dst_fd [] w = some (true, w)
  write_rest zero dst_fd (b ∷ bs) w = none
  write_rest (suc fuel) dst_fd (b ∷ bs) w =
      let (ok, written, w') = fs.cell_fs_write dst_fd (b ∷ bs) w in
      let rest = write_rest fuel dst_fd (drop written (b ∷ bs)) w' in
      if not ok || written == 0 then some (false, w') else rest

  unfoldable pub close_both : ℕ → ℕ → W → W
  close_both src_fd dst_fd w = fs.cell_fs_close dst_fd (fs.cell_fs_close src_fd w)

  unfoldable pub copy_loop : ℕ → ℕ → ℕ → W → Option (ℕ × W)
  copy_loop zero src_fd dst_fd w = none
  copy_loop (suc fuel) src_fd dst_fd w =
      let (bytes, w1) = fs.cell_fs_read src_fd buffer_size w in
      elim bytes [
        | none ↦ some (minus_one, close_both src_fd dst_fd w1)
        | some [] ↦ some (0, close_both src_fd dst_fd w1)
        | some (b ∷ bs) ↦ elim (write_rest (length (b ∷ bs)) dst_fd (b ∷ bs) w1) [
          | none ↦ none
          | some (false, w2) ↦ some (minus_one, close_both src_fd dst_fd w2)
          | some (true, w2) ↦ copy_loop fuel src_fd dst_fd w2
        ]
      ]

  unfoldable pub copy_file : ℕ → String → String → W → Option (ℕ × W)
  copy_file fuel src dst w =
      let (src_opened, w1) = fs.cell_fs_open src read_only w in
      elim src_opened [
        | none ↦ some (0, w1)
        | some src_fd ↦
            let (dst_opened, w2) = fs.cell_fs_open dst create_truncate w1 in
            elim dst_opened [
              | none ↦ some (0, fs.cell_fs_close src_fd w2)
              | some dst_fd ↦ copy_loop fuel src_fd dst_fd w2
            ]
      ]
