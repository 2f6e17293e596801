-- ===== src/Log.antt =====
-- The logger of src/tools/util.c: `Print`, `PrintLn`, `Log` and `LogLn`, with their buffer of
-- `MAX_PRINTF_BUF` bytes, and `InitLogger` and `DestroyLogger`.
-- `none` is an access outside the buffer, which C leaves undefined.
-- `Vsnprintf` is a parameter: it is another project's library, kept in src/tools/printf.c.
pub mod Bounds
use mathlib.Core.Option
use patchwork.Prelude.{
  ℕ, suc, ◌+◌, ◌-◌, ◌^◌, ◌≤◌, ◌<◌, ◌≡◌, Option, none, some, List, [], ◌∷◌, ◌++◌,
}
use patchwork.Prelude.{ltb, leb, if◌then◌else◌, length, set, take, drop, min, String}
use patchwork.FileSystem.{FileSystem, create_truncate}
use patchwork.Message.{Message}

abbrev pub max_printf_buf : ℕ
max_printf_buf = 128

abbrev pub default_log_path : String
default_log_path = "/dev_hdd0/plugins/patchwork/patchwork.log"

-- `static int LogFP`, beside the world.
pub record LogState (W : Type 0) : Type 0 where
  pub log_fp : ℕ
  pub world : W

-- `buf[i] = c`
unfoldable pub store_at : ℕ → ℕ → List ℕ → Option (List ℕ)
store_at i c buf = if ltb i (length buf) then some (set buf i c) else none

-- The first `n` bytes, as a callee reads them.
unfoldable pub load_prefix : ℕ → List ℕ → Option (List ℕ)
load_prefix n buf = if leb n (length buf) then some (take n buf) else none

infixl 5 ◌>>=◌
abbrev ◌>>=◌ : {A B : Type 0} → Option A → (A → Option B) → Option B
none >>= k = none
some a >>= k = k a

-- `print_buf[print_len++] = '\n'; print_buf[print_len] = '\0'`, and the bytes that are then written.
unfoldable pub end_line : ℕ → List ℕ → Option (List ℕ)
unfolding load_prefix store_at
end_line print_len buf = do
  ended ← store_at print_len b'\n' buf
  closed ← store_at (print_len + 1) 0 ended
  load_prefix (print_len + 1) closed

-- `Vsnprintf(buf, size, ...)`: the buffer after the call, and its result as a `size_t`.
abbrev pub Formatter : Type 0
Formatter = List ℕ → ℕ → Message → List ℕ × ℕ

module _ {W : Type 0} where
  -- `sys_tty_write(SYS_TTYP_PPU_STDOUT, ...)`
  abbrev pub to_tty : (List ℕ → W → W) → List ℕ → LogState W → LogState W
  to_tty sys_tty_write bytes s = record s { world = sys_tty_write bytes s.world }

  -- `cellFsWrite(LogFP, ...)`
  abbrev pub to_log : FileSystem W → List ℕ → LogState W → LogState W
  to_log fs bytes s = record s { world = (fs.cell_fs_write s.log_fp bytes s.world).2 }

module _ {W : Type 0} (fs : FileSystem W) (sys_tty_write : List ℕ → W → W)
    (vsnprintf : Formatter) where
  unfoldable pub print : List ℕ → Message → LogState W → Option (LogState W)
  print print_buf msg s =
      let (buf, print_len) = vsnprintf print_buf max_printf_buf msg in
      if ltb print_len 0
      then some s
      else do bytes ← load_prefix print_len buf; some (to_tty sys_tty_write bytes s)

  unfoldable pub print_ln : List ℕ → Message → LogState W → Option (LogState W)
  print_ln print_buf msg s =
      let (buf, print_len) = vsnprintf print_buf (max_printf_buf - 1) msg in
      if ltb print_len 0
      then some s
      else do bytes ← end_line print_len buf; some (to_tty sys_tty_write bytes s)

  unfoldable pub log : List ℕ → Message → LogState W → Option (LogState W)
  log print_buf msg s =
      let (buf, print_len) = vsnprintf print_buf max_printf_buf msg in
      if ltb print_len 0 then some s else do
        bytes ← load_prefix print_len buf
        some (to_tty sys_tty_write bytes (to_log fs bytes s))

  unfoldable pub log_ln : List ℕ → Message → LogState W → Option (LogState W)
  log_ln print_buf msg s =
      let (buf, print_len) = vsnprintf print_buf (max_printf_buf - 1) msg in
      if ltb print_len 0
      then some s
      else do bytes ← end_line print_len buf; some (to_tty sys_tty_write bytes (to_log fs bytes s))

module _ {W : Type 0} (fs : FileSystem W) where
  -- The error is not looked at: on one, `LogFP` keeps its value.
  unfoldable pub init_logger : LogState W → LogState W
  init_logger s =
      let (fd, w) = fs.cell_fs_open default_log_path create_truncate s.world in
      record { log_fp = Option.get_or fd s.log_fp; world = w }

  unfoldable pub destroy_logger : LogState W → LogState W
  destroy_logger s = record s { world = fs.cell_fs_close s.log_fp s.world }

-- The standard's `vsnprintf`, as the header of src/tools/printf.c describes it: the result is the length of
-- the whole text (if an `int` can hold it), and the buffer gets as much of it as fits before a NUL.
pub record IsConforming (vsnprintf : Formatter) (rendered : Message → List ℕ) : Type 0 where
  pub result :
      (buf : List ℕ) (size : ℕ) (msg : Message)
      → length (rendered msg) < 2 ^ 31
      → (vsnprintf buf size msg).1 ≡ length (rendered msg)
  pub written :
      (buf : List ℕ) (size : ℕ) (msg : Message)
      → (vsnprintf buf (suc size) msg).0
        ≡ take size (rendered msg) ++ 0 ∷ drop (suc (min size (length (rendered msg)))) buf
