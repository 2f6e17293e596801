-- ===== src/Log/Bounds.antt =====
-- The accesses to the buffer that `Vsnprintf` has filled.
use mathlib.Core.Option
use native.Mathlib.Numerals.{add-one}
use patchwork.Prelude.{ℕ, suc, ◌+◌, ◌^◌, ◌≤◌, ◌<◌, ◌≡◌, ap, ◌∙◌, inl, inr, Bool-cases, false}
use patchwork.Prelude.{Option, none, some, List, [], ◌∷◌, ◌++◌, ◌==◌, leb, leb→le, if◌then◌else◌}
use patchwork.Prelude.{length, set, take, drop, min, length-append, length-take, length-drop, arith}
use patchwork.Prelude.{
  take_all, drop_all, length-set, set-append, take-set, take-append, take-append_suc,
}
use patchwork.FileSystem.{FileSystem}
use patchwork.Message.{Message}
use patchwork.Log.{
  LogState, Formatter, IsConforming, max_printf_buf, load_prefix, end_line, print, print_ln, log,
  log_ln, to_tty, to_log,
}

-- What a call of `Vsnprintf` with a size above 0 leaves in the buffer.
abbrev filled : ℕ → List ℕ → List ℕ → List ℕ
filled size r buf = take size r ++ 0 ∷ drop (suc (min size (length r))) buf

length-filled :
    (size : ℕ) (r buf : List ℕ) → size < length buf → length (filled size r buf) ≡ length buf
length-filled size r buf h = omega (
  arith,
  length-append {0} (take size r) (0 ∷ drop (suc (min size (length r))) buf),
  length-take {0} size r,
  length-drop {0} (suc (min size (length r))) buf,
)

filled_short :
    (size : ℕ) (r buf : List ℕ)
    → length r ≤ size
    → filled size r buf ≡ r ++ 0 ∷ drop (suc (length r)) buf
filled_short size r buf h =
    let e : min size (length r) ≡ length r = omega arith in rw (take_all size r h, e)

end_line_short :
    (n : ℕ) (buf : List ℕ)
    → n + 1 < length buf
    → end_line n buf ≡ some (take (n + 1) (set buf n b'\n'))
unfolding end_line
end_line_short n buf h = ground (
  arith,
  length-set {0} buf n b'\n',
  length-set {0} (set buf n b'\n') (n + 1) 0,
  take-set {0} (n + 1) (set buf n b'\n') 0,
)

end_line-append :
    (r rest : List ℕ)
    → 0 < length rest
    → end_line (length r) (r ++ 0 ∷ rest) ≡ some (r ++ b'\n' ∷ [])
end_line-append r rest h =
    end_line_short (length r) (r ++ 0 ∷ rest) (omega (arith, length-append {0} r (0 ∷ rest)))
    ∙ ap some (rw (set-append r 0 b'\n' rest, add-one) (take-append_suc r b'\n' rest))

end_line_long : (n : ℕ) (buf : List ℕ) → length buf ≤ n + 1 → end_line n buf ≡ none
unfolding end_line
end_line_long n buf h = ground (arith, length-set {0} buf n b'\n')

abbrev pub line : List ℕ → List ℕ
line r = r ++ b'\n' ∷ []

end_line-filled :
    (r buf : List ℕ)
    → length buf ≡ max_printf_buf
    → end_line (length r) (filled 126 r buf) ≡ (if leb (length r) 126 then some (line r) else none)
end_line-filled r buf h = elim (Bool-cases (leb (length r) 126)) [
  | inl short ↦
      rw (short, filled_short 126 r buf (leb→le _ _ short))
        (end_line-append r (drop (suc (length r)) buf)
          (omega (arith, leb→le _ _ short, length-drop {0} (suc (length r)) buf)))
  | inr long ↦
      rw long
        (end_line_long (length r) (filled 126 r buf) (ground (arith, length-filled 126 r buf)))
]

filled_long :
    (size : ℕ) (r buf : List ℕ)
    → length buf ≡ suc size
    → size ≤ length r
    → filled size r buf ≡ take size r ++ 0 ∷ []
filled_long size r buf h le =
    let e : min size (length r) ≡ size = omega arith in
    rw (e, drop_all {0} (suc size) buf (omega arith))

-- The bytes that `Print` and `Log` read out of the buffer.
abbrev pub prefix : List ℕ → Option (List ℕ)
prefix r =
    if leb (length r) 127
    then some r
    else if length r == 128
    then some (take 127 r ++ 0 ∷ [])
    else none

length_above : (r : List ℕ) → leb (length r) 127 ≡ false → 127 < length r
length_above r h = ground arith

load_prefix_long :
    (n : ℕ) (r xs : List ℕ)
    → length xs ≡ 128
    → leb n 127 ≡ false
    → load_prefix n xs ≡ (if leb n 127 then some r else if n == 128 then some xs else none)
unfolding load_prefix
load_prefix_long n r xs h long = ground (arith, take_all {0} n xs)

load_prefix-filled :
    (r buf : List ℕ)
    → length buf ≡ max_printf_buf
    → load_prefix (length r) (filled 127 r buf) ≡ prefix r
unfolding load_prefix
load_prefix-filled r buf h = elim (Bool-cases (leb (length r) 127)) [
  | inl short ↦
      rw (short, filled_short 127 r buf (leb→le _ _ short))
        (ground (
          arith,
          take-append {0} r (0 ∷ drop (suc (length r)) buf),
          length-append {0} r (0 ∷ drop (suc (length r)) buf),
        ))
  | inr long ↦ rw (filled_long 127 r buf h (ground arith)) (
      load_prefix_long (length r) r (take 127 r ++ 0 ∷ [])
        (omega (
          arith,
          length-append {0} (take 127 r) (0 ∷ []),
          length-take {0} 127 r,
          length_above r long,
        ))
        long)
]

module _ {W : Type 0} (fs : FileSystem W) (sys_tty_write : List ℕ → W → W) (vsnprintf : Formatter)
    (rendered : Message → List ℕ) (conforming : IsConforming vsnprintf rendered) where
  -- `LogLn` with a message of at most 126 characters writes the message and a line feed to the log
  -- file and then to the console; with any longer one it accesses its buffer out of bounds. The
  -- buffer has 128 bytes, whatever they are, and an `int` holds the message's length.
  pub log_ln_bounds :
      (buf : List ℕ) (msg : Message) (s : LogState W)
      → length buf ≡ max_printf_buf
      → length (rendered msg) < 2 ^ 31
      → log_ln fs sys_tty_write vsnprintf buf msg s ≡ (
          if leb (length (rendered msg)) 126
          then some (to_tty sys_tty_write (line (rendered msg)) (to_log fs (line (rendered msg)) s))
          else none)
  unfolding log_ln
  log_ln_bounds buf msg s h fits =
      rw (conforming.result buf 127 msg fits, conforming.written buf 126 msg, log_ln)
        (rw (end_line-filled (rendered msg) buf h) (ground arith))

  -- `PrintLn` with a message of at most 126 characters writes the message and a line feed to the
  -- console; with any longer one, of less than 2 GiB, it accesses bytes outside its buffer.
  pub print_ln_bounds :
      (buf : List ℕ) (msg : Message) (s : LogState W)
      → length buf ≡ max_printf_buf
      → length (rendered msg) < 2 ^ 31
      → print_ln fs sys_tty_write vsnprintf buf msg s ≡ (
          if leb (length (rendered msg)) 126
          then some (to_tty sys_tty_write (line (rendered msg)) s)
          else none)
  unfolding print_ln
  print_ln_bounds buf msg s h fits =
      rw (conforming.result buf 127 msg fits, conforming.written buf 126 msg, print_ln)
        (rw (end_line-filled (rendered msg) buf h) (ground arith))

  -- `Log` writes the message to the log file and then to the console, up to 127 characters; of 128
  -- characters it writes 127 and the NUL; with a longer message it reads past its buffer.
  pub log_bounds :
      (buf : List ℕ) (msg : Message) (s : LogState W)
      → length buf ≡ max_printf_buf
      → length (rendered msg) < 2 ^ 31
      → log fs sys_tty_write vsnprintf buf msg s
        ≡ Option.map
            (λ bytes. to_tty sys_tty_write bytes (to_log fs bytes s))
            (prefix (rendered msg))
  unfolding log
  log_bounds buf msg s h fits =
      rw (conforming.result buf 128 msg fits, conforming.written buf 127 msg, log)
        (rw (load_prefix-filled (rendered msg) buf h) (ground arith))

  -- `Print` writes the message to the console, up to 127 characters; of 128 characters it writes 127
  -- and the NUL; with a longer message, of less than 2 GiB, it reads bytes outside its buffer.
  pub print_bounds :
      (buf : List ℕ) (msg : Message) (s : LogState W)
      → length buf ≡ max_printf_buf
      → length (rendered msg) < 2 ^ 31
      → print fs sys_tty_write vsnprintf buf msg s
        ≡ Option.map (λ bytes. to_tty sys_tty_write bytes s) (prefix (rendered msg))
  unfolding print
  print_bounds buf msg s h fits =
      rw (conforming.result buf 128 msg fits, conforming.written buf 127 msg, print)
        (rw (load_prefix-filled (rendered msg) buf h) (ground arith))
