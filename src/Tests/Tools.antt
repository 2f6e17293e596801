-- ===== src/Tests/Tools.antt =====
-- The logger, the process memory and the system modules.
use patchwork.Prelude.{
  ℕ, zero, suc, ◌+◌, ◌≡◌, ◌<◌, ◌^◌, ◌==◌, refl, true, false, some, none, List, [], ◌∷◌, ◌++◌, All,
  take, drop, min, length, leb, if◌then◌else◌, replicate, codes, arith,
}
use mathlib.Core.Option
use patchwork.Message.{Message}
use patchwork.FileSystem.{FileSystem}
use patchwork.FileSystem.InMemory.{World, in_memory}
use patchwork.FileSystem.Disk.{closed, writer}
use patchwork.Log.{LogState, Formatter, IsConforming, print_ln, log, log_ln, to_tty, to_log}
use patchwork.Log.Bounds.{line, prefix, log_ln_bounds, print_ln_bounds, log_bounds}
use patchwork.ProcessMemory.{
  Syscalls, HenState, Transfer, write_process_memory, sys_dbg_write_process_memory,
}
use patchwork.ProcessMemory.Laws.{
  write_memory, read_memory, run, run_by, by_debug, by_ps3mapi, run_latched, run_clear,
}
use patchwork.Sysmodules.{
  SysmoduleIds, load_failed, unload_failed, load_all_modules, unload_all_modules,
}
use patchwork.Sysmodules.Laws.{record_message, lift_call, one_by_one, load_all_modules-attempts}

-- A formatter for formats without conversions.
rendered : Message → List ℕ
rendered msg = msg.format

plain_vsnprintf : Formatter
plain_vsnprintf buf zero msg = (buf, length (rendered msg))
plain_vsnprintf buf (suc size) msg = (
  take size (rendered msg) ++ 0 ∷ drop (suc (min size (length (rendered msg)))) buf,
  length (rendered msg),
)

plain_result :
    (buf : List ℕ) (size : ℕ) (msg : Message)
    → (plain_vsnprintf buf size msg).1 ≡ length (rendered msg)
unfolding plain_vsnprintf
plain_result buf zero msg = refl
plain_result buf (suc size) msg = refl

plain_vsnprintf-IsConforming : IsConforming plain_vsnprintf rendered
unfolding plain_vsnprintf
plain_vsnprintf-IsConforming = record {
  result = λ buf size msg h. plain_result buf size msg;
  written = λ buf size msg. refl;
}

abbrev loaded : Message
loaded = record { format = codes "Parsed config file buffer"; arguments = [] }

abbrev print_buf : List ℕ
print_buf = replicate 128 0xcc

abbrev fs : FileSystem World
fs = in_memory 512

tty : List ℕ → World → World
tty bytes w = w

state : LogState World
state = record {
  log_fp = 3;
  world = record {
    file = λ p. [];
    handle = λ fd. if leb fd 3 then writer "log" else closed;
    next = 4;
    inbox = [];
  };
}

loaded_fits : length (rendered loaded) < 2 ^ 31
unfolding rendered
loaded_fits = omega arith

log_ln_bounds_example : log_ln fs tty plain_vsnprintf print_buf loaded state ≡ (
    if leb (length (rendered loaded)) 126
    then some (to_tty tty (line (rendered loaded)) (to_log fs (line (rendered loaded)) state))
    else none)
log_ln_bounds_example =
    log_ln_bounds fs tty plain_vsnprintf rendered plain_vsnprintf-IsConforming print_buf loaded
      state refl loaded_fits

print_ln_bounds_example : print_ln fs tty plain_vsnprintf print_buf loaded state ≡ (
    if leb (length (rendered loaded)) 126
    then some (to_tty tty (line (rendered loaded)) state)
    else none)
print_ln_bounds_example =
    print_ln_bounds fs tty plain_vsnprintf rendered plain_vsnprintf-IsConforming print_buf loaded
      state refl loaded_fits

log_bounds_example :
    log fs tty plain_vsnprintf print_buf loaded state
    ≡ Option.map (λ bytes. to_tty tty bytes (to_log fs bytes state)) (prefix (rendered loaded))
log_bounds_example =
    log_bounds fs tty plain_vsnprintf rendered plain_vsnprintf-IsConforming print_buf loaded state
      refl loaded_fits

-- System calls of a console without debug calls: the world counts the calls of PS3MAPI.
syscalls : Syscalls ℕ
syscalls = record {
  system_call_4 = λ n a b c d w. (1, w);
  system_call_6 = λ n a b c d e f w. (0, w + 1);
  succeeded = 0;
}

-- System calls that always succeed.
debug_syscalls : Syscalls ℕ
debug_syscalls = record {
  system_call_4 = λ n a b c d w. (0, w + 1);
  system_call_6 = λ n a b c d e f w. (0, w);
  succeeded = 0;
}

abbrev transfer : Transfer
transfer = record { pid = 1; address = 0x10000; bytes = 0x20000; size = 4 }

abbrev latched : HenState ℕ
latched = record { use_hen_syscalls = true; world = 0 }

abbrev fresh : HenState ℕ
fresh = record { use_hen_syscalls = false; world = 0 }

run_latched_example :
    ((run syscalls (read_memory transfer ∷ []) latched).0
      ≡ (run_by syscalls (by_ps3mapi syscalls) (read_memory transfer ∷ []) 0).0)
    × ((run syscalls (read_memory transfer ∷ []) latched).1.world
        ≡ (run_by syscalls (by_ps3mapi syscalls) (read_memory transfer ∷ []) 0).1)
    × ((run syscalls (read_memory transfer ∷ []) latched).1.use_hen_syscalls ≡ true)
run_latched_example = run_latched syscalls (read_memory transfer ∷ []) latched refl

still_fresh : (run debug_syscalls (write_memory transfer ∷ []) fresh).1.use_hen_syscalls ≡ false
unfolding run write_process_memory sys_dbg_write_process_memory debug_syscalls
still_fresh = refl

run_clear_example :
    (fresh.use_hen_syscalls ≡ false)
    × All
        (λ result. result ≡ debug_syscalls.succeeded)
        (run debug_syscalls (write_memory transfer ∷ []) fresh).0
    × ((run debug_syscalls (write_memory transfer ∷ []) fresh).1.world
        ≡ (run_by debug_syscalls (by_debug debug_syscalls) (write_memory transfer ∷ []) 0).1)
run_clear_example = run_clear debug_syscalls (write_memory transfer ∷ []) fresh still_fresh

-- Module 17 cannot be loaded.
load_module : ℕ → ℕ → ℕ × ℕ
load_module id w = if id == 17 then (1, w) else (0, w + id)

abbrev ids : SysmoduleIds
ids = record { fs = 14; net = 0; http = 17 }

load_all_modules-attempts_example :
    (load_all_modules record_message (lift_call load_module) ids (0, []) ≡ (
      (one_by_one load_module load_failed ids 0).0,
      [] ++ (one_by_one load_module load_failed ids 0).1,
    ))
    × (unload_all_modules record_message (lift_call load_module) ids (0, []) ≡ (
      (one_by_one load_module unload_failed ids 0).0,
      [] ++ (one_by_one load_module unload_failed ids 0).1,
    ))
load_all_modules-attempts_example = load_all_modules-attempts load_module load_module ids 0 []
