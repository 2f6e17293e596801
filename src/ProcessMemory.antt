-- ===== src/ProcessMemory.antt =====
-- src/tools/memory.c: reads and writes of another process's memory, by a debug system call where
-- the console has it, and else by the PS3MAPI extension.
-- The system calls are parameters. Results are `int`s; `SUCCEEDED` is the console's constant.
pub mod Laws
use patchwork.Prelude.{ℕ, Bool, true, false, ◌==◌, if◌then◌else◌, List, [], ◌∷◌}

pub record Syscalls (W : Type 0) : Type 0 where
  pub system_call_4 : ℕ → ℕ → ℕ → ℕ → ℕ → W → ℕ × W
  pub system_call_6 : ℕ → ℕ → ℕ → ℕ → ℕ → ℕ → ℕ → W → ℕ × W
  pub succeeded : ℕ

abbrev pub sc_cobra_syscall8 : ℕ
sc_cobra_syscall8 = 8

abbrev pub syscall8_opcode_ps3mapi : ℕ
syscall8_opcode_ps3mapi = 0x7777

abbrev pub ps3mapi_opcode_set_proc_mem : ℕ
ps3mapi_opcode_set_proc_mem = 0x0032

abbrev pub ps3mapi_opcode_get_proc_mem : ℕ
ps3mapi_opcode_get_proc_mem = 0x0031

-- `useHenSyscalls`, beside the world.
pub record HenState (W : Type 0) : Type 0 where
  pub use_hen_syscalls : Bool
  pub world : W

-- The arguments of both operations, in the order of the C functions.
pub record Transfer : Type 0 where
  pub pid : ℕ
  pub address : ℕ
  pub bytes : ℕ
  pub size : ℕ

-- `useHenSyscalls = true; return PS3MAPI...`
unfoldable pub fall_back : {W : Type 0} → (W → ℕ × W) → W → ℕ × HenState W
fall_back call w =
    let (result, w') = call w in (result, record { use_hen_syscalls = true; world = w' })

module _ {W : Type 0} (sys : Syscalls W) where
  unfoldable pub sys_dbg_write_process_memory : Transfer → W → ℕ × W
  sys_dbg_write_process_memory t = sys.system_call_4 905 t.pid t.address t.size t.bytes

  unfoldable pub ps3mapi_set_memory : Transfer → W → ℕ × W
  ps3mapi_set_memory t =
      sys.system_call_6 sc_cobra_syscall8 syscall8_opcode_ps3mapi ps3mapi_opcode_set_proc_mem t.pid
        t.address t.bytes t.size

  unfoldable pub sys_dbg_read_process_memory : Transfer → W → ℕ × W
  sys_dbg_read_process_memory t = sys.system_call_4 904 t.pid t.address t.size t.bytes

  unfoldable pub ps3mapi_get_memory : Transfer → W → ℕ × W
  ps3mapi_get_memory t =
      sys.system_call_6 sc_cobra_syscall8 syscall8_opcode_ps3mapi ps3mapi_opcode_get_proc_mem t.pid
        t.address t.bytes t.size

  unfoldable pub write_process_memory : Transfer → HenState W → ℕ × HenState W
  unfolding fall_back
  write_process_memory t s =
      let (can_write, w) = sys_dbg_write_process_memory t s.world in
      let hen = fall_back (ps3mapi_set_memory t) in
      if s.use_hen_syscalls
      then hen s.world
      else if can_write == sys.succeeded
      then (can_write, record s { world = w })
      else hen w

  unfoldable pub read_process_memory : Transfer → HenState W → ℕ × HenState W
  unfolding fall_back
  read_process_memory t s =
      let (can_read, w) = sys_dbg_read_process_memory t s.world in
      let hen = fall_back (ps3mapi_get_memory t) in
      if s.use_hen_syscalls
      then hen s.world
      else if can_read == sys.succeeded
      then (can_read, record s { world = w })
      else hen w
