-- ===== src/ProcessMemory/Laws.antt =====
-- Sequences of reads and writes: the fallback to PS3MAPI is for good.
use patchwork.Prelude.{ℕ, true, false, ◌≡◌, refl, ap, List, [], ◌∷◌, All, arith}
use patchwork.ProcessMemory.{
  Syscalls, HenState, Transfer, sys_dbg_write_process_memory, sys_dbg_read_process_memory,
  ps3mapi_set_memory, ps3mapi_get_memory, write_process_memory, read_process_memory,
}

pub data Request : Type 0 where
  read_memory write_memory : Transfer → Request

module _ {W : Type 0} (sys : Syscalls W) where
  abbrev serve : Request → HenState W → ℕ × HenState W
  serve (read_memory t) s = read_process_memory sys t s
  serve (write_memory t) s = write_process_memory sys t s

  -- A sequence of calls: their results, and the state after them.
  unfoldable pub run : List Request → HenState W → List ℕ × HenState W
  run [] s = ([], s)
  run (r ∷ rs) s =
      let (result, s') = serve r s in let (results, s'') = run rs s' in (result ∷ results, s'')

  abbrev pub by_debug : Request → W → ℕ × W
  by_debug (read_memory t) = sys_dbg_read_process_memory sys t
  by_debug (write_memory t) = sys_dbg_write_process_memory sys t

  abbrev pub by_ps3mapi : Request → W → ℕ × W
  by_ps3mapi (read_memory t) = ps3mapi_get_memory sys t
  by_ps3mapi (write_memory t) = ps3mapi_set_memory sys t

  -- The same sequence by one kind of system call alone.
  unfoldable pub run_by : (Request → W → ℕ × W) → List Request → W → List ℕ × W
  run_by call [] w = ([], w)
  run_by call (r ∷ rs) w =
      let (result, w') = call r w in
      let (results, w'') = run_by call rs w' in (result ∷ results, w'')

  serve_hen :
      (r : Request) (s : HenState W)
      → s.use_hen_syscalls ≡ true
      → ((serve r s).0 ≡ (by_ps3mapi r s.world).0)
        × ((serve r s).1.world ≡ (by_ps3mapi r s.world).1)
        × ((serve r s).1.use_hen_syscalls ≡ true)
  unfolding read_process_memory write_process_memory
  serve_hen (read_memory t) s h = ground arith
  serve_hen (write_memory t) s h = ground arith

  serve_clear :
      (r : Request) (s : HenState W)
      → (serve r s).1.use_hen_syscalls ≡ false
      → (s.use_hen_syscalls ≡ false)
        × ((serve r s).0 ≡ sys.succeeded)
        × ((serve r s).1.world ≡ (by_debug r s.world).1)
  unfolding read_process_memory write_process_memory
  serve_clear (read_memory t) s h = ground arith
  serve_clear (write_memory t) s h = ground arith

  -- Once the flag is set, every later call goes to PS3MAPI alone, and the flag stays.
  pub run_latched :
      (rs : List Request) (s : HenState W)
      → s.use_hen_syscalls ≡ true
      → ((run rs s).0 ≡ (run_by by_ps3mapi rs s.world).0)
        × ((run rs s).1.world ≡ (run_by by_ps3mapi rs s.world).1)
        × ((run rs s).1.use_hen_syscalls ≡ true)
  unfolding run run_by
  run_latched [] s h = (refl, refl, h)
  run_latched (r ∷ rs) s h =
      let (same, world, flag) = serve_hen r s h in
      let rest = run_latched rs (serve r s).1 flag in
      rw (← world, ← same) (ap (◌∷◌ (serve r s).0) rest.0, rest.1, rest.2)

  -- If the flag is still clear after a sequence, every call of it has returned `SUCCEEDED`, and the
  -- debug system calls alone were made.
  pub run_clear :
      (rs : List Request) (s : HenState W)
      → (run rs s).1.use_hen_syscalls ≡ false
      → (s.use_hen_syscalls ≡ false)
        × All (λ result. result ≡ sys.succeeded) (run rs s).0
        × ((run rs s).1.world ≡ (run_by by_debug rs s.world).1)
  unfolding run run_by
  run_clear [] s h = (h, tt, refl)
  run_clear (r ∷ rs) s h =
      let rest = run_clear rs (serve r s).1 h in
      let (clear, ok, world) = serve_clear r s rest.0 in (clear, (ok, rest.1), rw (← world) rest.2)
