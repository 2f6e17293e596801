-- ===== src/Generator/Hook.antt =====
-- `GetHook` of tools/patch_generator/hooks.go: the bytes of a hook, up to its second branch to an
-- address. The loop ends when the reader does: it takes fuel, a round for each word.
pub mod Mask
pub mod Scan
pub mod Encoded
pub mod Extracted
use Prim.Native.Nat.{bit_and}
use patchwork.Prelude.{
  ℕ, zero, suc, ◌+◌, ◌*◌, ◌%◌, ◌^◌, Bool, false, not, ◌&&◌, ◌||◌, Option, none, some, [], ◌++◌,
  ◌==◌, if◌then◌else◌, length, get_or,
}
use patchwork.Generator.{Result, ok, failed, Bytes, ReaderAt}

abbrev pub ba_mask : ℕ
ba_mask = 0x48000002

-- `binary.BigEndian.Uint32`
abbrev pub big_endian_word : Bytes → ℕ
big_endian_word bs =
    get_or bs 0 0 * 2 ^ 24 + get_or bs 1 0 * 2 ^ 16 + get_or bs 2 0 * 2 ^ 8 + get_or bs 3 0

-- The test on `instruction` and `insBuf`.
unfoldable pub is_branch : Bytes → Bool
is_branch ins_buf =
    bit_and (big_endian_word ins_buf) ba_mask == ba_mask
    && not (bit_and (get_or ins_buf 3 0) 1 == 1)

unfoldable pub get_hook_loop : ℕ → ReaderAt → ℕ → Bool → Bytes → Option (Result Bytes)
get_hook_loop zero read_at i ba_found out_buf = none
get_hook_loop (suc fuel) read_at i ba_found out_buf =
    let reply = read_at i 4 in
    let out_buf' = out_buf ++ reply.bytes in
    let found = is_branch reply.bytes in
    let rest = get_hook_loop fuel read_at ((i + 4) % 2 ^ 64) (ba_found || found) out_buf' in
    if reply.is_error || not (length reply.bytes == 4)
    then some failed
    else if found && ba_found
    then some (ok out_buf')
    else rest

unfoldable pub get_hook : ℕ → ReaderAt → ℕ → Option (Result Bytes)
get_hook fuel read_at hook_offset = get_hook_loop fuel read_at hook_offset false []
