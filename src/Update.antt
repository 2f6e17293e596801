-- ===== src/Update.antt =====
-- src/update.c and src/update.h: the download of an update, its check against the hash that the
-- server announces, its installation, and the restart of the module.
-- The console's other calls and the number parser of the submodule src/toml are parameters.
pub mod Hash
pub mod Verified
pub mod Outcome
pub mod Installed
pub mod Keeps
pub mod Unharmed
use patchwork.Prelude.{
  ℕ, zero, suc, ◌+◌, ◌*◌, ◌%◌, Bool, true, false, ◌&&◌, ◌||◌, Option, none, some,
}
use patchwork.Prelude.{String, List, [], ◌∷◌, ◌==◌, if◌then◌else◌, get_or, drop, codes, ltb}
use patchwork.Log.{max_printf_buf}
use patchwork.Memory.{Memory}
use patchwork.Message.{Message}
use patchwork.FileSystem.{FileSystem}
use patchwork.Files.{copy_file}
use patchwork.Http.{
  HttpLibrary, HttpContext, HttpTransaction, Sha256, Result, stored, is_negative, ok, negative,
  http_context_ctor, http_context_dtor, http_transaction_ctor, http_transaction_dtor,
  http_transaction_send_request,
}
use patchwork.Http.Saving.{Downloaded, http_download_file}

abbrev pub download_path : String
download_path = "/dev_hdd0/plugins/patchwork/patchwork.sprx"

abbrev pub install_path : String
install_path = "/dev_hdd0/plugins/patchwork.sprx"

abbrev pub header_client_version : String
header_client_version = "X-Patchwork-Client-Version"

abbrev pub header_sprx_hash : String
header_sprx_hash = "X-Patchwork-Sprx-Hash"

abbrev pub size_64k : ℕ
size_64k = 64 * 1024

pub record PatchworkLaunchArgs : Type 0 where
  pub old_process : ℕ
  pub updated : ℕ

-- `{ my_id, 1 }`, the arguments of a restart.
abbrev pub restart_args : ℕ → PatchworkLaunchArgs
restart_args my_id = record { old_process = my_id; updated = 1 }

-- The rest of the console, and the calls that are modelled elsewhere as they are used here.
pub record Platform (W : Type 0) : Type 0 where
  pub fs : FileSystem W
  pub http : HttpLibrary W
  -- `LogLn` of a message that fits its buffer, and what `Vsnprintf` returns for a message: the length
  -- that the whole text would have.
  pub log_ln : Message → W → W
  pub log_length : Message → ℕ
  pub error_dialog : String → W → W
  pub sys_net_initialize_network : W → ℕ × W
  pub sys_net_finalize_network : W → W
  -- The address of the memory, 0 (`NULL`) if there is none.
  pub sys_memory_allocate : ℕ → W → ℕ × W
  pub sys_memory_free : ℕ → W → W
  pub sys_prx_get_my_module_id : W → ℕ × W
  pub sys_prx_load_module : String → W → ℕ × W
  -- The `start` of the module runs in the same address space, and may change what is there.
  pub sys_prx_start_module : ℕ → PatchworkLaunchArgs → Memory × W → Result ℕ × (Memory × W)
  -- `StrToInt(str, len, base)`
  pub str_to_int : List ℕ → ℕ → ℕ → ℕ
  -- `CELL_HTTP_METHOD_GET`
  pub method_get : String
  -- `MAJOR_STR "." MINOR_STR`
  pub version : String

-- What the local variables of `DownloadUpdate` hold before a value is assigned to them.
pub record StackFrame : Type 0 where
  pub ctx : HttpContext
  pub trans : HttpTransaction
  -- The string at the pointer `hash_header.value`, if it points at one.
  pub hash_header : Option (List ℕ)
  pub hash_buf : List ℕ

-- `LogLn` stays within its buffer, to which it adds a line's end and a NUL (see `Log`).
abbrev pub fits_log : {W : Type 0} → Platform W → Message → Bool
fits_log p message = ltb (p.log_length message + 1) max_printf_buf

-- `LogLn(hash_header.value)`
abbrev pub header_message : List ℕ → Message
header_message value = record { format = value; arguments = [] }

abbrev pub line : String → Message
line text = record { format = codes text; arguments = [] }

-- `(uint8_t)StrToInt(hash_header.value + i * 2, 2, 16)`
abbrev pub server_byte : (List ℕ → ℕ → ℕ → ℕ) → List ℕ → ℕ → ℕ
server_byte str_to_int value i = str_to_int (drop (i * 2) value) 2 16 % 256

-- The loop over the 32 bytes of the hash, with `rounds` of them left; the result is `err`.
unfoldable pub hash_loop : (List ℕ → ℕ → ℕ → ℕ) → List ℕ → List ℕ → ℕ → ℕ → ℕ → ℕ
hash_loop str_to_int value hash zero i err = err
hash_loop str_to_int value hash (suc rounds) i err =
    let rest = hash_loop str_to_int value hash rounds (i + 1) (if i == 31 then 1 else err) in
    if server_byte str_to_int value i == get_or hash i 0 then rest else 2

module _ {W : Type 0} (p : Platform W) (sha : Sha256) where
  -- What is known after the two calls for the header.
  abbrev pub Headers : Type 0
  Headers = record { err : ℕ; value : Option (List ℕ); world : W }

  -- The two passes for the header with the hash.
  unfoldable pub read_headers : Option (List ℕ) → HttpTransaction → W → Headers
  read_headers hash_header trans w =
      let (size, w1) =
        p.http.cell_http_response_get_header_size trans.trans_id header_sprx_hash w in
      let w2 = if is_negative size then p.log_ln (line "ERROR: transaction error") w1 else w1 in
      let (value, w3) =
        p.http.cell_http_response_get_header trans.trans_id header_sprx_hash (stored size 0) w2 in
      let err : ℕ = if is_negative size then 2 else 0 in
      elim value [
        | ok bytes ↦ record { err = err; value = some bytes; world = w3 }
        | negative ↦ record {
          err = 2;
          value = hash_header;
          world = p.log_ln (line "ERROR: transaction error 2") w3;
        }
      ]

  -- From the status code on: the value of `err` and the world. `none` is that the fuel ran out, that the
  -- pointer of the header is read where it points at no string, or that the logger's buffer is left.
  unfoldable pub check_response :
      ℕ → StackFrame → Headers → HttpTransaction → Option (ℕ × HttpTransaction × W)
  check_response fuel frame headers trans =
      let err : ℕ = if trans.status_code == 204 then 0 else headers.err in
      if trans.status_code == 200
      then elim (http_download_file p.fs p.http sha fuel trans download_path (some frame.hash_buf)
          headers.world) [
            | none ↦ none
            | some out ↦ elim headers.value [
              | none ↦ none
              | some value ↦
                  let hash : List ℕ = elim out.hash [ none ↦ [] | some bytes ↦ bytes ] in
                  let w1 = p.log_ln (header_message value) out.world in
                  let checked = hash_loop p.str_to_int value hash 32 0 err in
                  let w2 = if checked == 2 then p.log_ln (line "ERROR: hash mismatch") w1 else w1 in
                  if fits_log p (header_message value) then some (checked, out.trans, w2) else none
            ]
          ]
      else some (err, trans, headers.world)

  -- `download_update` returns 0 if there is no update, 1 if one was downloaded, and 2 for an error.
  unfoldable pub download_update : ℕ → StackFrame → ℕ → ℕ → List ℕ → W → Option (ℕ × W)
  download_update fuel frame pool pool_size server_url w =
      let w0 = p.log_ln (line "\nstart download update\n") w in
      let (ctx, w1) = http_context_ctor p.http frame.ctx pool pool_size w0 in
      let (made, w2) = http_transaction_ctor p.http frame.trans ctx server_url p.method_get w1 in
      let w3 =
        p.http.cell_http_request_add_header made.trans_id header_client_version p.version w2 in
      let (trans, w4) = http_transaction_send_request p.http made w3 in
      let headers = read_headers frame.hash_header trans w4 in
      if (pool == 0) || (pool_size == 0)
      then some (2, p.log_ln (line "ERROR: invalid pool size") w0)
      else if trans.failed
      then some (
        2,
        p.log_ln (line "ERROR: failed to make request")
            (http_context_dtor p.http ctx (http_transaction_dtor p.http trans w4)),
      )
      else elim (check_response fuel frame headers trans) [
        | none ↦ none
        | some (err, trans', w5) ↦
            some (err, http_context_dtor p.http ctx (http_transaction_dtor p.http trans' w5))
      ]

  unfoldable pub install_update : ℕ → String → W → Option (ℕ × W)
  install_update fuel path w = copy_file p.fs fuel download_path path w

  -- The end of `TryUpdateAndInstall`, on the result of the download. That of the installation is
  -- not looked at.
  unfoldable pub finish_update : ℕ → ℕ → W → Option (ℕ × W)
  finish_update fuel err w =
      if err == 1
      then elim (install_update fuel install_path w) [
        | none ↦ none
        | some (_, w1) ↦ some (err, p.log_ln (line "No patchwork update available") w1)
      ]
      else if err == 2
      then some
          (err, p.error_dialog "Failed to update patchwork" (p.log_ln (line "Update failed") w))
      else some (err, w)

  unfoldable pub try_update_and_install : ℕ → StackFrame → List ℕ → W → Option (ℕ × W)
  try_update_and_install fuel frame url w =
      let (network, w1) = p.sys_net_initialize_network w in
      let (http_pool, w2) = p.sys_memory_allocate size_64k w1 in
      if network == 0
      then some (2, w1)
      else elim (download_update fuel frame http_pool size_64k url w2) [
        | none ↦ none
        | some (err, w3) ↦
            finish_update fuel err (p.sys_net_finalize_network (p.sys_memory_free http_pool w3))
      ]

  unfoldable pub try_restart_module : Memory × W → Result ℕ × (Memory × W)
  try_restart_module (m, w) =
      let w1 = p.log_ln (line "Restarting module") w in
      let (my_id, w2) = p.sys_prx_get_my_module_id w1 in
      let (new_prx_id, w3) = p.sys_prx_load_module install_path w2 in
      let args = restart_args my_id in
      let (ret, (m1, w4)) = p.sys_prx_start_module new_prx_id args (m, w3) in
      (ret, (m1, if is_negative ret then p.error_dialog "Failed to restart patchwork" w4 else w4))
