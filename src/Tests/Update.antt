-- ===== src/Tests/Update.antt =====
-- Updates from the library of `Tests.Http`.
use patchwork.Message.{Argument, number, text}
use patchwork.Prelude.{suc}
use patchwork.Prelude.{
  ℕ, ◌*◌, ◌+◌, ◌-◌, ◌<◌, ◌≡◌, refl, ltb, if◌then◌else◌, List, [], ◌∷◌, length, get_or,
}
use patchwork.Prelude.{false, Option, none, some, String, ap, codes, arith}
use patchwork.FileSystem.InMemory.{World, in_memory, in_memory_disk, in_memory_disk-file}
use patchwork.Http.{
  ok, http_context_ctor, http_transaction_ctor, http_transaction_send_request, http_context_dtor,
  http_transaction_dtor,
}
use patchwork.Http.Saving.{save_rest, download_loop, http_download_file}
use patchwork.Update.Keeps.{Keeps}
use patchwork.Update.Unharmed.{answer, announced}
use mathlib.Core.Path.{subst}
use patchwork.Update.{
  Platform, StackFrame, read_headers, download_path, install_path, check_response, download_update,
  hash_loop,
}
use patchwork.Update.Verified.{IsReadable}
use patchwork.Update.Installed.{KeepsInstalled}
use patchwork.Tests.Http.{library, short_digest, response, online}

-- The value of a hexadecimal digit.
abbrev digit : ℕ → ℕ
digit c = if ltb c 58 then c - 48 else c - 87

-- The first two digits, whatever the length and the base are said to be.
abbrev two_digits : List ℕ → ℕ → ℕ → ℕ
two_digits cs n base = digit (get_or cs 0 48) * 16 + digit (get_or cs 1 48)

-- The length of a message, with ten characters for a number.
abbrev text_length : List ℕ → ℕ
text_length [] = 0
text_length (c ∷ cs) = suc (text_length cs)

abbrev arguments_length : List Argument → ℕ
arguments_length [] = 0
arguments_length (number n ∷ more) = 10 + arguments_length more
arguments_length (text cs ∷ more) = text_length cs + arguments_length more

abbrev pub console : Platform World
console = record {
  fs = in_memory 2;
  http = library;
  log_ln = λ m w. w;
  log_length = λ m. text_length m.format + arguments_length m.arguments;
  error_dialog = λ text w. w;
  sys_net_initialize_network = λ w. (1, w);
  sys_net_finalize_network = λ w. w;
  sys_memory_allocate = λ size w. (65536, w);
  sys_memory_free = λ address w. w;
  sys_prx_get_my_module_id = λ w. (7, w);
  sys_prx_load_module = λ path w. (8, w);
  sys_prx_start_module = λ id args machine. (ok 0, machine);
  str_to_int = two_digits;
  method_get = "GET";
  version = "1.0";
}

abbrev pub frame : StackFrame
frame = record {
  ctx = record { client = 0; pool = 0; pool_size = 0; failed = false };
  trans = record { uri = 0; trans_id = 0; recv = 0; total = 0; status_code = 0; failed = false };
  hash_header = none;
  hash_buf = 255 ∷ [];
}

abbrev url : List ℕ
url = codes "http://localhost/update"

keeps_installed : KeepsInstalled console short_digest (in_memory_disk 2)
keeps_installed = record { log_ln = λ m w. refl; error_dialog = λ text w. refl }

abbrev enough_fuel : ℕ
enough_fuel = 9

downloaded_fits : length ((in_memory_disk 2).file online download_path) < 9
downloaded_fits = rw in_memory_disk-file (omega arith)

-- A download whose digest is announced gives 1, and a first byte that differs gives 2.
hash_loop_runs :
    (hash_loop two_digits (codes "03") (3 ∷ []) 32 0 0 ≡ 1)
    × (hash_loop two_digits (codes "04") (3 ∷ []) 32 0 0 ≡ 2)
unfolding hash_loop
hash_loop_runs = (refl, refl)

pub keeps : (q : String) → Keeps console short_digest (in_memory_disk 2) q
keeps q = record {
  log_ln = λ m w. refl;
  error_dialog = λ m w. refl;
  initialize_network = λ w. refl;
  finalize_network = λ w. refl;
  allocate = λ size w. refl;
  free = λ address w. refl;
  init = λ pool size w. refl;
  create_client = λ w. refl;
  end = λ w. refl;
  destroy_client = λ id w. refl;
  parse_uri = λ uri size w. refl;
  create_transaction = λ client method uri w. refl;
  destroy_transaction = λ id w. refl;
  add_header = λ id name value w. refl;
  send_request = λ id w. refl;
  get_content_length = λ id w. refl;
  get_status_code = λ id w. refl;
  get_header_size = λ id name w. refl;
  get_header = λ id name size w. refl;
}

abbrev world_of : Option (ℕ × World) → World
world_of none = online
world_of (some (err, w)) = w

abbrev pub download_run : List ℕ → Option (ℕ × World)
download_run url = download_update console short_digest 9 frame 65536 65536 url online

download_run_fits : (url : List ℕ) → length ((world_of (download_run url)).file download_path) < 9
unfolding read_headers http_context_ctor http_transaction_ctor http_transaction_send_request
    download_update check_response http_download_file download_loop save_rest hash_loop in_memory
    http_context_dtor http_transaction_dtor
download_run_fits url = omega arith

pub fits_after :
    (url : List ℕ) (err : ℕ) (v : World)
    → download_run url ≡ some (err, v)
    → length ((in_memory_disk 2).file v download_path) < 9
fits_after url err v e =
    rw in_memory_disk-file
      (subst (λ x. length (x.file download_path) < 9) (ap world_of e) (download_run_fits url))

pub tried_fits :
    (url : List ℕ)
    → length (
        answer console short_digest
          (in_memory_disk 2)
          (response 2)
          (keeps install_path)
          (keeps download_path)
          9
          frame
          url
          online)
      < 9
unfolding response read_headers http_context_ctor http_transaction_ctor
    http_transaction_send_request
tried_fits url = omega arith

pub announced-IsReadable :
    (host : List ℕ)
    → IsReadable console short_digest
        (in_memory_disk 2)
        (response 2)
        (announced console short_digest
          (in_memory_disk 2)
          (response 2)
          (keeps install_path)
          (keeps download_path)
          9
          frame
          host
          online).value
unfolding read_headers http_context_ctor http_transaction_ctor http_transaction_send_request
announced-IsReadable host = record { value = codes "03"; is_value = refl; fits = refl }
