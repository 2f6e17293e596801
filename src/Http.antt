-- ===== src/Http.antt =====
-- src/http/http.c and src/http/http.h: the HTTP client, its transactions, and the download of a
-- file with its hash. The console's HTTP library and its SHA-256 are parameters.
-- What an `int` result is compared with is kept: `failed` is `err < 0`.
-- A variable that C leaves without a value holds what an argument of the model says.
pub mod Saving
pub mod Download
use mathlib.Core.Option
use patchwork.Prelude.{ℕ, zero, suc, Bool, true, false, Option, none, some, String, List, [], ◌∷◌}
use patchwork.Prelude.{◌==◌, if◌then◌else◌, length, drop}
use patchwork.FileSystem.{FileSystem, create_truncate}

-- A result of the library: `negative` is `err < 0`, and a call that fails stores nothing.
pub data Result {ℓ} (A : Type ℓ) : Type ℓ where
  ok : A → Result A
  negative : Result A

-- The calls of `cell/http.h`.
pub record HttpLibrary (W : Type 0) : Type 0 where
  pub cell_http_init : ℕ → ℕ → W → Result (Unit {0}) × W
  pub cell_http_create_client : W → Result ℕ × W
  pub cell_http_end : W → W
  pub cell_http_destroy_client : ℕ → W → W
  -- The parsed address, kept in a pool of the given size.
  pub cell_http_util_parse_uri : List ℕ → ℕ → W → Result ℕ × W
  pub cell_http_create_transaction : ℕ → String → ℕ → W → Result ℕ × W
  pub cell_http_destroy_transaction : ℕ → W → W
  pub cell_http_request_add_header : ℕ → String → String → W → W
  pub cell_http_send_request : ℕ → W → Result (Unit {0}) × W
  pub cell_http_response_get_content_length : ℕ → W → Result ℕ × W
  pub cell_http_response_get_status_code : ℕ → W → Result ℕ × W
  -- The call with no buffer gives the size that the header needs.
  pub cell_http_response_get_header_size : ℕ → String → W → Result ℕ × W
  -- The call with a buffer of the given size gives the header's value.
  pub cell_http_response_get_header : ℕ → String → ℕ → W → Result (List ℕ) × W
  -- At most as many bytes as asked for; none at the end.
  pub cell_http_recv_response : ℕ → ℕ → W → Result (List ℕ) × W

-- `libsha256`: a digest over blocks, and one over a whole buffer.
pub record Sha256 : Type 1 where
  pub WorkArea : Type 0
  pub block_init : WorkArea
  pub block_update : WorkArea → List ℕ → WorkArea
  pub block_result : WorkArea → List ℕ
  pub digest : List ℕ → List ℕ

pub record HttpContext : Type 0 where
  pub client : ℕ
  pub pool : ℕ
  pub pool_size : ℕ
  pub failed : Bool

-- The buffer of the parsed address is the library's business: `uri` stands for both.
pub record HttpTransaction : Type 0 where
  pub uri : ℕ
  pub trans_id : ℕ
  pub recv : ℕ
  pub total : ℕ
  pub status_code : ℕ
  pub failed : Bool

abbrev pub transaction_pool_size : ℕ
transaction_pool_size = 32

-- What a call has stored: its value, or what stood there before.
abbrev pub stored : Result ℕ → ℕ → ℕ
stored (ok v) old = v
stored negative old = old

abbrev pub is_negative {ℓ} : {A : Type ℓ} → Result A → Bool
is_negative (ok v) = false
is_negative negative = true

module _ {W : Type 0} (http : HttpLibrary W) where
  open http use {
    cell_http_init, cell_http_create_client, cell_http_end, cell_http_destroy_client,
    cell_http_util_parse_uri, cell_http_create_transaction, cell_http_destroy_transaction,
    cell_http_send_request, cell_http_response_get_content_length,
    cell_http_response_get_status_code,
  }

  -- The first argument is `result` before any field of it is assigned.
  unfoldable pub http_context_ctor : HttpContext → ℕ → ℕ → W → HttpContext × W
  http_context_ctor result pool pool_size w =
      let (init, w1) = cell_http_init pool pool_size w in
      let (client, w2) = cell_http_create_client w1 in
      if is_negative init then (record result { failed = true }, w1) else (
        record {
          client = stored client result.client;
          pool = pool;
          pool_size = pool_size;
          failed = is_negative client;
        },
        w2,
      )

  unfoldable pub http_context_dtor : HttpContext → W → W
  http_context_dtor ctx w = cell_http_destroy_client ctx.client (cell_http_end w)

  unfoldable pub http_transaction_ctor :
      HttpTransaction → HttpContext → List ℕ → String → W → HttpTransaction × W
  http_transaction_ctor result ctx uri_string method w =
      let (parsed, w1) = cell_http_util_parse_uri uri_string transaction_pool_size w in
      let uri = stored parsed result.uri in
      let (created, w2) = cell_http_create_transaction ctx.client method uri w1 in
      if is_negative parsed then (record result { failed = true }, w1) else (
        record result {
          uri = uri;
          trans_id = stored created result.trans_id;
          failed = is_negative created;
        },
        w2,
      )

  unfoldable pub http_transaction_dtor : HttpTransaction → W → W
  http_transaction_dtor trans w = cell_http_destroy_transaction trans.trans_id w

  unfoldable pub http_transaction_send_request : HttpTransaction → W → HttpTransaction × W
  http_transaction_send_request trans w =
      let (sent, w1) = cell_http_send_request trans.trans_id w in
      let (content_length, w2) = cell_http_response_get_content_length trans.trans_id w1 in
      let total = stored content_length trans.total in
      let (code, w3) = cell_http_response_get_status_code trans.trans_id w2 in
      if is_negative sent
      then (record trans { failed = true }, w1)
      else if is_negative content_length
      then (record trans { failed = true }, w2)
      else (
        record trans {
          total = total;
          status_code = stored code trans.status_code;
          failed = is_negative code;
        },
        w3,
      )
