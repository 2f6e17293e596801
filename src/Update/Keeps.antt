-- ===== src/Update/Keeps.antt =====
-- The calls of `DownloadUpdate` and `TryUpdateAndInstall` that are not about files, and a file that
-- each of them leaves alone.
use patchwork.Prelude.{Option}
use patchwork.Prelude.{ℕ, ◌≡◌, refl, ◌∙◌, Bool, true, false, String, List, if◌then◌else◌, arith}
use patchwork.Message.{Message}
use patchwork.FileSystem.Disk.{Disk}
use patchwork.Http.{
  Sha256, HttpContext, HttpTransaction, is_negative, stored, http_context_ctor, http_context_dtor,
  http_transaction_ctor, http_transaction_dtor, http_transaction_send_request,
  transaction_pool_size,
}
use patchwork.Update.{Platform, header_sprx_hash, line, read_headers}

module _ {W : Type 0} (p : Platform W) (sha : Sha256) (disk : Disk p.fs) (q : String) where
  open disk use {file}

  abbrev Same : W → W → Type 0
  Same w' w = file w' q ≡ file w q

  pub record Keeps : Type 0 where
    pub log_ln : (m : Message) (w : W) → Same (p.log_ln m w) w
    pub error_dialog : (text : String) (w : W) → Same (p.error_dialog text w) w
    pub initialize_network : (w : W) → Same (p.sys_net_initialize_network w).1 w
    pub finalize_network : (w : W) → Same (p.sys_net_finalize_network w) w
    pub allocate : (size : ℕ) (w : W) → Same (p.sys_memory_allocate size w).1 w
    pub free : (address : ℕ) (w : W) → Same (p.sys_memory_free address w) w
    pub init : (pool size : ℕ) (w : W) → Same (p.http.cell_http_init pool size w).1 w
    pub create_client : (w : W) → Same (p.http.cell_http_create_client w).1 w
    pub end : (w : W) → Same (p.http.cell_http_end w) w
    pub destroy_client : (id : ℕ) (w : W) → Same (p.http.cell_http_destroy_client id w) w
    pub parse_uri :
        (uri : List ℕ) (size : ℕ) (w : W) → Same (p.http.cell_http_util_parse_uri uri size w).1 w
    pub create_transaction :
        (client : ℕ) (method : String) (uri : ℕ) (w : W)
        → Same (p.http.cell_http_create_transaction client method uri w).1 w
    pub destroy_transaction : (id : ℕ) (w : W) → Same (p.http.cell_http_destroy_transaction id w) w
    pub add_header :
        (id : ℕ) (name value : String) (w : W)
        → Same (p.http.cell_http_request_add_header id name value w) w
    pub send_request : (id : ℕ) (w : W) → Same (p.http.cell_http_send_request id w).1 w
    pub get_content_length :
        (id : ℕ) (w : W) → Same (p.http.cell_http_response_get_content_length id w).1 w
    pub get_status_code :
        (id : ℕ) (w : W) → Same (p.http.cell_http_response_get_status_code id w).1 w
    pub get_header_size :
        (id : ℕ) (name : String) (w : W)
        → Same (p.http.cell_http_response_get_header_size id name w).1 w
    pub get_header :
        (id : ℕ) (name : String) (size : ℕ) (w : W)
        → Same (p.http.cell_http_response_get_header id name size w).1 w

  module _ (keeps : Keeps) where
    pub http_context_ctor-Same :
        (result : HttpContext) (pool pool_size : ℕ) (w : W)
        → Same (http_context_ctor p.http result pool pool_size w).1 w
    unfolding http_context_ctor
    http_context_ctor-Same result pool pool_size w =
        let first = keeps.init pool pool_size w in
        let w1 = (p.http.cell_http_init pool pool_size w).1 in
        ground (arith, first, keeps.create_client w1)

    pub http_context_dtor-Same :
        (ctx : HttpContext) (w : W) → Same (http_context_dtor p.http ctx w) w
    unfolding http_context_dtor
    http_context_dtor-Same ctx w =
        keeps.destroy_client ctx.client (p.http.cell_http_end w) ∙ keeps.end w

    pub http_transaction_ctor-Same :
        (result : HttpTransaction) (ctx : HttpContext) (uri : List ℕ) (method : String) (w : W)
        → Same (http_transaction_ctor p.http result ctx uri method w).1 w
    unfolding http_transaction_ctor
    http_transaction_ctor-Same result ctx uri method w =
        let parsed = p.http.cell_http_util_parse_uri uri transaction_pool_size w in
        ground (
          arith,
          keeps.parse_uri uri transaction_pool_size w,
          keeps.create_transaction ctx.client method (stored parsed.0 result.uri) parsed.1,
        )

    pub http_transaction_dtor-Same :
        (trans : HttpTransaction) (w : W) → Same (http_transaction_dtor p.http trans w) w
    unfolding http_transaction_dtor
    http_transaction_dtor-Same trans w = keeps.destroy_transaction trans.trans_id w

    pub http_transaction_send_request-Same :
        (trans : HttpTransaction) (w : W) → Same (http_transaction_send_request p.http trans w).1 w
    unfolding http_transaction_send_request
    http_transaction_send_request-Same trans w =
        let w1 = (p.http.cell_http_send_request trans.trans_id w).1 in
        let w2 = (p.http.cell_http_response_get_content_length trans.trans_id w1).1 in
        ground (
          arith,
          keeps.send_request trans.trans_id w,
          keeps.get_content_length trans.trans_id w1,
          keeps.get_status_code trans.trans_id w2,
        )

    logged_if : (b : Bool) (m : Message) (w : W) → Same (if b then p.log_ln m w else w) w
    logged_if true m w = keeps.log_ln m w
    logged_if false m w = refl

    pub read_headers-Same :
        (hash_header : Option (List ℕ)) (trans : HttpTransaction) (w : W)
        → Same (read_headers p sha hash_header trans w).world w
    unfolding read_headers
    read_headers-Same hash_header trans w =
        let size = p.http.cell_http_response_get_header_size trans.trans_id header_sprx_hash w in
        let w2 =
          if is_negative size.0
          then p.log_ln (line "ERROR: transaction error") size.1
          else size.1 in
        let value =
          p.http.cell_http_response_get_header trans.trans_id header_sprx_hash (stored size.0 0)
            w2 in
        let before =
          keeps.get_header trans.trans_id header_sprx_hash (stored size.0 0) w2
          ∙ logged_if (is_negative size.0) (line "ERROR: transaction error") size.1
          ∙ keeps.get_header_size trans.trans_id header_sprx_hash w in
        ground (arith, before, keeps.log_ln (line "ERROR: transaction error 2") value.1)
