-- ===== src/Tests/Http.antt =====
-- A download into the file system of `FileSystem.InMemory`, from a library that delivers its inbox.
use patchwork.Prelude.{
  ℕ, zero, suc, ◌%◌, ◌<◌, ◌≡◌, ◌∙◌, refl, false, some, List, [], ◌∷◌, ◌++◌, length, take, drop,
  take-append-drop, codes, arith,
}
use patchwork.FileSystem.Disk.{closed}
use patchwork.FileSystem.InMemory.{
  World, in_memory, in_memory_disk, in_memory_disk-file, in_memory_disk-handle, in_memory-inbox,
}
use patchwork.Http.{HttpLibrary, HttpTransaction, Sha256, ok}
use patchwork.Http.Download.{Response}
use patchwork.Http.Download.Results.{IsFetched, http_download_file-IsFetched}

abbrev pub library : HttpLibrary World
library = record {
  cell_http_init = λ pool size w. (ok tt, w);
  cell_http_create_client = λ w. (ok 1, w);
  cell_http_end = λ w. w;
  cell_http_destroy_client = λ client w. w;
  cell_http_util_parse_uri = λ uri size w. (ok 2, w);
  cell_http_create_transaction = λ client method uri w. (ok 3, w);
  cell_http_destroy_transaction = λ id w. w;
  cell_http_request_add_header = λ id name value w. w;
  cell_http_send_request = λ id w. (ok tt, w);
  cell_http_response_get_content_length = λ id w. (ok (length w.inbox), w);
  cell_http_response_get_status_code = λ id w. (ok 200, w);
  cell_http_response_get_header_size = λ id name w. (ok 64, w);
  cell_http_response_get_header = λ id name size w. (ok (codes "03"), w);
  cell_http_recv_response = λ id n w. (ok (take n w.inbox), record w { inbox = drop n w.inbox });
}

-- A digest of one byte.
abbrev pub short_digest : Sha256
short_digest = record {
  WorkArea = List ℕ;
  block_init = [];
  block_update = λ area bytes. area ++ bytes;
  block_result = λ area. length area % 256 ∷ [];
  digest = λ bytes. length bytes % 256 ∷ [];
}

pub take-nil : (n : ℕ) (xs : List ℕ) → 0 < n → take n xs ≡ [] → xs ≡ []
take-nil zero xs h e = absurd (omega arith)
take-nil (suc n) [] h e = refl
take-nil (suc n) (x ∷ xs) h e = cc

unfoldable pub response :
    (chunk : ℕ) → Response (in_memory chunk) (in_memory_disk chunk) library short_digest
response chunk = record {
  body = λ w id. w.inbox;
  recv_some = λ id n w {bytes} e.
      let same : take n w.inbox ≡ bytes = ground arith in
      (rw (← same) (take-append-drop n w.inbox), λ h empty. take-nil n w.inbox h (same ∙ empty));
  recv_keeps = λ id n w. (
    λ f. rw (in_memory_disk-handle, in_memory_disk-handle),
    λ q. rw (in_memory_disk-file, in_memory_disk-file) refl,
  );
  open_keeps = λ p id w. (in_memory-inbox chunk p 0 [] w).0;
  write_keeps = λ fd bytes id w. (in_memory-inbox chunk "" fd bytes w).1;
  absorbed = λ area. area;
  absorbed-init = refl;
  absorbed-update = λ area bytes. refl;
  digest-result = λ area. refl;
}

abbrev pub online : World
online = record { file = λ p. []; handle = λ fd. closed; next = 3; inbox = codes "SCE" }

abbrev transaction : HttpTransaction
transaction = record {
  uri = 2;
  trans_id = 3;
  recv = 0;
  total = 3;
  status_code = 200;
  failed = false;
}

three_bytes : length ((response 2).body online 3) < 9
unfolding response
three_bytes = omega arith

http_download_file-IsFetched_example :
    IsFetched
      (in_memory 2)
      (in_memory_disk 2)
      library
      short_digest
      (response 2)
      "update"
      9
      transaction
      (some (0 ∷ []))
      online
http_download_file-IsFetched_example =
    http_download_file-IsFetched (in_memory 2) (in_memory_disk 2) library short_digest (response 2)
      "update" 9 transaction (some (0 ∷ [])) online three_bytes
