-- ===== src/Update/Verified.antt =====
-- The part of `DownloadUpdate` after the headers: the download and its check.
use native.Mathlib.Decide.{ℕ_discrete}
use patchwork.Prelude.{ℕ, ◌<◌, ◌≡◌, ◌≢◌, refl, ◌∙◌, ◌⊎◌, inl, inr}
use patchwork.Prelude.{true, Option, some, String, List, ◌==◌, if◌then◌else◌, length, get_or, arith}
use patchwork.Message.{Message}
use patchwork.FileSystem.Disk.{Disk}
use patchwork.Http.{Sha256, HttpTransaction}
use patchwork.Http.Download.{Response}
use patchwork.Http.Download.Results.{IsFetched, http_download_file-IsFetched}
use patchwork.Http.Saving.{Downloaded, http_download_file}
use patchwork.Update.{
  Platform, StackFrame, Headers, fits_log, header_message, download_path, line, hash_loop,
  server_byte, check_response,
}
use patchwork.Update.Hash.{Matches, hash_loop_cases}

module _ {W : Type 0} (p : Platform W) (sha : Sha256) (disk : Disk p.fs)
    (response : Response p.fs disk p.http sha) where
  open disk use {file}
  open response use {body}

  -- After an answer with a file: the hash buffer holds the digest of the response, which is then
  -- in the file, or, if the download has failed, what it held before; and `err` is the result of the comparison with it.
  pub record IsVerified (frame : StackFrame) (value whole : List ℕ) (Failed : Type 0) (err : ℕ)
      (w : W) : Type 0 where
    pub hash : List ℕ
    pub fetched :
        ((file w download_path ≡ whole) × (hash ≡ sha.digest whole))
        ⊎ (Failed × (hash ≡ frame.hash_buf))
    pub verdict :
        (Matches p.str_to_int value hash × (err ≡ 1))
        ⊎ (((i : ℕ) × (i < 32) × (server_byte p.str_to_int value i ≢ get_or hash i 0)) × (err ≡ 2))

  -- The call of `HttpDownloadFile` returns 0.
  abbrev pub HasFailed : ℕ → StackFrame → HttpTransaction → W → Type 0
  HasFailed fuel frame trans w =
      (out : Downloaded W) × (http_download_file p.fs p.http sha fuel trans download_path
          (some frame.hash_buf) w
        ≡ some out)
      × (out.status ≡ 0)

  -- The calls at the end of `DownloadUpdate` leave the downloaded file alone.
  pub record KeepsDownload : Type 0 where
    pub log_ln : (m : Message) (w : W) → file (p.log_ln m w) download_path ≡ file w download_path
    pub destroy_transaction :
        (id : ℕ) (w : W)
        → file (p.http.cell_http_destroy_transaction id w) download_path ≡ file w download_path
    pub end : (w : W) → file (p.http.cell_http_end w) download_path ≡ file w download_path
    pub destroy_client :
        (id : ℕ) (w : W)
        → file (p.http.cell_http_destroy_client id w) download_path ≡ file w download_path

  -- The header is a string, for which the logger has room.
  pub record IsReadable (header : Option (List ℕ)) : Type 0 where
    pub value : List ℕ
    pub is_value : header ≡ some value
    pub fits : fits_log p (header_message value) ≡ true

  pub record IsChecked (fuel : ℕ) (frame : StackFrame) (headers : Headers p sha)
      (trans : HttpTransaction) : Type 0 where
    pub err : ℕ
    pub trans' : HttpTransaction
    pub world : W
    pub returns : check_response p sha fuel frame headers trans ≡ some (err, trans', world)
    pub found :
        trans.status_code ≡ 200
        → (value : List ℕ) × (headers.value ≡ some value)
          × IsVerified frame value
              (body headers.world trans.trans_id)
              (HasFailed fuel frame trans headers.world)
              err
              world
    pub no_content : trans.status_code ≡ 204 → err ≡ 0
    pub other : trans.status_code ≢ 200 → trans.status_code ≢ 204 → err ≡ headers.err
    -- Another file is as before, if the log leaves it alone.
    pub others :
        (q : String)
        → q ≢ download_path
        → ((m : Message) (w : W) → file (p.log_ln m w) q ≡ file w q)
        → file world q ≡ file headers.world q

  module _ (keeps : KeepsDownload) where
    module _ (fuel : ℕ) (frame : StackFrame) (headers : Headers p sha)
        (trans : HttpTransaction) where
      abbrev Fetched : Type 0
      Fetched =
          IsFetched p.fs disk p.http sha response download_path fuel trans (some frame.hash_buf)
            headers.world

      -- The hash buffer after the download.
      buffer :
          (fetched : Fetched)
          → (hash : List ℕ) × (fetched.out.hash ≡ some hash)
            × (((file fetched.out.world download_path ≡ body headers.world trans.trans_id)
                  × (hash ≡ sha.digest (body headers.world trans.trans_id)))
                ⊎ (HasFailed fuel frame trans headers.world × (hash ≡ frame.hash_buf)))
      buffer fetched = elim fetched.outcome [
        | inl (_, same, e, _) ↦
            (sha.digest (body headers.world trans.trans_id), e, inl (same, refl))
        | inr (status, e, _) ↦
            (frame.hash_buf, e, inr ((fetched.out, fetched.returns, status), refl))
      ]

      abbrev err_before : ℕ
      err_before = if trans.status_code == 204 then 0 else headers.err

      abbrev compare : List ℕ → List ℕ → ℕ
      compare value hash = hash_loop p.str_to_int value hash 32 0 err_before

      abbrev end_world : List ℕ → List ℕ → W → W
      end_world value hash w =
          let w1 = p.log_ln (header_message value) w in
          if compare value hash == 2 then p.log_ln (line "ERROR: hash mismatch") w1 else w1

      end_world-file :
          (q : String)
          → ((m : Message) (w : W) → file (p.log_ln m w) q ≡ file w q)
          → (value hash : List ℕ) (w : W) → file (end_world value hash w) q ≡ file w q
      end_world-file q logs value hash w =
          let w1 = p.log_ln (header_message value) w in
          ground (arith, logs (line "ERROR: hash mismatch") w1, logs (header_message value) w)

      returns_200 :
          (is_200 : trans.status_code ≡ 200) (readable : IsReadable headers.value)
          (fetched : Fetched) (hash : List ℕ)
          → fetched.out.hash ≡ some hash
          → check_response p sha fuel frame headers trans
            ≡ some (
              compare readable.value hash,
              fetched.out.trans,
              end_world readable.value hash fetched.out.world,
            )
      unfolding check_response
      returns_200 is_200 readable fetched hash e =
          rw (fetched.returns, readable.is_value, e) (ground (arith, readable.fits, is_200))

      after_200 :
          trans.status_code ≡ 200
          → IsReadable headers.value
          → Fetched
          → IsChecked fuel frame headers trans
      after_200 is_200 readable fetched =
          let held = buffer fetched in
          record {
            err = compare readable.value held.0;
            trans' = fetched.out.trans;
            world = end_world readable.value held.0 fetched.out.world;
            returns = returns_200 is_200 readable fetched held.0 held.1;
            found = λ _. (
              readable.value,
              readable.is_value,
              record {
                hash = held.0;
                fetched = elim held.2 [
                  | inl (same, e) ↦ inl (
                    end_world-file download_path keeps.log_ln readable.value held.0
                          fetched.out.world
                        ∙ same,
                    e,
                  )
                  | inr e ↦ inr e
                ];
                verdict = hash_loop_cases p.str_to_int readable.value held.0 err_before;
              },
            );
            no_content = λ e. absurd (omega arith);
            other = λ ne _. absurd (ne is_200);
            others = λ q ne logs.
                end_world-file q logs readable.value held.0 fetched.out.world
                ∙ fetched.same_files q ne;
          }

      returns_other :
          trans.status_code ≢ 200
          → check_response p sha fuel frame headers trans ≡ some (err_before, trans, headers.world)
      unfolding check_response
      returns_other ne = ground arith

      pub check_response-IsChecked :
          length (body headers.world trans.trans_id) < fuel
          → (trans.status_code ≡ 200 → IsReadable headers.value)
          → IsChecked fuel frame headers trans
      check_response-IsChecked enough readable = elim (ℕ_discrete trans.status_code 200) [
        | yes is_200 ↦ after_200 is_200 (readable is_200) (
            http_download_file-IsFetched p.fs disk p.http sha response download_path fuel trans
              (some frame.hash_buf) headers.world enough)
        | no ne ↦ record {
          err = err_before;
          trans' = trans;
          world = headers.world;
          returns = returns_other ne;
          found = λ e. absurd (ne e);
          no_content = λ e. ground arith;
          other = λ _ not_204. ground arith;
          others = λ q _ _. refl;
        }
      ]
