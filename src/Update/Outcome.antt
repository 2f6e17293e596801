-- ===== src/Update/Outcome.antt =====
-- `DownloadUpdate` as a whole: what its result says of the answer and of the downloaded file.
use mathlib.Core.Bool.{true≢false}
use native.Mathlib.Decide.{ℕ_discrete}
use patchwork.Prelude.{ℕ, ◌<◌, ◌≡◌, ◌≢◌, refl, sym, ◌∙◌, ◌⊎◌, inl, inr, true, false, Bool-cases}
use patchwork.Prelude.{some, String, List, length, arith}
use patchwork.FileSystem.Disk.{Disk}
use patchwork.Http.{
  Sha256, HttpContext, HttpTransaction, http_context_ctor, http_context_dtor, http_transaction_ctor,
  http_transaction_dtor, http_transaction_send_request,
}
use patchwork.Http.Download.{Response}
use patchwork.Update.{
  Platform, StackFrame, Headers, download_path, header_client_version, line, read_headers,
  download_update,
}
use patchwork.Update.Keeps.{
  Keeps, http_context_ctor-Same, http_context_dtor-Same, http_transaction_ctor-Same,
  http_transaction_dtor-Same, http_transaction_send_request-Same, read_headers-Same,
}
use patchwork.Update.Verified.{
  IsVerified, IsReadable, HasFailed, KeepsDownload, IsChecked, check_response-IsChecked,
}

module _ {W : Type 0} (p : Platform W) (sha : Sha256) (disk : Disk p.fs)
    (response : Response p.fs disk p.http sha) (keeps : KeepsDownload p sha disk response) where
  open disk use {file}
  open response use {body}

  module _ (fuel : ℕ) (frame : StackFrame) (pool pool_size : ℕ) (url : List ℕ) (w : W) where
    abbrev context : HttpContext × W
    context =
        http_context_ctor p.http frame.ctx pool pool_size
          (p.log_ln (line "\nstart download update\n") w)

    -- The transaction after the request, and the world.
    abbrev pub sent : HttpTransaction × W
    sent =
        let (made, w1) =
          http_transaction_ctor p.http frame.trans context.0 url p.method_get context.1 in
        http_transaction_send_request p.http made
          (p.http.cell_http_request_add_header made.trans_id header_client_version p.version w1)

    abbrev pub headers : Headers p sha
    headers = read_headers p sha frame.hash_header sent.0 sent.1

    -- The response that the download would save.
    abbrev pub whole : List ℕ
    whole = body headers.world sent.0.trans_id

    pub record IsUpdated : Type 0 where
      pub err : ℕ
      pub world : W
      pub returns : download_update p sha fuel frame pool pool_size url w ≡ some (err, world)
      pub no_pool : (pool ≡ 0) ⊎ (pool_size ≡ 0) → err ≡ 2
      pub not_sent : sent.0.failed ≡ true → err ≡ 2
      pub found :
          pool ≢ 0
          → pool_size ≢ 0
          → sent.0.failed ≡ false
          → sent.0.status_code ≡ 200
          → (value : List ℕ) × (headers.value ≡ some value)
            × IsVerified p sha disk response frame value whole
                (HasFailed p sha disk response fuel frame sent.0 headers.world)
                err
                world
      pub no_content :
          pool ≢ 0 → pool_size ≢ 0 → sent.0.failed ≡ false → sent.0.status_code ≡ 204 → err ≡ 0
      pub other :
          pool ≢ 0
          → pool_size ≢ 0
          → sent.0.failed ≡ false
          → sent.0.status_code ≢ 200
          → sent.0.status_code ≢ 204
          → err ≡ headers.err
      -- Another file is as before, if the other calls leave it alone.
      pub others : (q : String) → q ≢ download_path → Keeps p sha disk q → file world q ≡ file w q

    abbrev finish : HttpTransaction → W → W
    finish trans v = http_context_dtor p.http context.0 (http_transaction_dtor p.http trans v)

    module _ (q : String) (kept : Keeps p sha disk q) where
      abbrev begun : W
      begun = p.log_ln (line "\nstart download update\n") w

      sent-file : file sent.1 q ≡ file w q
      sent-file =
          let (made, w1) =
            http_transaction_ctor p.http frame.trans context.0 url p.method_get context.1 in
          http_transaction_send_request-Same p sha disk q kept made
            (p.http.cell_http_request_add_header made.trans_id header_client_version p.version w1)
          ∙ kept.add_header made.trans_id header_client_version p.version w1
          ∙ http_transaction_ctor-Same p sha disk q kept frame.trans context.0 url p.method_get
              context.1
          ∙ http_context_ctor-Same p sha disk q kept frame.ctx pool pool_size begun
          ∙ kept.log_ln (line "\nstart download update\n") w

      finished-file : (trans : HttpTransaction) (v : W) → file (finish trans v) q ≡ file v q
      finished-file trans v =
          http_context_dtor-Same p sha disk q kept context.0 (http_transaction_dtor p.http trans v)
          ∙ http_transaction_dtor-Same p sha disk q kept trans v

      headers-file : file headers.world q ≡ file w q
      headers-file = read_headers-Same p sha disk q kept frame.hash_header sent.0 sent.1 ∙ sent-file

    returns_early :
        (pool ≡ 0) ⊎ (pool_size ≡ 0)
        → download_update p sha fuel frame pool pool_size url w
          ≡ some (
            2,
            p.log_ln
                (line "ERROR: invalid pool size")
                (p.log_ln (line "\nstart download update\n") w),
          )
    unfolding download_update
    returns_early (inl e) = rw (e)
    returns_early (inr e) = ground arith

    finish-file :
        (trans : HttpTransaction) (v : W)
        → file (finish trans v) download_path ≡ file v download_path
    unfolding http_context_dtor http_transaction_dtor
    finish-file trans v =
        let v1 = p.http.cell_http_destroy_transaction trans.trans_id v in
        keeps.destroy_client context.0.client (p.http.cell_http_end v1)
        ∙ keeps.end v1
        ∙ keeps.destroy_transaction trans.trans_id v

    returns_failed :
        pool ≢ 0
        → pool_size ≢ 0
        → sent.0.failed ≡ true
        → download_update p sha fuel frame pool pool_size url w
          ≡ some (2, p.log_ln (line "ERROR: failed to make request") (finish sent.0 sent.1))
    unfolding download_update
    returns_failed has_pool has_size e = ground arith

    returns_checked :
        pool ≢ 0
        → pool_size ≢ 0
        → sent.0.failed ≡ false
        → (checked : IsChecked p sha disk response fuel frame headers sent.0)
        → download_update p sha fuel frame pool pool_size url w
          ≡ some (checked.err, finish checked.trans' checked.world)
    unfolding download_update
    returns_checked has_pool has_size e checked = ground (arith, checked.returns)

    none_left : (pool ≡ 0) ⊎ (pool_size ≡ 0) → pool ≢ 0 → pool_size ≢ 0 → ⊥
    none_left (inl e) has_pool has_size = has_pool e
    none_left (inr e) has_pool has_size = has_size e

    without_pool : (pool ≡ 0) ⊎ (pool_size ≡ 0) → IsUpdated
    without_pool empty = record {
      err = 2;
      world =
          p.log_ln (line "ERROR: invalid pool size")
            (p.log_ln (line "\nstart download update\n") w);
      returns = returns_early empty;
      no_pool = λ _. refl;
      not_sent = λ _. refl;
      found = λ has_pool has_size _ _. absurd (none_left empty has_pool has_size);
      no_content = λ has_pool has_size _ _. absurd (none_left empty has_pool has_size);
      other = λ has_pool has_size _ _ _. absurd (none_left empty has_pool has_size);
      others = λ q _ kept.
          kept.log_ln (line "ERROR: invalid pool size")
            (p.log_ln (line "\nstart download update\n") w)
          ∙ kept.log_ln (line "\nstart download update\n") w;
    }

    sending_failed : pool ≢ 0 → pool_size ≢ 0 → sent.0.failed ≡ true → IsUpdated
    sending_failed has_pool has_size e = record {
      err = 2;
      world = p.log_ln (line "ERROR: failed to make request") (finish sent.0 sent.1);
      returns = returns_failed has_pool has_size e;
      no_pool = λ _. refl;
      not_sent = λ _. refl;
      found = λ _ _ fine _. absurd (true≢false (sym e ∙ fine));
      no_content = λ _ _ fine _. absurd (true≢false (sym e ∙ fine));
      other = λ _ _ fine _ _. absurd (true≢false (sym e ∙ fine));
      others = λ q _ kept.
          kept.log_ln (line "ERROR: failed to make request") (finish sent.0 sent.1)
          ∙ finished-file q kept sent.0 sent.1
          ∙ sent-file q kept;
    }

    was_answered :
        pool ≢ 0
        → pool_size ≢ 0
        → sent.0.failed ≡ false
        → IsChecked p sha disk response fuel frame headers sent.0
        → IsUpdated
    was_answered has_pool has_size e checked = record {
      err = checked.err;
      world = finish checked.trans' checked.world;
      returns = returns_checked has_pool has_size e checked;
      no_pool = λ empty. absurd (none_left empty has_pool has_size);
      not_sent = λ failed. absurd (true≢false (sym failed ∙ e));
      found = λ _ _ _ is_200.
          let (value, announced, verified) = checked.found is_200 in
          (
            value,
            announced,
            record {
              hash = verified.hash;
              fetched = elim verified.fetched [
                | inl (same, digest) ↦ inl (finish-file checked.trans' checked.world ∙ same, digest)
                | inr kept ↦ inr kept
              ];
              verdict = verified.verdict;
            },
          );
      no_content = λ _ _ _. checked.no_content;
      other = λ _ _ _. checked.other;
      others = λ q ne kept.
          finished-file q kept checked.trans' checked.world
          ∙ checked.others q ne kept.log_ln
          ∙ headers-file q kept;
    }

    pub download_update-IsUpdated :
        length whole < fuel
        → (sent.0.status_code ≡ 200 → IsReadable p sha disk response headers.value)
        → IsUpdated
    download_update-IsUpdated enough readable = elim (ℕ_discrete pool 0) [
      | yes e ↦ without_pool (inl e)
      | no has_pool ↦ elim (ℕ_discrete pool_size 0) [
        | yes e ↦ without_pool (inr e)
        | no has_size ↦ elim (Bool-cases sent.0.failed) [
          | inl e ↦ sending_failed has_pool has_size e
          | inr e ↦ was_answered has_pool has_size e (
              check_response-IsChecked p sha disk response keeps fuel frame headers sent.0 enough
                readable)
        ]
      ]
    ]
