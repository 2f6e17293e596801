-- ===== src/Http/Download/Rounds.antt =====
-- The rounds of the outer loop of `HttpDownloadFile`.
use mathlib.Core.Option
use mathlib.Core.Path.{ap₂}
use mathlib.Core.List.{append_assoc, append-nil}
use patchwork.Prelude.{ℕ, suc, ◌<◌, ◌≡◌, ◌≢◌, refl, sym, ap, ◌∙◌, ◌⊎◌, inl, inr}
use patchwork.Prelude.{true, false, Option, some, String, List, [], ◌∷◌, ◌++◌, length, arith}
use patchwork.Prelude.{length-append, take_all}
use patchwork.FileSystem.{FileSystem}
use patchwork.FileSystem.Disk.{Disk, closed, writer}
use patchwork.Files.Writing.{IsWritten}
use patchwork.Http.{HttpLibrary, HttpTransaction, Sha256, Result, ok, negative}
use patchwork.Http.Saving.{Downloaded, block_size, save_rest, download_loop}
use patchwork.Http.Download.{
  Response, unchecked, unchecked_disk, save_rest-write_rest, save_rest-keeps,
}

module _ {W : Type 0} (fs : FileSystem W) (disk : Disk fs) (http : HttpLibrary W) (sha : Sha256)
    (response : Response fs disk http sha) (path : String) (fd : ℕ) where
  open disk use {file, handle}
  open response use {body, absorbed}

  -- Between two rounds: what is saved and what is to come make up the whole response, and what is
  -- saved is what the hash has taken in.
  pub record IsSaving (whole : List ℕ) (area : sha.WorkArea) (id : ℕ) (w : W) : Type 0 where
    pub writes : handle w fd ≡ writer path
    pub split : file w path ++ body w id ≡ whole
    pub hashed : absorbed area ≡ file w path

  pub record IsDownloaded (fuel : ℕ) (whole : List ℕ) (hash_buf : Option (List ℕ))
      (area : sha.WorkArea) (trans : HttpTransaction) (w : W) : Type 0 where
    pub out : Downloaded W
    pub returns : download_loop fs http sha fuel fd hash_buf area trans w ≡ some out
    -- All is saved, hashed and closed; or the descriptor is still open.
    pub outcome :
        (out.status ≡ 1)
          × (file out.world path ≡ whole)
          × (out.hash ≡ Option.map (λ _. sha.digest whole) hash_buf)
          × (handle out.world fd ≡ closed)
        ⊎ ((out.status ≡ 0) × (out.hash ≡ hash_buf) × (handle out.world fd ≡ writer path))
    pub same_status_code : out.trans.status_code ≡ trans.status_code
    pub same_id : out.trans.trans_id ≡ trans.trans_id
    pub same_handles : (f : ℕ) → f ≢ fd → handle out.world f ≡ handle w f
    pub same_files : (q : String) → q ≢ path → file out.world q ≡ file w q

  abbrev pub recv : HttpTransaction → W → Result (List ℕ) × W
  recv trans w = http.cell_http_recv_response trans.trans_id block_size w

  abbrev pub received : HttpTransaction → ℕ → HttpTransaction
  received trans n = record trans { recv = n; failed = false }

  module _ (fuel : ℕ) (whole : List ℕ) (hash_buf : Option (List ℕ)) (area : sha.WorkArea)
      (trans : HttpTransaction) (w : W) where
    error_out : Downloaded W
    error_out = record {
      status = 0;
      hash = hash_buf;
      trans = record trans { failed = true };
      world = (recv trans w).1;
    }

    end_out : Downloaded W
    end_out = record {
      status = 1;
      hash = Option.map (λ _. sha.block_result area) hash_buf;
      trans = received trans 0;
      world = fs.cell_fs_close fd (recv trans w).1;
    }

    stop_out : ℕ → W → Downloaded W
    stop_out n v = record { status = 0; hash = hash_buf; trans = received trans n; world = v }

    error_returns :
        (recv trans w).0 ≡ negative
        → download_loop fs http sha (suc fuel) fd hash_buf area trans w ≡ some error_out
    unfolding download_loop error_out
    error_returns e = rw (e, download_loop)

    end_returns :
        (recv trans w).0 ≡ ok []
        → download_loop fs http sha (suc fuel) fd hash_buf area trans w ≡ some end_out
    unfolding download_loop end_out
    end_returns e = rw (e, download_loop)

    stop_returns :
        (b : ℕ) (bs : List ℕ) (v : W)
        → (recv trans w).0 ≡ ok (b ∷ bs)
        → save_rest fs (suc (length bs)) fd (b ∷ bs) (recv trans w).1 ≡ some (false, v)
        → download_loop fs http sha (suc fuel) fd hash_buf area trans w
          ≡ some (stop_out (suc (length bs)) v)
    unfolding download_loop stop_out
    stop_returns b bs v e saved = rw (e, download_loop) (rw (saved, download_loop))

    more_returns :
        (b : ℕ) (bs : List ℕ) (v : W)
        → (recv trans w).0 ≡ ok (b ∷ bs)
        → save_rest fs (suc (length bs)) fd (b ∷ bs) (recv trans w).1 ≡ some (true, v)
        → download_loop fs http sha (suc fuel) fd hash_buf area trans w
          ≡ download_loop fs http sha fuel fd hash_buf
              (sha.block_update area (b ∷ bs))
              (received trans (suc (length bs)))
              v
    unfolding download_loop
    more_returns b bs v e saved = rw (e, download_loop) (rw (saved, download_loop))

    module _ (at : IsSaving whole area trans.trans_id w) where
      pub after_error :
          (recv trans w).0 ≡ negative → IsDownloaded (suc fuel) whole hash_buf area trans w
      unfolding error_out
      after_error e =
          let law = response.recv_keeps trans.trans_id block_size w in
          record {
            out = error_out;
            returns = error_returns e;
            outcome = inr (refl, refl, law.0 fd ∙ at.writes);
            same_status_code = refl;
            same_id = refl;
            same_handles = λ f _. law.0 f;
            same_files = λ q _. law.1 q;
          }

      pub after_end : (recv trans w).0 ≡ ok [] → IsDownloaded (suc fuel) whole hash_buf area trans w
      unfolding end_out
      after_end e =
          let law = response.recv_keeps trans.trans_id block_size w in
          let last = disk.close_keeps fd (recv trans w).1 in
          let over : body w trans.trans_id ≡ [] =
            (response.recv_some trans.trans_id block_size w e).1 (omega arith) refl in
          let all : file w path ≡ whole = sym (append-nil (file w path)) ∙ rw (← over) at.split in
          record {
            out = end_out;
            returns = end_returns e;
            outcome = inl (
              refl,
              last.2 path ∙ law.1 path ∙ all,
              rw (response.digest-result area, at.hashed, all),
              last.0,
            );
            same_status_code = refl;
            same_id = refl;
            same_handles = λ f ne. last.1 f ne ∙ law.0 f;
            same_files = λ q _. last.2 q ∙ law.1 q;
          }

      -- A block has come and is on its way to the file.
      module _ (b : ℕ) (bs : List ℕ) (e : (recv trans w).0 ≡ ok (b ∷ bs))
          (saved : IsWritten
            (unchecked fs)
            (unchecked_disk fs disk)
            (suc (length bs))
            fd
            path
            (b ∷ bs)
            (recv trans w).1) where
        returned :
            save_rest fs (suc (length bs)) fd (b ∷ bs) (recv trans w).1
            ≡ some (saved.complete, saved.world)
        returned =
            save_rest-write_rest fs (suc (length bs)) fd (b ∷ bs) (recv trans w).1 ∙ saved.returns

        pub after_stop :
            saved.complete ≡ false → IsDownloaded (suc fuel) whole hash_buf area trans w
        unfolding stop_out unchecked_disk
        after_stop c =
            let law = response.recv_keeps trans.trans_id block_size w in
            record {
              out = stop_out (suc (length bs)) saved.world;
              returns = stop_returns b bs saved.world e (rw (← c) returned);
              outcome = inr (refl, refl, saved.same_handles fd ∙ law.0 fd ∙ at.writes);
              same_status_code = refl;
              same_id = refl;
              same_handles = λ f _. saved.same_handles f ∙ law.0 f;
              same_files = λ q ne. saved.same_files q ne ∙ law.1 q;
            }

        saved_file : saved.complete ≡ true → file saved.world path ≡ file w path ++ b ∷ bs
        unfolding unchecked_disk
        saved_file c =
            saved.appended
            ∙ ap₂ ◌++◌ ((response.recv_keeps trans.trans_id block_size w).1 path)
                (take_all saved.count (b ∷ bs) (omega (arith, saved.all_written c)))

        saved_body : (b ∷ bs) ++ body saved.world trans.trans_id ≡ body w trans.trans_id
        saved_body =
            ap (◌++◌ (b ∷ bs)) (
              save_rest-keeps fs (λ v. body v trans.trans_id)
                (λ f bytes v. response.write_keeps f bytes trans.trans_id v) (suc (length bs)) fd
                (b ∷ bs) (recv trans w).1 saved.complete saved.world returned)
            ∙ (response.recv_some trans.trans_id block_size w e).0

        pub next_IsSaving :
            saved.complete ≡ true
            → IsSaving whole (sha.block_update area (b ∷ bs)) trans.trans_id saved.world
        unfolding unchecked_disk
        next_IsSaving c = record {
          writes =
              saved.same_handles fd
              ∙ (response.recv_keeps trans.trans_id block_size w).0 fd
              ∙ at.writes;
          split = rw (saved_file c, append_assoc) (ap (◌++◌ (file w path)) saved_body ∙ at.split);
          hashed = response.absorbed-update area (b ∷ bs) ∙ rw at.hashed (sym (saved_file c));
        }

        pub next_body : length (body saved.world trans.trans_id) < length (body w trans.trans_id)
        next_body = omega (
          arith,
          ap length saved_body,
          length-append {0} (b ∷ bs) (body saved.world trans.trans_id),
        )

        pub after_more :
            saved.complete ≡ true
            → IsDownloaded fuel whole hash_buf
                (sha.block_update area (b ∷ bs))
                (received trans (suc (length bs)))
                saved.world
            → IsDownloaded (suc fuel) whole hash_buf area trans w
        unfolding unchecked_disk
        after_more c rest =
            let law = response.recv_keeps trans.trans_id block_size w in
            record {
              out = rest.out;
              returns = more_returns b bs saved.world e (rw (← c) returned) ∙ rest.returns;
              outcome = rest.outcome;
              same_status_code = rest.same_status_code;
              same_id = rest.same_id;
              same_handles = λ f ne. rest.same_handles f ne ∙ saved.same_handles f ∙ law.0 f;
              same_files = λ q ne. rest.same_files q ne ∙ saved.same_files q ne ∙ law.1 q;
            }
