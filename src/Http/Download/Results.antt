-- ===== src/Http/Download/Results.antt =====
-- `HttpDownloadFile` as a whole.
use mathlib.Core.Option
use native.Mathlib.Decide.{ℕ_discrete}
use patchwork.Prelude.{ℕ, zero, suc, ◌<◌, ◌≡◌, ◌≢◌, refl, sym, ◌∙◌, ◌⊎◌, inl, inr}
use patchwork.Prelude.{Bool, true, false, Option, none, some, String, List, [], ◌∷◌, length, arith}
use patchwork.FileSystem.{FileSystem, create_truncate}
use patchwork.FileSystem.Disk.{Disk, closed, writer}
use patchwork.Files.Writing.{IsWritten, write_rest-IsWritten}
use patchwork.Http.{HttpLibrary, HttpTransaction, Sha256, Result, ok, negative}
use patchwork.Http.Saving.{Downloaded, download_loop, http_download_file}
use patchwork.Http.Download.{Response, unchecked, unchecked_disk}
use patchwork.Http.Download.Rounds.{
  IsSaving, IsDownloaded, recv, after_error, after_end, after_stop, after_more, next_IsSaving,
  next_body,
}

module _ {W : Type 0} (fs : FileSystem W) (disk : Disk fs) (http : HttpLibrary W) (sha : Sha256)
    (response : Response fs disk http sha) (path : String) where
  open disk use {file, handle}
  open response use {body}

  module _ (fd : ℕ) (whole : List ℕ) (hash_buf : Option (List ℕ)) where
    abbrev Continues : ℕ → Type 0
    Continues fuel =
        (area : sha.WorkArea) (trans : HttpTransaction) (w : W)
        → IsSaving fs disk http sha response path fd whole area trans.trans_id w
        → length (body w trans.trans_id) < fuel
        → IsDownloaded fs disk http sha response path fd fuel whole hash_buf area trans w

    module _ (fuel : ℕ) (area : sha.WorkArea) (trans : HttpTransaction) (w : W)
        (continue : Continues fuel)
        (at : IsSaving fs disk http sha response path fd whole area trans.trans_id w)
        (enough : length (body w trans.trans_id) < suc fuel) where
      abbrev Done : Type 0
      Done = IsDownloaded fs disk http sha response path fd (suc fuel) whole hash_buf area trans w

      abbrev reply : Result (List ℕ) × W
      reply = recv fs disk http sha response path fd trans w

      after_write :
          (b : ℕ) (bs : List ℕ)
          → reply.0 ≡ ok (b ∷ bs)
          → (saved : IsWritten
              (unchecked fs)
              (unchecked_disk fs disk)
              (suc (length bs))
              fd
              path
              (b ∷ bs)
              reply.1)
          → (complete : Bool) → saved.complete ≡ complete
          → Done
      after_write b bs e saved false c =
          after_stop fs disk http sha response path fd fuel whole hash_buf area trans w at b bs e
            saved c
      after_write b bs e saved true c =
          after_more fs disk http sha response path fd fuel whole hash_buf area trans w at b bs e
            saved c
            (continue (sha.block_update area (b ∷ bs)) _ saved.world
              (next_IsSaving fs disk http sha response path fd fuel whole hash_buf area trans w at b
                bs e saved c)
              (omega (
                arith,
                next_body fs disk http sha response path fd fuel whole hash_buf area trans w at b bs
                    e saved,
              )))

      write_saved :
          (b : ℕ) (bs : List ℕ)
          → IsWritten
              (unchecked fs)
              (unchecked_disk fs disk)
              (suc (length bs))
              fd
              path
              (b ∷ bs)
              reply.1
      unfolding unchecked_disk
      write_saved b bs =
          write_rest-IsWritten (unchecked fs) (unchecked_disk fs disk) (suc (length bs)) fd path
            (b ∷ bs) reply.1 (omega arith)
            ((response.recv_keeps trans.trans_id 256 w).0 fd ∙ at.writes)

      after_recv : (r : Result (List ℕ)) → reply.0 ≡ r → Done
      after_recv negative e =
          after_error fs disk http sha response path fd fuel whole hash_buf area trans w at e
      after_recv (ok []) e =
          after_end fs disk http sha response path fd fuel whole hash_buf area trans w at e
      after_recv (ok (b ∷ bs)) e =
          let saved = write_saved b bs in after_write b bs e saved saved.complete refl

    download_loop-IsDownloaded : (fuel : ℕ) → Continues fuel
    download_loop-IsDownloaded zero area trans w at enough = absurd (omega arith)
    download_loop-IsDownloaded (suc fuel) area trans w at enough =
        after_recv fuel area trans w (download_loop-IsDownloaded fuel) at enough
          (http.cell_http_recv_response trans.trans_id 256 w).0 refl

  -- The call has returned, and touched no other file; the transaction keeps its status code.
  pub record IsFetched (fuel : ℕ) (trans : HttpTransaction) (hash_buf : Option (List ℕ)) (w : W)
      : Type 0 where
    pub out : Downloaded W
    pub returns : http_download_file fs http sha fuel trans path hash_buf w ≡ some out
    -- Either it returns 1, with the response in the file, its digest in the buffer and the file
    -- closed; or it returns 0 and leaves the buffer alone, and, if the file could be opened, a new
    -- descriptor is still open.
    pub outcome :
        (out.status ≡ 1)
          × (file out.world path ≡ body w trans.trans_id)
          × (out.hash ≡ Option.map (λ _. sha.digest (body w trans.trans_id)) hash_buf)
          × ((f : ℕ) → handle out.world f ≡ handle w f)
        ⊎ ((out.status ≡ 0)
            × (out.hash ≡ hash_buf)
            × (((fs.cell_fs_open path create_truncate w).0 ≡ none)
                ⊎ ((fd : ℕ) × (handle w fd ≡ closed) × (handle out.world fd ≡ writer path))))
    pub same_status_code : out.trans.status_code ≡ trans.status_code
    pub same_id : out.trans.trans_id ≡ trans.trans_id
    pub same_files : (q : String) → q ≢ path → file out.world q ≡ file w q

  module _ (fuel : ℕ) (trans : HttpTransaction) (hash_buf : Option (List ℕ)) (w : W) where
    abbrev opened : Option ℕ × W
    opened = fs.cell_fs_open path create_truncate w

    abbrev closed_out : Downloaded W
    closed_out = record { status = 0; hash = hash_buf; trans = trans; world = opened.1 }

    returns_unopened :
        opened.0 ≡ none
        → http_download_file fs http sha fuel trans path hash_buf w ≡ some closed_out
    unfolding http_download_file
    returns_unopened e = rw (e, http_download_file)

    returns_opened :
        (fd : ℕ)
        → opened.0 ≡ some fd
        → http_download_file fs http sha fuel trans path hash_buf w
          ≡ download_loop fs http sha fuel fd hash_buf sha.block_init trans opened.1
    unfolding http_download_file
    returns_opened fd e = rw (e, http_download_file)

    not_opened : opened.0 ≡ none → IsFetched fuel trans hash_buf w
    not_opened e =
        let law = disk.open_write_error path w e in
        record {
          out = closed_out;
          returns = returns_unopened e;
          outcome = inr (refl, refl, inl e);
          same_status_code = refl;
          same_id = refl;
          same_files = λ q _. law.1 q;
        }

    module _ (fd : ℕ) (e : opened.0 ≡ some fd) where
      starts :
          IsSaving fs disk http sha response path fd
            (body w trans.trans_id)
            sha.block_init
            trans.trans_id
            opened.1
      starts =
          let law = disk.open_write path w e in
          record {
            writes = law.1;
            split = rw law.3 (response.open_keeps path trans.trans_id w);
            hashed = response.absorbed-init ∙ sym law.3;
          }

      was_opened : length (body w trans.trans_id) < fuel → IsFetched fuel trans hash_buf w
      was_opened enough =
          let law = disk.open_write path w e in
          let done =
            download_loop-IsDownloaded fd (body w trans.trans_id) hash_buf fuel sha.block_init trans
              opened.1 starts (rw (response.open_keeps path trans.trans_id w) enough) in
          record {
            out = done.out;
            returns = returns_opened fd e ∙ done.returns;
            outcome = elim done.outcome [
              | inl (one, saved, hashed, shut) ↦ inl (
                one,
                saved,
                hashed,
                λ f. elim (ℕ_discrete f fd) [
                  | yes q ↦ rw q (shut ∙ sym law.0)
                  | no ne ↦ done.same_handles f ne ∙ law.2 f ne
                ],
              )
              | inr (zero', kept, still) ↦ inr (zero', kept, inr (fd, law.0, still))
            ];
            same_status_code = done.same_status_code;
            same_id = done.same_id;
            same_files = λ q ne. done.same_files q ne ∙ law.4 q ne;
          }

  -- `HttpDownloadFile`, with fuel for the length of the response, returns, touches no other file
  -- and keeps the transaction's identifier and status code. Either it returns 1, the file is the
  -- rest of the response, the buffer for the hash (if there is one) holds its SHA-256, and every
  -- descriptor is as before; or it returns 0 and leaves that buffer alone, and if the file could be
  -- opened the descriptor that it got is still open.
  pub http_download_file-IsFetched :
      (fuel : ℕ) (trans : HttpTransaction) (hash_buf : Option (List ℕ)) (w : W)
      → length (body w trans.trans_id) < fuel
      → IsFetched fuel trans hash_buf w
  http_download_file-IsFetched fuel trans hash_buf w enough =
      by_opened (fs.cell_fs_open path create_truncate w).0 refl
    where
      by_opened :
          (o : Option ℕ)
          → (fs.cell_fs_open path create_truncate w).0 ≡ o
          → IsFetched fuel trans hash_buf w
      by_opened none e = not_opened fuel trans hash_buf w e
      by_opened (some fd) e = was_opened fuel trans hash_buf w fd e enough
