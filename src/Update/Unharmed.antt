-- ===== src/Update/Unharmed.antt =====
-- `TryUpdateAndInstall` as a whole: when the installed plugin changes, and into what.
use native.Mathlib.Decide.{ℕ_discrete}
use patchwork.Prelude.{Option}
use patchwork.Prelude.{
  ℕ, ◌<◌, ◌≡◌, ◌≢◌, refl, sym, ◌∙◌, ◌⊎◌, inl, inr, String, Bool-cases, some, List, length, take, ap,
  arith,
}
use patchwork.FileSystem.Disk.{Disk}
use patchwork.Http.{Sha256, HttpTransaction}
use patchwork.Http.Download.{Response}
use patchwork.Update.{
  Platform, StackFrame, Headers, download_path, install_path, size_64k, read_headers,
  download_update, finish_update, try_update_and_install,
}
use patchwork.Update.Hash.{Matches}
use patchwork.Update.Keeps.{Keeps}
use patchwork.Update.Verified.{IsVerified, IsReadable, HasFailed, KeepsDownload}
use patchwork.Update.Outcome.{whole, headers, sent, IsUpdated, download_update-IsUpdated}
use patchwork.Update.Installed.{
  KeepsInstalled, IsFinished, finish_update-IsFinished, download-ne-install,
}

module _ {W : Type 0} (p : Platform W) (sha : Sha256) (disk : Disk p.fs)
    (response : Response p.fs disk p.http sha) where
  open disk use {file}

  abbrev download_kept : Keeps p sha disk download_path → KeepsDownload p sha disk response
  download_kept kept = record {
    log_ln = kept.log_ln;
    destroy_transaction = kept.destroy_transaction;
    end = kept.end;
    destroy_client = kept.destroy_client;
  }

  abbrev installed_kept : Keeps p sha disk install_path → KeepsInstalled p sha disk
  installed_kept kept = record { log_ln = kept.log_ln; error_dialog = kept.error_dialog }

  read_headers-err-ne-one :
      (hash_header : Option (List ℕ)) (trans : HttpTransaction) (w : W)
      → (read_headers p sha hash_header trans w).err ≢ 1
  unfolding read_headers
  read_headers-err-ne-one hash_header trans w = ground arith

  module _ (keeps : Keeps p sha disk install_path) (keeps_download : Keeps p sha disk download_path)
      (fuel : ℕ) (frame : StackFrame) (url : List ℕ) (w : W) where
    -- The pool and the world when the download begins.
    abbrev pub began : ℕ × W
    began = p.sys_memory_allocate size_64k (p.sys_net_initialize_network w).1

    abbrev begun : W
    begun = began.1

    abbrev pool : ℕ
    pool = began.0

    abbrev Updated : Type 0
    Updated =
        IsUpdated p sha disk response (download_kept keeps_download) fuel frame pool size_64k url
          begun

    abbrev pub answer : List ℕ
    answer =
        whole p sha disk response (download_kept keeps_download) fuel frame pool size_64k url begun

    -- What the server has announced.
    abbrev pub announced : Headers p sha
    announced =
        headers p sha disk response (download_kept keeps_download) fuel frame pool size_64k url
          begun

    abbrev pub answer_status : ℕ
    answer_status =
        (sent p sha disk response (download_kept keeps_download) fuel frame pool size_64k url
          begun).0.status_code

    -- The download of the answer has failed.
    abbrev pub DownloadFailed : Type 0
    DownloadFailed =
        HasFailed p sha disk response fuel frame
          (sent p sha disk response (download_kept keeps_download) fuel frame pool size_64k url
            begun).0
          announced.world

    -- The plugin is the downloaded file, from its start, to the end or to a point. The hash that is
    -- announced is that of the buffer, which holds the digest of the answer, then in the file, or,
    -- if the download has failed, what was on the stack.
    pub record IsReplaced (err : ℕ) (world : W) : Type 0 where
      pub value : List ℕ
      pub is_announced : announced.value ≡ some value
      pub is_one : err ≡ 1
      pub downloaded : W
      pub hash : List ℕ
      pub hash_matches : Matches p.str_to_int value hash
      pub fetched :
          ((file downloaded download_path ≡ answer) × (hash ≡ sha.digest answer))
          ⊎ (DownloadFailed × (hash ≡ frame.hash_buf))
      pub count : ℕ
      pub content : file world install_path ≡ take count (file downloaded download_path)

    pub record IsTried : Type 0 where
      pub err : ℕ
      pub world : W
      pub returns : try_update_and_install p sha fuel frame url w ≡ some (err, world)
      pub outcome : (file world install_path ≡ file w install_path) ⊎ IsReplaced err world

    no_network : (p.sys_net_initialize_network w).0 ≡ 0 → IsTried
    unfolding try_update_and_install
    no_network e = record {
      err = 2;
      world = (p.sys_net_initialize_network w).1;
      returns = rw (e, try_update_and_install) refl;
      outcome = inl (keeps.initialize_network w);
    }

    abbrev closing : W → W
    closing v = p.sys_net_finalize_network (p.sys_memory_free pool v)

    returns_networked :
        (err : ℕ) (v : W)
        → (p.sys_net_initialize_network w).0 ≢ 0
        → download_update p sha fuel frame pool size_64k url begun ≡ some (err, v)
        → try_update_and_install p sha fuel frame url w ≡ finish_update p sha fuel err (closing v)
    unfolding try_update_and_install
    returns_networked err v on downloaded = ground (arith, downloaded)

    -- Only an answer 200 gives 1.
    one-IsVerified :
        (updated : Updated)
        → updated.err ≡ 1
        → (value : List ℕ) × (announced.value ≡ some value)
          × IsVerified p sha disk response frame value answer DownloadFailed updated.err
              updated.world
    one-IsVerified updated one =
        let request =
          (sent p sha disk response (download_kept keeps_download) fuel frame pool size_64k url
            begun).0 in
        elim (ℕ_discrete pool 0) [
          | yes e ↦ absurd (omega (arith, one, updated.no_pool (inl e)))
          | no has_pool ↦ elim (Bool-cases request.failed) [
            | inl e ↦ absurd (omega (arith, one, updated.not_sent e))
            | inr fine ↦ elim (ℕ_discrete request.status_code 200) [
              | yes e ↦ updated.found has_pool (λ z. absurd (omega arith)) fine e
              | no not_200 ↦ elim (ℕ_discrete request.status_code 204) [
                | yes e ↦ absurd (
                    omega
                      (arith, one, updated.no_content has_pool (λ z. absurd (omega arith)) fine e))
                | no not_204 ↦ absurd (
                    read_headers-err-ne-one frame.hash_header request _ (
                      sym (updated.other has_pool (λ z. absurd (omega arith)) fine not_200 not_204)
                      ∙ one))
              ]
            ]
          ]
        ]

    closing-file : (q : String) → Keeps p sha disk q → (v : W) → file (closing v) q ≡ file v q
    closing-file q kept v = kept.finalize_network (p.sys_memory_free pool v) ∙ kept.free pool v

    replaced :
        (updated : Updated) (world : W) (count : ℕ)
        → updated.err ≡ 1
        → file world install_path ≡ take count (file (closing updated.world) download_path)
        → IsReplaced updated.err world
    replaced updated world count one content =
        let (value, is_announced, verified) = one-IsVerified updated one in
        record {
          value = value;
          is_announced = is_announced;
          is_one = one;
          downloaded = updated.world;
          hash = verified.hash;
          hash_matches = elim verified.verdict [
            | inl (matches, _) ↦ matches
            | inr (_, two) ↦ absurd (omega (arith, one, two))
          ];
          fetched = verified.fetched;
          count = count;
          content =
              content ∙ ap (take count) (closing-file download_path keeps_download updated.world);
        }

    finished :
        (updated : Updated)
        → (p.sys_net_initialize_network w).0 ≢ 0
        → IsFinished p sha disk fuel updated.err (closing updated.world)
        → IsTried
    finished updated on done = record {
      err = updated.err;
      world = done.world;
      returns = returns_networked updated.err updated.world on updated.returns ∙ done.returns;
      outcome = elim done.installed [
        | inl same ↦ inl (
            same
            ∙ closing-file install_path keeps updated.world
            ∙ updated.others install_path (λ e. download-ne-install (sym e)) keeps
            ∙ keeps.allocate size_64k (p.sys_net_initialize_network w).1
            ∙ keeps.initialize_network w)
        | inr (one, (count, content)) ↦ inr (replaced updated done.world count one content)
      ];
    }

    pub try_update_and_install-IsTried :
        length answer < fuel
        → (answer_status ≡ 200 → IsReadable p sha disk response announced.value)
        → ((err : ℕ) (v : W)
            → download_update p sha fuel frame pool size_64k url begun ≡ some (err, v)
            → length (file v download_path) < fuel)
        → IsTried
    try_update_and_install-IsTried enough readable enough_after =
        elim (ℕ_discrete (p.sys_net_initialize_network w).0 0) [
          | yes off ↦ no_network off
          | no on ↦
              let updated =
                download_update-IsUpdated p sha disk response (download_kept keeps_download) fuel
                  frame pool size_64k url begun enough readable in
              let fits = enough_after updated.err updated.world updated.returns in
              let same = closing-file download_path keeps_download updated.world in
              finished updated on (
                finish_update-IsFinished p sha disk fuel updated.err (closing updated.world)
                  (installed_kept keeps) (omega (arith, fits, ap length same)))
        ]
