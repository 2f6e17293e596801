-- ===== src/Update/Installed.antt =====
-- The end of `TryUpdateAndInstall`: what becomes of the installed plugin.
use native.Mathlib.Decide.{ℕ_discrete}
use text.Mathlib.Text.{◌==◌ as str_eq}
use text.Mathlib.TextEquality.{eq_iff}
use patchwork.Prelude.{ℕ, ◌<◌, ◌≡◌, ◌≢◌, refl, ◌∙◌, ◌⊎◌, inl, inr, true, some, String}
use patchwork.Prelude.{length, take, arith}
use patchwork.Message.{Message}
use patchwork.FileSystem.Disk.{Disk}
use patchwork.Files.Results.{IsReturned, copy_file-IsReturned}
use patchwork.Http.{Sha256}
use patchwork.Update.{Platform, download_path, install_path, line, install_update, finish_update}

pub download-ne-install : download_path ≢ install_path
download-ne-install e =
    let h : str_eq download_path install_path ≡ true = (eq_iff download_path install_path).1 e in
    absurd (ground arith)

module _ {W : Type 0} (p : Platform W) (sha : Sha256) (disk : Disk p.fs) where
  open disk use {file}

  -- A message to the log or to the user leaves the installed plugin alone.
  pub record KeepsInstalled : Type 0 where
    pub log_ln : (m : Message) (w : W) → file (p.log_ln m w) install_path ≡ file w install_path
    pub error_dialog :
        (text : String) (w : W) → file (p.error_dialog text w) install_path ≡ file w install_path

  module _ (fuel err : ℕ) (w : W) where
    pub record IsFinished : Type 0 where
      pub world : W
      pub returns : finish_update p sha fuel err w ≡ some (err, world)
      pub installed :
          (file world install_path ≡ file w install_path)
          ⊎ ((err ≡ 1)
              × ((count : ℕ) × (file world install_path ≡ take count (file w download_path))))

    module _ (keeps : KeepsInstalled) where
      abbrev Copied : Type 0
      Copied = IsReturned p.fs disk fuel download_path install_path w

      installs : err ≡ 1 → Copied → IsFinished
      unfolding finish_update install_update
      installs e copied = record {
        world = p.log_ln (line "No patchwork update available") copied.world;
        returns = rw (copied.returns, e);
        installed = elim copied.outcome [
          | inl (_, _, same) ↦
              inl (
                keeps.log_ln (line "No patchwork update available") copied.world
                ∙ same install_path)
          | inr (_, (count, content, _)) ↦ inr (
            e,
            (count, keeps.log_ln (line "No patchwork update available") copied.world ∙ content),
          )
        ];
      }

      fails : err ≡ 2 → IsFinished
      unfolding finish_update
      fails e =
          let logged = p.log_ln (line "Update failed") w in
          record {
            world = p.error_dialog "Failed to update patchwork" logged;
            returns = rw (e);
            installed = inl (
                keeps.error_dialog "Failed to update patchwork" logged
                ∙ keeps.log_ln (line "Update failed") w);
          }

      stays : err ≢ 1 → err ≢ 2 → IsFinished
      unfolding finish_update
      stays not_1 not_2 = record { world = w; returns = ground arith; installed = inl refl }

      -- Given fuel for the length of the downloaded file, the end of the update returns the result
      -- of the download, whatever the copy gives. The installed plugin changes only after a result
      -- of 1, and then it holds the downloaded file from its start, to the end or to a point.
      pub finish_update-IsFinished : length (file w download_path) < fuel → IsFinished
      finish_update-IsFinished enough = elim (ℕ_discrete err 1) [
        | yes e ↦ installs e (
            copy_file-IsReturned p.fs disk fuel download_path install_path w download-ne-install
              enough)
        | no not_1 ↦ elim (ℕ_discrete err 2) [ yes e ↦ fails e | no not_2 ↦ stays not_1 not_2 ]
      ]
