-- ===== src/Tests/Restarting.antt =====
-- An update on the way, with the console of `Tests.Update`.
use patchwork.Prelude.{ℕ, ◌≡◌, refl, inr, true, some, codes, arith}
use patchwork.Memory.{Memory}
use patchwork.Text.Strings.{IsString}
use patchwork.FileSystem.InMemory.{World, in_memory_disk}
use patchwork.Update.{PatchworkLaunchArgs, try_restart_module, install_path, download_path}
use patchwork.Start.{PatchworkConfigOptions, write_bytes, wants_update}
use patchwork.Start.Restarting.{IsUpdatable, IsSettled, restarted}
use patchwork.Tests.Http.{short_digest, response, online}
use patchwork.Tests.Update.{frame, keeps, tried_fits, fits_after, announced-IsReadable}
use patchwork.Tests.Start.{services}

abbrev options : PatchworkConfigOptions
options = record {
  server_url = 0;
  join_key = 0;
  digest_key = 0;
  enable_join_key = 0;
  update_server_url = 0x2000400;
  enable_updates = 1;
}

abbrev first_args : PatchworkLaunchArgs
first_args = record { old_process = 0; updated = 0 }

abbrev configured : Memory
configured = write_bytes (λ a. 0) 0x2000400 (codes "a.org")

configured-IsString : IsString configured 0x2000400 (codes "a.org")
unfolding write_bytes
configured-IsString = ground arith

wanted : wants_update (some first_args) options ≡ true
unfolding wants_update
wanted = refl

configured-IsUpdatable : IsUpdatable services short_digest 9 frame options configured online
configured-IsUpdatable = record {
  disk = in_memory_disk 2;
  response = response 2;
  keeps = keeps install_path;
  keeps_download = keeps download_path;
  url = codes "a.org";
  here = configured-IsString;
  enough = omega arith;
  enough_rounds = tried_fits (codes "a.org");
  readable = λ _. announced-IsReadable (codes "a.org");
  enough_after = fits_after (codes "a.org");
}

-- The module that is started leaves the memory alone here.
first_IsSettled :
    IsSettled services short_digest 9 frame options configured online (some first_args) configured
unfolding try_restart_module
first_IsSettled = inr (wanted, (configured-IsUpdatable, λ err w1 e. kept err w1))
  where
    kept :
        (err : ℕ) (w1 : World)
        → configured ≡ (restarted services short_digest 9 frame options configured online err w1).0
    kept err w1 = ground arith
