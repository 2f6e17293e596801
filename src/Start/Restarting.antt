-- ===== src/Start/Restarting.antt =====
-- The step of `start` that updates the module and restarts it.
use patchwork.Prelude.{
  ℕ, ◌<◌, ◌≡◌, refl, sym, ap, ◌∙◌, ◌⊎◌, inl, inr, true, false, Option, some, List, length, ◌==◌,
  if◌then◌else◌,
}
use patchwork.Memory.{Memory}
use patchwork.Text.Strings.{IsString}
use patchwork.Hooks.Apply.{Machine}
use patchwork.FileSystem.Disk.{Disk}
use patchwork.Http.{Sha256}
use patchwork.Http.Download.{Response}
use patchwork.Update.{
  PatchworkLaunchArgs, StackFrame, download_path, install_path, size_64k, download_update,
  try_update_and_install, try_restart_module,
}
use patchwork.Update.Keeps.{Keeps}
use patchwork.Update.Verified.{IsReadable}
use patchwork.Update.Unharmed.{
  answer, answer_status, announced, began, try_update_and_install-IsTried,
}
use patchwork.Start.{Services, PatchworkConfigOptions, wants_update}
use patchwork.Start.Steps.{update_and_restart}
use patchwork.Start.Configured.{string_at-IsString}

module _ {W : Type 0} (v : Services W) (sha : Sha256) (fuel : ℕ) (frame : StackFrame)
    (options : PatchworkConfigOptions) (m : Memory) (w : W) where
  -- The URL of the server is a string, the calls that are not about files leave the plugin and the
  -- download alone, the header of an answer 200 is a string for which the logger has room, and there
  -- is fuel for the URL, the answer and the file after the download.
  pub record IsUpdatable : Type 0 where
    pub disk : Disk v.platform.fs
    pub response : Response v.platform.fs disk v.platform.http sha
    pub keeps : Keeps v.platform sha disk install_path
    pub keeps_download : Keeps v.platform sha disk download_path
    pub url : List ℕ
    pub here : IsString m options.update_server_url url
    pub enough : length url < fuel
    pub enough_rounds :
        length (answer v.platform sha disk response keeps keeps_download fuel frame url w) < fuel
    pub readable :
        answer_status v.platform sha disk response keeps keeps_download fuel frame url w ≡ 200
        → IsReadable v.platform sha disk response
            (announced v.platform sha disk response keeps keeps_download fuel frame url w).value
    pub enough_after :
        (err : ℕ) (v' : W)
        → download_update v.platform sha fuel frame
            (began v.platform sha disk response keeps keeps_download fuel frame url w).0
            size_64k
            url
            (began v.platform sha disk response keeps keeps_download fuel frame url w).1
          ≡ some (err, v')
        → length (disk.file v' download_path) < fuel

  -- After a try to update: a module that was started has made of the memory what it has.
  abbrev pub restarted : ℕ → W → Machine W
  restarted err w1 = if err == 0 then (m, w1) else (try_restart_module v.platform sha (m, w1)).1

  -- The memory when the block is done is `later`: that of before, if no update is wanted; else the
  -- update has what it needs, and the memory is what the module that was started, if one was, has
  -- made of it.
  abbrev pub IsSettled : Option PatchworkLaunchArgs → Memory → Type 0
  IsSettled launch_args later =
      ((wants_update launch_args options ≡ false) × (later ≡ m))
      ⊎ ((wants_update launch_args options ≡ true)
          × ((can : IsUpdatable) × ((err : ℕ) (w1 : W)
                → try_update_and_install v.platform sha fuel frame can.url w ≡ some (err, w1)
                → later ≡ (restarted err w1).0)))

  -- The step returns, with or without an update.
  pub update_and_restart-some :
      (launch_args : Option PatchworkLaunchArgs) (later : Memory)
      → IsSettled launch_args later
      → (w' : W) × (update_and_restart v sha fuel frame launch_args options m w ≡ some (later, w'))
  unfolding update_and_restart
  update_and_restart-some launch_args later (inl (unwanted, same)) =
      (w, rw (unwanted, same, update_and_restart) refl)
  update_and_restart-some launch_args later (inr (wanted, (can, settles))) =
      let tried =
        try_update_and_install-IsTried v.platform sha can.disk can.response can.keeps
          can.keeps_download fuel frame can.url w can.enough_rounds can.readable can.enough_after in
      let read = string_at-IsString fuel m options.update_server_url can.url can.enough can.here in
      let returned : update_and_restart v sha fuel frame launch_args options m w
          ≡ some (restarted tried.err tried.world) =
        rw (wanted, read, tried.returns, update_and_restart) refl in
      (
        (restarted tried.err tried.world).1,
        returned
            ∙ ap (λ x. some (x, (restarted tried.err tried.world).1))
                (sym (settles tried.err tried.world tried.returns)),
      )
