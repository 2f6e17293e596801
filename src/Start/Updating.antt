-- ===== src/Start/Updating.antt =====
-- When `start` tries to update.
use native.Mathlib.Decide.{ℕ_discrete}
use patchwork.Prelude.{ℕ, ◌≡◌, ◌≢◌, refl, ◌⊎◌, inl, inr, Option, none, some, arith}
use patchwork.Memory.{Memory}
use patchwork.Http.{Sha256}
use patchwork.Update.{PatchworkLaunchArgs, StackFrame, restart_args}
use patchwork.Start.{Services, PatchworkConfigOptions, wants_update}
use patchwork.Start.Steps.{update_and_restart}

module _ {W : Type 0} (v : Services W) (sha : Sha256) (fuel : ℕ) (frame : StackFrame)
    (options : PatchworkConfigOptions) (m : Memory) (w : W) where
  -- Either `start` leaves memory and the world to its next step without an update, or it has launch arguments
  -- that say that it is not updated, updates are enabled, and there is a server for them. Without
  -- arguments, and with those of `TryRestartModule`, the first is the case, whatever the
  -- configuration says: a restarted module does not restart again.
  pub update_and_restart_cases :
      ((launch_args : Option PatchworkLaunchArgs)
        → (update_and_restart v sha fuel frame launch_args options m w ≡ some (m, w))
          ⊎ (((args : PatchworkLaunchArgs) × (launch_args ≡ some args) × (args.updated ≡ 0))
              × (options.enable_updates ≢ 0)
              × (options.update_server_url ≢ 0)))
      × (update_and_restart v sha fuel frame none options m w ≡ some (m, w))
      × ((my_id : ℕ)
          → update_and_restart v sha fuel frame (some (restart_args my_id)) options m w
            ≡ some (m, w))
  unfolding update_and_restart wants_update
  update_and_restart_cases = (by_args, refl, λ my_id. refl)
    where
      by_args :
          (launch_args : Option PatchworkLaunchArgs)
          → (update_and_restart v sha fuel frame launch_args options m w ≡ some (m, w))
            ⊎ (((args : PatchworkLaunchArgs) × (launch_args ≡ some args) × (args.updated ≡ 0))
                × (options.enable_updates ≢ 0)
                × (options.update_server_url ≢ 0))
      by_args none = inl refl
      by_args (some args) = elim (ℕ_discrete args.updated 0) [
        | no ne ↦ inl (ground arith)
        | yes fresh ↦ elim (ℕ_discrete options.enable_updates 0) [
          | yes disabled ↦ inl (ground arith)
          | no enabled ↦ elim (ℕ_discrete options.update_server_url 0) [
            | yes no_url ↦ inl (ground arith)
            | no has_url ↦ inr ((args, refl, fresh), enabled, has_url)
          ]
        ]
      ]
