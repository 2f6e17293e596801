-- ===== src/Sysmodules/Laws.antt =====
-- Every module is tried, and the log names the ones that failed.
use patchwork.Prelude.{
  ℕ, ◌+◌, ◌≡◌, ap, ◌∙◌, arith, inl, inr, Bool-cases, List, [], ◌∷◌, ◌++◌, ◌==◌, if◌then◌else◌,
}
use mathlib.Core.List.{append_assoc, append-nil}
use patchwork.Message.{Message}
use patchwork.Sysmodules.{
  SysmoduleIds, modules, for_modules, load_all_modules, unload_all_modules, load_failed,
  unload_failed,
}

-- A world with the messages that were logged, the oldest first.
abbrev pub Logged : Type 0 → Type 0
Logged W = W × List Message

module _ {W : Type 0} where
  abbrev pub record_message : Message → Logged W → Logged W
  record_message msg (w, msgs) = (w, msgs ++ msg ∷ [])

  abbrev pub lift_call : (ℕ → W → ℕ × W) → ℕ → Logged W → ℕ × Logged W
  lift_call call id (w, msgs) = let (result, w') = call id w in (result, (w', msgs))

  -- The world after the calls, and the messages for the indices of those that did not return 0.
  unfoldable pub attempts : (ℕ → W → ℕ × W) → (ℕ → Message) → ℕ → List ℕ → W → Logged W
  attempts call failed i [] w = (w, [])
  attempts call failed i (id ∷ ids) w =
      let (result, w') = call id w in
      let (end, msgs) = attempts call failed (i + 1) ids w' in
      (end, if result == 0 then msgs else failed i ∷ msgs)

  for_modules-attempts :
      (call : ℕ → W → ℕ × W) (failed : ℕ → Message) (i : ℕ) (ids : List ℕ) (w : W)
      (msgs : List Message)
      → for_modules record_message (lift_call call) failed i ids (w, msgs)
        ≡ ((attempts call failed i ids w).0, msgs ++ (attempts call failed i ids w).1)
  unfolding for_modules attempts
  for_modules-attempts call failed i [] w msgs = rw append-nil
  for_modules-attempts call failed i (id ∷ ids) w msgs = elim (Bool-cases ((call id w).0 == 0)) [
    | inl ok ↦ rw ok (for_modules-attempts call failed (i + 1) ids (call id w).1 msgs)
    | inr failure ↦ rw failure (
        for_modules-attempts call failed (i + 1) ids (call id w).1 (msgs ++ failed i ∷ [])
        ∙ rw append_assoc)
  ]

  -- The module for files, then that for the network, then that for HTTP.
  abbrev pub one_by_one : (ℕ → W → ℕ × W) → (ℕ → Message) → SysmoduleIds → W → Logged W
  one_by_one call failed ids w =
      let files = call ids.fs w in
      let network = call ids.net files.1 in
      let web = call ids.http network.1 in
      (
        web.1,
        (if files.0 == 0 then [] else failed 0 ∷ [])
            ++ (if network.0 == 0 then [] else failed 1 ∷ [])
            ++ (if web.0 == 0 then [] else failed 2 ∷ []),
      )

  attempts-modules :
      (call : ℕ → W → ℕ × W) (failed : ℕ → Message) (ids : SysmoduleIds) (w : W)
      → attempts call failed 0 (modules ids) w ≡ one_by_one call failed ids w
  unfolding attempts
  attempts-modules call failed ids w = ground arith

  -- `LoadAllModules` loads the file system, network and HTTP modules in this order, each one
  -- whatever became of the others, and logs the index of each one that failed, in order;
  -- `UnloadAllModules` unloads them in the same order and logs failures likewise.
  pub load_all_modules-attempts :
      (load unload : ℕ → W → ℕ × W) (ids : SysmoduleIds) (w : W) (msgs : List Message)
      → (load_all_modules record_message (lift_call load) ids (w, msgs)
          ≡ ((one_by_one load load_failed ids w).0, msgs ++ (one_by_one load load_failed ids w).1))
        × (unload_all_modules record_message (lift_call unload) ids (w, msgs) ≡ (
          (one_by_one unload unload_failed ids w).0,
          msgs ++ (one_by_one unload unload_failed ids w).1,
        ))
  unfolding load_all_modules unload_all_modules
  load_all_modules-attempts load unload ids w msgs = (
    for_modules-attempts load load_failed 0 (modules ids) w msgs
        ∙ ap (λ r. (r.0, msgs ++ r.1)) (attempts-modules load load_failed ids w),
    for_modules-attempts unload unload_failed 0 (modules ids) w msgs
        ∙ ap (λ r. (r.0, msgs ++ r.1)) (attempts-modules unload unload_failed ids w),
  )
