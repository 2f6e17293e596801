-- ===== src/Sysmodules.antt =====
-- src/tools/modules.c: the system modules that are loaded before anything else and unloaded at
-- the end. The console's calls, the identifiers of src/tools/modules.h and the logger are
-- parameters.
pub mod Laws
use patchwork.Prelude.{codes, ℕ, ◌+◌, List, [], ◌∷◌, ◌==◌, if◌then◌else◌}
use patchwork.Message.{Message, number}

-- `CELL_SYSMODULE_FS`, `CELL_SYSMODULE_NET` and `CELL_SYSMODULE_HTTP`
pub record SysmoduleIds : Type 0 where
  pub fs : ℕ
  pub net : ℕ
  pub http : ℕ

abbrev pub modules : SysmoduleIds → List ℕ
modules ids = ids.fs ∷ ids.net ∷ ids.http ∷ []

abbrev pub load_failed : ℕ → Message
load_failed i = record {
  format = codes "Failed to load module of id: %d";
  arguments = number i ∷ [];
}

abbrev pub unload_failed : ℕ → Message
unload_failed i = record {
  format = codes "Failed to unload module of id: %d";
  arguments = number i ∷ [];
}

module _ {W : Type 0} (log_ln : Message → W → W) where
  -- The loop of both functions, from index `i` on: `call` gives 0 on success.
  unfoldable pub for_modules : (ℕ → W → ℕ × W) → (ℕ → Message) → ℕ → List ℕ → W → W
  for_modules call failed i [] w = w
  for_modules call failed i (id ∷ ids) w =
      let (result, w') = call id w in
      for_modules call failed (i + 1) ids (if result == 0 then w' else log_ln (failed i) w')

  unfoldable pub load_all_modules : (ℕ → W → ℕ × W) → SysmoduleIds → W → W
  load_all_modules cell_sysmodule_load_module ids =
      for_modules cell_sysmodule_load_module load_failed 0 (modules ids)

  unfoldable pub unload_all_modules : (ℕ → W → ℕ × W) → SysmoduleIds → W → W
  unload_all_modules cell_sysmodule_unload_module ids =
      for_modules cell_sysmodule_unload_module unload_failed 0 (modules ids)
