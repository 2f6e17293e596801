-- ===== src/Hooks.antt =====
-- src/hooks/: the branch encoder, the patch tables and the loop that applies them.
pub mod Branch
pub mod Offsets
pub mod Patches
pub mod Apply
pub mod Game
pub mod Assembly
