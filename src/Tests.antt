-- ===== src/Tests.antt =====
-- Runs of the definitions, and the theorems at concrete inputs.
mod Hooks
mod Text
mod Tools
mod Files
mod Http
mod Update
mod Start
mod Booted
mod Restarting
mod Assembly
mod Generator
