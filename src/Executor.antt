-- ===== src/Executor.antt =====
-- The executor of approved changes, src/changes/executor.js.
pub mod Host
pub mod Change
pub mod Stages
pub mod Files
pub mod Paths
pub mod RoundTrip
pub mod Patches
pub mod Runs
pub mod CleanLog
pub mod Keeps
pub mod StageLog
pub mod Stable
pub mod Clean
pub mod Records
pub mod Verdicts
pub mod Filed
pub mod OneTask
pub mod Moves
mod Examples
