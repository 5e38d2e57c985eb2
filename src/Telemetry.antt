-- ===== src/Telemetry.antt =====
-- src/telemetry: the lines of the log and the files they go to.
pub mod Logger
pub mod Format
pub mod Transitions
pub mod Report
