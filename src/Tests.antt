-- ===== src/Tests.antt =====
-- The theorems at concrete inputs.
mod Pump
mod Sound
mod Screens
mod Network
mod Windows
mod Streaming
mod Copying
mod Log
