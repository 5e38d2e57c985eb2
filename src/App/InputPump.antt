-- ===== src/App/InputPump.antt =====
-- src/app/input_pump.cpp: one frame of the Master's keyboard and mouse, and who owns them. The build
-- is the Windows one; on Linux the hook is a stub that never delivers an event.
pub mod State
pub mod Handoff
pub mod Pump
pub mod Escape
pub mod Held
pub mod Ownership
pub mod Release
pub mod Moves
