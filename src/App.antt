-- ===== src/App.antt =====
-- src/app: what runs once a frame, and its small state machines.
pub mod InputPump
pub mod RetryBackoff
pub mod AudioLossWindow
pub mod BufferDepthWindow
pub mod AudioPump
pub mod ClipboardPump
pub mod AutoConnect
pub mod IcoDecode
