-- ===== src/Input.antt =====
-- src/input: the messages that carry keyboard and mouse.
pub mod Protocol
