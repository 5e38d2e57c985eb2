-- ===== src/Audio.antt =====
-- src/audio: the jitter buffer, the packet format, the UDP channel and the playback callback.
pub mod JitterBuffer
pub mod Stream
pub mod Playback
