-- ===== src/Discovery.antt =====
-- src/discovery: finding peers, trusting them, and the encrypted TCP session between the machines.
pub mod Types
pub mod Connection
pub mod Crypto
pub mod Noise
pub mod NoiseIk
pub mod SecureChannel
pub mod Payloads
pub mod Announce
pub mod PeerTable
pub mod Handshake
pub mod Session
pub mod RetryLoop
pub mod Listener
