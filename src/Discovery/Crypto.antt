-- ===== src/Discovery/Crypto.antt =====
-- The functions of libsodium that src/discovery/noise_primitives.cpp, pairing.cpp and
-- src/audio/protocol.cpp call, as a parameter, with the documented laws that the protocols rely on.
use no_cap_kvm.Prelude.{ℕ, ◌+◌, Option, some, List, ◌≡◌, length}

abbrev pub Bytes : Type 0
Bytes = List ℕ

-- `hmac key message` is crypto_auth_hmacsha256, `scalarmult private public` is
-- crypto_scalarmult_curve25519 (none where it reports a degenerate point), `public_of` the public
-- half of crypto_box_keypair, `seal` and `unseal key nonce ad text` the ChaCha20-Poly1305 pair,
-- `generichash` crypto_generichash without a key.
pub record Sodium : Type 0 where
  pub sha256 : Bytes → Bytes
  pub generichash : Bytes → Bytes
  pub hmac : Bytes → Bytes → Bytes
  pub scalarmult : Bytes → Bytes → Option Bytes
  pub public_of : Bytes → Bytes
  pub seal : Bytes → Bytes → Bytes → Bytes → Bytes
  pub unseal : Bytes → Bytes → Bytes → Bytes → Option Bytes

-- Two honest key pairs have a shared secret, the same from both sides; decryption undoes encryption;
-- a ciphertext is 16 bytes longer than its text, and a public key has 32 bytes.
pub record SodiumLaws (c : Sodium) : Type 0 where
  pub shared :
      (a b : Bytes)
      → (k : Bytes) × (c.scalarmult a (c.public_of b) ≡ some k)
        × (c.scalarmult b (c.public_of a) ≡ some k)
  pub unseal-seal : (k n ad p : Bytes) → c.unseal k n ad (c.seal k n ad p) ≡ some p
  pub length-seal : (k n ad p : Bytes) → length (c.seal k n ad p) ≡ length p + 16
  pub length-public_of : (a : Bytes) → length (c.public_of a) ≡ 32
