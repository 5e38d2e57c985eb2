-- ===== src/Discovery/Noise.antt =====
-- src/discovery/noise_primitives.cpp: the symmetric state of the Noise handshake.
use no_cap_kvm.Prelude.{
  ℕ, ◌+◌, ◌-◌, ◌/◌, ◌^◌, Bool, true, false, Option, none, some, [], ◌∷◌, ◌++◌, ◌≡◌, length, leb,
  if◌then◌else◌, replicate, arith,
}
use no_cap_kvm.Prelude.Bytes.{u8, u64}
use no_cap_kvm.Discovery.Crypto.{Bytes, Sodium, SodiumLaws}

pub record Keypair : Type 0 where
  pub public_key : Bytes
  pub private_key : Bytes

pub record SymmetricState : Type 0 where
  pub h : Bytes
  pub ck : Bytes
  pub k : Bytes
  pub has_key : Bool
  pub n : ℕ

-- Four zero bytes and the counter, least byte first.
unfoldable pub nonce_bytes : ℕ → Bytes
nonce_bytes n =
    0
    ∷ 0
    ∷ 0
    ∷ 0
    ∷ u8 n
    ∷ u8 (n / 2 ^ 8)
    ∷ u8 (n / 2 ^ 16)
    ∷ u8 (n / 2 ^ 24)
    ∷ u8 (n / 2 ^ 32)
    ∷ u8 (n / 2 ^ 40)
    ∷ u8 (n / 2 ^ 48)
    ∷ u8 (n / 2 ^ 56)
    ∷ []

module _ (c : Sodium) where
  -- generate_keypair, from the private half that the generator draws.
  abbrev pub keypair : Bytes → Keypair
  keypair secret = record { public_key = c.public_of secret; private_key = secret }

  abbrev pub dh : Bytes → Bytes → Option Bytes
  dh own_private peer_public = c.scalarmult own_private peer_public

  unfoldable pub hkdf2 : Bytes → Bytes → Bytes × Bytes
  hkdf2 chaining_key ikm =
      let temp_key = c.hmac chaining_key ikm in
      let out1 = c.hmac temp_key (1 ∷ []) in (out1, c.hmac temp_key (out1 ++ (2 ∷ [])))

  unfoldable pub initialize_symmetric : Bytes → SymmetricState
  initialize_symmetric name =
      let h : Bytes =
        if leb (length name) 32 then name ++ replicate (32 - length name) 0 else c.sha256 name in
      record { h = h; ck = h; k = replicate 32 0; has_key = false; n = 0 }

  unfoldable pub mix_hash : SymmetricState → Bytes → SymmetricState
  mix_hash s text = record s { h = c.sha256 (s.h ++ text) }

  unfoldable pub mix_key : SymmetricState → Bytes → SymmetricState
  unfolding hkdf2
  mix_key s ikm = record s {
    ck = (hkdf2 s.ck ikm).0;
    k = (hkdf2 s.ck ikm).1;
    has_key = true;
    n = 0;
  }

  unfoldable pub aead_encrypt : Bytes → ℕ → Bytes → Bytes → Bytes
  aead_encrypt key nonce_counter ad plaintext = c.seal key (nonce_bytes nonce_counter) ad plaintext

  unfoldable pub aead_decrypt : Bytes → ℕ → Bytes → Bytes → Option Bytes
  aead_decrypt key nonce_counter ad ciphertext =
      c.unseal key (nonce_bytes nonce_counter) ad ciphertext

  -- The ciphertext that goes on the wire, and the state after it.
  unfoldable pub encrypt_and_hash : SymmetricState → Bytes → SymmetricState × Bytes
  encrypt_and_hash s plaintext =
      if s.has_key
      then (let ct = aead_encrypt s.k s.n s.h plaintext in
          (mix_hash (record s { n = u64 (s.n + 1) }) ct, ct))
      else (mix_hash s plaintext, plaintext)

  unfoldable pub decrypt_and_hash : SymmetricState → Bytes → Option (SymmetricState × Bytes)
  decrypt_and_hash s ciphertext =
      if s.has_key
      then elim (aead_decrypt s.k s.n s.h ciphertext) [
        | none ↦ none
        | some text ↦ some (mix_hash (record s { n = u64 (s.n + 1) }) ciphertext, text)
      ]
      else some (mix_hash s ciphertext, ciphertext)

  -- (k1, k2) = HKDF(ck, "", 2)
  unfoldable pub split : SymmetricState → Bytes × Bytes
  unfolding hkdf2
  split s = hkdf2 s.ck []

module _ {c : Sodium} (laws : SodiumLaws c) where
  pub aead_decrypt-encrypt :
      (key : Bytes) (n : ℕ) (ad text : Bytes)
      → aead_decrypt c key n ad (aead_encrypt c key n ad text) ≡ some text
  unfolding aead_decrypt aead_encrypt
  aead_decrypt-encrypt key n ad text = laws.unseal-seal key (nonce_bytes n) ad text

  pub length-aead_encrypt :
      (key : Bytes) (n : ℕ) (ad text : Bytes)
      → length (aead_encrypt c key n ad text) ≡ length text + 16
  unfolding aead_encrypt
  length-aead_encrypt key n ad text = laws.length-seal key (nonce_bytes n) ad text

  -- Both ends of a handshake message come to the same state.
  pub decrypt-encrypt_and_hash :
      (s : SymmetricState) (text : Bytes)
      → decrypt_and_hash c s (encrypt_and_hash c s text).1
        ≡ some ((encrypt_and_hash c s text).0, text)
  unfolding decrypt_and_hash encrypt_and_hash
  decrypt-encrypt_and_hash s text = ground (arith, aead_decrypt-encrypt s.k s.n s.h text)

  pub length-encrypt_and_hash :
      (s : SymmetricState) (text : Bytes)
      → s.has_key ≡ true
      → length (encrypt_and_hash c s text).1 ≡ length text + 16
  unfolding encrypt_and_hash
  length-encrypt_and_hash s text h = simp h (length-aead_encrypt s.k s.n s.h text)
