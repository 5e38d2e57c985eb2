-- ===== src/Discovery/NoiseIk.antt =====
-- src/discovery/noise_ik.cpp: the key exchange of the two machines. What the socket does is an
-- argument: the reply that arrives in time, none for a failure.
pub mod Agreement
use no_cap_kvm.Prelude.{
  ℕ, ◌+◌, Bool, true, Option, none, some, List, [], ◌∷◌, ◌++◌, ◌≡◌, length, take, drop, ◌==◌,
  if◌then◌else◌,
}
use no_cap_kvm.Prelude.Text.{codes}
use no_cap_kvm.Prelude.Choice.{◌>>=◌}
use no_cap_kvm.Discovery.Crypto.{Bytes, Sodium}
use no_cap_kvm.Discovery.Noise.{
  Keypair, SymmetricState, dh, initialize_symmetric, mix_hash, mix_key, encrypt_and_hash,
  decrypt_and_hash, split,
}

pub record TransportKeys : Type 0 where
  pub send_key : Bytes
  pub recv_key : Bytes

-- The result with `ok` true; none stands for `ok` false.
pub record IkResult : Type 0 where
  pub keys : TransportKeys
  pub peer_static : Bytes

abbrev pub protocol_name : Bytes
protocol_name = codes "Noise_IK_25519_ChaChaPoly_SHA256"

-- `len` bytes from `off` on.
abbrev pub slice : ℕ → ℕ → Bytes → Bytes
slice off len bytes = take len (drop off bytes)

module _ (c : Sodium) where
  -- The state after the pre-message, the responder's static key.
  unfoldable pub begin : Bytes → SymmetricState
  begin responder_static = mix_hash c (initialize_symmetric c protocol_name) responder_static

  -- run_ik_initiator up to its first message.
  unfoldable pub initiator_message : Keypair → Bytes → Keypair → Option (SymmetricState × Bytes)
  initiator_message own_static peer_static e = do
    es ← dh c e.private_key peer_static
    let s1 = mix_key c (mix_hash c (begin peer_static) e.public_key) es
    let sent_s = encrypt_and_hash c s1 own_static.public_key
    ss ← dh c own_static.private_key peer_static
    let sent_payload = encrypt_and_hash c (mix_key c sent_s.0 ss) []
    some (sent_payload.0, e.public_key ++ (sent_s.1 ++ sent_payload.1))

  -- The rest of it, with the 48 bytes of the second message.
  unfoldable pub initiator_finish :
      Keypair → Bytes → Keypair → SymmetricState → Bytes → Option IkResult
  initiator_finish own_static peer_static e s msg2 = do
    let re2 = take 32 msg2
    ee ← dh c e.private_key re2
    se ← dh c own_static.private_key re2
    done ← decrypt_and_hash c (mix_key c (mix_key c (mix_hash c s re2) ee) se) (slice 32 16 msg2)
    let k = split c done.0
    some (record { keys = record { send_key = k.0; recv_key = k.1 }; peer_static = peer_static })

  -- `exchange` sends the first message and waits for the second.
  unfoldable pub run_ik_initiator :
      Keypair → Bytes → Keypair → (Bytes → Option Bytes) → Option IkResult
  run_ik_initiator own_static peer_static e exchange = do
    first ← initiator_message own_static peer_static e
    msg2 ← exchange first.1
    initiator_finish own_static peer_static e first.0 msg2

  -- The responder's side up to its own message: what it read, and the state after it.
  unfoldable pub responder_read : Keypair → Bytes → Option (SymmetricState × Bytes)
  responder_read own_static msg1 = do
    let re = take 32 msg1
    es ← dh c own_static.private_key re
    let s1 = mix_key c (mix_hash c (begin own_static.public_key) re) es
    read_s ← decrypt_and_hash c s1 (slice 32 48 msg1)
    rs_initiator ← if length read_s.1 == 32 then some read_s.1 else none
    ss ← dh c own_static.private_key rs_initiator
    read_payload ← decrypt_and_hash c (mix_key c read_s.0 ss) (slice 80 16 msg1)
    some (read_payload.0, rs_initiator)

  -- Its message, and the result when that has been sent.
  unfoldable pub responder_reply :
      Keypair → Bytes → SymmetricState → Bytes → Option (Bytes × IkResult)
  responder_reply e2 re s rs_initiator = do
    ee ← dh c e2.private_key re
    se ← dh c e2.private_key rs_initiator
    let s' = mix_key c (mix_key c (mix_hash c s e2.public_key) ee) se
    let sent = encrypt_and_hash c s' []
    let k = split c sent.0
    some (
      e2.public_key ++ sent.1,
      record { keys = record { send_key = k.1; recv_key = k.0 }; peer_static = rs_initiator },
    )

  -- On the 96 bytes of the first message: the second message and the result.
  unfoldable pub run_ik_responder : Keypair → Keypair → Bytes → Option (Bytes × IkResult)
  run_ik_responder own_static e2 msg1 = do
    got ← responder_read own_static msg1
    responder_reply e2 (take 32 msg1) got.0 got.1
