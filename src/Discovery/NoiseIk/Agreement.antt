-- ===== src/Discovery/NoiseIk/Agreement.antt =====
-- Two honest machines agree on the transport keys.
use no_cap_kvm.Prelude.{
  ℕ, zero, suc, Option, some, [], ◌∷◌, ◌++◌, ◌≡◌, refl, sym, ap, ◌∙◌, arith, length, take, drop,
  length-append,
}
use mathlib.Core.List.{append_assoc}
use no_cap_kvm.Prelude.Choice.{◌>>=◌}
use no_cap_kvm.Discovery.Crypto.{Bytes, Sodium, SodiumLaws}
use no_cap_kvm.Discovery.Noise.{
  Keypair, SymmetricState, keypair, mix_hash, mix_key, encrypt_and_hash, split,
  decrypt-encrypt_and_hash, length-encrypt_and_hash,
}
use no_cap_kvm.Discovery.NoiseIk.{
  IkResult, begin, slice, initiator_message, initiator_finish, run_ik_initiator, responder_read,
  responder_reply, run_ik_responder,
}

-- A field of a message is cut out again.
take_front : (n : ℕ) (a b : Bytes) → length a ≡ n → take n (a ++ b) ≡ a
take_front zero [] b h = refl
take_front zero (x ∷ a) b h = absurd (omega arith)
take_front (suc n) [] b h = absurd (omega arith)
take_front (suc n) (x ∷ a) b h = ap (◌∷◌ x) (take_front n a b (omega arith))

drop_front : (n : ℕ) (a b : Bytes) → length a ≡ n → drop n (a ++ b) ≡ b
drop_front zero [] b h = refl
drop_front zero (x ∷ a) b h = absurd (omega arith)
drop_front (suc n) [] b h = absurd (omega arith)
drop_front (suc n) (x ∷ a) b h = drop_front n a b (omega arith)

take_whole : (n : ℕ) (a : Bytes) → length a ≡ n → take n a ≡ a
take_whole zero [] h = refl
take_whole zero (x ∷ a) h = absurd (omega arith)
take_whole (suc n) [] h = absurd (omega arith)
take_whole (suc n) (x ∷ a) h = ap (◌∷◌ x) (take_whole n a (omega arith))

-- The second message of a responder that reads `msg`.
abbrev pub answer : (c : Sodium) → Keypair → Keypair → Bytes → Option Bytes
answer c own_static e2 msg = do got ← run_ik_responder c own_static e2 msg; some got.0

-- Two machines with static secrets `si` and `sr`, that draw the ephemeral secrets `ei` and `er`.
module _ {c : Sodium} (laws : SodiumLaws c) (si sr ei er : Bytes) where
  abbrev initiator : Keypair
  initiator = keypair c si

  abbrev responder : Keypair
  responder = keypair c sr

  abbrev secret : Bytes → Bytes → Bytes
  secret a b = (laws.shared a b).0

  -- The initiator's states and message fields.
  abbrev s1 : SymmetricState
  s1 = mix_key c (mix_hash c (begin c (c.public_of sr)) (c.public_of ei)) (secret ei sr)

  abbrev static_field : SymmetricState × Bytes
  static_field = encrypt_and_hash c s1 (c.public_of si)

  abbrev payload_field : SymmetricState × Bytes
  payload_field = encrypt_and_hash c (mix_key c static_field.0 (secret si sr)) []

  abbrev message_1 : Bytes
  message_1 = c.public_of ei ++ (static_field.1 ++ payload_field.1)

  initiator_message_lem :
      initiator_message c initiator (c.public_of sr) (keypair c ei)
      ≡ some (payload_field.0, message_1)
  unfolding initiator_message
  initiator_message_lem = rw ((laws.shared ei sr).1, (laws.shared si sr).1)

  length-static_field : length static_field.1 ≡ 48
  unfolding mix_key
  length-static_field =
      omega (arith, length-encrypt_and_hash laws s1 (c.public_of si) refl, laws.length-public_of si)

  length-payload_field : length payload_field.1 ≡ 16
  unfolding mix_key
  length-payload_field =
      omega (arith, length-encrypt_and_hash laws (mix_key c static_field.0 (secret si sr)) [] refl)

  ephemeral_slice : take 32 message_1 ≡ c.public_of ei
  ephemeral_slice = take_front 32 (c.public_of ei) _ (laws.length-public_of ei)

  static_slice : slice 32 48 message_1 ≡ static_field.1
  static_slice =
      ap (take 48) (drop_front 32 (c.public_of ei) _ (laws.length-public_of ei))
      ∙ take_front 48 static_field.1 payload_field.1 length-static_field

  payload_slice : slice 80 16 message_1 ≡ payload_field.1
  payload_slice =
      ap (λ m. slice 80 16 m) (sym (append_assoc (c.public_of ei) static_field.1 payload_field.1))
      ∙ ap (take 16) (
          drop_front 80 (c.public_of ei ++ static_field.1) payload_field.1 (
            omega (
              arith,
              length-append {0} (c.public_of ei) static_field.1,
              length-static_field,
              laws.length-public_of ei,
            )))
      ∙ take_whole 16 payload_field.1 length-payload_field

  responder_read_lem : responder_read c responder message_1 ≡ some (payload_field.0, c.public_of si)
  unfolding responder_read
  responder_read_lem =
      rw (ephemeral_slice, static_slice, payload_slice, (laws.shared ei sr).2)
        (rw (decrypt-encrypt_and_hash laws s1 (c.public_of si)) (
          rw (laws.length-public_of si, (laws.shared si sr).2)
            (rw (decrypt-encrypt_and_hash laws (mix_key c static_field.0 (secret si sr)) []) refl)))

  -- The two states of the second message, and its last field.
  abbrev s2 : SymmetricState
  s2 =
      mix_key c (mix_key c (mix_hash c payload_field.0 (c.public_of er)) (secret ei er))
        (secret si er)

  abbrev last_field : SymmetricState × Bytes
  last_field = encrypt_and_hash c s2 []

  abbrev message_2 : Bytes
  message_2 = c.public_of er ++ last_field.1

  abbrev initiator_result : IkResult
  initiator_result = record {
    keys = record { send_key = (split c last_field.0).0; recv_key = (split c last_field.0).1 };
    peer_static = c.public_of sr;
  }

  abbrev responder_result : IkResult
  responder_result = record {
    keys = record { send_key = (split c last_field.0).1; recv_key = (split c last_field.0).0 };
    peer_static = c.public_of si;
  }

  responder_reply_lem :
      responder_reply c (keypair c er) (c.public_of ei) payload_field.0 (c.public_of si)
      ≡ some (message_2, responder_result)
  unfolding responder_reply
  responder_reply_lem = rw ((laws.shared ei er).2, (laws.shared si er).2) refl

  run_ik_responder_lem :
      run_ik_responder c responder (keypair c er) message_1 ≡ some (message_2, responder_result)
  unfolding run_ik_responder
  run_ik_responder_lem = rw responder_read_lem (rw ephemeral_slice responder_reply_lem)

  length-last_field : length last_field.1 ≡ 16
  unfolding mix_key
  length-last_field = omega (arith, length-encrypt_and_hash laws s2 [] refl)

  answer_ephemeral : take 32 message_2 ≡ c.public_of er
  answer_ephemeral = take_front 32 (c.public_of er) _ (laws.length-public_of er)

  answer_payload : slice 32 16 message_2 ≡ last_field.1
  answer_payload =
      ap (take 16) (drop_front 32 (c.public_of er) _ (laws.length-public_of er))
      ∙ take_whole 16 last_field.1 length-last_field

  initiator_finish_lem :
      initiator_finish c initiator (c.public_of sr) (keypair c ei) payload_field.0 message_2
      ≡ some initiator_result
  unfolding initiator_finish
  initiator_finish_lem =
      rw (answer_ephemeral, (laws.shared ei er).1, (laws.shared si er).1, answer_payload)
        (rw (decrypt-encrypt_and_hash laws s2 []) refl)

  run_ik_initiator_lem :
      run_ik_initiator c initiator
        (c.public_of sr)
        (keypair c ei)
        (answer c responder (keypair c er))
      ≡ some initiator_result
  unfolding run_ik_initiator
  run_ik_initiator_lem = rw initiator_message_lem (rw run_ik_responder_lem initiator_finish_lem)

-- Two machines whose first message reaches the responder and whose second message reaches the
-- initiator both complete the handshake, whatever secrets they draw: the initiator, which dialled
-- the responder's static key, and the responder on the very message the initiator sent. Each sends
-- with the key the other receives with, and the responder has learnt the initiator's static key.
pub ik_agreement :
    {c : Sodium} (laws : SodiumLaws c) (si sr ei er : Bytes)
    → (s : SymmetricState) × (sent : Bytes) × (ri : IkResult) × (rr : IkResult) × (reply : Bytes)
      × (initiator_message c (keypair c si) (c.public_of sr) (keypair c ei) ≡ some (s, sent))
      × (run_ik_responder c (keypair c sr) (keypair c er) sent ≡ some (reply, rr))
      × (run_ik_initiator c
            (keypair c si)
            (c.public_of sr)
            (keypair c ei)
            (answer c (keypair c sr) (keypair c er))
          ≡ some ri)
      × (ri.keys.send_key ≡ rr.keys.recv_key)
      × (ri.keys.recv_key ≡ rr.keys.send_key)
      × (ri.peer_static ≡ c.public_of sr)
      × (rr.peer_static ≡ c.public_of si)
ik_agreement laws si sr ei er = (
  (payload_field laws si sr ei er).0,
  message_1 laws si sr ei er,
  initiator_result laws si sr ei er,
  responder_result laws si sr ei er,
  message_2 laws si sr ei er,
  initiator_message_lem laws si sr ei er,
  run_ik_responder_lem laws si sr ei er,
  run_ik_initiator_lem laws si sr ei er,
  refl,
  refl,
  refl,
  refl,
)
