-- ===== src/Discovery/SecureChannel.antt =====
-- include/nockvm/discovery/secure_channel.h and src/discovery/secure_channel.cpp: the encrypted
-- frames of a connection. The socket is the bytes that arrive within the frame's deadline, and
-- whether the peer closes after them.
pub mod Delivery
use no_cap_kvm.Prelude.{
  ℕ, zero, suc, ◌+◌, ◌-◌, ◌*◌, Bool, true, false, ◌||◌, Option, none, some, List, [], ◌∷◌, ◌++◌,
  length, take, drop, ltb, ◌==◌, if◌then◌else◌,
}
use no_cap_kvm.Prelude.Bytes.{u32, u64, write_be32, read_be32}
use no_cap_kvm.Discovery.Crypto.{Bytes, Sodium}
use no_cap_kvm.Discovery.Noise.{aead_encrypt, aead_decrypt}
use no_cap_kvm.Discovery.NoiseIk.{TransportKeys}

-- kMaxFrameLen, 8u << 20
abbrev pub max_frame_len : ℕ
max_frame_len = 8 * 1048576

pub record Wire : Type 0 where
  pub bytes : Bytes
  pub has_closed : Bool

pub record SecureChannel : Type 0 where
  pub keys : TransportKeys
  pub send_nonce : ℕ
  pub recv_nonce : ℕ

-- RecvResult, Ok with the message.
pub data Received : Type 0 where
  timeout closed error : Received
  ok : ℕ → Bytes → Received

abbrev pub open_channel : TransportKeys → SecureChannel
open_channel keys = record { keys = keys; send_nonce = 0; recv_nonce = 0 }

-- None when the bytes run out, with those that came consumed.
unfoldable pub read_exact : ℕ → Wire → Option Bytes × Wire
read_exact len wire =
    if ltb (length wire.bytes) len
    then (none, record wire { bytes = [] })
    else (some (take len wire.bytes), record wire { bytes = drop len wire.bytes })

-- What a read that fails amounts to.
abbrev pub cut_short : Wire → Received
cut_short wire = if wire.has_closed then closed else error

abbrev pub is_empty : Bytes → Bool
is_empty [] = true
is_empty (b ∷ bs) = false

abbrev pub as_message : Bytes → Received
as_message [] = error
as_message (msg_type ∷ payload) = ok msg_type payload

module _ (c : Sodium) where
  -- The bytes that go out, and the channel after them.
  unfoldable pub send : SecureChannel → ℕ → Bytes → Bytes × SecureChannel
  send ch msg_type payload =
      let ciphertext = aead_encrypt c ch.keys.send_key ch.send_nonce [] (msg_type ∷ payload) in
      (
        write_be32 (u32 (length ciphertext)) ++ ciphertext,
        record ch { send_nonce = u64 (ch.send_nonce + 1) },
      )

  -- What follows a whole frame.
  unfoldable pub open_frame : SecureChannel → Bytes → Received × SecureChannel
  open_frame ch ciphertext = elim (aead_decrypt c ch.keys.recv_key ch.recv_nonce [] ciphertext) [
    | none ↦ (error, ch)
    | some plaintext ↦ (as_message plaintext, record ch { recv_nonce = u64 (ch.recv_nonce + 1) })
  ]

  -- What follows the four bytes of the length.
  unfoldable pub receive_body : SecureChannel → ℕ → Wire → Received × SecureChannel × Wire
  receive_body ch ct_len wire =
      if (ct_len == 0) || ltb max_frame_len ct_len
      then (error, ch, wire)
      else (let (got, rest) = read_exact ct_len wire in
          elim got [
            | none ↦ (cut_short wire, ch, rest)
            | some ciphertext ↦ ((open_frame ch ciphertext).0, (open_frame ch ciphertext).1, rest)
          ])

  unfoldable pub receive : SecureChannel → Wire → Received × SecureChannel × Wire
  receive ch wire =
      if is_empty wire.bytes
      then if wire.has_closed then (closed, ch, wire) else (timeout, ch, wire)
      else (let (got, rest) = read_exact 4 wire in
          elim got [
            | none ↦ (cut_short wire, ch, rest)
            | some len_buf ↦ receive_body ch (read_be32 len_buf 0) rest
          ])

  -- Messages sent one after the other.
  unfoldable pub send_messages : SecureChannel → List (ℕ × Bytes) → Bytes × SecureChannel
  send_messages ch [] = ([], ch)
  send_messages ch ((msg_type, payload) ∷ ms) =
      let sent = send ch msg_type payload in
      let rest = send_messages sent.1 ms in (sent.0 ++ rest.0, rest.1)

  -- `n` calls of receive.
  unfoldable pub receive_messages : ℕ → SecureChannel → Wire → List Received × SecureChannel × Wire
  receive_messages zero ch wire = ([], ch, wire)
  receive_messages (suc n) ch wire =
      let got = receive ch wire in
      let rest = receive_messages n got.1 got.2 in (got.0 ∷ rest.0, rest.1, rest.2)
