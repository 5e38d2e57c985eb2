-- ===== src/Discovery/SecureChannel/Delivery.antt =====
-- The messages that one end sends are those that the other receives.
use no_cap_kvm.Prelude.{
  ℕ, ◌+◌, ◌^◌, ◌≤◌, ◌<◌, ◌≡◌, refl, sym, ap, ◌∙◌, Bool, true, false, ◌||◌, some, List, [], ◌∷◌,
  ◌++◌, length, length-append, take, drop, ltb, ltb-false, ◌==◌, arith, map,
}
use mathlib.Core.List.{append_assoc}
use no_cap_kvm.Prelude.Bytes.{u32, u64, write_be32, read_be32-write_be32}
use no_cap_kvm.Discovery.Crypto.{Bytes, Sodium, SodiumLaws}
use no_cap_kvm.Discovery.Noise.{
  aead_encrypt, aead_decrypt, aead_decrypt-encrypt, length-aead_encrypt,
}
use no_cap_kvm.Discovery.SecureChannel.{
  max_frame_len, SecureChannel, Received, ok, error, read_exact, send, open_frame, receive_body,
  receive, send_messages, receive_messages,
}

-- The payload with its type byte and the 16 bytes of the tag fits a frame.
abbrev pub FitsFrame : ℕ × Bytes → Type 0
FitsFrame m = length m.1 + 17 ≤ max_frame_len

abbrev pub AllFit : List (ℕ × Bytes) → Type 0
AllFit [] = Unit {0}
AllFit (m ∷ ms) = FitsFrame m × AllFit ms

-- The sender's key and counter are those that the receiver reads with.
pub record InSync (sender receiver : SecureChannel) : Type 0 where
  pub same_key : sender.keys.send_key ≡ receiver.keys.recv_key
  pub same_nonce : sender.send_nonce ≡ receiver.recv_nonce

take_front : (a b : Bytes) → take (length a) (a ++ b) ≡ a
take_front [] b = refl
take_front (x ∷ a) b = ap (◌∷◌ x) (take_front a b)

drop_front : (a b : Bytes) → drop (length a) (a ++ b) ≡ b
drop_front [] b = refl
drop_front (x ∷ a) b = drop_front a b

read_exact_front :
    (a b : Bytes) (cl : Bool)
    → read_exact (length a) (record { bytes = a ++ b; has_closed = cl })
      ≡ (some a, record { bytes = b; has_closed = cl })
unfolding read_exact
read_exact_front a b cl =
    rw
      (
        ltb-false (length (a ++ b)) (length a) (omega (arith, length-append {0} a b)),
        take_front a b,
        drop_front a b,
      )
      refl

module _ {c : Sodium} (laws : SodiumLaws c) where
  -- The sealed message is of a length that the receiver takes.
  length-sealed :
      (sender : SecureChannel) (t : ℕ) (p ct : Bytes)
      → aead_encrypt c sender.keys.send_key sender.send_nonce [] (t ∷ p) ≡ ct
      → length ct ≡ length p + 17
  length-sealed sender t p ct e =
      ap length (sym e)
      ∙ length-aead_encrypt laws sender.keys.send_key sender.send_nonce [] (t ∷ p)
      ∙ omega arith

  open_frame-seal :
      (sender receiver : SecureChannel) (t : ℕ) (p ct : Bytes)
      → InSync sender receiver
      → aead_encrypt c sender.keys.send_key sender.send_nonce [] (t ∷ p) ≡ ct
      → open_frame c receiver ct
        ≡ (ok t p, record receiver { recv_nonce = u64 (receiver.recv_nonce + 1) })
  unfolding open_frame
  open_frame-seal sender receiver t p ct sync e =
      let opened : aead_decrypt c receiver.keys.recv_key receiver.recv_nonce [] ct ≡ some (t ∷ p) =
        ap (λ k. aead_decrypt c k receiver.recv_nonce [] ct) (sym sync.same_key)
        ∙ ap (λ n. aead_decrypt c sender.keys.send_key n [] ct) (sym sync.same_nonce)
        ∙ ap (aead_decrypt c sender.keys.send_key sender.send_nonce []) (sym e)
        ∙ aead_decrypt-encrypt laws sender.keys.send_key sender.send_nonce [] (t ∷ p) in
      rw (open_frame, opened) refl

  receive_body-seal :
      (sender receiver : SecureChannel) (t : ℕ) (p rest : Bytes) (cl : Bool)
      → InSync sender receiver
      → FitsFrame (t, p)
      → (ct : Bytes) → aead_encrypt c sender.keys.send_key sender.send_nonce [] (t ∷ p) ≡ ct
      → receive_body c receiver (length ct) (record { bytes = ct ++ rest; has_closed = cl }) ≡ (
        ok t p,
        record receiver { recv_nonce = u64 (receiver.recv_nonce + 1) },
        record { bytes = rest; has_closed = cl },
      )
  unfolding receive_body
  receive_body-seal sender receiver t p rest cl sync fits ct e =
      let len = length-sealed sender t p ct e in
      let guard : ((length ct == 0) || ltb max_frame_len (length ct)) ≡ false = ground arith in
      let read = read_exact_front ct rest cl in
      let opened = open_frame-seal sender receiver t p ct sync e in
      rw (guard, read, opened, ap (λ w. w.1) read) refl

  -- Once the length is read, the body follows.
  receive_header :
      (receiver : SecureChannel) (l : ℕ) (body : Bytes) (cl : Bool)
      → l < 2 ^ 32
      → receive c receiver (record { bytes = write_be32 (u32 l) ++ body; has_closed = cl })
        ≡ receive_body c receiver l (record { bytes = body; has_closed = cl })
  unfolding receive write_be32
  receive_header receiver l body cl h =
      let word : u32 l ≡ l = omega arith in
      let read = read_exact_front (write_be32 (u32 l)) body cl in
      let value = read_be32-write_be32 (u32 l) [] (omega arith) in
      rw (read, ap (λ w. w.1) read, value, word) refl

  -- One message: what is sent is received, and the rest of the stream stays.
  receive-send :
      (sender receiver : SecureChannel) (t : ℕ) (p rest : Bytes) (cl : Bool)
      → InSync sender receiver
      → FitsFrame (t, p)
      → receive c receiver (record { bytes = (send c sender t p).0 ++ rest; has_closed = cl }) ≡ (
        ok t p,
        record receiver { recv_nonce = u64 (receiver.recv_nonce + 1) },
        record { bytes = rest; has_closed = cl },
      )
  unfolding send
  receive-send sender receiver t p rest cl sync fits =
      let ct = aead_encrypt c sender.keys.send_key sender.send_nonce [] (t ∷ p) in
      let len = length-sealed sender t p ct refl in
      ap (λ b. receive c receiver (record { bytes = b; has_closed = cl }))
        (append_assoc (write_be32 (u32 (length ct))) ct rest)
      ∙ receive_header receiver (length ct) (ct ++ rest) cl (omega arith)
      ∙ receive_body-seal sender receiver t p rest cl sync fits ct refl

-- One message moves both counters on.
send-InSync :
    (c : Sodium) (sender receiver : SecureChannel) (t : ℕ) (p : Bytes)
    → InSync sender receiver
    → InSync (send c sender t p).1 (record receiver { recv_nonce = u64 (receiver.recv_nonce + 1) })
unfolding send
send-InSync c sender receiver t p sync = record {
  same_key = sync.same_key;
  same_nonce = ap (λ n. u64 (n + 1)) sync.same_nonce;
}

abbrev pub delivered : ℕ × Bytes → Received
delivered m = ok m.0 m.1

-- Whatever one end sends, the other receives: when both stand at the same key and counter and every
-- payload with its type byte and tag fits a frame, as many calls of receive as messages were sent
-- yield those messages, in order and complete, leave in the stream what came after them, and bring
-- the receiver's counter to the sender's.
pub receive-send_messages :
    {c : Sodium} (laws : SodiumLaws c) (sender receiver : SecureChannel) (ms : List (ℕ × Bytes))
    (rest : Bytes) (cl : Bool)
    → InSync sender receiver
    → AllFit ms
    → receive_messages c
        (length ms)
        receiver
        (record { bytes = (send_messages c sender ms).0 ++ rest; has_closed = cl })
      ≡ (
        map delivered ms,
        record receiver { recv_nonce = (send_messages c sender ms).1.send_nonce },
        record { bytes = rest; has_closed = cl },
      )
unfolding send_messages receive_messages
receive-send_messages laws sender receiver [] rest cl sync fits = rw sync.same_nonce refl
receive-send_messages {c = c} laws sender receiver ((t, p) ∷ ms) rest cl sync fits =
    let sent = send c sender t p in
    let later = send_messages c sent.1 ms in
    let first =
      ap (λ b. receive c receiver (record { bytes = b; has_closed = cl }))
        (append_assoc sent.0 later.0 rest)
      ∙ receive-send laws sender receiver t p (later.0 ++ rest) cl sync fits.0 in
    let next =
      receive-send_messages laws sent.1
        (record receiver { recv_nonce = u64 (receiver.recv_nonce + 1) }) ms rest cl
        (send-InSync c sender receiver t p sync) fits.1 in
    rw (first, next) refl

-- A payload that is too long for a frame is sent all the same, and what the receiver then has left
-- of the stream is the ciphertext without its length: it reports an error, and its next call reads
-- the ciphertext's own bytes as a length.
pub receive-send_oversize :
    {c : Sodium} (laws : SodiumLaws c) (sender receiver : SecureChannel) (t : ℕ) (p rest : Bytes)
    (cl : Bool)
    → max_frame_len < length p + 17
    → length p + 17 < 2 ^ 32
    → receive c receiver (record { bytes = (send c sender t p).0 ++ rest; has_closed = cl }) ≡ (
      error,
      receiver,
      record {
        bytes = aead_encrypt c sender.keys.send_key sender.send_nonce [] (t ∷ p) ++ rest;
        has_closed = cl;
      },
    )
unfolding send receive_body
receive-send_oversize {c = c} laws sender receiver t p rest cl big small =
    let ct = aead_encrypt c sender.keys.send_key sender.send_nonce [] (t ∷ p) in
    let len = length-sealed laws sender t p ct refl in
    let guard : ((length ct == 0) || ltb max_frame_len (length ct)) ≡ true = ground arith in
    ap (λ b. receive c receiver (record { bytes = b; has_closed = cl }))
      (append_assoc (write_be32 (u32 (length ct))) ct rest)
    ∙ receive_header laws receiver (length ct) (ct ++ rest) cl (omega arith)
    ∙ rw guard refl
