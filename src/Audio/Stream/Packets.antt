-- ===== src/Audio/Stream/Packets.antt =====
-- The packets that one end sends are the frames that the other takes from its socket.
use no_cap_kvm.Prelude.{
  ℕ, zero, suc, ◌+◌, ◌*◌, ◌≤◌, ◌<◌, ◌^◌, ◌≡◌, refl, sym, ap, ◌∙◌, false, some, List, [], ◌∷◌, ◌++◌,
  length, drop, take, ltb, ltb-false, arith,
}
use no_cap_kvm.Prelude.Bytes.{u32, write_be32, read_be32, read_be32-write_be32}
use no_cap_kvm.Discovery.Crypto.{Bytes, Sodium, SodiumLaws}
use no_cap_kvm.Discovery.Noise.{
  aead_encrypt, aead_decrypt, aead_decrypt-encrypt, length-aead_encrypt,
}
use no_cap_kvm.Audio.Stream.{
  AudioFormat, bytes_per_packet, frame_count, bytes_per_frame, AudioChannel, encode_frame,
  decode_frame, send_to, heard, receive_nonblocking, send_all, Drained, drain, max_packet_size,
}

-- The audio under the sequence numbers from `seq` on, which wrap after 2^32 - 1.
abbrev pub numbered : ℕ → List Bytes → List (ℕ × Bytes)
numbered seq [] = []
numbered seq (audio ∷ rest) = (seq, audio) ∷ numbered (u32 (seq + 1)) rest

-- A drained socket with these frames before.
abbrev pub after : List (ℕ × Bytes) → Drained → Drained
after frames d = record d { frames = frames ++ d.frames; received = length frames + d.received }

-- Each packet of audio leaves room for its number and its tag in the receive buffer.
abbrev pub AllFit : List Bytes → Type 0
AllFit [] = Unit {0}
AllFit (audio ∷ rest) = (length audio + 20 ≤ max_packet_size) × AllFit rest

take_all : (n : ℕ) (bytes : Bytes) → length bytes ≤ n → take n bytes ≡ bytes
take_all zero [] h = refl
take_all zero (b ∷ bytes) h = absurd (omega arith)
take_all (suc n) [] h = refl
take_all (suc n) (b ∷ bytes) h = ap (λ rest. b ∷ rest) (take_all n bytes (omega arith))

add_zero : (n : ℕ) → 0 + n ≡ n
add_zero n = omega arith

suc_add : (m n : ℕ) → 1 + (m + n) ≡ suc m + n
suc_add m n = omega arith

packet_bound : (frames bytes : ℕ) → frames ≤ 240 → bytes ≤ 4 → frames * bytes ≤ 960
packet_bound frames zero h k = ground arith
packet_bound frames (suc zero) h k = ground arith
packet_bound frames (suc (suc zero)) h k = ground arith
packet_bound frames (suc (suc (suc zero))) h k = ground arith
packet_bound frames (suc (suc (suc (suc zero)))) h k = ground arith
packet_bound frames (suc (suc (suc (suc (suc n))))) h k = absurd (omega arith)

module _ {c : Sodium} (laws : SodiumLaws c) where
  length-encode_frame :
      (key : Bytes) (seq : ℕ) (audio : Bytes)
      → length (encode_frame c key seq audio) ≡ length audio + 20
  unfolding encode_frame write_be32
  length-encode_frame key seq audio = omega (arith, length-aead_encrypt laws key seq [] audio)

  decode_parts :
      (key packet : Bytes) (seq : ℕ) (audio : Bytes)
      → ltb (length packet) 4 ≡ false
      → read_be32 packet 0 ≡ seq
      → aead_decrypt c key seq [] (drop 4 packet) ≡ some audio
      → decode_frame c key packet ≡ some (seq, audio)
  unfolding decode_frame
  decode_parts key packet seq audio long value opened =
      rw (long, value, opened) (ap (λ n. some (n, audio)) value)

  decode-encode_frame :
      (key : Bytes) (seq : ℕ) (audio : Bytes)
      → seq < 2 ^ 32
      → decode_frame c key (encode_frame c key seq audio) ≡ some (seq, audio)
  unfolding encode_frame write_be32
  decode-encode_frame key seq audio h =
      let sealed = aead_encrypt c key seq [] audio in
      decode_parts key (write_be32 seq ++ sealed) seq audio
        (ltb-false (length (write_be32 seq ++ sealed)) 4 (omega arith))
        (read_be32-write_be32 seq sealed h) (aead_decrypt-encrypt laws key seq [] audio)

  receive_sent :
      (rx : AudioChannel) (key : Bytes) (seq : ℕ) (audio : Bytes)
      → key ≡ rx.key
      → seq < 2 ^ 32
      → length audio + 20 ≤ max_packet_size
      → receive_nonblocking c rx (some (encode_frame c key seq audio)) ≡ heard (some (seq, audio))
  unfolding receive_nonblocking
  receive_sent rx key seq audio e h fits =
      let packet = encode_frame c key seq audio in
      ap (λ p. heard (decode_frame c rx.key p))
        (take_all max_packet_size packet (omega (arith, length-encode_frame key seq audio)))
      ∙ ap (λ k. heard (decode_frame c k packet)) (sym e)
      ∙ ap heard (decode-encode_frame key seq audio h)

  drain_heard :
      (rx : AudioChannel) (packet : Bytes) (rest : List Bytes) (frame : ℕ × Bytes)
      → receive_nonblocking c rx (some packet) ≡ heard (some frame)
      → drain c rx (packet ∷ rest) ≡ (record (drain c rx rest) {
        frames = frame ∷ (drain c rx rest).frames;
        received = 1 + (drain c rx rest).received;
        rejected = 0 + (drain c rx rest).rejected;
      })
  unfolding drain
  drain_heard rx packet rest frame e = rw (drain, e) (rw e refl)

-- With the same key at both ends, a 32-bit counter at the sender, and audio that with the 20 bytes of
-- its number and its tag fits into the receiver's buffer of 2048 bytes, the loop that drains the
-- socket takes every packet that was sent, in the order of sending, as a frame with its own
-- sequence number and unchanged audio, counts it as received and not as rejected, and goes on with
-- what stands in the socket behind them.
pub drain-send_all :
    {c : Sodium} (laws : SodiumLaws c) (ch rx : AudioChannel) (audios rest : List Bytes)
    → ch.key ≡ rx.key
    → ch.send_seq < 2 ^ 32
    → AllFit audios
    → drain c rx ((send_all c ch audios).0 ++ rest)
      ≡ after (numbered ch.send_seq audios) (drain c rx rest)
unfolding send_all send_to
drain-send_all {c = c} laws ch rx [] rest e h fit = rw (add_zero (drain c rx rest).received) refl
drain-send_all {c = c} laws ch rx (audio ∷ audios) rest e h fit =
    let next = record ch { send_seq = u32 (ch.send_seq + 1) } in
    let sent = send_all c next audios in
    let packet = encode_frame c ch.key ch.send_seq audio in
    let d = drain c rx rest in
    let count = length (numbered (u32 (ch.send_seq + 1)) audios) in
    drain_heard laws rx packet (sent.0 ++ rest) (ch.send_seq, audio)
      (receive_sent laws rx ch.key ch.send_seq audio e h fit.0)
    ∙ rw
        (
          drain-send_all laws next rx audios rest e (omega arith) fit.1,
          add_zero d.rejected,
          suc_add count d.received,
        )
        refl

-- A packet of any format that the program offers, at most 48 kHz and 16 bits, has 20 bytes more than
-- its audio: no more than 980, which is below the receive buffer's size.
pub length-send_to :
    {c : Sodium} (laws : SodiumLaws c) (ch : AudioChannel) (f : AudioFormat) (audio : Bytes)
    → f.sample_rate ≤ 48000
    → f.bit_depth ≤ 16
    → length audio ≡ bytes_per_packet f
    → (length (send_to c ch audio).0 ≡ length audio + 20)
      × (length (send_to c ch audio).0 ≤ 980)
      × (length (send_to c ch audio).0 < max_packet_size)
unfolding send_to bytes_per_packet
length-send_to laws ch f audio r d e =
    let len = length-encode_frame laws ch.key ch.send_seq audio in
    let wide : bytes_per_frame f ≤ 4 = omega arith in
    let small = packet_bound (frame_count f) (bytes_per_frame f) (omega arith) wide in
    (len, omega arith, omega arith)
