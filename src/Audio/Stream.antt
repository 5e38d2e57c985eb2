-- ===== src/Audio/Stream.antt =====
-- include/nockvm/audio/format.h, src/audio/protocol.cpp and src/audio/channel.cpp: the audio packets.
-- The socket is what recvfrom gives: none when nothing waits, or when it reports an error or an
-- empty datagram, else the datagram, of which it writes what fits to the buffer (as on Linux; on
-- Windows it reports an error for a longer one).
pub mod Packets
use no_cap_kvm.Prelude.{
  ℕ, ◌+◌, ◌*◌, ◌/◌, Bool, true, false, ◌&&◌, Option, none, some, List, [], ◌∷◌, ◌++◌, length, drop,
  take, ltb, ◌==◌, if◌then◌else◌, map,
}
use no_cap_kvm.Prelude.Bytes.{u32, write_be32, read_be32}
use no_cap_kvm.Discovery.Crypto.{Bytes, Sodium}
use no_cap_kvm.Discovery.Noise.{aead_encrypt, aead_decrypt}

-- kChannels
abbrev pub channels : ℕ
channels = 2

pub record AudioFormat : Type 0 where
  pub sample_rate : ℕ
  pub bit_depth : ℕ

abbrev pub bytes_per_sample : AudioFormat → ℕ
bytes_per_sample f = f.bit_depth / 8

abbrev pub bytes_per_frame : AudioFormat → ℕ
bytes_per_frame f = u32 (bytes_per_sample f * channels)

abbrev pub frame_count : AudioFormat → ℕ
frame_count f = f.sample_rate / 200

-- The product is a size_t's, which is wide enough for a uint32_t times a number below 2^9.
unfoldable pub bytes_per_packet : AudioFormat → ℕ
bytes_per_packet f = frame_count f * bytes_per_frame f

abbrev pub same_format : AudioFormat → AudioFormat → Bool
same_format f g = (f.sample_rate == g.sample_rate) && (f.bit_depth == g.bit_depth)

-- "nockvm-audio-v1"
abbrev pub label : Bytes
label = 110 ∷ 111 ∷ 99 ∷ 107 ∷ 118 ∷ 109 ∷ 45 ∷ 97 ∷ 117 ∷ 100 ∷ 105 ∷ 111 ∷ 45 ∷ 118 ∷ 49 ∷ []

-- kMaxPacketSize
abbrev pub max_packet_size : ℕ
max_packet_size = 2048

pub record AudioChannel : Type 0 where
  pub key : Bytes
  pub send_seq : ℕ

abbrev pub open_channel : Bytes → AudioChannel
open_channel key = record { key = key; send_seq = 0 }

-- The result, and by how much audio_packets_received and audio_packets_rejected go up.
pub record Heard : Type 0 where
  pub frame : Option (ℕ × Bytes)
  pub received : ℕ
  pub rejected : ℕ

abbrev pub heard : Option (ℕ × Bytes) → Heard
heard none = record { frame = none; received = 1; rejected = 1 }
heard (some frame) = record { frame = some frame; received = 1; rejected = 0 }

-- What a loop over receive_nonblocking takes: the frames in order, what they raise the two
-- counters by, and what is left in the socket.
pub record Drained : Type 0 where
  pub frames : List (ℕ × Bytes)
  pub received : ℕ
  pub rejected : ℕ
  pub waiting : List Bytes

module _ (c : Sodium) where
  abbrev pub derive_audio_key : Bytes → Bytes
  derive_audio_key transport_key = c.generichash (transport_key ++ label)

  unfoldable pub encode_frame : Bytes → ℕ → Bytes → Bytes
  encode_frame key seq audio = write_be32 seq ++ aead_encrypt c key seq [] audio

  -- The sequence number that is read, and the audio.
  unfoldable pub decode_frame : Bytes → Bytes → Option (ℕ × Bytes)
  decode_frame key packet =
      if ltb (length packet) 4
      then none
      else elim (aead_decrypt c key (read_be32 packet 0) [] (drop 4 packet)) [
        | none ↦ none
        | some audio ↦ some (read_be32 packet 0, audio)
      ]

  -- The packet for sendto, and the channel after it; whether sendto takes it is not asked.
  unfoldable pub send_to : AudioChannel → Bytes → Bytes × AudioChannel
  send_to ch audio =
      (encode_frame ch.key ch.send_seq audio, record ch { send_seq = u32 (ch.send_seq + 1) })

  unfoldable pub receive_nonblocking : AudioChannel → Option Bytes → Heard
  receive_nonblocking ch none = record { frame = none; received = 0; rejected = 0 }
  receive_nonblocking ch (some packet) = heard (decode_frame ch.key (take max_packet_size packet))

  -- One packet after the other, as the capture callback sends them.
  unfoldable pub send_all : AudioChannel → List Bytes → List Bytes × AudioChannel
  send_all ch [] = ([], ch)
  send_all ch (audio ∷ rest) =
      let sent = send_to ch audio in let later = send_all sent.1 rest in (sent.0 ∷ later.0, later.1)

  -- The loop that takes what waits until the first call that yields nothing.
  unfoldable pub drain : AudioChannel → List Bytes → Drained
  drain ch [] = record { frames = []; received = 0; rejected = 0; waiting = [] }
  drain ch (packet ∷ rest) =
      let later = drain ch rest in
      let got = receive_nonblocking ch (some packet) in
      elim got.frame [
        | none ↦ record {
          frames = [];
          received = got.received;
          rejected = got.rejected;
          waiting = rest;
        }
        | some frame ↦ record {
          frames = frame ∷ later.frames;
          received = got.received + later.received;
          rejected = got.rejected + later.rejected;
          waiting = later.waiting;
        }
      ]
