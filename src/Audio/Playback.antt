-- ===== src/Audio/Playback.antt =====
-- src/audio/playback.cpp: the callback that cuts the packets of the jitter buffer into the pieces
-- that the playback device asks for. The device itself (miniaudio) is not modelled.
pub mod Filling
pub mod Content
use no_cap_kvm.Prelude.{
  ℕ, zero, suc, ◌+◌, ◌-◌, Bool, Option, none, some, List, [], ◌∷◌, ◌++◌, length, take, drop,
  replicate, ltb, leb, ◌==◌, if◌then◌else◌, min,
}
use no_cap_kvm.Audio.JitterBuffer.{JitterBuffer, Frame, pop, create, depth}
use no_cap_kvm.Audio.Stream.{AudioFormat}

-- kTargetDepth and kMaxDepth
abbrev pub target_depth : ℕ
target_depth = 8

abbrev pub max_depth : ℕ
max_depth = 200

pub record PlaybackImpl : Type 0 where
  pub buffer : JitterBuffer
  pub silence_byte : ℕ
  pub carry : Frame
  pub carry_pos : ℕ

-- AudioPlayback's constructor and `start`, when the device opens.
unfoldable pub start : AudioFormat → PlaybackImpl
unfolding create
start format = record {
  buffer = create target_depth max_depth;
  silence_byte = if format.bit_depth == 8 then 128 else 0;
  carry = [];
  carry_pos = 0;
}

-- Copies what the current packet has for the request.
unfoldable pub copy : PlaybackImpl → ℕ → Frame × PlaybackImpl
copy impl remaining =
    let n = min remaining (length impl.carry - impl.carry_pos) in
    (take n (drop impl.carry_pos impl.carry), record impl { carry_pos = impl.carry_pos + n })

-- What follows `pop`: no packet ends the loop, an empty one goes round again with nothing copied.
unfoldable pub take_popped :
    PlaybackImpl → ℕ → JitterBuffer → Option Frame → Option Frame × PlaybackImpl
take_popped impl remaining jb none = (none, record impl { buffer = jb })
take_popped impl remaining jb (some []) =
    (some [], record impl { buffer = jb; carry = []; carry_pos = 0 })
take_popped impl remaining jb (some (b ∷ bs)) =
    let copied = copy (record impl { buffer = jb; carry = b ∷ bs; carry_pos = 0 }) remaining in
    (some copied.0, copied.1)

-- One round of the loop: none for the `break`, else the bytes it has copied.
unfoldable pub round : PlaybackImpl → ℕ → Option Frame × PlaybackImpl
round impl remaining =
    if leb (length impl.carry) impl.carry_pos
    then take_popped impl remaining (pop impl.buffer).0 (pop impl.buffer).1
    else (some (copy impl remaining).0, (copy impl remaining).1)

pub record Filled : Type 0 where
  pub out : Frame
  pub impl : PlaybackImpl
  pub remaining : ℕ

abbrev pub more : Frame → Option Filled → Option Filled
more bytes none = none
more bytes (some f) = some (record f { out = bytes ++ f.out })

-- The loop; none when the fuel does not last.
unfoldable pub fill : ℕ → PlaybackImpl → ℕ → Option Filled
fill fuel impl zero = some (record { out = []; impl = impl; remaining = 0 })
fill zero impl (suc r) = none
fill (suc fuel) impl (suc r) = elim ((round impl (suc r)).0) [
  | none ↦ some (record { out = []; impl = (round impl (suc r)).1; remaining = suc r })
  | some bytes ↦ more bytes (fill fuel (round impl (suc r)).1 (suc r - length bytes))
]

-- Every round uses up a byte of the request or a packet of the buffer.
abbrev pub fuel_for : PlaybackImpl → ℕ → ℕ
fuel_for impl byte_count = byte_count + depth impl.buffer

-- What goes to the device, the state after it, and by how much audio_underruns goes up.
pub record Answer : Type 0 where
  pub out : Frame
  pub impl : PlaybackImpl
  pub underruns : ℕ

abbrev pub pad : Filled → Answer
pad f = record {
  out = f.out ++ replicate f.remaining f.impl.silence_byte;
  impl = f.impl;
  underruns = if ltb 0 f.remaining then 1 else 0;
}

unfoldable pub data_callback : PlaybackImpl → ℕ → Option Answer
data_callback impl byte_count = elim (fill (fuel_for impl byte_count) impl byte_count) [
  | none ↦ none
  | some f ↦ some (pad f)
]
