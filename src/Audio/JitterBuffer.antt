-- ===== src/Audio/JitterBuffer.antt =====
-- include/nockvm/audio/jitter_buffer.h and src/audio/jitter_buffer.cpp: the buffer that reorders
-- and paces the audio packets. Each operation runs under the mutex, so it is one step here.
pub mod Invariant
pub mod Playout
pub mod Episodes
use no_cap_kvm.Prelude.{
  ℕ, suc, ◌+◌, ◌-◌, ◌/◌, ◌<◌, max, Bool, true, false, ◌&&◌, not, Option, none, some, List, [], ◌∷◌,
  length, ltb, leb, if◌then◌else◌,
}
use no_cap_kvm.Prelude.Bytes.{u32, u64}
use no_cap_kvm.Prelude.Assoc.{lookup, insert, erase}

abbrev pub Frame : Type 0
Frame = List ℕ

-- kMaxConsecutiveMisses
abbrev pub max_consecutive_misses : ℕ
max_consecutive_misses = 40

-- `buffer` is the std::map, in ascending order of the sequence numbers.
pub record JitterBuffer : Type 0 where
  pub buffer : List (ℕ × Frame)
  pub target_depth : ℕ
  pub max_depth : ℕ
  pub recovery_threshold : ℕ
  pub started : Bool
  pub next_seq : ℕ
  pub at_cap : Bool
  pub cap_episodes : ℕ
  pub playout_misses : ℕ
  pub frames_played : ℕ
  pub consecutive_misses : ℕ

unfoldable pub compute_recovery_threshold : ℕ → ℕ
compute_recovery_threshold max_depth =
    let margin = max 1 (max_depth / 10) in if ltb margin max_depth then max_depth - margin else 0

-- The constructor.
unfoldable pub create : ℕ → ℕ → JitterBuffer
unfolding compute_recovery_threshold
create target_depth max_depth =
    let cap = if ltb max_depth target_depth then target_depth else max_depth in
    record {
      buffer = [];
      target_depth = target_depth;
      max_depth = cap;
      recovery_threshold = compute_recovery_threshold cap;
      started = false;
      next_seq = 0;
      at_cap = false;
      cap_episodes = 0;
      playout_misses = 0;
      frames_played = 0;
      consecutive_misses = 0;
    }

abbrev pub depth : JitterBuffer → ℕ
depth jb = length jb.buffer

unfoldable pub clear_at_cap_if_recovered : JitterBuffer → JitterBuffer
clear_at_cap_if_recovered jb =
    if jb.at_cap && leb (depth jb) jb.recovery_threshold then record jb { at_cap = false } else jb

pub record Dropped : Type 0 where
  pub rest : List (ℕ × Frame)
  pub next_seq : ℕ
  pub count : ℕ

-- The loop of `push` that throws away the oldest frames above the ceiling.
unfoldable pub drop_oldest : ℕ → Bool → List (ℕ × Frame) → ℕ → ℕ → Dropped
drop_oldest max_depth started [] next_seq count = record {
  rest = [];
  next_seq = next_seq;
  count = count;
}
drop_oldest max_depth started ((oldest, frame) ∷ rest) next_seq count =
    let next =
      drop_oldest max_depth started rest
        (if started && leb next_seq oldest then u32 (oldest + 1) else next_seq) (count + 1) in
    if ltb max_depth (suc (length rest))
    then next
    else record { rest = (oldest, frame) ∷ rest; next_seq = next_seq; count = count }

-- What `push` does about the ceiling once `count` frames have been dropped.
unfoldable pub note_cap : ℕ → JitterBuffer → JitterBuffer
unfolding clear_at_cap_if_recovered
note_cap count jb =
    if ltb 0 count
    then if jb.at_cap
      then jb
      else record jb { at_cap = true; cap_episodes = u64 (jb.cap_episodes + 1) }
    else clear_at_cap_if_recovered jb

-- `push`, with the number of frames by which it raises audio_packets_dropped_cap.
unfoldable pub push : JitterBuffer → ℕ → Frame → JitterBuffer × ℕ
push jb seq frame =
    if jb.started && ltb seq jb.next_seq
    then (jb, 0)
    else let d = drop_oldest jb.max_depth jb.started (insert seq frame jb.buffer) jb.next_seq 0 in
      (note_cap d.count (record jb { buffer = d.rest; next_seq = d.next_seq }), d.count)

-- A miss: silence, and after too many in a row back to the initial fill state.
unfoldable pub miss : JitterBuffer → JitterBuffer
unfolding clear_at_cap_if_recovered
miss jb =
    let misses = jb.consecutive_misses + 1 in
    let reset =
      clear_at_cap_if_recovered
        (record jb { started = false; consecutive_misses = 0; buffer = [] }) in
    if leb max_consecutive_misses misses
    then record reset { playout_misses = u64 (jb.playout_misses + 1) }
    else record jb { consecutive_misses = misses; playout_misses = u64 (jb.playout_misses + 1) }

-- A hit: the frame leaves the buffer.
abbrev pub played : JitterBuffer → ℕ → JitterBuffer
played jb seq = record jb {
  consecutive_misses = 0;
  frames_played = u64 (jb.frames_played + 1);
  buffer = erase seq jb.buffer;
}

unfoldable pub play : JitterBuffer → ℕ → JitterBuffer
play jb seq = clear_at_cap_if_recovered (played jb seq)

-- The part of `pop` after the initial fill.
unfoldable pub pop_started : JitterBuffer → JitterBuffer × Option Frame
pop_started jb =
    let jb' = record jb { next_seq = u32 (jb.next_seq + 1) } in
    elim (lookup jb.next_seq jb.buffer) [
      | none ↦ (miss jb', none)
      | some frame ↦ (play jb' jb.next_seq, some frame)
    ]

-- buffer_.begin()->first; `pop` reads it only when target_depth frames are there.
abbrev pub first_seq : List (ℕ × Frame) → ℕ
first_seq [] = 0
first_seq ((seq, frame) ∷ rest) = seq

abbrev pub start : JitterBuffer → JitterBuffer
start jb = record jb { started = true; next_seq = first_seq jb.buffer; consecutive_misses = 0 }

unfoldable pub pop : JitterBuffer → JitterBuffer × Option Frame
pop jb =
    if jb.started
    then pop_started jb
    else if ltb (depth jb) jb.target_depth
    then (jb, none)
    else pop_started (start jb)

-- The calls of a network thread and a playback thread, in the order in which they take the mutex.
pub data Op : Type 0 where
  push_op : ℕ → Frame → Op
  pop_op : Op

unfoldable pub step : JitterBuffer → Op → JitterBuffer
step jb (push_op seq frame) = (push jb seq frame).0
step jb pop_op = (pop jb).0

unfoldable pub run : JitterBuffer → List Op → JitterBuffer
run jb [] = jb
run jb (op ∷ ops) = run (step jb op) ops

-- `n` calls of `pop` in a row: what they return, and the buffer after them.
unfoldable pub pops : ℕ → JitterBuffer → List (Option Frame) × JitterBuffer
pops ℕ.zero jb = ([], jb)
pops (suc n) jb = let (jb', out) = pop jb in let (outs, end) = pops n jb' in (out ∷ outs, end)
