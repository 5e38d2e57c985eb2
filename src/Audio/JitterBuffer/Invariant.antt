-- ===== src/Audio/JitterBuffer/Invariant.antt =====
-- The buffer stays sorted, bounded and ahead of the playback position.
use no_cap_kvm.Prelude.{
  ℕ, suc, ◌+◌, ◌≤◌, ◌<◌, Bool, true, false, none, List, [], ◌∷◌, ◌≡◌, refl, length, arith,
  if◌then◌else◌, Option-cases, Bool-cases, inl, inr, ltb, leb, ◌&&◌,
}
use no_cap_kvm.Prelude.Bytes.{u32}
use no_cap_kvm.Prelude.Assoc.{
  lookup, insert, erase, SortedFrom, SortedFrom-weaken, insert-SortedFrom, length-erase,
  erase-SortedFrom,
}
use no_cap_kvm.Audio.JitterBuffer.{
  JitterBuffer, Frame, Op, push_op, pop_op, create, depth, drop_oldest, note_cap,
  clear_at_cap_if_recovered, push, miss, play, played, pop_started, first_seq, start, pop, step,
  run, max_consecutive_misses,
}

-- The least sequence number that may wait: the playback position once playback has started.
abbrev pub floor : Bool → ℕ → ℕ
floor started next_seq = if started then next_seq else 0

pub record IsValid (jb : JitterBuffer) : Type 0 where
  pub sorted : SortedFrom (floor jb.started jb.next_seq) jb.buffer
  pub bounded : depth jb ≤ jb.max_depth
  pub target_pos : 0 < jb.target_depth
  pub target_le : jb.target_depth ≤ jb.max_depth
  pub misses_lt : jb.consecutive_misses < max_consecutive_misses
  pub threshold_lt : jb.recovery_threshold < jb.max_depth

pub create-IsValid : (target max_depth : ℕ) → 0 < target → IsValid (create target max_depth)
unfolding create
create-IsValid target max_depth h = ground arith

-- The playback position after a frame has been dropped: it never passes the frames that stay.
abbrev after_drop : Bool → ℕ → ℕ → ℕ
after_drop started next k = if started && leb next k then u32 (k + 1) else next

after_drop-floor :
    (started : Bool) (next k : ℕ)
    → floor started next ≤ k
    → floor started (after_drop started next k) ≤ suc k
after_drop-floor true next k h = ground arith
after_drop-floor false next k h = omega arith

module _ (cap : ℕ) (started : Bool) where
  drop_oldest-sorted :
      (m : List (ℕ × Frame)) (next count : ℕ)
      → SortedFrom (floor started next) m
      → SortedFrom
          (floor started (drop_oldest cap started m next count).next_seq)
          (drop_oldest cap started m next count).rest
  unfolding drop_oldest
  drop_oldest-sorted [] next count s = tt
  drop_oldest-sorted ((k, v) ∷ m) next count s = elim (Bool-cases (ltb cap (suc (length m)))) [
    | inl over ↦ rw over (
        drop_oldest-sorted m (after_drop started next k) (count + 1)
          (SortedFrom-weaken m (after_drop-floor started next k s.0) s.1))
    | inr fits ↦ rw fits s
  ]

  drop_oldest-bounded :
      (m : List (ℕ × Frame)) (next count : ℕ)
      → length (drop_oldest cap started m next count).rest ≤ cap
  unfolding drop_oldest
  drop_oldest-bounded [] next count = omega arith
  drop_oldest-bounded ((k, v) ∷ m) next count = ground (
    arith,
    drop_oldest-bounded m (if started && leb next k then u32 (k + 1) else next) (count + 1),
  )

-- Taking out the least key leaves the keys above it.
erase-floor : (lo : ℕ) (m : List (ℕ × Frame)) → SortedFrom lo m → SortedFrom (suc lo) (erase lo m)
erase-floor lo [] s = tt
erase-floor lo ((k, v) ∷ m) s =
    ground (arith, erase-SortedFrom (suc k) lo m, SortedFrom-weaken {lo = suc lo} {hi = suc k} m)

miss-floor :
    (lo : ℕ) (m : List (ℕ × Frame)) → SortedFrom lo m → lookup lo m ≡ none → SortedFrom (suc lo) m
miss-floor lo [] s e = tt
miss-floor lo ((k, v) ∷ m) s e = ground arith

abbrev KeepsValid : (JitterBuffer → JitterBuffer) → Type 0
KeepsValid f = (jb : JitterBuffer) → IsValid jb → IsValid (f jb)

clear_at_cap_if_recovered-IsValid : KeepsValid clear_at_cap_if_recovered
unfolding clear_at_cap_if_recovered
clear_at_cap_if_recovered-IsValid jb v = ground arith

note_cap-IsValid : (n : ℕ) → KeepsValid (note_cap n)
unfolding note_cap
note_cap-IsValid n jb v = ground arith

floor-le-accepted :
    (started : Bool) (next seq : ℕ) → (started && ltb seq next) ≡ false → floor started next ≤ seq
floor-le-accepted true next seq h = ground arith
floor-le-accepted false next seq h = omega arith

-- `push` keeps the buffer valid.
pub push-IsValid : (seq : ℕ) (frame : Frame) → KeepsValid (λ jb. (push jb seq frame).0)
unfolding push
push-IsValid seq frame jb v = elim (Bool-cases (jb.started && ltb seq jb.next_seq)) [
  | inl late ↦ rw late v
  | inr ok ↦
      let all = insert seq frame jb.buffer in
      let d = drop_oldest jb.max_depth jb.started all jb.next_seq 0 in
      rw ok (
        note_cap-IsValid d.count (record jb { buffer = d.rest; next_seq = d.next_seq })
          (record {
            sorted = drop_oldest-sorted jb.max_depth jb.started all jb.next_seq 0 (
                insert-SortedFrom (floor jb.started jb.next_seq) seq frame jb.buffer
                  (floor-le-accepted jb.started jb.next_seq seq ok) v.sorted);
            bounded = drop_oldest-bounded jb.max_depth jb.started all jb.next_seq 0;
            target_pos = v.target_pos;
            target_le = v.target_le;
            misses_lt = v.misses_lt;
            threshold_lt = v.threshold_lt;
          }))
]

miss-IsValid : KeepsValid miss
unfolding miss clear_at_cap_if_recovered
miss-IsValid jb v = ground arith

-- The sorted map above the new playback position, whichever way the old one was met.
pop_started-IsValid :
    (jb : JitterBuffer)
    → SortedFrom jb.next_seq jb.buffer
    → jb.started ≡ true
    → IsValid jb
    → IsValid (pop_started jb).0
unfolding pop_started play
pop_started-IsValid jb s st v = elim (Option-cases (lookup jb.next_seq jb.buffer)) [
  | inl e ↦
      rw (e, pop_started)
        (miss-IsValid (record jb { next_seq = u32 (jb.next_seq + 1) })
          (record {
            sorted =
                rw st (
                  SortedFrom-weaken jb.buffer (omega arith) (miss-floor jb.next_seq jb.buffer s e));
            bounded = v.bounded;
            target_pos = v.target_pos;
            target_le = v.target_le;
            misses_lt = v.misses_lt;
            threshold_lt = v.threshold_lt;
          }))
  | inr (f, e) ↦
      rw (e, pop_started)
        (clear_at_cap_if_recovered-IsValid
          (played (record jb { next_seq = u32 (jb.next_seq + 1) }) jb.next_seq)
          (record {
            sorted =
                rw st (SortedFrom-weaken _ (omega arith) (erase-floor jb.next_seq jb.buffer s));
            bounded = omega (arith, length-erase jb.next_seq jb.buffer, v.bounded);
            target_pos = v.target_pos;
            target_le = v.target_le;
            misses_lt = omega arith;
            threshold_lt = v.threshold_lt;
          }))
]

first_seq-sorted : (m : List (ℕ × Frame)) → SortedFrom 0 m → SortedFrom (first_seq m) m
first_seq-sorted [] s = tt
first_seq-sorted ((k, f) ∷ m) s = (omega arith, s.1)

start-IsValid : (jb : JitterBuffer) → jb.started ≡ false → IsValid jb → IsValid (start jb)
start-IsValid jb st v = record {
  sorted = first_seq-sorted jb.buffer (rw st at v.sorted);
  bounded = v.bounded;
  target_pos = v.target_pos;
  target_le = v.target_le;
  misses_lt = omega arith;
  threshold_lt = v.threshold_lt;
}

pub pop-IsValid : KeepsValid (λ jb. (pop jb).0)
unfolding pop
pop-IsValid jb v = elim (Bool-cases jb.started) [
  | inl st ↦ simp st (pop_started-IsValid jb (rw st at v.sorted) st v)
  | inr st ↦
      let w = start-IsValid jb st v in
      ground (arith, pop_started-IsValid (start jb) w.sorted refl w)
]

-- Every call leaves the buffer valid, so it never holds more than `max_depth` frames and, once
-- playback runs, none from before the playback position.
pub step-IsValid : (op : Op) → KeepsValid (λ jb. step jb op)
unfolding step
step-IsValid (push_op seq frame) jb v = push-IsValid seq frame jb v
step-IsValid pop_op jb v = pop-IsValid jb v

run-IsValid : (ops : List Op) → KeepsValid (λ jb. run jb ops)
unfolding run
run-IsValid [] jb v = v
run-IsValid (op ∷ ops) jb v = run-IsValid ops (step jb op) (step-IsValid op jb v)

-- Any sequence of pushes and pops on a new buffer with a positive target depth leaves it valid: its
-- frames are in ascending order and none lies before the playback position, their number stays within
-- the cap, and the misses in a row stay below kMaxConsecutiveMisses.
pub run-create-IsValid :
    (target max_depth : ℕ) (ops : List Op)
    → 0 < target
    → IsValid (run (create target max_depth) ops)
run-create-IsValid target max_depth ops h =
    run-IsValid ops (create target max_depth) (create-IsValid target max_depth h)
