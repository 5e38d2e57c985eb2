-- ===== src/Audio/JitterBuffer/Playout.antt =====
-- What a listener hears: the frames in the order of their sequence numbers, a gap as silence, and
-- a stall that ends.
use no_cap_kvm.Prelude.{
  ℕ, zero, suc, ◌+◌, ◌≤◌, ◌<◌, ◌^◌, true, false, none, some, Option, List, [], ◌∷◌, ◌≡◌, refl, sym,
  ap₂, ◌∙◌, arith, Option-cases, Bool-cases, inl, inr, leb,
}
use no_cap_kvm.Prelude.Bytes.{u32}
use no_cap_kvm.Prelude.Assoc.{lookup, erase, SortedFrom, lookup-erase}
use no_cap_kvm.Audio.JitterBuffer.{
  JitterBuffer, Frame, drop_oldest, note_cap, clear_at_cap_if_recovered, push, miss, play,
  pop_started, pop, pops, max_consecutive_misses,
}
use no_cap_kvm.Audio.JitterBuffer.Invariant.{IsValid, pop-IsValid}

-- The reference: what is stored under `n` consecutive sequence numbers.
abbrev pub playlist : ℕ → ℕ → List (ℕ × Frame) → List (Option Frame)
playlist zero next m = []
playlist (suc n) next m = lookup next m ∷ playlist n (next + 1) m

playlist-erase :
    (n lo hi : ℕ) (m : List (ℕ × Frame))
    → SortedFrom lo m
    → lo < hi
    → playlist n hi (erase lo m) ≡ playlist n hi m
playlist-erase zero lo hi m s h = refl
playlist-erase (suc n) lo hi m s h =
    ground (arith, lookup-erase lo hi lo m s, playlist-erase n lo (hi + 1) m s)

-- A stopped and empty buffer stays so.
pop_stopped :
    (jb : JitterBuffer)
    → jb.started ≡ false
    → jb.buffer ≡ []
    → 0 < jb.target_depth
    → pop jb ≡ (jb, none)
unfolding pop
pop_stopped jb st e h = ground arith

pops_stopped :
    (n : ℕ) (jb : JitterBuffer)
    → jb.started ≡ false
    → jb.buffer ≡ []
    → 0 < jb.target_depth
    → (pops n jb).1.started ≡ false
unfolding pops
pops_stopped zero jb st e h = st
pops_stopped (suc n) jb st e h = rw (pop_stopped jb st e h) (pops_stopped n jb st e h)

pop-miss :
    (jb : JitterBuffer)
    → jb.started ≡ true
    → lookup jb.next_seq jb.buffer ≡ none
    → pop jb ≡ (miss (record jb { next_seq = u32 (jb.next_seq + 1) }), none)
unfolding pop pop_started
pop-miss jb st e = ground arith

pop-hit :
    (jb : JitterBuffer) (frame : Frame)
    → jb.started ≡ true
    → lookup jb.next_seq jb.buffer ≡ some frame
    → pop jb ≡ (play (record jb { next_seq = u32 (jb.next_seq + 1) }) jb.next_seq, some frame)
unfolding pop pop_started
pop-hit jb frame st e = ground arith

miss-reset :
    (jb : JitterBuffer)
    → max_consecutive_misses ≤ jb.consecutive_misses + 1
    → ((miss jb).started ≡ false)
      × ((miss jb).buffer ≡ [])
      × ((miss jb).target_depth ≡ jb.target_depth)
      × ((miss jb).max_depth ≡ jb.max_depth)
unfolding miss clear_at_cap_if_recovered
miss-reset jb h = ground arith

miss-keep :
    (jb : JitterBuffer)
    → jb.consecutive_misses + 1 < max_consecutive_misses
    → ((miss jb).started ≡ jb.started)
      × ((miss jb).buffer ≡ jb.buffer)
      × ((miss jb).next_seq ≡ jb.next_seq)
      × ((miss jb).consecutive_misses ≡ jb.consecutive_misses + 1)
unfolding miss clear_at_cap_if_recovered
miss-keep jb h = ground arith

play-keep :
    (jb : JitterBuffer) (seq : ℕ)
    → ((play jb seq).started ≡ jb.started)
      × ((play jb seq).buffer ≡ erase seq jb.buffer)
      × ((play jb seq).next_seq ≡ jb.next_seq)
unfolding play clear_at_cap_if_recovered
play-keep jb seq = ground arith

erase-missing : (k : ℕ) (m : List (ℕ × Frame)) → lookup k m ≡ none → erase k m ≡ m
erase-missing k [] e = refl
erase-missing k ((j, f) ∷ m) e = ground (arith, erase-missing k m)

-- After a call of `pop` on a started buffer: playback goes on behind the number that was due, or has
-- fallen back to the initial fill with nothing stored.
data Popped (jb jb' : JitterBuffer) : Type 0 where
  on :
      jb'.started ≡ true
      → jb'.next_seq ≡ u32 (jb.next_seq + 1)
      → jb'.buffer ≡ erase jb.next_seq jb.buffer
      → Popped jb jb'
  stalled :
      jb'.started ≡ false → jb'.buffer ≡ [] → jb'.target_depth ≡ jb.target_depth → Popped jb jb'

pop-Popped :
    (jb : JitterBuffer)
    → jb.started ≡ true
    → ((pop jb).1 ≡ lookup jb.next_seq jb.buffer) × Popped jb (pop jb).0
pop-Popped jb st = elim (Option-cases (lookup jb.next_seq jb.buffer)) [
  | inl e ↦ rw (pop-miss jb st e) (
    sym e,
    elim (Bool-cases (leb max_consecutive_misses (jb.consecutive_misses + 1))) [
      | inl stop ↦
          let r = miss-reset (record jb { next_seq = u32 (jb.next_seq + 1) }) (ground arith) in
          stalled r.0 r.1 r.2
      | inr go ↦
          let r = miss-keep (record jb { next_seq = u32 (jb.next_seq + 1) }) (ground arith) in
          on (r.0 ∙ st) r.2 (r.1 ∙ sym (erase-missing jb.next_seq jb.buffer e))
    ],
  )
  | inr (f, e) ↦ rw (pop-hit jb f st e) (
      let r = play-keep (record jb { next_seq = u32 (jb.next_seq + 1) }) jb.next_seq in
      (sym e, on (r.0 ∙ st) r.2 r.1))
]

-- As long as playback does not fall back to the initial fill, `n` calls of `pop` on a valid, started
-- buffer return what is stored under the `n` sequence numbers from the playback position on, in
-- order, and nothing for the numbers that are missing. No number is passed over, however many frames
-- are stored. The numbers must not wrap within the run.
pub pops-playlist :
    (n : ℕ) (jb : JitterBuffer)
    → IsValid jb
    → jb.started ≡ true
    → jb.next_seq + n < 2 ^ 32
    → (pops n jb).1.started ≡ true
    → (pops n jb).0 ≡ playlist n jb.next_seq jb.buffer
unfolding pops
pops-playlist zero jb v st h still = refl
pops-playlist (suc n) jb v st h still =
    step_playlist (pop-Popped jb st).1 (pops-playlist n (pop jb).0 (pop-IsValid jb v))
  where
    step_playlist :
        Popped jb (pop jb).0
        → ((pop jb).0.started ≡ true
            → (pop jb).0.next_seq + n < 2 ^ 32
            → (pops n (pop jb).0).1.started ≡ true
            → (pops n (pop jb).0).0 ≡ playlist n (pop jb).0.next_seq (pop jb).0.buffer)
        → (pops (suc n) jb).0 ≡ playlist (suc n) jb.next_seq jb.buffer
    step_playlist (stalled s b t) ih =
        let stop = pops_stopped n (pop jb).0 s b (omega (arith, t, v.target_pos)) in cc
    step_playlist (on s q b) ih = ap₂ ◌∷◌ (pop-Popped jb st).0 (
        ih s (omega arith) still
        ∙ ap₂ (playlist n) (q ∙ omega arith) b
        ∙ playlist-erase n jb.next_seq (jb.next_seq + 1) jb.buffer (rw st at v.sorted)
            (omega arith))

-- While playback misses, the count of misses in a row grows by one a call.
stall-pop :
    (jb : JitterBuffer)
    → jb.started ≡ true
    → jb.buffer ≡ []
    → jb.consecutive_misses + 1 < max_consecutive_misses
    → ((pop jb).0.started ≡ true)
      × ((pop jb).0.buffer ≡ [])
      × ((pop jb).0.consecutive_misses ≡ jb.consecutive_misses + 1)
unfolding pop pop_started miss clear_at_cap_if_recovered
stall-pop jb st e h = ground arith

stall-end :
    (jb : JitterBuffer)
    → jb.started ≡ true
    → jb.buffer ≡ []
    → max_consecutive_misses ≤ jb.consecutive_misses + 1
    → ((pop jb).0.started ≡ false) × ((pop jb).0.buffer ≡ []) × ((pop jb).0.consecutive_misses ≡ 0)
unfolding pop pop_started miss clear_at_cap_if_recovered
stall-end jb st e h = ground arith

push_fresh :
    (jb : JitterBuffer) (seq : ℕ) (frame : Frame)
    → jb.started ≡ false
    → jb.buffer ≡ []
    → 0 < jb.max_depth
    → lookup seq (push jb seq frame).0.buffer ≡ some frame
unfolding push drop_oldest note_cap clear_at_cap_if_recovered
push_fresh jb seq frame st e h = ground arith

-- A stall ends: with nothing arriving, a valid started buffer falls back to the initial fill when the
-- misses in a row reach kMaxConsecutiveMisses, and then takes a frame of any sequence number, also
-- one from before the old playback position.
pub stall-resyncs :
    (n : ℕ) (jb : JitterBuffer) (seq : ℕ) (frame : Frame)
    → IsValid jb
    → jb.started ≡ true
    → jb.buffer ≡ []
    → jb.consecutive_misses + n ≡ max_consecutive_misses
    → ((pops n jb).1.started ≡ false)
      × (lookup seq (push (pops n jb).1 seq frame).0.buffer ≡ some frame)
unfolding pops
stall-resyncs zero jb seq frame v st e h = absurd (omega (arith, v.misses_lt))
stall-resyncs (suc zero) jb seq frame v st e h =
    let r = stall-end jb st e (omega arith) in
    let w = pop-IsValid jb v in
    (r.0, push_fresh (pop jb).0 seq frame r.0 r.1 (omega (arith, w.target_pos, w.target_le)))
stall-resyncs (suc (suc n)) jb seq frame v st e h =
    let r = stall-pop jb st e (omega arith) in
    stall-resyncs (suc n) (pop jb).0 seq frame (pop-IsValid jb v) r.0 r.1 (omega (arith, r.2))
