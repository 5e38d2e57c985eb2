-- ===== src/Audio/Playback/Filling.antt =====
-- The callback ends, and fills the whole buffer that the device gives it.
use no_cap_kvm.Prelude.{
  ℕ, zero, suc, ◌+◌, ◌-◌, ◌≤◌, ◌<◌, ◌≡◌, refl, Option, none, some, List, [], ◌∷◌, ◌++◌, length,
  length-append, length-replicate, length-take, length-drop, take, drop, replicate, leb, arith,
  Bool-cases, Option-cases, inl, inr, min,
}
use mathlib.Core.Option.{some-injective}
use no_cap_kvm.Prelude.Assoc.{lookup, erase}
use no_cap_kvm.Audio.JitterBuffer.{
  JitterBuffer, Frame, pop, pop_started, play, start, clear_at_cap_if_recovered, depth,
}
use no_cap_kvm.Audio.Playback.{
  PlaybackImpl, Filled, Answer, copy, take_popped, round, fill, more, fuel_for, pad, data_callback,
}

erase_shorter :
    (k : ℕ) (v : Frame) (m : List (ℕ × Frame)) → lookup k m ≡ some v → length (erase k m) < length m
erase_shorter k v [] e = cc
erase_shorter k v ((j, w) ∷ m) e = ground (arith, erase_shorter k v m)

depth-play : (jb : JitterBuffer) (seq : ℕ) → depth (play jb seq) ≡ length (erase seq jb.buffer)
unfolding play clear_at_cap_if_recovered
depth-play jb seq = ground arith

depth-pop_started :
    (jb : JitterBuffer) (frame : Frame)
    → (pop_started jb).1 ≡ some frame
    → depth (pop_started jb).0 < depth jb
unfolding pop_started
depth-pop_started jb frame e = elim (Option-cases (lookup jb.next_seq jb.buffer)) [
  | inl n ↦ absurd (let e' = rw (pop_started, n) at e in cc)
  | inr (v, h) ↦
      rw (pop_started, h) (omega (arith, depth-play, erase_shorter jb.next_seq v jb.buffer h))
]

-- A packet that `pop` yields has left the buffer.
depth-pop :
    (jb : JitterBuffer) (frame : Frame) → (pop jb).1 ≡ some frame → depth (pop jb).0 < depth jb
unfolding pop
depth-pop jb frame e =
    ground (arith, depth-pop_started jb frame, depth-pop_started (start jb) frame)

take_popped_lem :
    (impl : PlaybackImpl) (remaining : ℕ) (jb : JitterBuffer) (got : Option Frame) (bytes : Frame)
    → 0 < remaining
    → ((frame : Frame) → got ≡ some frame → depth jb < depth impl.buffer)
    → (take_popped impl remaining jb got).0 ≡ some bytes
    → (length bytes ≤ remaining)
      × (remaining - length bytes + depth (take_popped impl remaining jb got).1.buffer
          < remaining + depth impl.buffer)
unfolding take_popped copy
take_popped_lem impl remaining jb none bytes h p e = cc
take_popped_lem impl remaining jb (some []) bytes h p e =
    let fewer = p [] refl in
    let nothing : [] ≡ bytes = some-injective [] bytes e in
    rw (← nothing) (omega arith, omega arith)
take_popped_lem impl remaining jb (some (b ∷ bs)) bytes h p e =
    let fewer = p (b ∷ bs) refl in
    let n = min remaining (length (b ∷ bs) - 0) in
    let copied = some-injective (take n (b ∷ bs)) bytes e in
    let len = length-take n (b ∷ bs) in rw (← copied) (omega arith, omega arith)

copy_lem :
    (impl : PlaybackImpl) (remaining : ℕ) (bytes : Frame)
    → 0 < remaining
    → impl.carry_pos < length impl.carry
    → (copy impl remaining).0 ≡ bytes
    → (length bytes ≤ remaining)
      × (remaining - length bytes + depth (copy impl remaining).1.buffer
          < remaining + depth impl.buffer)
unfolding copy
copy_lem impl remaining bytes h k e =
    let n = min remaining (length impl.carry - impl.carry_pos) in
    let len = length-take n (drop impl.carry_pos impl.carry) in
    let left = length-drop impl.carry_pos impl.carry in rw (← e) (omega arith, omega arith)

-- A round that does not end the loop copies no more than is asked for, and it copies something or
-- takes a packet from the buffer.
round_lem :
    (impl : PlaybackImpl) (remaining : ℕ) (bytes : Frame)
    → 0 < remaining
    → (round impl remaining).0 ≡ some bytes
    → (length bytes ≤ remaining)
      × (remaining - length bytes + depth (round impl remaining).1.buffer
          < remaining + depth impl.buffer)
unfolding round
round_lem impl remaining bytes h e = elim (Bool-cases (leb (length impl.carry) impl.carry_pos)) [
  | inl b ↦
      let popped =
        take_popped_lem impl remaining (pop impl.buffer).0 (pop impl.buffer).1 bytes h
          (depth-pop impl.buffer) (rw (round, b) at e) in
      rw (round, b) popped
  | inr b ↦
      let copied = some-injective (copy impl remaining).0 bytes (rw (round, b) at e) in
      rw (round, b) (copy_lem impl remaining bytes h (ground arith) copied)
]

-- The loop's result has as many bytes as were asked for, with those that are missing.
abbrev pub Fills : ℕ → Filled → Type 0
Fills remaining f = length f.out + f.remaining ≡ remaining

more_lem :
    (bytes : Frame) (remaining : ℕ) (o : Option Filled)
    → length bytes ≤ remaining
    → ((f : Filled) × (o ≡ some f) × Fills (remaining - length bytes) f)
    → (f : Filled) × (more bytes o ≡ some f) × Fills remaining f
more_lem bytes remaining o h (f, e, fills) =
    (record f { out = bytes ++ f.out }, rw e refl, omega (arith, length-append {0} bytes f.out))

-- With fuel for every byte of the request and every packet of the buffer the loop ends.
pub fill_ends :
    (fuel : ℕ) (impl : PlaybackImpl) (remaining : ℕ)
    → remaining + depth impl.buffer ≤ fuel
    → (f : Filled) × (fill fuel impl remaining ≡ some f) × Fills remaining f
unfolding fill
fill_ends fuel impl zero h = (_, refl, omega arith)
fill_ends zero impl (suc r) h = absurd (omega arith)
fill_ends (suc fuel) impl (suc r) h = elim (Option-cases (round impl (suc r)).0) [
  | inl e ↦ rw (fill, e) (_, refl, omega arith)
  | inr (bytes, e) ↦
      let lem = round_lem impl (suc r) bytes (omega arith) e in
      rw (fill, e)
        (more_lem bytes (suc r) (fill fuel (round impl (suc r)).1 (suc r - length bytes)) lem.0
          (fill_ends fuel (round impl (suc r)).1 (suc r - length bytes) (omega (arith, lem.1))))
]

-- The callback ends on every state and every request, and what it gives the device is exactly as
-- long as the device asked for.
pub data_callback_lem :
    (impl : PlaybackImpl) (byte_count : ℕ)
    → (a : Answer) × (data_callback impl byte_count ≡ some a) × (length a.out ≡ byte_count)
unfolding data_callback
data_callback_lem impl byte_count =
    let (f, e, fills) = fill_ends (fuel_for impl byte_count) impl byte_count (omega arith) in
    let silence = replicate f.remaining f.impl.silence_byte in
    (
      pad f,
      rw (data_callback, e) refl,
      omega (
        arith,
        length-append {0} f.out silence,
        length-replicate f.remaining f.impl.silence_byte,
      ),
    )
