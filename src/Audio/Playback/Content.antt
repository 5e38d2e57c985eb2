-- ===== src/Audio/Playback/Content.antt =====
-- What the device hears: the packets' bytes without a gap or a repetition, then silence.
use no_cap_kvm.Prelude.{
  ℕ, zero, suc, ◌+◌, ◌-◌, ◌≤◌, ◌≡◌, refl, sym, ap, ◌∙◌, true, false, Option, none, some, List, [],
  ◌∷◌, ◌++◌, length, take, drop, take-append-drop, replicate, ltb, leb, arith, if◌then◌else◌,
  Bool-cases, inl, inr, ◌⊎◌, min, subst, leb→le,
}
use mathlib.Core.Option.{some-injective}
use mathlib.Core.List.{append_assoc, append-nil}
use no_cap_kvm.Audio.JitterBuffer.{JitterBuffer, Frame, pop, pops}
use no_cap_kvm.Audio.Playback.{
  PlaybackImpl, Filled, copy, take_popped, round, fill, more, fuel_for, data_callback,
}
use no_cap_kvm.Audio.Playback.Filling.{fill_ends}

-- The bytes of the current packet that have not been played.
abbrev pub pending : PlaybackImpl → Frame
pending impl = drop impl.carry_pos impl.carry

-- The audio of what `pop` has yielded; a miss has none.
abbrev pub audio : List (Option Frame) → Frame
audio [] = []
audio (none ∷ outs) = audio outs
audio (some frame ∷ outs) = frame ++ audio outs

-- Whether the last call of `pop` yielded nothing.
abbrev pub EndsDry : List (Option Frame) → Type 0
EndsDry [] = ⊥
EndsDry (out ∷ []) = out ≡ none
EndsDry (out ∷ next ∷ outs) = EndsDry (next ∷ outs)

-- The run of the loop from `impl` to `f` in terms of the jitter buffer: after some number of pops,
-- what was pending and what they yielded is what went out and what is pending now, in that order;
-- and where some remain to be filled, the last pop yielded nothing and none are pending.
pub record Plays (impl : PlaybackImpl) (f : Filled) : Type 0 where
  pub popped : ℕ
  pub buffer_left : (pops popped impl.buffer).1 ≡ f.impl.buffer
  pub bytes : pending impl ++ audio (pops popped impl.buffer).0 ≡ f.out ++ pending f.impl
  pub silence : f.impl.silence_byte ≡ impl.silence_byte
  pub dry : (f.remaining ≡ 0) ⊎ ((pending f.impl ≡ []) × EndsDry (pops popped impl.buffer).0)

EndsDry-cons :
    (out : Option Frame) (outs : List (Option Frame)) → EndsDry outs → EndsDry (out ∷ outs)
EndsDry-cons out [] h = elim h [ ]
EndsDry-cons out (next ∷ outs) h = h

suc_add : (m n : ℕ) → suc m + n ≡ suc (m + n)
suc_add m n = omega arith

drop-drop : (m n : ℕ) (xs : Frame) → drop n (drop m xs) ≡ drop (m + n) xs
drop-drop zero n xs = ap (λ k. drop k xs) (omega arith)
drop-drop (suc m) zero [] = rw (suc_add m zero) refl
drop-drop (suc m) (suc n) [] = rw (suc_add m (suc n)) refl
drop-drop (suc m) n (x ∷ xs) = rw (suc_add m n) (drop-drop m n xs)

drop_all : (n : ℕ) (xs : Frame) → length xs ≤ n → drop n xs ≡ []
drop_all zero [] h = refl
drop_all zero (x ∷ xs) h = absurd (omega arith)
drop_all (suc n) [] h = refl
drop_all (suc n) (x ∷ xs) h = drop_all n xs (omega arith)

-- What is copied was pending, and what is pending comes after it.
copy_lem :
    (impl : PlaybackImpl) (remaining : ℕ)
    → (copy impl remaining).0 ++ pending (copy impl remaining).1 ≡ pending impl
unfolding copy
copy_lem impl remaining =
    let n = min remaining (length impl.carry - impl.carry_pos) in
    ap (λ d. take n (pending impl) ++ d) (sym (drop-drop impl.carry_pos n impl.carry))
    ∙ take-append-drop n (pending impl)

-- A run that begins with a copy.
Plays-copy :
    (impl : PlaybackImpl) (remaining : ℕ) (f : Filled)
    → Plays (copy impl remaining).1 f
    → Plays impl (record f { out = (copy impl remaining).0 ++ f.out })
unfolding copy
Plays-copy impl remaining f p = record {
  popped = p.popped;
  buffer_left = p.buffer_left;
  bytes =
      ap (λ b. b ++ audio (pops p.popped impl.buffer).0) (sym (copy_lem impl remaining))
      ∙ append_assoc (copy impl remaining).0 (pending (copy impl remaining).1) _
      ∙ ap (λ b. (copy impl remaining).0 ++ b) p.bytes
      ∙ sym (append_assoc (copy impl remaining).0 f.out (pending f.impl));
  silence = p.silence;
  dry = p.dry;
}

-- A run that begins with a packet of which `bytes` are copied.
Plays-popped :
    (impl next : PlaybackImpl) (frame bytes : Frame) (f : Filled)
    → pending impl ≡ []
    → (pop impl.buffer).1 ≡ some frame
    → (pop impl.buffer).0 ≡ next.buffer
    → frame ≡ bytes ++ pending next
    → next.silence_byte ≡ impl.silence_byte
    → Plays next f
    → Plays impl (record f { out = bytes ++ f.out })
unfolding pops
Plays-popped impl next frame bytes f none_left got buffer cut silence p = record {
  popped = suc p.popped;
  buffer_left = ap (λ jb. (pops p.popped jb).1) buffer ∙ p.buffer_left;
  bytes =
      rw (none_left, got, buffer, cut)
        (append_assoc bytes (pending next) (audio (pops p.popped next.buffer).0)
          ∙ ap (λ b. bytes ++ b) p.bytes
          ∙ sym (append_assoc bytes f.out (pending f.impl)));
  silence = p.silence ∙ silence;
  dry = elim p.dry [
    | inl full ↦ inl full
    | inr (none_pending, miss) ↦ inr (
      none_pending,
      rw buffer (EndsDry-cons (pop impl.buffer).1 (pops p.popped next.buffer).0 miss),
    )
  ];
}

-- A run that begins with an empty pop ends there.
Plays-dry :
    (impl : PlaybackImpl) (remaining : ℕ)
    → pending impl ≡ []
    → (pop impl.buffer).1 ≡ none
    → Plays impl (record {
      out = [];
      impl = record impl { buffer = (pop impl.buffer).0 };
      remaining = remaining;
    })
unfolding pops
Plays-dry impl remaining none_left got = record {
  popped = 1;
  buffer_left = refl;
  bytes = rw (got, none_left) refl;
  silence = refl;
  dry = inr (none_left, got);
}

-- The bytes that were copied stand in front of what the rest of the loop writes.
more-some :
    (bytes : Frame) (o : Option Filled) (f : Filled)
    → more bytes o ≡ some f
    → (g : Filled) × (o ≡ some g) × ((record g { out = bytes ++ g.out }) ≡ f)
more-some bytes none f e = cc
more-some bytes (some g) f e = (g, refl, some-injective (record g { out = bytes ++ g.out }) f e)

-- A round that does not pop.
round_copies :
    (impl : PlaybackImpl) (remaining : ℕ)
    → leb (length impl.carry) impl.carry_pos ≡ false
    → round impl remaining ≡ (some (copy impl remaining).0, (copy impl remaining).1)
unfolding round
round_copies impl remaining b = rw (round, b) refl

round_pops :
    (impl : PlaybackImpl) (remaining : ℕ)
    → leb (length impl.carry) impl.carry_pos ≡ true
    → round impl remaining ≡ take_popped impl remaining (pop impl.buffer).0 (pop impl.buffer).1
unfolding round
round_pops impl remaining b = rw (round, b) refl

-- A packet that was popped is what is copied of it and what is then pending.
take_popped-cut :
    (impl : PlaybackImpl) (remaining : ℕ) (jb : JitterBuffer) (frame : Frame)
    → (bytes : Frame) × ((take_popped impl remaining jb (some frame)).0 ≡ some bytes)
      × (frame ≡ bytes ++ pending (take_popped impl remaining jb (some frame)).1)
      × (jb ≡ (take_popped impl remaining jb (some frame)).1.buffer)
      × ((take_popped impl remaining jb (some frame)).1.silence_byte ≡ impl.silence_byte)
unfolding take_popped copy
take_popped-cut impl remaining jb [] = ([], refl, refl, refl, refl)
take_popped-cut impl remaining jb (b ∷ bs) =
    let loaded = record impl { buffer = jb; carry = b ∷ bs; carry_pos = 0 } in
    ((copy loaded remaining).0, refl, sym (copy_lem loaded remaining), refl, refl)

fill-round :
    (fuel : ℕ) (impl next : PlaybackImpl) (r : ℕ) (bytes : Frame)
    → round impl (suc r) ≡ (some bytes, next)
    → fill (suc fuel) impl (suc r) ≡ more bytes (fill fuel next (suc r - length bytes))
unfolding fill
fill-round fuel impl next r bytes e = rw (fill, e) (rw e refl)

fill-break :
    (fuel : ℕ) (impl next : PlaybackImpl) (r : ℕ)
    → round impl (suc r) ≡ (none, next)
    → fill (suc fuel) impl (suc r) ≡ some (record { out = []; impl = next; remaining = suc r })
unfolding fill
fill-break fuel impl next r e = rw (fill, e) (rw e refl)

-- A round that pops, by what `pop` yields, when the rest of the loop plays what it should.
popping-Plays :
    (fuel : ℕ) (impl : PlaybackImpl) (r : ℕ) (f : Filled) (got : Option Frame)
    → ((next : PlaybackImpl) (left : ℕ) (g : Filled) → fill fuel next left ≡ some g → Plays next g)
    → pending impl ≡ []
    → (pop impl.buffer).1 ≡ got
    → round impl (suc r) ≡ take_popped impl (suc r) (pop impl.buffer).0 got
    → fill (suc fuel) impl (suc r) ≡ some f
    → Plays impl f
unfolding take_popped
popping-Plays fuel impl r f none later none_left got e h =
    let next = record impl { buffer = (pop impl.buffer).0 } in
    subst (Plays impl)
      (some-injective (record { out = []; impl = next; remaining = suc r }) f
        (sym (fill-break fuel impl next r e) ∙ h))
      (Plays-dry impl (suc r) none_left got)
popping-Plays fuel impl r f (some frame) later none_left got e h =
    let taken = take_popped impl (suc r) (pop impl.buffer).0 (some frame) in
    let (bytes, copied, cut, buffer, silence) =
      take_popped-cut impl (suc r) (pop impl.buffer).0 frame in
    let run = fill-round fuel impl taken.1 r bytes (e ∙ ap (λ o. (o, taken.1)) copied) in
    let (g, rest, same) =
      more-some bytes (fill fuel taken.1 (suc r - length bytes)) f (sym run ∙ h) in
    subst (Plays impl) same (
      Plays-popped impl taken.1 frame bytes g none_left got buffer cut silence
        (later taken.1 (suc r - length bytes) g rest))

-- The loop plays what is pending and what it pops.
fill-Plays :
    (fuel : ℕ) (impl : PlaybackImpl) (remaining : ℕ) (f : Filled)
    → fill fuel impl remaining ≡ some f
    → Plays impl f
unfolding fill pops
fill-Plays fuel impl zero f e =
    subst (Plays impl) (some-injective (record { out = []; impl = impl; remaining = 0 }) f e)
      (record {
        popped = 0;
        buffer_left = refl;
        bytes = append-nil (pending impl);
        silence = refl;
        dry = inl refl;
      })
fill-Plays zero impl (suc r) f e = cc
fill-Plays (suc fuel) impl (suc r) f e =
    elim (Bool-cases (leb (length impl.carry) impl.carry_pos)) [
      | inl b ↦
          popping-Plays fuel impl r f (pop impl.buffer).1 (fill-Plays fuel)
            (drop_all impl.carry_pos impl.carry (leb→le (length impl.carry) impl.carry_pos b)) refl
            (round_pops impl (suc r) b) e
      | inr b ↦
          let copied = copy impl (suc r) in
          let run = fill-round fuel impl copied.1 r copied.0 (round_copies impl (suc r) b) in
          let left = suc r - length copied.0 in
          let (g, rest, same) = more-some copied.0 (fill fuel copied.1 left) f (sym run ∙ e) in
          subst (Plays impl) same (Plays-copy impl (suc r) g (fill-Plays fuel copied.1 left g rest))
    ]

-- The callback writes a run of the loop, and then silence for every byte that is missing; it counts an
-- underrun exactly when one is. Some number of pops is made, and what was pending and the packets they
-- yielded are what the run writes and what is pending after it, without a gap or a repetition. The
-- run either fills every byte, or ends with nothing pending after a pop that yielded nothing.
pub data_callback-Plays :
    (impl : PlaybackImpl) (byte_count : ℕ)
    → (f : Filled) × Plays impl f
      × (length f.out + f.remaining ≡ byte_count)
      × (data_callback impl byte_count
          ≡ some (record {
            out = f.out ++ replicate (byte_count - length f.out) impl.silence_byte;
            impl = f.impl;
            underruns = if ltb (length f.out) byte_count then 1 else 0;
          }))
unfolding data_callback
data_callback-Plays impl byte_count =
    let (f, e, fills) = fill_ends (fuel_for impl byte_count) impl byte_count (omega arith) in
    let plays = fill-Plays (fuel_for impl byte_count) impl byte_count f e in
    let missing : byte_count - length f.out ≡ f.remaining = omega arith in
    let short : ltb (length f.out) byte_count ≡ ltb 0 f.remaining = ground arith in
    (f, plays, omega arith, rw (data_callback, e, plays.silence, missing, short) refl)
