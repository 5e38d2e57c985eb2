-- ===== src/Audio/JitterBuffer/Episodes.antt =====
-- cap_episodes counts overflows once each, with a margin before the next one can start.
use no_cap_kvm.Prelude.{
  ℕ, zero, suc, ◌+◌, ◌≤◌, ◌<◌, Bool, true, false, List, [], ◌∷◌, ◌≡◌, refl, sym, ap, ◌∙◌, ◌⊎◌,
  length, arith, if◌then◌else◌, Option-cases, Bool-cases, lt→ltb, inl, inr, ltb, leb, ◌&&◌, not,
}
use no_cap_kvm.Prelude.Bytes.{u32, u64}
use no_cap_kvm.Prelude.Assoc.{lookup, insert}
use no_cap_kvm.Audio.JitterBuffer.{
  JitterBuffer, Frame, Op, push_op, pop_op, depth, drop_oldest, note_cap, clear_at_cap_if_recovered,
  push, miss, play, played, pop_started, pop, step, start, max_consecutive_misses,
}

-- The call leaves more frames than the ceiling allows, so that some are dropped: a push of a frame
-- that is not late.
abbrev pub overflows : JitterBuffer → Op → Bool
overflows jb (push_op seq frame) =
    not (jb.started && ltb seq jb.next_seq)
    && ltb jb.max_depth (length (insert seq frame jb.buffer))
overflows jb pop_op = false

-- One call as the telemetry sees it, by whether it overflows. An episode opens and is counted with an
-- overflow outside one; it closes at or below the recovery threshold. Outside an episode nothing
-- happens without an overflow, and an episode lasts over more overflows, while the depth is above
-- the threshold, and over calls that leave the depth as it is.
pub data EpisodeStep (jb : JitterBuffer) (overflow : Bool) (jb' : JitterBuffer) : Type 0 where
  opens :
      jb.at_cap ≡ false
      → overflow ≡ true
      → jb'.at_cap ≡ true
      → depth jb' ≡ jb.max_depth
      → jb'.cap_episodes ≡ u64 (jb.cap_episodes + 1)
      → EpisodeStep jb overflow jb'
  closes :
      jb.at_cap ≡ true
      → overflow ≡ false
      → jb'.at_cap ≡ false
      → depth jb' ≤ jb.recovery_threshold
      → jb'.cap_episodes ≡ jb.cap_episodes
      → EpisodeStep jb overflow jb'
  rests :
      jb.at_cap ≡ false
      → overflow ≡ false
      → jb'.at_cap ≡ false
      → jb'.cap_episodes ≡ jb.cap_episodes
      → EpisodeStep jb overflow jb'
  lasts :
      jb.at_cap ≡ true
      → (overflow ≡ true) ⊎ ((jb.recovery_threshold < depth jb') ⊎ (depth jb' ≡ depth jb))
      → jb'.at_cap ≡ true
      → jb'.cap_episodes ≡ jb.cap_episodes
      → EpisodeStep jb overflow jb'

-- The drop loop stops exactly at the ceiling, if it drops anything.
drop_oldest-count :
    (limit : ℕ) (started : Bool) (m : List (ℕ × Frame)) (next count : ℕ)
    → (let d = drop_oldest limit started m next count in
        ((length m ≤ limit) × (d.rest ≡ m) × (d.count ≡ count))
        ⊎ ((limit < length m) × (length d.rest ≡ limit) × (count < d.count)))
unfolding drop_oldest
drop_oldest-count limit started [] next count = inl (omega arith, refl, refl)
drop_oldest-count limit started ((k, v) ∷ m) next count =
    elim (Bool-cases (ltb limit (suc (length m)))) [
      | inr fits ↦ rw fits (inl (ground arith, refl, refl))
      | inl over ↦
          rw over
            (elim (drop_oldest-count limit started m
              (if started && leb next k then u32 (k + 1) else next) (count + 1)) [
                | inl (h, e, c) ↦ inr (ground arith, ap length e ∙ ground arith, omega arith)
                | inr (h, e, c) ↦ inr (omega arith, e, omega arith)
              ])
    ]

-- A call without an overflow that leaves the record and the depth as they are.
same-EpisodeStep :
    (jb jb' : JitterBuffer)
    → jb'.at_cap ≡ jb.at_cap
    → jb'.cap_episodes ≡ jb.cap_episodes
    → depth jb' ≡ depth jb
    → EpisodeStep jb false jb'
same-EpisodeStep jb jb' a c d = elim (Bool-cases jb.at_cap) [
  | inl e ↦ lasts e (inr (inr d)) (a ∙ e) c
  | inr e ↦ rests e refl (a ∙ e) c
]

clear-EpisodeStep :
    (jb jb' : JitterBuffer)
    → jb'.at_cap ≡ jb.at_cap
    → jb'.cap_episodes ≡ jb.cap_episodes
    → jb'.recovery_threshold ≡ jb.recovery_threshold
    → EpisodeStep jb false (clear_at_cap_if_recovered jb')
unfolding clear_at_cap_if_recovered
clear-EpisodeStep jb jb' a c t =
    elim (Bool-cases (jb'.at_cap && leb (depth jb') jb'.recovery_threshold)) [
      | inl e ↦ rw e (closes (ground arith) refl refl (ground arith) c)
      | inr e ↦ rw e (elim (Bool-cases jb'.at_cap) [
        | inl on ↦ lasts (sym a ∙ on) (inr (inl (ground arith))) on c
        | inr off ↦ rests (sym a ∙ off) refl off c
      ])
    ]

note_cap-EpisodeStep :
    (n : ℕ) (overflow : Bool) (jb jb' : JitterBuffer)
    → jb'.at_cap ≡ jb.at_cap
    → jb'.cap_episodes ≡ jb.cap_episodes
    → jb'.recovery_threshold ≡ jb.recovery_threshold
    → ((n ≡ 0) × (overflow ≡ false)) ⊎ ((0 < n) × (overflow ≡ true) × (depth jb' ≡ jb.max_depth))
    → EpisodeStep jb overflow (note_cap n jb')
unfolding note_cap
note_cap-EpisodeStep zero overflow jb jb' a c t (inl (z, o)) = rw o (clear-EpisodeStep jb jb' a c t)
note_cap-EpisodeStep zero overflow jb jb' a c t (inr (z, o, d)) = absurd (omega arith)
note_cap-EpisodeStep (suc n) overflow jb jb' a c t (inl (z, o)) = absurd (omega arith)
note_cap-EpisodeStep (suc n) overflow jb jb' a c t (inr (z, o, d)) = elim (Bool-cases jb'.at_cap) [
  | inl e ↦ simp (lt→ltb 0 (suc n) (omega arith), e) (lasts (sym a ∙ e) (inl o) e c)
  | inr e ↦
      simp (lt→ltb 0 (suc n) (omega arith), e)
        (opens (sym a ∙ e) o refl d (ap (λ k. u64 (k + 1)) c))
]

push-EpisodeStep :
    (seq : ℕ) (frame : Frame) (jb : JitterBuffer)
    → EpisodeStep jb (overflows jb (push_op seq frame)) (push jb seq frame).0
unfolding push
push-EpisodeStep seq frame jb = elim (Bool-cases (jb.started && ltb seq jb.next_seq)) [
  | inl late ↦ rw late (same-EpisodeStep jb jb refl refl refl)
  | inr ok ↦
      let all = insert seq frame jb.buffer in
      let d = drop_oldest jb.max_depth jb.started all jb.next_seq 0 in
      rw ok (
        note_cap-EpisodeStep d.count (ltb jb.max_depth (length all)) jb
          (record jb { buffer = d.rest; next_seq = d.next_seq }) refl refl refl
          (elim (drop_oldest-count jb.max_depth jb.started all jb.next_seq 0) [
            | inl (h, e, c) ↦ inl (c, ground arith)
            | inr (h, e, c) ↦ inr (c, lt→ltb jb.max_depth (length all) h, e)
          ]))
]

-- A buffer with other frames and another position, whose overflow record is that of `jb`.
record SameCap (jb jb' : JitterBuffer) : Type 0 where
  flag : jb'.at_cap ≡ jb.at_cap
  episodes : jb'.cap_episodes ≡ jb.cap_episodes
  threshold : jb'.recovery_threshold ≡ jb.recovery_threshold
  frames : depth jb' ≡ depth jb

miss-EpisodeStep : (jb jb' : JitterBuffer) → SameCap jb jb' → EpisodeStep jb false (miss jb')
unfolding miss clear_at_cap_if_recovered
miss-EpisodeStep jb jb' c =
    elim (Bool-cases (leb max_consecutive_misses (jb'.consecutive_misses + 1))) [
      | inr go ↦ rw go (same-EpisodeStep jb _ c.flag c.episodes c.frames)
      | inl stop ↦ rw stop (elim (Bool-cases jb'.at_cap) [
        | inl e ↦ closes (sym c.flag ∙ e) refl (ground arith) (ground arith) (ground arith)
        | inr e ↦ rests (sym c.flag ∙ e) refl (ground arith) (ground (arith, c.episodes))
      ])
    ]

pop_started-EpisodeStep :
    (jb jb' : JitterBuffer) → SameCap jb jb' → EpisodeStep jb false (pop_started jb').0
unfolding pop_started play
pop_started-EpisodeStep jb jb' c = elim (Option-cases (lookup jb'.next_seq jb'.buffer)) [
  | inl e ↦
      rw (e, pop_started)
        (miss-EpisodeStep jb (record jb' { next_seq = u32 (jb'.next_seq + 1) })
          (record {
            flag = c.flag;
            episodes = c.episodes;
            threshold = c.threshold;
            frames = c.frames;
          }))
  | inr (f, e) ↦
      rw (e, pop_started)
        (clear-EpisodeStep jb
          (played (record jb' { next_seq = u32 (jb'.next_seq + 1) }) jb'.next_seq) c.flag c.episodes
          c.threshold)
]

-- A call of `pop` never opens an episode.
pop-EpisodeStep : (jb : JitterBuffer) → EpisodeStep jb false (pop jb).0
unfolding pop
pop-EpisodeStep jb = elim (Bool-cases jb.started) [
  | inl st ↦ simp st (pop_started-EpisodeStep jb jb same)
  | inr st ↦ elim (Bool-cases (ltb (depth jb) jb.target_depth)) [
    | inl few ↦ simp (st, few) (same-EpisodeStep jb jb refl refl refl)
    | inr full ↦
        simp (st, full)
          (pop_started-EpisodeStep jb (start jb)
            (record { flag = refl; episodes = refl; threshold = refl; frames = refl }))
  ]
]
  where
    same : SameCap jb jb
    same = record { flag = refl; episodes = refl; threshold = refl; frames = refl }

-- Every call on the buffer is one such step: the first overflow outside an episode opens one and is
-- counted, the overflows during it are not, and it closes when a call brings the depth down to the
-- recovery threshold or below, and not before.
pub step-EpisodeStep : (jb : JitterBuffer) (op : Op) → EpisodeStep jb (overflows jb op) (step jb op)
unfolding step
step-EpisodeStep jb (push_op seq frame) = push-EpisodeStep seq frame jb
step-EpisodeStep jb pop_op = pop-EpisodeStep jb
