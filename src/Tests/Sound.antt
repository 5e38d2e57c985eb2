-- ===== src/Tests/Sound.antt =====
-- src/audio/jitter_buffer.cpp and src/app/audio_loss_window.h.
use no_cap_kvm.Prelude.{arith, ◌≡◌, refl, true, false, some, [], ◌∷◌}
use no_cap_kvm.Prelude.Assoc.{lookup}
use no_cap_kvm.Audio.JitterBuffer.{
  JitterBuffer, pop, pop_started, miss, play, clear_at_cap_if_recovered, create, run, step, push,
  pops, push_op, pop_op,
}
use no_cap_kvm.Audio.JitterBuffer.Invariant.{IsValid, run-create-IsValid}
use no_cap_kvm.Audio.JitterBuffer.Playout.{playlist, pops-playlist, stall-resyncs}
use no_cap_kvm.Audio.JitterBuffer.Episodes.{EpisodeStep, overflows, step-EpisodeStep}

run-create-IsValid_example :
    IsValid (run (create 2 4) (push_op 3 (1 ∷ []) ∷ push_op 1 (2 ∷ []) ∷ pop_op ∷ []))
run-create-IsValid_example =
    run-create-IsValid 2 4 (push_op 3 (1 ∷ []) ∷ push_op 1 (2 ∷ []) ∷ pop_op ∷ []) (omega arith)

-- Two frames are buffered, and one between them is missing.
abbrev playing : JitterBuffer
playing = record {
  buffer = (5, 50 ∷ []) ∷ (7, 70 ∷ []) ∷ [];
  target_depth = 2;
  max_depth = 4;
  recovery_threshold = 3;
  started = true;
  next_seq = 5;
  at_cap = false;
  cap_episodes = 0;
  playout_misses = 0;
  frames_played = 0;
  consecutive_misses = 0;
}

playing-IsValid : IsValid playing
playing-IsValid = record {
  sorted = ((omega arith), ((omega arith), tt));
  bounded = omega arith;
  target_pos = omega arith;
  target_le = omega arith;
  misses_lt = omega arith;
  threshold_lt = omega arith;
}

pops-playlist_example : (pops 3 playing).0 ≡ playlist 3 5 playing.buffer
unfolding pops pop pop_started miss play clear_at_cap_if_recovered
pops-playlist_example = pops-playlist 3 playing playing-IsValid refl (omega arith) refl

-- An empty buffer near the end of its patience.
abbrev starved : JitterBuffer
starved = record playing { buffer = []; consecutive_misses = 38 }

starved-IsValid : IsValid starved
starved-IsValid = record {
  sorted = tt;
  bounded = omega arith;
  target_pos = omega arith;
  target_le = omega arith;
  misses_lt = omega arith;
  threshold_lt = omega arith;
}

stall-resyncs_example :
    ((pops 2 starved).1.started ≡ false)
    × (lookup 3 (push (pops 2 starved).1 3 (9 ∷ [])).0.buffer ≡ some (9 ∷ []))
stall-resyncs_example = stall-resyncs 2 starved 3 (9 ∷ []) starved-IsValid refl refl refl

step-EpisodeStep_example :
    EpisodeStep playing
      (overflows playing (push_op 6 (60 ∷ [])))
      (step playing (push_op 6 (60 ∷ [])))
step-EpisodeStep_example = step-EpisodeStep playing (push_op 6 (60 ∷ []))
