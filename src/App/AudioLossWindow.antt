-- ===== src/App/AudioLossWindow.antt =====
-- src/app/audio_loss_window.h. A time point is a number of ticks of the steady clock, so that a
-- later one minus an earlier one is a difference of numbers.
pub mod Span
use no_cap_kvm.Prelude.{
  ℕ, ◌+◌, ◌-◌, Bool, true, false, List, [], ◌∷◌, ◌++◌, ltb, leb, if◌then◌else◌,
}
use no_cap_kvm.Prelude.Bytes.{u64}

pub record Sample : Type 0 where
  pub at : ℕ
  pub misses : ℕ
  pub played : ℕ

pub record AudioLossWindow : Type 0 where
  pub window : ℕ
  pub samples : List Sample
  pub first_sample_at : ℕ
  pub has_first_sample : Bool
  pub ready : Bool

pub record Reading : Type 0 where
  pub ready : Bool
  pub misses : ℕ
  pub attempts : ℕ

unfoldable pub create : ℕ → AudioLossWindow
create window = record {
  window = window;
  samples = [];
  first_sample_at = 0;
  has_first_sample = false;
  ready = false;
}

-- samples_.back(), with a default for the empty deque.
abbrev pub last_sample : Sample → List Sample → Sample
last_sample d [] = d
last_sample d (s ∷ ss) = last_sample s ss

-- Whether the last sample is further back than the window.
abbrev pub is_stale : ℕ → ℕ → List Sample → Bool
is_stale window now [] = false
is_stale window now (s ∷ ss) = ltb window (now - (last_sample s ss).at)

-- The loop that drops the front as long as the second sample is old enough.
unfoldable pub evict : ℕ → ℕ → List Sample → List Sample
evict window now [] = []
evict window now (a ∷ []) = a ∷ []
evict window now (a ∷ b ∷ ss) =
    let rest = evict window now (b ∷ ss) in if leb window (now - b.at) then rest else a ∷ b ∷ ss

-- The rest of `record`, when the retained history is known.
unfoldable pub keep : ℕ → List Sample → ℕ → Sample → AudioLossWindow
keep window samples first s = record {
  window = window;
  samples = evict window s.at (samples ++ (s ∷ []));
  first_sample_at = first;
  has_first_sample = true;
  ready = leb window (s.at - first);
}

unfoldable pub record_sample : AudioLossWindow → ℕ → ℕ → ℕ → AudioLossWindow
unfolding keep
record_sample w now misses played =
    let s : Sample = record { at = now; misses = misses; played = played } in
    if is_stale w.window now w.samples
    then keep w.window [] now s
    else keep w.window w.samples (if w.has_first_sample then w.first_sample_at else now) s

unfoldable pub reset : AudioLossWindow → AudioLossWindow
reset w = record w { samples = []; has_first_sample = false; ready = false }

abbrev pub measure : Sample → Sample → Reading
measure oldest newest =
    let misses = newest.misses - oldest.misses in
    record {
      ready = true;
      misses = misses;
      attempts = u64 (misses + (newest.played - oldest.played));
    }

-- The subtraction of numbers, which stops at 0, is the source's `a >= b ? a - b : 0`.
abbrev pub read_samples : Bool → List Sample → Reading
read_samples ready [] = record { ready = ready; misses = 0; attempts = 0 }
read_samples false (s ∷ ss) = record { ready = false; misses = 0; attempts = 0 }
read_samples true (s ∷ ss) = measure s (last_sample s ss)

abbrev pub reading : AudioLossWindow → Reading
reading w = read_samples w.ready w.samples
