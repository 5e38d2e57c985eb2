-- ===== src/App/AudioLossWindow/Span.antt =====
-- What stretch of time a reading covers.
use no_cap_kvm.Prelude.{ℕ, ◌+◌, ◌-◌, ◌≤◌, ◌≡◌, ◌⊎◌, List, [], ◌∷◌, leb}
use no_cap_kvm.App.AudioLossWindow.{Sample, AudioLossWindow, create, last_sample, record_sample}

abbrev pub In : Sample → List Sample → Type 0
In x [] = ⊥
In x (y ∷ ys) = (x ≡ y) ⊎ In x ys

-- Samples of the history, none after `now`.
abbrev Held : ℕ → List Sample → List Sample → Type 0
Held now h [] = Unit {0}
Held now h (x ∷ ss) = (x.at ≤ now) × In x h × Held now h ss

-- Nonempty, with the newest at the back and the front at the first sample or a window ago.
record Anchored (window first : ℕ) (s : Sample) (h ss : List Sample) : Type 0 where
  front : Sample
  others : List Sample
  is_split : ss ≡ front ∷ others
  is_newest : last_sample front others ≡ s
  is_old : (front.at ≡ first) ⊎ (front.at + window ≤ s.at)
  is_held : Held s.at h ss

-- The calls of record so far, the latest first, on a new object.
unfoldable pub recorded : ℕ → List Sample → AudioLossWindow
recorded window [] = create window
recorded window (s ∷ h) = record_sample (recorded window h) s.at s.misses s.played

-- The clock does not run backwards.
abbrev pub Descending : List Sample → Type 0
Descending [] = Unit {0}
Descending (s ∷ []) = Unit {0}
Descending (s ∷ t ∷ h) = (t.at ≤ s.at) × Descending (t ∷ h)

-- The state that `keep` leaves.
record IsAnchored (window : ℕ) (s : Sample) (h : List Sample) (w : AudioLossWindow) : Type 0 where
  anchored : Anchored window w.first_sample_at s h w.samples
  is_ready : w.ready ≡ leb window (s.at - w.first_sample_at)
