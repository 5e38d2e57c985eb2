-- ===== src/App/BufferDepthWindow.antt =====
-- src/app/buffer_depth_window.h. A time point is a number of ticks of the steady clock.
pub mod Recent
use no_cap_kvm.Prelude.{
  ℕ, ◌-◌, max, Bool, true, false, List, [], ◌∷◌, ◌++◌, ltb, leb, if◌then◌else◌,
}

pub record Sample : Type 0 where
  pub at : ℕ
  pub depth : ℕ

pub record BufferDepthWindow : Type 0 where
  pub window : ℕ
  pub samples : List Sample
  pub first_sample_at : ℕ
  pub has_first_sample : Bool
  pub ready : Bool

unfoldable pub create : ℕ → BufferDepthWindow
create window = record {
  window = window;
  samples = [];
  first_sample_at = 0;
  has_first_sample = false;
  ready = false;
}

-- Whether the last sample is further back than the window.
unfoldable pub is_stale : ℕ → ℕ → List Sample → Bool
is_stale window now [] = false
is_stale window now (s ∷ []) = ltb window (now - s.at)
is_stale window now (s ∷ t ∷ ss) = is_stale window now (t ∷ ss)

-- The loop that drops the old samples at the front.
unfoldable pub evict : ℕ → ℕ → List Sample → List Sample
evict window now [] = []
evict window now (s ∷ ss) =
    let rest = evict window now ss in if ltb window (now - s.at) then rest else s ∷ ss

-- The rest of `record`, when the retained history is known.
abbrev pub keep : ℕ → List Sample → ℕ → Sample → BufferDepthWindow
keep window samples first s = record {
  window = window;
  samples = evict window s.at (samples ++ (s ∷ []));
  first_sample_at = first;
  has_first_sample = true;
  ready = leb window (s.at - first);
}

unfoldable pub record_sample : BufferDepthWindow → ℕ → ℕ → BufferDepthWindow
record_sample w now depth =
    let s : Sample = record { at = now; depth = depth } in
    if is_stale w.window now w.samples
    then keep w.window [] now s
    else keep w.window w.samples (if w.has_first_sample then w.first_sample_at else now) s

unfoldable pub reset : BufferDepthWindow → BufferDepthWindow
reset w = record w { samples = []; has_first_sample = false; ready = false }

unfoldable pub max_depth : List Sample → ℕ
max_depth [] = 0
max_depth (s ∷ ss) = max s.depth (max_depth ss)

abbrev pub maximum : BufferDepthWindow → ℕ
maximum w = max_depth w.samples
