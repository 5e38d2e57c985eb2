-- ===== src/App/BufferDepthWindow/Recent.antt =====
-- What the window holds, and what its maximum is.
use no_cap_kvm.Prelude.{ℕ, ◌-◌, ◌≤◌, List, [], ◌∷◌, ◌++◌, ltb, if◌then◌else◌}
use no_cap_kvm.App.BufferDepthWindow.{Sample, BufferDepthWindow, create, record_sample}

-- The samples of the last `window` ticks.
unfoldable pub recent : ℕ → ℕ → List Sample → List Sample
recent window now [] = []
recent window now (s ∷ ss) =
    let rest = recent window now ss in if ltb window (now - s.at) then rest else s ∷ rest

abbrev StartsAfter : ℕ → List Sample → Type 0
StartsAfter t [] = Unit {0}
StartsAfter t (s ∷ ss) = t ≤ s.at

-- In the order of their times, none after `now`.
abbrev InOrder : ℕ → List Sample → Type 0
InOrder now [] = Unit {0}
InOrder now (s ∷ ss) = (s.at ≤ now) × StartsAfter s.at ss × InOrder now ss

-- The calls of record so far, the latest first, on a new object.
unfoldable pub recorded : ℕ → List Sample → BufferDepthWindow
recorded window [] = create window
recorded window (s ∷ h) = record_sample (recorded window h) s.at s.depth

abbrev pub oldest_first : List Sample → List Sample
oldest_first [] = []
oldest_first (s ∷ h) = oldest_first h ++ (s ∷ [])

-- The clock does not run backwards.
abbrev pub Descending : List Sample → Type 0
Descending [] = Unit {0}
Descending (s ∷ []) = Unit {0}
Descending (s ∷ t ∷ h) = (t.at ≤ s.at) × Descending (t ∷ h)
