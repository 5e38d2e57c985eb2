-- ===== src/App/RetryBackoff/History.antt =====
-- What the state of RetryBackoff amounts to, in terms of the calls so far.
use no_cap_kvm.Prelude.{
  ℕ, ◌+◌, ◌-◌, ◌∙◌, ◌^◌, ◌<◌, ◌≡◌, refl, Bool, true, false, ◌&&◌, not, Option, none, some, List, [],
  ◌∷◌, leb, if◌then◌else◌, arith,
}
use no_cap_kvm.Prelude.Bytes.{u32}
use no_cap_kvm.App.RetryBackoff.{
  Event, failed, succeeded, was_reset, create, should_attempt, on_failure, on_success, reset,
  replay, track_reconnect,
}

-- The last call, when it was a failure.
abbrev pub last_failure : List Event → Option ℕ
last_failure [] = none
last_failure (failed now ∷ es) = some now
last_failure (succeeded ∷ es) = none
last_failure (was_reset ∷ es) = none

abbrev pub is_due : ℕ → ℕ → Option ℕ → Bool
is_due backoff now none = true
is_due backoff now (some at) = leb (at + backoff) now

abbrev pub is_first : Option ℕ → Bool
is_first none = true
is_first (some at) = false

backoff-replay : (backoff : ℕ) (es : List Event) → (replay backoff es).backoff ≡ backoff
unfolding replay create on_failure on_success reset
backoff-replay backoff [] = refl
backoff-replay backoff (failed now ∷ es) = ground (arith, backoff-replay backoff es)
backoff-replay backoff (succeeded ∷ es) = backoff-replay backoff es
backoff-replay backoff (was_reset ∷ es) = backoff-replay backoff es

-- After any calls, a new attempt is made at once unless the last call was a failure, and then from
-- that failure's time and the backoff on; and the next failure is reported exactly when the last
-- call was not itself a failure.
pub replay_lem :
    (backoff now : ℕ) (es : List Event)
    → (should_attempt (replay backoff es) now ≡ is_due backoff now (last_failure es))
      × ((on_failure (replay backoff es) now).0 ≡ is_first (last_failure es))
unfolding replay create should_attempt on_failure on_success reset
replay_lem backoff now [] = (refl, refl)
replay_lem backoff now (failed at ∷ es) = ground (arith, backoff-replay backoff es)
replay_lem backoff now (succeeded ∷ es) = (refl, refl)
replay_lem backoff now (was_reset ∷ es) = (refl, refl)

-- The caller's flags after a run of frames, each connected or not, from a disconnected start.
abbrev pub track_all : Bool → Bool → ℕ → List Bool → ℕ
track_all was ever count [] = count
track_all was ever count (is ∷ frames) =
    track_all is (track_reconnect was is ever count).0 (track_reconnect was is ever count).1 frames

-- How often the frames come up to connected.
abbrev pub edges : Bool → List Bool → ℕ
edges was [] = 0
edges was (is ∷ frames) = (if not was && is then 1 else 0) + edges is frames

track_all_ever :
    (was : Bool) (count : ℕ) (frames : List Bool)
    → count + edges was frames < 2 ^ 32
    → track_all was true count frames ≡ count + edges was frames
unfolding track_reconnect
track_all_ever was count [] h = omega arith
track_all_ever true count (is ∷ frames) h =
    track_all_ever is count frames (omega arith) ∙ omega arith
track_all_ever false count (true ∷ frames) h =
    let word : u32 (count + 1) ≡ count + 1 = omega arith in
    rw word (track_all_ever true (count + 1) frames (omega arith) ∙ omega arith)
track_all_ever false count (false ∷ frames) h =
    track_all_ever false count frames (omega arith) ∙ omega arith

-- Over any run of frames that starts disconnected the reconnect count is the number of times the
-- connection came up, less the first, as long as that number fits 32 bits.
pub track_all_lem :
    (frames : List Bool)
    → edges false frames < 2 ^ 32
    → track_all false false 0 frames ≡ edges false frames - 1
unfolding track_reconnect
track_all_lem [] h = refl
track_all_lem (true ∷ frames) h = track_all_ever true 0 frames (omega arith) ∙ omega arith
track_all_lem (false ∷ frames) h = track_all_lem frames (omega arith) ∙ omega arith
