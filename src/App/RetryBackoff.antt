-- ===== src/App/RetryBackoff.antt =====
-- src/app/retry_backoff.h and src/app/reconnect_tracker.h. A time point is a number of ticks.
pub mod History
use no_cap_kvm.Prelude.{ℕ, ◌+◌, Bool, true, false, ◌||◌, not, List, [], ◌∷◌, leb, if◌then◌else◌}
use no_cap_kvm.Prelude.Bytes.{u32}

pub record RetryBackoff : Type 0 where
  pub backoff : ℕ
  pub retry_after : ℕ
  pub has_retry_after : Bool
  pub failure_logged : Bool

unfoldable pub create : ℕ → RetryBackoff
create backoff = record {
  backoff = backoff;
  retry_after = 0;
  has_retry_after = false;
  failure_logged = false;
}

unfoldable pub should_attempt : RetryBackoff → ℕ → Bool
should_attempt r now = not r.has_retry_after || leb r.retry_after now

-- Whether the failure is to be logged, and the state after it.
unfoldable pub on_failure : RetryBackoff → ℕ → Bool × RetryBackoff
on_failure r now =
    let armed = record r { retry_after = now + r.backoff; has_retry_after = true } in
    if r.failure_logged then (false, armed) else (true, record armed { failure_logged = true })

unfoldable pub on_success : RetryBackoff → RetryBackoff
on_success r = record r { has_retry_after = false; failure_logged = false }

unfoldable pub reset : RetryBackoff → RetryBackoff
reset r = record r { has_retry_after = false; failure_logged = false }

-- The calls that change the state.
pub data Event : Type 0 where
  failed : ℕ → Event
  succeeded : Event
  was_reset : Event

abbrev pub step : Event → RetryBackoff → RetryBackoff
step (failed now) r = (on_failure r now).1
step succeeded r = on_success r
step was_reset r = reset r

-- A history, the latest event first.
unfoldable pub replay : ℕ → List Event → RetryBackoff
replay backoff [] = create backoff
replay backoff (e ∷ es) = step e (replay backoff es)

-- `ever_connected` and `reconnect_count` after the call.
unfoldable pub track_reconnect : Bool → Bool → Bool → ℕ → Bool × ℕ
track_reconnect was_connected is_connected ever_connected reconnect_count =
    if was_connected || not is_connected
    then (ever_connected, reconnect_count)
    else (true, if ever_connected then u32 (reconnect_count + 1) else reconnect_count)
