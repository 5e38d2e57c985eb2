-- ===== src/Discovery/RetryLoop.antt =====
-- TcpClient::run of src/discovery/tcp_client.cpp: the loop that tries again. A time point is a
-- number of milliseconds of the steady clock.
pub mod GivesUp
use no_cap_kvm.Prelude.{
  ℕ, zero, suc, ◌+◌, ◌-◌, ◌*◌, Bool, true, false, ◌||◌, not, Option, none, some, List, [], ◌∷◌, leb,
  min, if◌then◌else◌,
}

pub data AttemptOutcome : Type 0 where
  retry_fast retry_backoff give_up : AttemptOutcome

-- kInitialBackoff, kMaxBackoff and kBackoffPollInterval
abbrev pub initial_backoff : ℕ
initial_backoff = 1000

abbrev pub max_backoff : ℕ
max_backoff = 10000

abbrev pub poll_interval : ℕ
poll_interval = 200

-- One round as the world has it: how run_once ends and how long it takes, whether the thread is
-- still to run after it, before the i-th slice of the wait and after the wait, and by how much that
-- slice takes longer than was asked for.
pub record Attempt : Type 0 where
  pub outcome : AttemptOutcome
  pub duration : ℕ
  pub running : Bool
  pub running_at : ℕ → Bool
  pub running_next : Bool
  pub oversleep : ℕ → ℕ

-- The loop's variables, and the clock.
pub record Retry : Type 0 where
  pub backoff : ℕ
  pub give_up_deadline : ℕ
  pub now : ℕ

abbrev pub begin : ℕ → ℕ → Retry
begin give_up_after now = record {
  backoff = initial_backoff;
  give_up_deadline = now + give_up_after;
  now = now;
}

-- The wait in slices, and the time after it. A slice takes at least one millisecond off what
-- remains, so the remaining time is fuel enough. With whole milliseconds, the steps of length zero
-- do not occur that the code takes in the last millisecond before the deadline.
unfoldable pub sleep : ℕ → ℕ → ℕ → ℕ → ℕ → Attempt → ℕ
sleep zero deadline remaining now i a = now
sleep (suc fuel) deadline zero now i a = now
sleep (suc fuel) deadline (suc r) now i a =
    let step = min (min (suc r) poll_interval) (deadline - now) in
    let rest = sleep fuel deadline (suc r - step) (now + step + a.oversleep i) (i + 1) a in
    if not (a.running_at i) || leb deadline now then now else rest

abbrev pub is_fast : AttemptOutcome → Bool
is_fast retry_fast = true
is_fast retry_backoff = false
is_fast give_up = false

abbrev pub is_give_up : AttemptOutcome → Bool
is_give_up retry_fast = false
is_give_up retry_backoff = false
is_give_up give_up = true

-- The wait after an attempt that is to be repeated, and the next backoff; none ends the loop.
unfoldable pub wait : Attempt → Retry → Option Retry
wait a r =
    let woken = sleep r.backoff r.give_up_deadline r.backoff r.now 0 a in
    if leb r.give_up_deadline woken || not a.running_next
    then none
    else some (record r {
      now = woken;
      backoff = if is_fast a.outcome then r.backoff else min (r.backoff * 2) max_backoff;
    })

-- One round of the loop; none ends it.
unfoldable pub round : ℕ → Attempt → Retry → Option Retry
round give_up_after a r =
    let now = r.now + a.duration in
    if is_give_up a.outcome || not a.running
    then none
    else if is_fast a.outcome
    then wait a
        (record r { now = now; give_up_deadline = now + give_up_after; backoff = initial_backoff })
    else if leb r.give_up_deadline now
    then none
    else wait a (record r { now = now })

-- The rounds of a run; none once the loop has ended.
unfoldable pub run : ℕ → List Attempt → Option Retry → Option Retry
run give_up_after [] r = r
run give_up_after (a ∷ later) none = none
run give_up_after (a ∷ later) (some r) = run give_up_after later (round give_up_after a r)
