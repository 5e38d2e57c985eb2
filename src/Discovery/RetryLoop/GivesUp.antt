-- ===== src/Discovery/RetryLoop/GivesUp.antt =====
-- How long the client goes on trying, and how long it waits in between.
use no_cap_kvm.Prelude.{
  ℕ, Bool, zero, suc, ◌+◌, ◌-◌, ◌*◌, ◌^◌, ◌≤◌, ◌<◌, true, false, ◌||◌, not, none, some, List, [],
  ◌∷◌, ◌≡◌, refl, sym, ◌∙◌, ◌⊎◌, inl, inr, leb, min, Bool-cases, leb→le, arith, length, subst, ap,
  ap₂, Option-cases,
}
use mathlib.Core.Option.{some-injective, none-ne-some}
use no_cap_kvm.Discovery.RetryLoop.{
  retry_backoff, initial_backoff, max_backoff, poll_interval, Attempt, Retry, begin, sleep, is_fast,
  is_give_up, wait, round, run,
}

-- An attempt that fails without having been connected, while nobody stops the thread.
pub record Fails (a : Attempt) : Type 0 where
  pub outcome : a.outcome ≡ retry_backoff
  pub running : a.running ≡ true
  pub running_at : (i : ℕ) → a.running_at i ≡ true
  pub running_next : a.running_next ≡ true

-- A wait that nobody stops lasts until the time is over or the deadline is reached.
sleep_lem :
    (fuel deadline remaining now i : ℕ) (a : Attempt)
    → ((j : ℕ) → a.running_at j ≡ true)
    → remaining ≤ fuel
    → (now + remaining ≤ sleep fuel deadline remaining now i a)
      ⊎ (deadline ≤ sleep fuel deadline remaining now i a)
unfolding sleep
sleep_lem zero deadline zero now i a on h = inl (omega arith)
sleep_lem zero deadline (suc r) now i a on h = absurd (omega arith)
sleep_lem (suc fuel) deadline zero now i a on h = inl (omega arith)
sleep_lem (suc fuel) deadline (suc r) now i a on h = elim (Bool-cases (leb deadline now)) [
  | inl late ↦ rw (on i, late) (inr (leb→le deadline now late))
  | inr early ↦
      let step = min (min (suc r) poll_interval) (deadline - now) in
      let before : now < deadline = ground arith in
      let rest =
        sleep_lem fuel deadline (suc r - step) (now + step + a.oversleep i) (i + 1) a on
          (omega arith) in
      rw (on i, early) (omega (arith, rest))
]

-- A round that goes on.
record GoesOn (r s : Retry) : Type 0 where
  deadline : s.give_up_deadline ≡ r.give_up_deadline
  waited : r.now + r.backoff ≤ s.now
  in_time : s.now < s.give_up_deadline
  doubled : s.backoff ≡ min (r.backoff * 2) max_backoff

in_time_of :
    (deadline woken : ℕ) (on : Bool) → (leb deadline woken || not on) ≡ false → woken < deadline
in_time_of deadline woken true h = ground arith
in_time_of deadline woken false h = ground arith

plain : (a : Attempt) → Fails a → is_fast a.outcome ≡ false
plain a f = ap is_fast f.outcome

tries_again : (a : Attempt) → Fails a → (is_give_up a.outcome || not a.running) ≡ false
tries_again a f = ap₂ (λ o b. is_give_up o || not b) f.outcome f.running

wait-GoesOn : (a : Attempt) (r s : Retry) → Fails a → wait a r ≡ some s → GoesOn r s
unfolding wait
wait-GoesOn a r s f e =
    let woken = sleep r.backoff r.give_up_deadline r.backoff r.now 0 a in
    elim (Bool-cases (leb r.give_up_deadline woken || not a.running_next)) [
      | inl late ↦ absurd (none-ne-some s (rw (wait, late) at e))
      | inr early ↦
          let next = record r { now = woken; backoff = min (r.backoff * 2) max_backoff } in
          let same : next ≡ s = some-injective next s (rw (wait, early, plain a f) at e) in
          let on =
            sleep_lem r.backoff r.give_up_deadline r.backoff r.now 0 a f.running_at (omega arith) in
          let before : woken < r.give_up_deadline =
            in_time_of r.give_up_deadline woken a.running_next early in
          let goes : GoesOn r next = record {
            deadline = refl;
            waited = omega (arith, on);
            in_time = before;
            doubled = refl;
          } in
          subst (GoesOn r) same goes
    ]

round-GoesOn :
    (give_up_after : ℕ) (a : Attempt) (r s : Retry)
    → Fails a
    → round give_up_after a r ≡ some s
    → GoesOn r s
unfolding round
round-GoesOn give_up_after a r s f e =
    elim (Bool-cases (leb r.give_up_deadline (r.now + a.duration))) [
      | inl late ↦ absurd (none-ne-some s (rw (round, tries_again a f, plain a f, late) at e))
      | inr early ↦
          let goes =
            wait-GoesOn a (record r { now = r.now + a.duration }) s f
              (rw (round, tries_again a f, plain a f, early) at e) in
          record {
            deadline = goes.deadline;
            waited = omega (arith, goes.waited);
            in_time = goes.in_time;
            doubled = goes.doubled;
          }
    ]

abbrev pub AllFail : List Attempt → Type 0
AllFail [] = Unit {0}
AllFail (a ∷ later) = Fails a × AllFail later

-- The backoff after `n` failures in a row.
abbrev pub backoff_after : ℕ → ℕ
backoff_after zero = initial_backoff
backoff_after (suc n) = min (backoff_after n * 2) max_backoff

-- The loop after `n` failures, if it goes on.
record Tried (give_up_after start n : ℕ) (r : Retry) : Type 0 where
  backoff : r.backoff ≡ backoff_after n
  deadline : r.give_up_deadline ≡ start + give_up_after
  waited : start + n * initial_backoff ≤ r.now

backoff_after-bounds :
    (n : ℕ) → (initial_backoff ≤ backoff_after n) × (backoff_after n ≤ max_backoff)
backoff_after-bounds zero = (omega arith, omega arith)
backoff_after-bounds (suc n) = omega (arith, backoff_after-bounds n)

round-Tried :
    (give_up_after start n : ℕ) (a : Attempt) (r s : Retry)
    → Fails a
    → Tried give_up_after start n r
    → round give_up_after a r ≡ some s
    → Tried give_up_after start (suc n) s × (s.now < s.give_up_deadline)
round-Tried give_up_after start n a r s f t e =
    let goes = round-GoesOn give_up_after a r s f e in
    (
      record {
        backoff = goes.doubled ∙ ap (λ b. min (b * 2) max_backoff) t.backoff;
        deadline = goes.deadline ∙ t.deadline;
        waited = omega (arith, goes.waited, t.waited, t.backoff, backoff_after-bounds n);
      },
      goes.in_time,
    )

begin-Tried : (give_up_after start : ℕ) → Tried give_up_after start 0 (begin give_up_after start)
begin-Tried give_up_after start = record { backoff = refl; deadline = refl; waited = omega arith }

backoff_after_closed : (n : ℕ) → backoff_after n ≡ min (2 ^ n * initial_backoff) max_backoff
backoff_after_closed zero = omega arith
backoff_after_closed (suc n) = omega (arith, backoff_after_closed n)

run-none : (give_up_after : ℕ) (later : List Attempt) → run give_up_after later none ≡ none
unfolding run
run-none give_up_after [] = refl
run-none give_up_after (a ∷ later) = refl

-- The rounds from any point on: the loop has ended, or it is within the deadline.
run-Tried :
    (give_up_after start n : ℕ) (attempts : List Attempt) (r s : Retry)
    → AllFail attempts
    → Tried give_up_after start n r
    → r.now < r.give_up_deadline
    → run give_up_after attempts (some r) ≡ some s
    → Tried give_up_after start (n + length attempts) s × (s.now < s.give_up_deadline)
unfolding run
run-Tried give_up_after start n [] r s f t h e =
    let same = some-injective r s e in
    let count : n ≡ n + 0 = omega arith in rw (← same, ← count) (t, h)
run-Tried give_up_after start n (a ∷ later) r s f t h e =
    elim (Option-cases (round give_up_after a r)) [
      | inl ended ↦ absurd (none-ne-some s (sym (run-none give_up_after later) ∙ (rw ended at e)))
      | inr (next, on) ↦
          let (tried, in_time) = round-Tried give_up_after start n a r next f.0 t on in
          let count : suc n + length later ≡ n + suc (length later) = omega arith in
          rw (← count)
            (run-Tried give_up_after start (suc n) later next s f.1 tried in_time (rw on at e))
    ]

-- The client gives up: after attempts in a row that fail without having been connected, while nobody
-- stops the thread, the loop has ended as soon as their number times the initial backoff of one second
-- reaches the time after which it is to give up, however long attempts and waits take.
pub run-ends :
    (give_up_after start : ℕ) (attempts : List Attempt)
    → 0 < give_up_after
    → AllFail attempts
    → give_up_after ≤ length attempts * initial_backoff
    → run give_up_after attempts (some (begin give_up_after start)) ≡ none
run-ends give_up_after start attempts pos_time f h =
    elim (Option-cases (run give_up_after attempts (some (begin give_up_after start)))) [
      | inl e ↦ e
      | inr (s, e) ↦
          let (tried, in_time) =
            run-Tried give_up_after start 0 attempts (begin give_up_after start) s f
              (begin-Tried give_up_after start) (omega arith) e in
          absurd (omega (arith, tried.waited, tried.deadline, in_time))
    ]

-- How long it waits: after `n` attempts in a row that fail without having been connected, if the loop
-- goes on, the next wait is the initial backoff doubled `n` times, at most ten seconds.
pub run-backoff :
    (give_up_after start : ℕ) (attempts : List Attempt) (s : Retry)
    → 0 < give_up_after
    → AllFail attempts
    → run give_up_after attempts (some (begin give_up_after start)) ≡ some s
    → s.backoff ≡ min (2 ^ length attempts * initial_backoff) max_backoff
run-backoff give_up_after start attempts s pos_time f e =
    let (tried, in_time) =
      run-Tried give_up_after start 0 attempts (begin give_up_after start) s f
        (begin-Tried give_up_after start) (omega arith) e in
    let count : 0 + length attempts ≡ length attempts = omega arith in
    tried.backoff ∙ ap backoff_after count ∙ backoff_after_closed (length attempts)
