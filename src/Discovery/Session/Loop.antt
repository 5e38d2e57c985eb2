-- ===== src/Discovery/Session/Loop.antt =====
-- The Master's loop over a session's rounds, and how long it lasts.
use no_cap_kvm.Prelude.{ℕ, ◌-◌, Bool, true, not, Option, none, some, List, [], ◌∷◌, ◌++◌, leb, ◌&&◌}
use no_cap_kvm.Discovery.SecureChannel.{Received, timeout, closed, error, ok}
use no_cap_kvm.Discovery.Session.{
  Messages, Session, Clock, Wanted, is_wanted, is_closed, server_round,
}

-- What a round finds: the two flags, the timeout of the moment, the clock and the result of receive.
pub record Round : Type 0 where
  pub wanted : Wanted
  pub heartbeat_timeout : ℕ
  pub clock : Clock
  pub result : Received

abbrev pub run_round : Session → Round → Option Session × Messages
run_round s r = server_round r.wanted r.heartbeat_timeout s r.clock r.result

-- The loop, for as long as there are rounds: none when it has been left, with all that it sent.
unfoldable pub server_loop : Session → List Round → Option Session × Messages
server_loop s [] = (some s, [])
server_loop s (r ∷ rounds) = elim (run_round s r).0 [
  | none ↦ (none, (run_round s r).1)
  | some next ↦ let later = server_loop next rounds in (later.0, (run_round s r).1 ++ later.1)
]

-- The time of the last bytes, by the result of a receive at time `now`.
abbrev pub heard_then : ℕ → ℕ → Received → ℕ
heard_then before now timeout = before
heard_then before now closed = before
heard_then before now error = now
heard_then before now (ok msg_type payload) = now

-- The reference. When bytes came in last, or else `start`.
abbrev pub heard_last : ℕ → List Round → ℕ
heard_last start [] = start
heard_last start (r ∷ rounds) = heard_last (heard_then start r.clock.heard r.result) rounds

-- Whether a round goes on, by what happened up to it.
abbrev pub is_alive : ℕ → List Round → Round → Bool
is_alive start history r =
    is_wanted r.wanted
    && not (is_closed r.result)
    && not (leb r.heartbeat_timeout (r.clock.now - heard_last start history))

-- Whether each of the rounds does that come after `before`.
abbrev pub all_alive : ℕ → List Round → List Round → Bool
all_alive start before [] = true
all_alive start before (r ∷ rounds) =
    is_alive start (before ++ (r ∷ [])) r && all_alive start (before ++ (r ∷ [])) rounds
