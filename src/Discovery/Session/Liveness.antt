-- ===== src/Discovery/Session/Liveness.antt =====
-- When a session ends, and that it keeps the other end from ending it.
use no_cap_kvm.Prelude.{
  ℕ, ◌-◌, ◌<◌, ◌≡◌, subst, if_intro, refl, ◌∙◌, Bool, true, false, not, Option, none, some, List,
  leb, ◌&&◌, arith, inl, inr, Bool-cases,
}
use mathlib.Core.Option.{none-ne-some, some-injective}
use no_cap_kvm.Topology.Geometry.{MonitorInfo}
use no_cap_kvm.Discovery.SecureChannel.{Received, timeout, closed, error, ok}
use no_cap_kvm.Discovery.Payloads.{decode_audio_settings, decode_ping_seq, decode_monitor_list}
use no_cap_kvm.Discovery.Session.{
  heartbeat_interval, Messages, is_none, send_probe, send_heartbeat, abandon_probe, upkeep, Session,
  Clock, Wanted, is_wanted, is_closed, take_pong, server_message, set_monitors, set_audio_status,
  hear, server_receive, server_round,
}

take_pong_lem :
    (s : Session) (now : ℕ) (seq flight : Option ℕ)
    → ((take_pong s now seq flight).last_heard ≡ s.last_heard)
      × ((take_pong s now seq flight).last_heartbeat_sent ≡ s.last_heartbeat_sent)
unfolding take_pong
take_pong_lem s now none flight = (refl, refl)
take_pong_lem s now (some seq) none = (refl, refl)
take_pong_lem s now (some seq) (some sent) = (ground arith, ground arith)

set_monitors_lem :
    (s : Session) (o : Option (List MonitorInfo)) → (set_monitors s o).last_heard ≡ s.last_heard
set_monitors_lem s none = refl
set_monitors_lem s (some ms) = refl

set_audio_status_lem :
    (s : Session) (o : Option (Bool × ℕ × ℕ)) → (set_audio_status s o).last_heard ≡ s.last_heard
set_audio_status_lem s none = refl
set_audio_status_lem s (some v) = refl

pub last_heard-server_receive :
    (s : Session) (now : ℕ) (result : Received)
    → (server_receive s now result).0.last_heard ≡ s.last_heard
unfolding server_receive server_message
last_heard-server_receive s now timeout = refl
last_heard-server_receive s now closed = refl
last_heard-server_receive s now error = refl
last_heard-server_receive s now (ok msg_type payload) =
    let pong = take_pong_lem s now (decode_ping_seq payload) s.ping_in_flight_seq in
    let monitors = set_monitors_lem s (decode_monitor_list payload) in
    let audio = set_audio_status_lem s (decode_audio_settings payload) in ground arith

-- When the peer was last heard, counting this result.
abbrev pub heard_at : Session → ℕ → Received → ℕ
heard_at s now timeout = s.last_heard
heard_at s now closed = s.last_heard
heard_at s now error = now
heard_at s now (ok msg_type payload) = now

pub hear_lem :
    (s : Session) (now : ℕ) (result : Received)
    → (hear s now result).last_heard ≡ heard_at s now result
unfolding hear
hear_lem s now timeout = refl
hear_lem s now closed = refl
hear_lem s now error = refl
hear_lem s now (ok msg_type payload) = refl

abbrev pub goes_on : Option Session → Bool
goes_on none = false
goes_on (some s) = true

-- A round of the Master's loop goes on exactly when the session is wanted, the connection is not
-- closed and the peer was heard within the heartbeat timeout, bytes that are no message counted.
pub server_round_lem :
    (wanted : Wanted) (heartbeat_timeout : ℕ) (s : Session) (clock : Clock) (result : Received)
    → goes_on (server_round wanted heartbeat_timeout s clock result).0 ≡ (
        is_wanted wanted
        && not (is_closed result)
        && not (leb heartbeat_timeout (clock.now - heard_at s clock.heard result)))
unfolding server_round
server_round_lem wanted heartbeat_timeout s clock result =
    let heard =
      last_heard-server_receive (hear s clock.heard result) clock.measured result
      ∙ hear_lem s clock.heard result in
    rw heard (elim (Bool-cases (is_wanted wanted)) [
      | inr w ↦ rw w refl
      | inl w ↦ rw w (elim (Bool-cases (is_closed result)) [
        | inl e ↦ rw e refl
        | inr e ↦
            elim (Bool-cases (leb heartbeat_timeout (clock.now - heard_at s clock.heard result))) [
              | inl e' ↦ rw (e, e') refl
              | inr e' ↦ rw (e, e') refl
            ]
      ])
    ])

send_probe_lem :
    (s : Session) (now : ℕ) → (send_probe s now).0.last_heartbeat_sent ≡ s.last_heartbeat_sent
unfolding send_probe
send_probe_lem s now =
    elim (Bool-cases
      (is_none s.ping_in_flight_seq && leb heartbeat_interval (now - s.last_ping_sent))) [
        | inl e ↦ rw e refl
        | inr e ↦ rw e refl
      ]

send_heartbeat_lem :
    (s : Session) (now : ℕ)
    → now - (send_heartbeat s now).0.last_heartbeat_sent < heartbeat_interval
unfolding send_heartbeat
send_heartbeat_lem s now =
    elim (Bool-cases (leb heartbeat_interval (now - s.last_heartbeat_sent))) [
      | inl e ↦ rw e (omega arith)
      | inr e ↦ rw e (ground arith)
    ]

upkeep_lem :
    (s : Session) (now : ℕ) → now - (upkeep s now).0.last_heartbeat_sent < heartbeat_interval
unfolding upkeep abandon_probe
upkeep_lem s now =
    let beat = (send_heartbeat s now).0 in
    let sent = send_heartbeat_lem s now in
    let kept = send_probe_lem (abandon_probe beat now) now in rw kept sent

-- Whatever arrives, after every round of the Master's loop that goes on, less than a second lies
-- between its last heartbeat, or the start of the session, and the time of the round's upkeep.
pub server_round-send_heartbeat :
    (wanted : Wanted) (heartbeat_timeout : ℕ) (s s' : Session) (clock : Clock) (result : Received)
    → (server_round wanted heartbeat_timeout s clock result).0 ≡ some s'
    → clock.now - s'.last_heartbeat_sent < heartbeat_interval
unfolding server_round
server_round-send_heartbeat wanted heartbeat_timeout s s' clock result h =
    let got = server_receive (hear s clock.heard result) clock.measured result in
    let kept = upkeep_lem got.0 clock.now in
    let left : none ≡ some s' → clock.now - s'.last_heartbeat_sent < heartbeat_interval =
      λ e. absurd (none-ne-some s' e) in
    let Beats : Option Session × Messages → Type 0 =
      λ r. r.0 ≡ some s' → clock.now - s'.last_heartbeat_sent < heartbeat_interval in
    if_intro Beats (not (is_wanted wanted)) left
      (if_intro Beats (is_closed result) left (
        if_intro Beats (leb heartbeat_timeout (clock.now - got.0.last_heard)) left (λ e.
          subst (λ t. clock.now - t.last_heartbeat_sent < heartbeat_interval)
            (some-injective _ s' e) kept)))
      h
