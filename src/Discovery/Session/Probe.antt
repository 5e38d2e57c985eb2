-- ===== src/Discovery/Session/Probe.antt =====
-- The measurement of the round trip: the pings of a session.
use no_cap_kvm.Prelude.{
  ℕ, ◌+◌, ◌-◌, ◌<◌, ◌≡◌, refl, ap, subst, inl, inr, Bool, true, not, Option, none, some, List, [],
  leb, ◌==◌, ◌&&◌, arith, if_intro, Bool-cases,
}
use mathlib.Core.Option.{none-ne-some, some-injective}
use no_cap_kvm.Prelude.Bytes.{u32}
use no_cap_kvm.Input.Protocol.{Injection, dispatch_input_message}
use no_cap_kvm.Discovery.Types.{
  msg_monitor_list, msg_audio_port, msg_audio_status, msg_audio_control, msg_heartbeat, msg_go_away,
  msg_ping, msg_pong,
}
use no_cap_kvm.Topology.Geometry.{MonitorInfo}
use no_cap_kvm.Discovery.SecureChannel.{Received, timeout, closed, error, ok}
use no_cap_kvm.Discovery.Payloads.{
  decode_audio_port, decode_audio_settings, decode_ping_seq, decode_monitor_list,
}
use no_cap_kvm.Discovery.Session.{
  heartbeat_interval, ping_probe_timeout, Session, Messages, MonitorWatch, Clock, ClientRound,
  Wanted, is_wanted, is_closed, take_pong, client_message, server_message, send_heartbeat,
  abandon_probe, send_probe, upkeep, hear, with_status, keep_clipboard, is_clipboard, answer_ping,
  set_monitors, set_audio_status, set_audio_control, set_audio_port, still_in_flight, is_none,
  server_receive, client_receive, server_round, client_round,
}

-- A ping in flight is the last one that was sent, and its time is that of the last send.
abbrev pub IsLast : Option ℕ → ℕ → ℕ → ℕ → Type 0
IsLast none next sent_at last_sent = Unit {0}
IsLast (some seq) next sent_at last_sent = (u32 (seq + 1) ≡ next) × (sent_at ≡ last_sent)

pub record IsProbing (s : Session) : Type 0 where
  pub is_last : IsLast s.ping_in_flight_seq s.next_ping_seq s.ping_sent_at s.last_ping_sent

take_pong-IsProbing :
    (s : Session) (now : ℕ) (seq flight : Option ℕ)
    → s.ping_in_flight_seq ≡ flight
    → IsProbing s
    → IsProbing (take_pong s now seq flight)
unfolding take_pong
take_pong-IsProbing s now none flight e p = p
take_pong-IsProbing s now (some seq) none e p = p
take_pong-IsProbing s now (some seq) (some sent) e p =
    if_intro IsProbing (seq == sent) (record { is_last = tt }) p

set_monitors-IsProbing :
    (s : Session) (o : Option (List MonitorInfo)) → IsProbing s → IsProbing (set_monitors s o)
set_monitors-IsProbing s none p = record { is_last = p.is_last }
set_monitors-IsProbing s (some ms) p = record { is_last = p.is_last }

set_audio_status-IsProbing :
    (s : Session) (o : Option (Bool × ℕ × ℕ)) → IsProbing s → IsProbing (set_audio_status s o)
set_audio_status-IsProbing s none p = record { is_last = p.is_last }
set_audio_status-IsProbing s (some v) p = record { is_last = p.is_last }

set_audio_control-IsProbing :
    (s : Session) (o : Option (Bool × ℕ × ℕ)) → IsProbing s → IsProbing (set_audio_control s o)
set_audio_control-IsProbing s none p = record { is_last = p.is_last }
set_audio_control-IsProbing s (some v) p = record { is_last = p.is_last }

set_audio_port-IsProbing :
    (s : Session) (o : Option ℕ) → IsProbing s → IsProbing (set_audio_port s o)
set_audio_port-IsProbing s none p = record { is_last = p.is_last }
set_audio_port-IsProbing s (some v) p = record { is_last = p.is_last }

server_receive-IsProbing :
    (s : Session) (now : ℕ) (result : Received)
    → IsProbing s
    → IsProbing (server_receive s now result).0
unfolding server_receive server_message
server_receive-IsProbing s now timeout p = p
server_receive-IsProbing s now closed p = p
server_receive-IsProbing s now error p = p
server_receive-IsProbing s now (ok msg_type payload) p =
    let monitors = set_monitors-IsProbing s (decode_monitor_list payload) p in
    let audio = set_audio_status-IsProbing s (decode_audio_settings payload) p in
    let pong = take_pong-IsProbing s now (decode_ping_seq payload) s.ping_in_flight_seq refl p in
    let clip : IsProbing (keep_clipboard s msg_type payload) = record { is_last = p.is_last } in
    let P : Session × Messages → Type 0 = λ r. IsProbing r.0 in
    if_intro P (msg_type == msg_monitor_list)
      {x = (set_monitors s (decode_monitor_list payload), [])} monitors
      (if_intro P (msg_type == msg_audio_status)
        {x = (set_audio_status s (decode_audio_settings payload), [])} audio
        (if_intro P (msg_type == msg_ping) {x = (s, answer_ping (decode_ping_seq payload))} p (
          if_intro P (msg_type == msg_pong)
            {x = (take_pong s now (decode_ping_seq payload) s.ping_in_flight_seq, [])} pong
            (if_intro P (is_clipboard msg_type) {x = (keep_clipboard s msg_type payload, [])}
              {y = (s, [])} clip p))))

client_receive-IsProbing :
    (s : Session) (now : ℕ) (result : Received)
    → IsProbing s
    → IsProbing (client_receive s now result).0
unfolding client_receive client_message
client_receive-IsProbing s now timeout p = p
client_receive-IsProbing s now closed p = p
client_receive-IsProbing s now error p = p
client_receive-IsProbing s now (ok msg_type payload) p =
    let port = set_audio_port-IsProbing s (decode_audio_port payload) p in
    let audio = set_audio_control-IsProbing s (decode_audio_settings payload) p in
    let pong = take_pong-IsProbing s now (decode_ping_seq payload) s.ping_in_flight_seq refl p in
    let clip : IsProbing (keep_clipboard s msg_type payload) = record { is_last = p.is_last } in
    let away : IsProbing (with_status s (record s.status { go_away_received = true })) = record {
      is_last = p.is_last;
    } in
    let P : Session × Messages × List Injection → Type 0 = λ r. IsProbing r.0 in
    if_intro P (msg_type == msg_audio_port)
      {x = (set_audio_port s (decode_audio_port payload), [], [])} port
      (if_intro P (msg_type == msg_audio_control)
        {x = (set_audio_control s (decode_audio_settings payload), [], [])} audio
        (if_intro P (msg_type == msg_go_away)
          {x = (with_status s (record s.status { go_away_received = true }), [], [])} away
          (if_intro P (msg_type == msg_ping) {x = (s, answer_ping (decode_ping_seq payload), [])} p
            (if_intro P (msg_type == msg_pong)
              {x = (take_pong s now (decode_ping_seq payload) s.ping_in_flight_seq, [], [])} pong
              (if_intro P (is_clipboard msg_type) {x = (keep_clipboard s msg_type payload, [], [])}
                clip
                (if_intro P (not (msg_type == msg_heartbeat))
                  {x = (s, [], dispatch_input_message msg_type payload)} {y = (s, [], [])} p p))))))

hear-IsProbing :
    (s : Session) (now : ℕ) (result : Received) → IsProbing s → IsProbing (hear s now result)
unfolding hear
hear-IsProbing s now timeout p = record { is_last = p.is_last }
hear-IsProbing s now closed p = record { is_last = p.is_last }
hear-IsProbing s now error p = record { is_last = p.is_last }
hear-IsProbing s now (ok msg_type payload) p = record { is_last = p.is_last }

-- After the upkeep, a ping in flight is younger than the probe timeout.
abbrev pub IsFresh : ℕ → Option ℕ → ℕ → Type 0
IsFresh now none sent_at = Unit {0}
IsFresh now (some seq) sent_at = now - sent_at < ping_probe_timeout

still_in_flight-IsLast :
    (elapsed : ℕ) (flight : Option ℕ) (next sent_at last_sent : ℕ)
    → IsLast flight next sent_at last_sent
    → IsLast (still_in_flight elapsed flight) next sent_at last_sent
still_in_flight-IsLast elapsed none next sent_at last_sent p = tt
still_in_flight-IsLast elapsed (some seq) next sent_at last_sent p = ground arith

still_in_flight-IsFresh :
    (now sent_at : ℕ) (flight : Option ℕ)
    → IsFresh now (still_in_flight (now - sent_at) flight) sent_at
still_in_flight-IsFresh now sent_at none = tt
still_in_flight-IsFresh now sent_at (some seq) = ground arith

send_probe_lem :
    (s : Session) (now : ℕ)
    → IsProbing s
    → IsFresh now s.ping_in_flight_seq s.ping_sent_at
    → IsProbing (send_probe s now).0
      × IsFresh now (send_probe s now).0.ping_in_flight_seq (send_probe s now).0.ping_sent_at
unfolding send_probe
send_probe_lem s now p f =
    elim (Bool-cases
      (is_none s.ping_in_flight_seq && leb heartbeat_interval (now - s.last_ping_sent))) [
        | inl e ↦ rw e (record { is_last = (refl, refl) }, omega arith)
        | inr e ↦ rw e (p, f)
      ]

abandon_probe_lem :
    (s : Session) (now : ℕ)
    → IsProbing s
    → IsProbing (abandon_probe s now)
      × IsFresh now (abandon_probe s now).ping_in_flight_seq (abandon_probe s now).ping_sent_at
unfolding abandon_probe
abandon_probe_lem s now p = (
  record {
    is_last =
        still_in_flight-IsLast (now - s.ping_sent_at) s.ping_in_flight_seq s.next_ping_seq
          s.ping_sent_at s.last_ping_sent p.is_last;
  },
  still_in_flight-IsFresh now s.ping_sent_at s.ping_in_flight_seq,
)

send_heartbeat-IsProbing :
    (s : Session) (now : ℕ) → IsProbing s → IsProbing (send_heartbeat s now).0
unfolding send_heartbeat
send_heartbeat-IsProbing s now p =
    elim (Bool-cases (leb heartbeat_interval (now - s.last_heartbeat_sent))) [
      | inl e ↦ rw e (record { is_last = p.is_last })
      | inr e ↦ rw e p
    ]

-- A session whose ping in flight, if any, is the last one sent, and is younger than the timeout.
abbrev pub IsMeasuring : ℕ → Session → Type 0
IsMeasuring now s = IsProbing s × IsFresh now s.ping_in_flight_seq s.ping_sent_at

upkeep-IsMeasuring : (s : Session) (now : ℕ) → IsProbing s → IsMeasuring now (upkeep s now).0
unfolding upkeep
upkeep-IsMeasuring s now p =
    let beat = (send_heartbeat s now).0 in
    let kept = abandon_probe_lem beat now (send_heartbeat-IsProbing s now p) in
    send_probe_lem (abandon_probe beat now) now kept.0 kept.1

-- At most one ping is in flight, the last one sent, and none for five seconds: from any state of the
-- Master's loop in which a ping in flight is the last one sent and carries the time of its sending,
-- whatever arrives, the state after a round that goes on is again such a state, and a ping
-- still in flight was sent less than the probe timeout ago.
pub server_round-IsMeasuring :
    (wanted : Wanted) (heartbeat_timeout : ℕ) (s s' : Session) (clock : Clock) (result : Received)
    → IsProbing s
    → (server_round wanted heartbeat_timeout s clock result).0 ≡ some s'
    → IsMeasuring clock.now s'
unfolding server_round
server_round-IsMeasuring wanted heartbeat_timeout s s' clock result p h =
    let got = server_receive (hear s clock.heard result) clock.measured result in
    let q =
      server_receive-IsProbing _ clock.measured result (hear-IsProbing s clock.heard result p) in
    let kept = upkeep-IsMeasuring got.0 clock.now q in
    let left : none ≡ some s' → IsMeasuring clock.now s' = λ e. absurd (none-ne-some s' e) in
    if_intro (λ (r : Option Session × Messages). r.0 ≡ some s' → IsMeasuring clock.now s')
      (not (is_wanted wanted)) left
      (if_intro (λ (r : Option Session × Messages). r.0 ≡ some s' → IsMeasuring clock.now s')
        (is_closed result) left
        (if_intro (λ (r : Option Session × Messages). r.0 ≡ some s' → IsMeasuring clock.now s')
          (leb heartbeat_timeout (clock.now - got.0.last_heard)) left
          (λ e. subst (IsMeasuring clock.now) (some-injective _ s' e) kept)))
      h

-- The same of the Slave's loop: from a state in which a ping in flight is the last one sent and
-- carries the time of its sending, a round that goes on leads to such a state, in which a ping
-- still in flight was sent less than the probe timeout ago.
pub client_round-IsMeasuring :
    (running : Bool) (give_up_after : ℕ) (s s' : Session) (w w' : MonitorWatch) (clock : Clock)
    (monitors : List MonitorInfo) (result : Received)
    → IsProbing s
    → (client_round running give_up_after s w clock monitors result).next ≡ some (s', w')
    → IsMeasuring clock.now s'
unfolding client_round
client_round-IsMeasuring running give_up_after s s' w w' clock monitors result p h =
    let got = client_receive (hear s clock.heard result) clock.measured result in
    let q =
      client_receive-IsProbing _ clock.measured result (hear-IsProbing s clock.heard result p) in
    let kept = upkeep-IsMeasuring got.0 clock.now q in
    let left : none ≡ some (s', w') → IsMeasuring clock.now s' =
      λ e. absurd (none-ne-some (s', w') e) in
    if_intro (λ (r : ClientRound). r.next ≡ some (s', w') → IsMeasuring clock.now s') (not running)
      left
      (if_intro (λ (r : ClientRound). r.next ≡ some (s', w') → IsMeasuring clock.now s')
        (is_closed result) left
        (if_intro (λ (r : ClientRound). r.next ≡ some (s', w') → IsMeasuring clock.now s')
          (leb give_up_after (clock.now - got.0.last_heard)) left
          (λ e. subst (IsMeasuring clock.now) (ap (λ v. v.0) (some-injective _ (s', w') e)) kept)))
      h
