-- ===== src/Discovery/Session/OnePing/Handling.antt =====
-- What the Master's handling of a result does to the probe: only the pong in time takes it away.
use no_cap_kvm.Prelude.{
  ℕ, ◌≡◌, refl, ap, ◌∙◌, Bool, Option, none, some, List, [], ◌∷◌, ◌++◌, ◌==◌, if◌then◌else◌, arith,
  if_intro, inl, inr, ◌⊎◌, Bool-cases,
}
use no_cap_kvm.Topology.Geometry.{MonitorInfo}
use no_cap_kvm.Discovery.Types.{msg_monitor_list, msg_audio_status, msg_ping, msg_pong}
use no_cap_kvm.Discovery.SecureChannel.{Received, timeout, closed, error, ok}
use no_cap_kvm.Discovery.Payloads.{decode_audio_settings, decode_ping_seq, decode_monitor_list}
use no_cap_kvm.Discovery.Session.{
  Session, Messages, take_pong, server_message, hear, keep_clipboard, is_clipboard, answer_ping,
  set_monitors, set_audio_status, server_receive,
}

-- The payloads of the pings among the messages.
unfoldable pub pings : Messages → List (List ℕ)
pings [] = []
pings ((msg_type, payload) ∷ rest) =
    if msg_type == msg_ping then payload ∷ pings rest else pings rest

-- The result is the pong with the number of the ping in flight.
abbrev pub Answers : Option ℕ → Received → Type 0
Answers flight timeout = ⊥
Answers flight closed = ⊥
Answers flight error = ⊥
Answers flight (ok msg_type payload) =
    (msg_type ≡ msg_pong) × (n : ℕ) × (decode_ping_seq payload ≡ some n) × (flight ≡ some n)

pub pings-append : (a b : Messages) → pings (a ++ b) ≡ pings a ++ pings b
unfolding pings
pings-append [] b = refl
pings-append ((t, p) ∷ a) b = elim (Bool-cases (t == msg_ping)) [
  | inl e ↦ rw e (ap (λ xs. p ∷ xs) (pings-append a b))
  | inr e ↦ rw e (pings-append a b)
]

-- What the handling of a message leaves of the probe.
pub record Kept (s t : Session) (result : Received) : Type 0 where
  pub flight :
      (t.ping_in_flight_seq ≡ s.ping_in_flight_seq)
      ⊎ (Answers s.ping_in_flight_seq result × (t.ping_in_flight_seq ≡ none))
  pub next : t.next_ping_seq ≡ s.next_ping_seq
  pub sent_at : t.ping_sent_at ≡ s.ping_sent_at
  pub last_sent : t.last_ping_sent ≡ s.last_ping_sent

abbrev pub KeptRound : Session → Received → Session × Messages → Type 0
KeptRound s result r = Kept s r.0 result × (pings r.1 ≡ [])

same-Kept : (s : Session) (result : Received) → Kept s s result
same-Kept s result = record { flight = inl refl; next = refl; sent_at = refl; last_sent = refl }

set_monitors-Kept :
    (s : Session) (o : Option (List MonitorInfo)) (result : Received)
    → Kept s (set_monitors s o) result
set_monitors-Kept s none result = same-Kept s result
set_monitors-Kept s (some ms) result = record {
  flight = inl refl;
  next = refl;
  sent_at = refl;
  last_sent = refl;
}

set_audio_status-Kept :
    (s : Session) (o : Option (Bool × ℕ × ℕ)) (result : Received)
    → Kept s (set_audio_status s o) result
set_audio_status-Kept s none result = same-Kept s result
set_audio_status-Kept s (some v) result = record {
  flight = inl refl;
  next = refl;
  sent_at = refl;
  last_sent = refl;
}

pings-answer_ping : (seq : Option ℕ) → pings (answer_ping seq) ≡ []
unfolding pings answer_ping
pings-answer_ping none = refl
pings-answer_ping (some seq) = refl

take_pong-Kept :
    (s : Session) (now msg_type : ℕ) (payload : List ℕ) (seq flight : Option ℕ)
    → msg_type ≡ msg_pong
    → decode_ping_seq payload ≡ seq
    → s.ping_in_flight_seq ≡ flight
    → Kept s (take_pong s now seq flight) (ok msg_type payload)
unfolding take_pong
take_pong-Kept s now msg_type payload none flight t e f = same-Kept s _
take_pong-Kept s now msg_type payload (some seq) none t e f = same-Kept s _
take_pong-Kept s now msg_type payload (some seq) (some sent) t e f =
    elim (Bool-cases (seq == sent)) [
      | inr other ↦ rw other (same-Kept s _)
      | inl same ↦ rw same (record {
        flight = inr ((t, seq, e, f ∙ ap some (ground arith)), refl);
        next = refl;
        sent_at = refl;
        last_sent = refl;
      })
    ]

pub server_receive-Kept :
    (s : Session) (now : ℕ) (result : Received) → KeptRound s result (server_receive s now result)
unfolding server_receive server_message pings
server_receive-Kept s now timeout = (same-Kept s _, refl)
server_receive-Kept s now closed = (same-Kept s _, refl)
server_receive-Kept s now error = (same-Kept s _, refl)
server_receive-Kept s now (ok msg_type payload) =
    let result = ok msg_type payload in
    let same = same-Kept s result in
    let clip : Kept s (keep_clipboard s msg_type payload) result = record {
      flight = inl refl;
      next = refl;
      sent_at = refl;
      last_sent = refl;
    } in
    let P = KeptRound s result in
    let rest : P
        (if is_clipboard msg_type then (keep_clipboard s msg_type payload, []) else (s, [])) =
      if_intro P (is_clipboard msg_type) (clip, refl) (same, refl) in
    if_intro P (msg_type == msg_monitor_list)
      (set_monitors-Kept s (decode_monitor_list payload) result, refl)
      (if_intro P (msg_type == msg_audio_status)
        (set_audio_status-Kept s (decode_audio_settings payload) result, refl)
        (if_intro P (msg_type == msg_ping) (same, pings-answer_ping (decode_ping_seq payload))
          (elim (Bool-cases (msg_type == msg_pong)) [
            | inl e ↦ rw e (
              take_pong-Kept s now msg_type payload (decode_ping_seq payload) s.ping_in_flight_seq
                  (ground arith) refl refl,
              refl,
            )
            | inr e ↦ rw e rest
          ])))

-- Hearing changes nothing of the probe.
pub hear-Kept :
    (s t : Session) (now : ℕ) (result : Received)
    → Kept (hear s now result) t result
    → Kept s t result
unfolding hear
hear-Kept s t now timeout k = k
hear-Kept s t now closed k = k
hear-Kept s t now error k = record {
  flight = k.flight;
  next = k.next;
  sent_at = k.sent_at;
  last_sent = k.last_sent;
}
hear-Kept s t now (ok msg_type payload) k = record {
  flight = k.flight;
  next = k.next;
  sent_at = k.sent_at;
  last_sent = k.last_sent;
}
