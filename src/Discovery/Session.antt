-- ===== src/Discovery/Session.antt =====
-- The session loops of TcpClient::run_once (src/discovery/tcp_client.cpp) and TcpServer::run
-- (src/discovery/tcp_server.cpp): one round of a loop for one result of SecureChannel::receive. Times
-- are milliseconds of the steady clock. What a round sends is a list of messages for the channel.
pub mod Liveness
pub mod Loop
pub mod OnePing
pub mod Probe
use no_cap_kvm.Prelude.{
  ℕ, ◌+◌, ◌-◌, Bool, true, false, not, Option, none, some, List, [], ◌∷◌, ◌++◌, leb, ltb, ◌==◌,
  ◌||◌, ◌&&◌, if◌then◌else◌,
}
use no_cap_kvm.Prelude.Int.{ℤ, pos_part, neg_part}
use no_cap_kvm.Prelude.Bytes.{u32, u64}
use no_cap_kvm.Topology.Geometry.{MonitorInfo}
use no_cap_kvm.Input.Protocol.{Injection, dispatch_input_message}
use no_cap_kvm.Discovery.Types.{
  msg_monitor_list, msg_audio_port, msg_audio_status, msg_audio_control, msg_heartbeat, msg_go_away,
  msg_clipboard_text, msg_clipboard_image, msg_ping, msg_pong,
}
use no_cap_kvm.Discovery.Connection.{ConnectionInfo}
use no_cap_kvm.Discovery.Payloads.{
  decode_audio_port, decode_audio_settings, encode_ping_seq, decode_ping_seq, encode_monitor_list,
  decode_monitor_list,
}
use no_cap_kvm.Discovery.SecureChannel.{Received, timeout, closed, error, ok}

-- kHeartbeatInterval and kPingProbeTimeout
abbrev pub heartbeat_interval : ℕ
heartbeat_interval = 1000

abbrev pub ping_probe_timeout : ℕ
ping_probe_timeout = 5000

-- ClipboardMessage: whether it is text, and its bytes.
pub record ClipboardMessage : Type 0 where
  pub is_text : Bool
  pub payload : List ℕ

-- The local variables of a loop that both ends have, and what the rounds share with the callers.
pub record Session : Type 0 where
  pub status : ConnectionInfo
  pub pending_clipboard : Option ClipboardMessage
  pub last_heard : ℕ
  pub last_heartbeat_sent : ℕ
  pub last_ping_sent : ℕ
  pub next_ping_seq : ℕ
  pub ping_in_flight_seq : Option ℕ
  pub ping_sent_at : ℕ

-- At the start of the loop, at time `now`.
abbrev pub begin : ConnectionInfo → Option ClipboardMessage → ℕ → Session
begin status clipboard now = record {
  status = status;
  pending_clipboard = clipboard;
  last_heard = now;
  last_heartbeat_sent = now;
  last_ping_sent = now;
  next_ping_seq = 0;
  ping_in_flight_seq = none;
  ping_sent_at = 0;
}

abbrev pub Messages : Type 0
Messages = List (ℕ × List ℕ)

abbrev pub is_clipboard : ℕ → Bool
is_clipboard msg_type = (msg_type == msg_clipboard_text) || (msg_type == msg_clipboard_image)

abbrev pub with_status : Session → ConnectionInfo → Session
with_status s status = record s { status = status }

abbrev pub keep_clipboard : Session → ℕ → List ℕ → Session
keep_clipboard s msg_type payload = record s {
  pending_clipboard = some (record { is_text = msg_type == msg_clipboard_text; payload = payload });
}

-- kMsgPing: the pong.
unfoldable pub answer_ping : Option ℕ → Messages
answer_ping none = []
answer_ping (some seq) = (msg_pong, encode_ping_seq seq) ∷ []

-- kMsgPong, read at time `now`.
unfoldable pub take_pong : Session → ℕ → Option ℕ → Option ℕ → Session
take_pong s now none flight = s
take_pong s now (some seq) none = s
take_pong s now (some seq) (some sent) =
    if seq == sent
    then record s {
      status = record s.status { last_rtt_ms = some (now - s.ping_sent_at) };
      ping_in_flight_seq = none;
    }
    else s

abbrev pub set_audio_port : Session → Option ℕ → Session
set_audio_port s none = s
set_audio_port s (some port) = with_status s (record s.status { peer_audio_port = port })

abbrev pub set_audio_control : Session → Option (Bool × ℕ × ℕ) → Session
set_audio_control s none = s
set_audio_control s (some (enabled, rate, depth)) = with_status s (record s.status {
  master_requested_send_enabled = enabled;
  master_requested_sample_rate = rate;
  master_requested_bit_depth = depth;
  master_audio_control_received = true;
  master_audio_control_seq = u32 (s.status.master_audio_control_seq + 1);
})

abbrev pub set_audio_status : Session → Option (Bool × ℕ × ℕ) → Session
set_audio_status s none = s
set_audio_status s (some (enabled, rate, depth)) = with_status s (record s.status {
  peer_audio_send_enabled = enabled;
  peer_audio_sample_rate = rate;
  peer_audio_bit_depth = depth;
})

abbrev pub set_monitors : Session → Option (List MonitorInfo) → Session
set_monitors s none = s
set_monitors s (some monitors) = with_status s (record s.status { peer_monitors = monitors })

-- A message for the Slave: the session, what is sent and what is injected.
unfoldable pub client_message : Session → ℕ → ℕ → List ℕ → Session × Messages × List Injection
client_message s now msg_type payload =
    if msg_type == msg_audio_port
    then (set_audio_port s (decode_audio_port payload), [], [])
    else if msg_type == msg_audio_control
    then (set_audio_control s (decode_audio_settings payload), [], [])
    else if msg_type == msg_go_away
    then (with_status s (record s.status { go_away_received = true }), [], [])
    else if msg_type == msg_ping
    then (s, answer_ping (decode_ping_seq payload), [])
    else if msg_type == msg_pong
    then (take_pong s now (decode_ping_seq payload) s.ping_in_flight_seq, [], [])
    else if is_clipboard msg_type
    then (keep_clipboard s msg_type payload, [], [])
    else if not (msg_type == msg_heartbeat)
    then (s, [], dispatch_input_message msg_type payload)
    else (s, [], [])

-- A message for the Master.
unfoldable pub server_message : Session → ℕ → ℕ → List ℕ → Session × Messages
server_message s now msg_type payload =
    if msg_type == msg_monitor_list
    then (set_monitors s (decode_monitor_list payload), [])
    else if msg_type == msg_audio_status
    then (set_audio_status s (decode_audio_settings payload), [])
    else if msg_type == msg_ping
    then (s, answer_ping (decode_ping_seq payload))
    else if msg_type == msg_pong
    then (take_pong s now (decode_ping_seq payload) s.ping_in_flight_seq, [])
    else if is_clipboard msg_type
    then (keep_clipboard s msg_type payload, [])
    else (s, [])

-- The heartbeat, when it is due.
unfoldable pub send_heartbeat : Session → ℕ → Session × Messages
send_heartbeat s now =
    if leb heartbeat_interval (now - s.last_heartbeat_sent)
    then (record s { last_heartbeat_sent = now }, (msg_heartbeat, []) ∷ [])
    else (s, [])

-- A probe that nothing has answered for too long is given up.
abbrev pub still_in_flight : ℕ → Option ℕ → Option ℕ
still_in_flight elapsed none = none
still_in_flight elapsed (some seq) = if leb ping_probe_timeout elapsed then none else some seq

unfoldable pub abandon_probe : Session → ℕ → Session
abandon_probe s now = record s {
  ping_in_flight_seq = still_in_flight (now - s.ping_sent_at) s.ping_in_flight_seq;
}

abbrev pub is_none : Option ℕ → Bool
is_none none = true
is_none (some seq) = false

-- A new probe, when it is due and none is outstanding.
unfoldable pub send_probe : Session → ℕ → Session × Messages
send_probe s now =
    if is_none s.ping_in_flight_seq && leb heartbeat_interval (now - s.last_ping_sent)
    then (
      record s {
        ping_in_flight_seq = some s.next_ping_seq;
        ping_sent_at = now;
        next_ping_seq = u32 (s.next_ping_seq + 1);
        last_ping_sent = now;
      },
      (msg_ping, encode_ping_seq s.next_ping_seq) ∷ [],
    )
    else (s, [])

-- What follows the handling of a message, at time `now`, unless the peer is found silent.
unfoldable pub upkeep : Session → ℕ → Session × Messages
upkeep s now =
    let beat = send_heartbeat s now in
    let probe = send_probe (abandon_probe beat.0 now) now in (probe.0, beat.1 ++ probe.1)

-- last_heard, by the result of receive at time `now`.
unfoldable pub hear : Session → ℕ → Received → Session
hear s now timeout = s
hear s now closed = s
hear s now error = record s { last_heard = now }
hear s now (ok msg_type payload) = record s { last_heard = now }

-- The Master's handling of a result.
unfoldable pub server_receive : Session → ℕ → Received → Session × Messages
server_receive s now timeout = (s, [])
server_receive s now closed = (s, [])
server_receive s now error = (s, [])
server_receive s now (ok msg_type payload) = server_message s now msg_type payload

abbrev pub is_closed : Received → Bool
is_closed closed = true
is_closed timeout = false
is_closed error = false
is_closed (ok msg_type payload) = false

-- The clock of a round: when the result came, when a pong was measured, and at the upkeep.
pub record Clock : Type 0 where
  pub heard : ℕ
  pub measured : ℕ
  pub now : ℕ

-- running_ and disconnect_requested_, which other threads set, as the loop condition reads them.
pub record Wanted : Type 0 where
  pub running : Bool
  pub disconnect_requested : Bool

abbrev pub is_wanted : Wanted → Bool
is_wanted w = w.running && not w.disconnect_requested

-- One round of the Master's loop, from its condition on, with the heartbeat timeout of the moment:
-- none when it leaves the loop, with what it had sent.
unfoldable pub server_round : Wanted → ℕ → Session → Clock → Received → Option Session × Messages
server_round wanted heartbeat_timeout s clock result =
    let got = server_receive (hear s clock.heard result) clock.measured result in
    if not (is_wanted wanted)
    then (none, [])
    else if is_closed result
    then (none, [])
    else if leb heartbeat_timeout (clock.now - got.0.last_heard)
    then (none, got.1)
    else (let kept = upkeep got.0 clock.now in (some kept.0, got.1 ++ kept.1))

-- The Slave's handling of a result, with what it injects.
unfoldable pub client_receive : Session → ℕ → Received → Session × Messages × List Injection
client_receive s now timeout = (s, [], [])
client_receive s now closed = (s, [], [])
client_receive s now error = (s, [], [])
client_receive s now (ok msg_type payload) = client_message s now msg_type payload

-- MonitorInfo's ==, and that of the vectors.
abbrev same_ℤ : ℤ → ℤ → Bool
same_ℤ a b = pos_part a + neg_part b == pos_part b + neg_part a

abbrev same_flag : Bool → Bool → Bool
same_flag true b = b
same_flag false b = not b

abbrev same_name : List ℕ → List ℕ → Bool
same_name [] [] = true
same_name [] (b ∷ ys) = false
same_name (a ∷ xs) [] = false
same_name (a ∷ xs) (b ∷ ys) = (a == b) && same_name xs ys

abbrev same_monitor : MonitorInfo → MonitorInfo → Bool
same_monitor a b =
    same_ℤ a.x b.x
    && same_ℤ a.y b.y
    && same_ℤ a.width b.width
    && same_ℤ a.height b.height
    && same_flag a.primary b.primary
    && same_name a.name b.name

unfoldable pub same_monitors : List MonitorInfo → List MonitorInfo → Bool
same_monitors [] [] = true
same_monitors [] (b ∷ ys) = false
same_monitors (a ∷ xs) [] = false
same_monitors (a ∷ xs) (b ∷ ys) = same_monitor a b && same_monitors xs ys

-- last_monitor_check and last_sent_monitors
pub record MonitorWatch : Type 0 where
  pub last_check : ℕ
  pub last_sent : List MonitorInfo

-- The screens of this machine, looked at once a second.
unfoldable pub check_monitors : MonitorWatch → ℕ → List MonitorInfo → MonitorWatch × Messages
check_monitors w now current =
    if leb heartbeat_interval (now - w.last_check)
    then if same_monitors current w.last_sent then (record w { last_check = now }, []) else (
      record { last_check = now; last_sent = current },
      (msg_monitor_list, encode_monitor_list current) ∷ [],
    )
    else (w, [])

pub record ClientRound : Type 0 where
  pub next : Option (Session × MonitorWatch)
  pub sent : Messages
  pub injected : List Injection

-- One round of the Slave's loop, with running_ as its condition reads it.
unfoldable pub client_round :
    Bool → ℕ → Session → MonitorWatch → Clock → List MonitorInfo → Received → ClientRound
client_round running give_up_after s w clock monitors result =
    let got = client_receive (hear s clock.heard result) clock.measured result in
    if not running
    then record { next = none; sent = []; injected = [] }
    else if is_closed result
    then record { next = none; sent = []; injected = [] }
    else if leb give_up_after (clock.now - got.0.last_heard)
    then record { next = none; sent = got.1; injected = got.2 }
    else (let kept = upkeep got.0 clock.now in
        let watch = check_monitors w clock.now monitors in
        record {
          next = some (kept.0, watch.0);
          sent = got.1 ++ (kept.1 ++ watch.1);
          injected = got.2;
        })
