-- ===== src/Discovery/Session/OnePing.antt =====
-- When the Master's loop sends a ping: one at a time, and one a second at most.
pub mod Handling
use no_cap_kvm.Prelude.{
  ℕ, ◌+◌, ◌-◌, ◌≤◌, ◌<◌, ◌≡◌, Bool, Option, none, some, List, [], ◌∷◌, ◌==◌, ◌&&◌, if◌then◌else◌,
  ◌⊎◌,
}
use no_cap_kvm.Prelude.Bytes.{u32}
use no_cap_kvm.Topology.Geometry.{MonitorInfo}
use no_cap_kvm.Discovery.Types.{
  msg_monitor_list, msg_audio_status, msg_heartbeat, msg_ping, msg_pong,
}
use no_cap_kvm.Discovery.SecureChannel.{Received, timeout, closed, error, ok}
use no_cap_kvm.Discovery.Payloads.{
  decode_audio_settings, encode_ping_seq, decode_ping_seq, decode_monitor_list,
}
use no_cap_kvm.Discovery.Session.{
  heartbeat_interval, ping_probe_timeout, Session, Messages, take_pong, server_message,
  keep_clipboard, is_clipboard, answer_ping, set_monitors, set_audio_status,
}
use no_cap_kvm.Discovery.Session.OnePing.Handling.{pings, Answers}

-- No ping is outstanding any more by the time `now` of a round's upkeep.
pub data IsSettled (s : Session) (now : ℕ) (result : Received) : Type 0 where
  idle : s.ping_in_flight_seq ≡ none → IsSettled s now result
  answered : Answers s.ping_in_flight_seq result → IsSettled s now result
  given_up : ping_probe_timeout ≤ now - s.ping_sent_at → IsSettled s now result

-- The same ping is in flight before and after the round, and is young.
pub record IsWaiting (s s' : Session) (now : ℕ) : Type 0 where
  pub seq : ℕ
  pub before : s.ping_in_flight_seq ≡ some seq
  pub after : s'.ping_in_flight_seq ≡ some seq
  pub young : now - s.ping_sent_at < ping_probe_timeout

-- A round as the peer sees its pings.
pub data PingStep (s s' : Session) (now : ℕ) (result : Received) (sent : Messages) : Type 0 where
  quiet :
      pings sent ≡ []
      → s'.next_ping_seq ≡ s.next_ping_seq
      → (now - s.last_ping_sent < heartbeat_interval) ⊎ IsWaiting s s' now
      → PingStep s s' now result sent
  asks :
      IsSettled s now result
      → heartbeat_interval ≤ now - s.last_ping_sent
      → pings sent ≡ encode_ping_seq s.next_ping_seq ∷ []
      → s'.ping_in_flight_seq ≡ some s.next_ping_seq
      → s'.next_ping_seq ≡ u32 (s.next_ping_seq + 1)
      → PingStep s s' now result sent
