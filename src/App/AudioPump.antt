-- ===== src/App/AudioPump.antt =====
-- src/app/audio_pump.cpp: what runs once a frame to keep the sound going from the Slave to the
-- Master. Here is what both ends share and the Slave's end; Master has the other.
pub mod Coherence
pub mod Quiet
pub mod Agreement
pub mod Requests
pub mod Master
use no_cap_kvm.Prelude.{
  ℕ, Bool, true, false, ◌&&◌, ◌||◌, not, Option, none, some, List, [], ◌∷◌, ◌++◌, ◌==◌,
  if◌then◌else◌, same_flag,
}
use no_cap_kvm.Audio.Stream.{AudioFormat, AudioChannel, same_format, open_channel, derive_audio_key}
use no_cap_kvm.Discovery.Crypto.{Bytes, Sodium}
use no_cap_kvm.Discovery.Connection.{ConnectionInfo, is_connected}
use no_cap_kvm.Discovery.Payloads.{encode_audio_settings}
use no_cap_kvm.Discovery.Types.{msg_audio_status}
use no_cap_kvm.App.RetryBackoff.{
  RetryBackoff, create, should_attempt, on_failure, on_success, reset,
}

-- The lines of the log.
pub data Event : Type 0 where
  master_stopped slave_stopped : Event
  master_start_failed master_started master_restarted : AudioFormat → Event
  slave_start_failed slave_started slave_restarted : AudioFormat → Event

-- What the pump does to the world: a message to the peer, a line in the log, and one more in
-- audio_slave_start_failures.
pub data Effect : Type 0 where
  message : ℕ → Bytes → Effect
  logged : Event → Effect
  start_failure : Effect

-- A capture device that runs, with its format and the address that its packets go to.
pub record Capture : Type 0 where
  pub format : AudioFormat
  pub dest_ip : Bytes
  pub dest_port : ℕ

-- The Slave's part of AppState; `send_socket` is none for kInvalidSocket.
pub record SlaveAudio : Type 0 where
  pub active : Bool
  pub capture : Option Capture
  pub send_channel : Option AudioChannel
  pub send_socket : Option ℕ
  pub active_format : AudioFormat
  pub start_backoff : RetryBackoff
  pub send_enabled : Bool
  pub desired_format : AudioFormat
  pub last_applied_seq : ℕ
  pub status_reported : Bool
  pub last_reported_enabled : Bool
  pub last_reported_format : AudioFormat

abbrev pub default_format : AudioFormat
default_format = record { sample_rate = 48000; bit_depth = 16 }

-- The members' initial values; two seconds of back-off.
unfoldable pub initial : ℕ → SlaveAudio
unfolding create
initial two_seconds = record {
  active = false;
  capture = none;
  send_channel = none;
  send_socket = none;
  active_format = default_format;
  start_backoff = create two_seconds;
  send_enabled = true;
  desired_format = default_format;
  last_applied_seq = 0;
  status_reported = false;
  last_reported_enabled = true;
  last_reported_format = default_format;
}

-- What the operating system answers in this frame: the time, create_udp_socket, and whether the
-- capture device opens.
pub record Env : Type 0 where
  pub now : ℕ
  pub socket : Option ℕ
  pub opens : Bool

unfoldable pub stop_slave_audio : SlaveAudio → SlaveAudio × List Effect
stop_slave_audio s = (
  record s { capture = none; send_channel = none; send_socket = none },
  if s.active then logged slave_stopped ∷ [] else [],
)

unfoldable pub stop_if_active : SlaveAudio → SlaveAudio × List Effect
unfolding stop_slave_audio
stop_if_active s =
    if s.active
    then (record (stop_slave_audio s).0 { active = false }, (stop_slave_audio s).1)
    else (s, [])

abbrev pub forgive : SlaveAudio → SlaveAudio
forgive s = record s { start_backoff = reset s.start_backoff }

-- No client, or one that is not connected.
unfoldable pub disconnected : SlaveAudio → SlaveAudio × List Effect
disconnected s =
    (record (forgive (stop_if_active s).0) { status_reported = false }, (stop_if_active s).1)

unfoldable pub apply_request : ConnectionInfo → SlaveAudio → SlaveAudio
apply_request info s =
    if info.master_audio_control_received
      && not (info.master_audio_control_seq == s.last_applied_seq)
    then record s {
      send_enabled = info.master_requested_send_enabled;
      desired_format = record {
        sample_rate = info.master_requested_sample_rate;
        bit_depth = info.master_requested_bit_depth;
      };
      last_applied_seq = info.master_audio_control_seq;
    }
    else s

abbrev pub status_changed : SlaveAudio → Bool
status_changed s =
    not s.status_reported
    || not (same_flag s.send_enabled s.last_reported_enabled)
    || (s.send_enabled && not (same_format s.desired_format s.last_reported_format))

unfoldable pub report_status : SlaveAudio → SlaveAudio × List Effect
report_status s =
    if status_changed s
    then (
      record s {
        status_reported = true;
        last_reported_enabled = s.send_enabled;
        last_reported_format = s.desired_format;
      },
      message msg_audio_status (
            encode_audio_settings s.send_enabled s.desired_format.sample_rate
              s.desired_format.bit_depth)
          ∷ [],
    )
    else (s, [])

module _ (c : Sodium) where
  unfoldable pub open_send : Env → ConnectionInfo → SlaveAudio → Option AudioChannel → SlaveAudio
  open_send env info s (some channel) = s
  open_send env info s none = record s {
    send_socket = env.socket;
    send_channel = some (open_channel (derive_audio_key c info.audio_key));
  }

  abbrev pub capturing : ConnectionInfo → SlaveAudio → Capture
  capturing info s = record {
    format = s.desired_format;
    dest_ip = info.peer_ip;
    dest_port = info.peer_audio_port;
  }

  -- The device opens.
  abbrev pub capture_running : SlaveAudio → ConnectionInfo → SlaveAudio → SlaveAudio
  capture_running opened info s = record opened {
    capture = some (capturing info s);
    start_backoff = on_success s.start_backoff;
    active_format = s.desired_format;
    active = true;
  }

  -- The device does not open; `failed` is what on_failure gives.
  unfoldable pub start_failed : SlaveAudio → Bool × RetryBackoff → SlaveAudio × List Effect
  start_failed s failed =
      let stopped = stop_slave_audio (record s { start_backoff = failed.1 }) in
      (
        record stopped.0 { active = false },
        start_failure
            ∷ ((if failed.0 then logged (slave_start_failed s.desired_format) ∷ [] else [])
                ++ stopped.1),
      )

  unfoldable pub start_capture : Env → ConnectionInfo → SlaveAudio → SlaveAudio × List Effect
  start_capture env info s =
      let opened = open_send env info (record s { capture = none }) s.send_channel in
      if env.opens
      then (
        capture_running opened info s,
        logged (
              if s.active && not (same_format s.active_format s.desired_format)
              then slave_restarted s.desired_format
              else slave_started s.desired_format)
            ∷ [],
      )
      else start_failed opened (on_failure s.start_backoff env.now)

  -- The rest of a frame, when the settings have been reported.
  unfoldable pub keep_capture : Env → ConnectionInfo → SlaveAudio → SlaveAudio × List Effect
  keep_capture env info s =
      if not s.send_enabled || (info.peer_audio_port == 0)
      then (forgive (stop_if_active s).0, (stop_if_active s).1)
      else if s.active && same_format s.active_format s.desired_format
      then (s, [])
      else if should_attempt s.start_backoff env.now
      then start_capture env info s
      else (s, [])

  unfoldable pub slave_connected : Env → ConnectionInfo → SlaveAudio → SlaveAudio × List Effect
  slave_connected env info s =
      let reported = report_status (apply_request info s) in
      let kept = keep_capture env info reported.0 in (kept.0, reported.1 ++ kept.1)

  -- `client` is what tcp_client->status() says, none for no client.
  unfoldable pub pump_slave : Env → Option ConnectionInfo → SlaveAudio → SlaveAudio × List Effect
  pump_slave env none s = disconnected s
  pump_slave env (some info) s =
      if is_connected info.state then slave_connected env info s else disconnected s
