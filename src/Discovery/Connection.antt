-- ===== src/Discovery/Connection.antt =====
-- include/nockvm/discovery/connection_types.h.
use no_cap_kvm.Prelude.{ℕ, Bool, true, false, List, [], Option, none}
use no_cap_kvm.Topology.Geometry.{MonitorInfo}

pub data ConnectionState : Type 0 where
  idle connecting pairing connected failed : ConnectionState

-- `last_rtt_ms` is none for the source's -1.
pub record ConnectionInfo : Type 0 where
  pub state : ConnectionState
  pub peer_device_id : ℕ
  pub peer_ip : List ℕ
  pub pairing_fingerprint : List ℕ
  pub peer_monitors : List MonitorInfo
  pub audio_key : List ℕ
  pub peer_audio_port : ℕ
  pub peer_audio_send_enabled : Bool
  pub peer_audio_sample_rate : ℕ
  pub peer_audio_bit_depth : ℕ
  pub master_audio_control_received : Bool
  pub master_requested_send_enabled : Bool
  pub master_requested_sample_rate : ℕ
  pub master_requested_bit_depth : ℕ
  pub master_audio_control_seq : ℕ
  pub go_away_received : Bool
  pub last_rtt_ms : Option ℕ

-- ConnectionInfo{state, id, ip, fingerprint, {}}: the other members have their defaults.
abbrev pub info : ConnectionState → ℕ → List ℕ → List ℕ → ConnectionInfo
info state id ip fingerprint = record {
  state = state;
  peer_device_id = id;
  peer_ip = ip;
  pairing_fingerprint = fingerprint;
  peer_monitors = [];
  audio_key = [];
  peer_audio_port = 0;
  peer_audio_send_enabled = false;
  peer_audio_sample_rate = 0;
  peer_audio_bit_depth = 16;
  master_audio_control_received = false;
  master_requested_send_enabled = true;
  master_requested_sample_rate = 48000;
  master_requested_bit_depth = 16;
  master_audio_control_seq = 0;
  go_away_received = false;
  last_rtt_ms = none;
}

abbrev pub idle_info : ConnectionInfo
idle_info = info idle 0 [] []

abbrev pub is_connected : ConnectionState → Bool
is_connected connected = true
is_connected idle = false
is_connected connecting = false
is_connected pairing = false
is_connected failed = false
