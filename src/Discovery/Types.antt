-- ===== src/Discovery/Types.antt =====
-- include/nockvm/discovery/types.h, and the message numbers of monitor_protocol.h,
-- audio_port_protocol.h, clipboard_protocol.h, ping_protocol.h and pairing.h.
use no_cap_kvm.Prelude.{ℕ, List}

pub data Role : Type 0 where
  master slave : Role

abbrev pub protocol_magic : ℕ
protocol_magic = 0x4E4B564D

abbrev pub protocol_version : ℕ
protocol_version = 1

abbrev pub announce_packet_size : ℕ
announce_packet_size = 50

abbrev pub max_hostname_len : ℕ
max_hostname_len = 32

-- kPeerTimeout, in milliseconds.
abbrev pub peer_timeout : ℕ
peer_timeout = 5000

pub record PeerInfo : Type 0 where
  pub device_id : ℕ
  pub hostname : List ℕ
  pub role : Role
  pub tcp_port : ℕ
  pub ip_address : List ℕ
  pub last_seen : ℕ

abbrev pub msg_monitor_list : ℕ
msg_monitor_list = 1

abbrev pub msg_audio_port : ℕ
msg_audio_port = 7

abbrev pub msg_audio_status : ℕ
msg_audio_status = 8

abbrev pub msg_audio_control : ℕ
msg_audio_control = 9

abbrev pub msg_heartbeat : ℕ
msg_heartbeat = 10

abbrev pub msg_go_away : ℕ
msg_go_away = 11

abbrev pub msg_clipboard_text : ℕ
msg_clipboard_text = 12

abbrev pub msg_clipboard_image : ℕ
msg_clipboard_image = 13

abbrev pub msg_ping : ℕ
msg_ping = 14

abbrev pub msg_pong : ℕ
msg_pong = 15

abbrev pub pairing_approved : ℕ
pairing_approved = 1

abbrev pub pairing_rejected : ℕ
pairing_rejected = 0
