-- ===== src/Discovery/Listener.antt =====
-- The loops of src/discovery/announcer.cpp and listener.cpp, a round at a time. The socket of the
-- listener is what recvfrom gives within its timeout, with the sender's address.
pub mod Discovers
use no_cap_kvm.Prelude.{
  ℕ, Bool, true, false, Option, none, some, List, [], ◌∷◌, map, ◌==◌, if◌then◌else◌,
}
use no_cap_kvm.Discovery.Crypto.{Bytes}
use no_cap_kvm.Discovery.Types.{Role, PeerInfo, peer_timeout}
use no_cap_kvm.Discovery.Announce.{DecodedAnnounce, encode_announce, decode_announce}
use no_cap_kvm.Discovery.PeerTable.{PeerTable, upsert, prune}

-- INADDR_BROADCAST
abbrev pub broadcast : ℕ
broadcast = 0xFFFFFFFF

abbrev pub targets_or_broadcast : List ℕ → List ℕ
targets_or_broadcast [] = broadcast ∷ []
targets_or_broadcast (target ∷ targets) = target ∷ targets

-- What one round of the announcer sends, each with its address, given get_broadcast_targets.
unfoldable pub announce_round : ℕ → Role → ℕ → Bytes → List ℕ → List (ℕ × Bytes)
announce_round device_id role tcp_port hostname targets =
    map (λ target. (target, encode_announce device_id role tcp_port hostname))
      (targets_or_broadcast targets)

-- One round of the listener: what arrived, when it was noted, and the time of the prune.
pub record Round : Type 0 where
  pub received : Option (Bytes × Bytes)
  pub heard_at : ℕ
  pub now : ℕ

abbrev pub peer_of : DecodedAnnounce → Bytes → ℕ → PeerInfo
peer_of decoded ip heard_at = record {
  device_id = decoded.device_id;
  hostname = decoded.hostname;
  role = decoded.role;
  tcp_port = decoded.tcp_port;
  ip_address = ip;
  last_seen = heard_at;
}

unfoldable pub note_announce : ℕ → PeerTable → Bytes → ℕ → Option DecodedAnnounce → PeerTable
note_announce own_device_id peers ip heard_at none = peers
note_announce own_device_id peers ip heard_at (some decoded) =
    if decoded.device_id == own_device_id then peers else upsert peers (peer_of decoded ip heard_at)

unfoldable pub hear : ℕ → PeerTable → ℕ → Option (Bytes × Bytes) → PeerTable
hear own_device_id peers heard_at none = peers
hear own_device_id peers heard_at (some (packet, ip)) =
    note_announce own_device_id peers ip heard_at (decode_announce packet)

unfoldable pub listen_round : ℕ → PeerTable → Round → PeerTable
listen_round own_device_id peers r =
    prune (hear own_device_id peers r.heard_at r.received) r.now peer_timeout

-- The rounds since the start, the latest first.
unfoldable pub listen : ℕ → List Round → PeerTable
listen own_device_id [] = []
listen own_device_id (r ∷ rounds) = listen_round own_device_id (listen own_device_id rounds) r
