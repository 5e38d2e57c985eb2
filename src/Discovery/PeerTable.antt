-- ===== src/Discovery/PeerTable.antt =====
-- src/discovery/peer_table.cpp: the machines that were heard, by device id. The
-- std::unordered_map is a list in ascending order of the ids here, so the order of `snapshot` says
-- nothing. A time point is a number of ticks of the steady clock.
pub mod Freshness
use no_cap_kvm.Prelude.{ℕ, ◌-◌, Bool, List, [], ◌∷◌, ltb, if◌then◌else◌}
use no_cap_kvm.Prelude.Assoc.{insert}
use no_cap_kvm.Discovery.Types.{PeerInfo}

abbrev pub PeerTable : Type 0
PeerTable = List (ℕ × PeerInfo)

unfoldable pub upsert : PeerTable → PeerInfo → PeerTable
upsert peers peer = insert peer.device_id peer peers

unfoldable pub prune : PeerTable → ℕ → ℕ → PeerTable
prune [] now max_age = []
prune ((id, peer) ∷ peers) now max_age =
    let rest = prune peers now max_age in
    if ltb max_age (now - peer.last_seen) then rest else (id, peer) ∷ rest

unfoldable pub snapshot : PeerTable → List PeerInfo
snapshot [] = []
snapshot ((id, peer) ∷ peers) = peer ∷ snapshot peers
