-- ===== src/App/AutoConnect.antt =====
-- src/app/auto_connect_pump.cpp: the connections that a Slave starts by itself.
pub mod Dialing
use no_cap_kvm.Prelude.{
  ℕ, Bool, true, false, ◌&&◌, ◌||◌, not, Option, none, some, List, [], ◌∷◌, ◌==◌, if◌then◌else◌,
}
use no_cap_kvm.Discovery.Types.{Role, master, slave, PeerInfo}
use no_cap_kvm.Discovery.Connection.{
  ConnectionState, ConnectionInfo, idle, connecting, pairing, connected, failed, is_connected,
}

-- unordered_set and the keys of KnownPeers, as lists.
abbrev pub contains : ℕ → List ℕ → Bool
contains id [] = false
contains id (j ∷ js) = (j == id) || contains id js

abbrev pub erase : ℕ → List ℕ → List ℕ
erase id [] = []
erase id (j ∷ js) = let rest = erase id js in if j == id then rest else j ∷ rest

abbrev pub insert : ℕ → List ℕ → List ℕ
insert id js = if contains id js then js else id ∷ js

-- `client` is what tcp_client->status() says, none for no client; `peers` what the listener has
-- heard, none before discovery has started.
pub record AutoConnect : Type 0 where
  pub role : Role
  pub peers : Option (List PeerInfo)
  pub client : Option ConnectionInfo
  pub suppressed : List ℕ
  pub enabled : Bool
  pub known : List ℕ

abbrev pub is_busy : ConnectionState → Bool
is_busy idle = false
is_busy connecting = true
is_busy pairing = true
is_busy connected = true
is_busy failed = false

-- The bookkeeping of the Masters that are not to be dialled.
unfoldable pub track : Option ConnectionInfo → List ℕ → List ℕ
track none suppressed = suppressed
track (some info) suppressed =
    let lifted =
      if is_connected info.state then erase info.peer_device_id suppressed else suppressed in
    if info.go_away_received then insert info.peer_device_id lifted else lifted

abbrev pub client_busy : Option ConnectionInfo → Bool
client_busy none = false
client_busy (some info) = is_busy info.state

abbrev pub is_master : Role → Bool
is_master master = true
is_master slave = false

abbrev pub may_dial : List ℕ → List ℕ → PeerInfo → Bool
may_dial known suppressed peer =
    is_master peer.role
    && not (peer.tcp_port == 0)
    && contains peer.device_id known
    && not (contains peer.device_id suppressed)

-- The first peer that passes.
unfoldable pub first_dialable : List ℕ → List ℕ → List PeerInfo → Option PeerInfo
first_dialable known suppressed [] = none
first_dialable known suppressed (peer ∷ rest) =
    let later = first_dialable known suppressed rest in
    if may_dial known suppressed peer then some peer else later

abbrev pub dial : AutoConnect → List PeerInfo → List ℕ → Option PeerInfo
dial s peers suppressed =
    if client_busy s.client
    then none
    else if s.enabled
    then first_dialable s.known suppressed peers
    else none

-- The set after the call, and the Master for which a new TcpClient is started.
unfoldable pub pump_discovered : AutoConnect → Option (List PeerInfo) → List ℕ × Option PeerInfo
pump_discovered s none = (s.suppressed, none)
pump_discovered s (some peers) =
    (track s.client s.suppressed, dial s peers (track s.client s.suppressed))

unfoldable pub pump_auto_connect : AutoConnect → List ℕ × Option PeerInfo
pump_auto_connect s = if is_master s.role then (s.suppressed, none) else pump_discovered s s.peers
