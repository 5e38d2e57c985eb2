-- ===== src/App/AutoConnect/Dialing.antt =====
-- Which Masters a Slave dials by itself.
use no_cap_kvm.Prelude.{
  ℕ, Bool, true, false, ◌&&◌, not, Option, none, some, List, [], ◌∷◌, ◌≡◌, ◌≢◌, refl, sym, ◌∙◌,
  subst, ◌⊎◌, inl, inr, if_intro, Bool-cases, ◌==◌, ==_iff, arith, if◌then◌else◌,
}
use mathlib.Core.Option.{some-injective, none-ne-some}
use no_cap_kvm.Discovery.Types.{slave, PeerInfo}
use no_cap_kvm.Discovery.Connection.{ConnectionInfo, is_connected}
use no_cap_kvm.App.AutoConnect.{
  AutoConnect, contains, erase, insert, track, client_busy, is_master, may_dial, first_dialable,
  dial, pump_discovered, pump_auto_connect,
}

-- The frames of the program, each with what it finds; the set goes from one to the next. The result
-- is what each of them dials.
unfoldable pub pumps : List ℕ → List AutoConnect → List (Option PeerInfo)
pumps suppressed [] = []
pumps suppressed (s ∷ rest) =
    let first = pump_auto_connect (record s { suppressed = suppressed }) in
    first.1 ∷ pumps first.0 rest

contains-insert_self : (id : ℕ) (js : List ℕ) → contains id (insert id js) ≡ true
contains-insert_self id js = ground arith

contains-insert :
    (id j : ℕ) (js : List ℕ) → contains id js ≡ true → contains id (insert j js) ≡ true
contains-insert id j js h = ground arith

contains-erase_ne :
    (id j : ℕ) (js : List ℕ) → j ≢ id → contains id js ≡ true → contains id (erase j js) ≡ true
contains-erase_ne id j [] n h = h
contains-erase_ne id j (k ∷ ks) n h = ground (arith, contains-erase_ne id j ks n)

-- The client has not connected to this Master since it was told to go away.
abbrev pub NotReconnected : ℕ → Option ConnectionInfo → Type 0
NotReconnected id none = Unit {0}
NotReconnected id (some info) =
    (info.peer_device_id ≢ id) ⊎ (is_connected info.state ≡ false) ⊎ (info.go_away_received ≡ true)

abbrev pub NeverReconnected : ℕ → List AutoConnect → Type 0
NeverReconnected id [] = Unit {0}
NeverReconnected id (s ∷ rest) = NotReconnected id s.client × NeverReconnected id rest

abbrev pub DialsOther : ℕ → Option PeerInfo → Type 0
DialsOther id none = Unit {0}
DialsOther id (some peer) = peer.device_id ≢ id

abbrev pub NoneDials : ℕ → List (Option PeerInfo) → Type 0
NoneDials id [] = Unit {0}
NoneDials id (out ∷ outs) = DialsOther id out × NoneDials id outs

abbrev lifted : ConnectionInfo → List ℕ → List ℕ
lifted info suppressed =
    if is_connected info.state then erase info.peer_device_id suppressed else suppressed

kept_lifted :
    (id : ℕ) (info : ConnectionInfo) (suppressed : List ℕ)
    → contains id (lifted info suppressed) ≡ true
    → contains id (track (some info) suppressed) ≡ true
unfolding track
kept_lifted id info suppressed h =
    if_intro (λ js. contains id js ≡ true) info.go_away_received
      (contains-insert id info.peer_device_id (lifted info suppressed) h) h

other_lifted :
    (id : ℕ) (info : ConnectionInfo) (suppressed : List ℕ)
    → info.peer_device_id ≢ id
    → contains id suppressed ≡ true
    → contains id (lifted info suppressed) ≡ true
other_lifted id info suppressed n h =
    if_intro (λ js. contains id js ≡ true) (is_connected info.state)
      (contains-erase_ne id info.peer_device_id suppressed n h) h

-- A Master that has told the Slave to go away is in the set, whatever the set was.
track-go_away :
    (info : ConnectionInfo) (suppressed : List ℕ)
    → info.go_away_received ≡ true
    → contains info.peer_device_id (track (some info) suppressed) ≡ true
unfolding track
track-go_away info suppressed away =
    rw away (contains-insert_self info.peer_device_id (lifted info suppressed))

track-contains :
    (id : ℕ) (client : Option ConnectionInfo) (suppressed : List ℕ)
    → NotReconnected id client
    → contains id suppressed ≡ true
    → contains id (track client suppressed) ≡ true
unfolding track
track-contains id none suppressed n h = h
track-contains id (some info) suppressed (inl other) h =
    kept_lifted id info suppressed (other_lifted id info suppressed other h)
track-contains id (some info) suppressed (inr (inl off)) h =
    kept_lifted id info suppressed (rw off h)
track-contains id (some info) suppressed (inr (inr away)) h =
    elim (Bool-cases (info.peer_device_id == id)) [
      | inl same ↦
          let e : info.peer_device_id ≡ id = (==_iff info.peer_device_id id).0 same in
          subst (λ j. contains j (track (some info) suppressed) ≡ true) e
            (track-go_away info suppressed away)
      | inr other ↦ kept_lifted id info suppressed (
          other_lifted id info suppressed
            (λ e. absurd (let two = sym other ∙ (==_iff info.peer_device_id id).1 e in cc)) h)
    ]

-- What is dialled has passed the test.
first_dialable-may_dial :
    (known suppressed : List ℕ) (peers : List PeerInfo) (peer : PeerInfo)
    → first_dialable known suppressed peers ≡ some peer
    → may_dial known suppressed peer ≡ true
unfolding first_dialable
first_dialable-may_dial known suppressed [] peer e = cc
first_dialable-may_dial known suppressed (p ∷ rest) peer e =
    elim (Bool-cases (may_dial known suppressed p)) [
      | inl ok ↦ let same = some-injective p peer (rw ok at e) in rw (← same) ok
      | inr skip ↦ first_dialable-may_dial known suppressed rest peer (rw skip at e)
    ]

last_false : (a b c d : Bool) → (a && b && c && not d) ≡ true → d ≡ false
last_false true true true true h = cc
last_false true true true false h = refl
last_false true true false d h = cc
last_false true false c d h = cc
last_false false b c d h = cc

may_dial-DialsOther :
    (id : ℕ) (known suppressed : List ℕ) (peer : PeerInfo)
    → contains id suppressed ≡ true
    → may_dial known suppressed peer ≡ true
    → peer.device_id ≢ id
may_dial-DialsOther id known suppressed peer h ok e =
    let free =
      last_false (is_master peer.role) (not (peer.tcp_port == 0)) (contains peer.device_id known)
        (contains peer.device_id suppressed) ok in
    let listed : contains peer.device_id suppressed ≡ true = rw e h in
    let two = sym listed ∙ free in cc

first_dialable-DialsOther :
    (id : ℕ) (known suppressed : List ℕ) (peers : List PeerInfo) (out : Option PeerInfo)
    → contains id suppressed ≡ true
    → first_dialable known suppressed peers ≡ out
    → DialsOther id out
first_dialable-DialsOther id known suppressed peers none h e = tt
first_dialable-DialsOther id known suppressed peers (some peer) h e =
    may_dial-DialsOther id known suppressed peer h
      (first_dialable-may_dial known suppressed peers peer e)

dial-DialsOther :
    (id : ℕ) (s : AutoConnect) (peers : List PeerInfo) (suppressed : List ℕ)
    → contains id suppressed ≡ true
    → DialsOther id (dial s peers suppressed)
dial-DialsOther id s peers suppressed h = if_intro (DialsOther id) (client_busy s.client) tt (
    if_intro (DialsOther id) s.enabled
      (first_dialable-DialsOther id s.known suppressed peers _ h refl) tt)

-- A frame keeps a Master in the set and does not dial it.
record Shuns (id : ℕ) (r : List ℕ × Option PeerInfo) : Type 0 where
  listed : contains id r.0 ≡ true
  other : DialsOther id r.1

pump_discovered-Shuns :
    (id : ℕ) (s : AutoConnect) (peers : Option (List PeerInfo))
    → NotReconnected id s.client
    → contains id s.suppressed ≡ true
    → Shuns id (pump_discovered s peers)
unfolding pump_discovered
pump_discovered-Shuns id s none n h = record { listed = h; other = tt }
pump_discovered-Shuns id s (some peers) n h =
    let listed = track-contains id s.client s.suppressed n h in
    record {
      listed = listed;
      other = dial-DialsOther id s peers (track s.client s.suppressed) listed;
    }

pump_auto_connect-Shuns :
    (id : ℕ) (s : AutoConnect)
    → NotReconnected id s.client
    → contains id s.suppressed ≡ true
    → Shuns id (pump_auto_connect s)
unfolding pump_auto_connect
pump_auto_connect-Shuns id s n h =
    let idle : Shuns id (s.suppressed, none) = record { listed = h; other = tt } in
    if_intro (Shuns id) (is_master s.role) idle (pump_discovered-Shuns id s s.peers n h)

pumps-NoneDials :
    (id : ℕ) (frames : List AutoConnect) (suppressed : List ℕ)
    → NeverReconnected id frames
    → contains id suppressed ≡ true
    → NoneDials id (pumps suppressed frames)
unfolding pumps
pumps-NoneDials id [] suppressed n h = tt
pumps-NoneDials id (s ∷ rest) suppressed n h =
    let first = pump_auto_connect-Shuns id (record s { suppressed = suppressed }) n.0 h in
    (
      first.other,
      pumps-NoneDials id rest (pump_auto_connect (record s { suppressed = suppressed })).0 n.1
          first.listed,
    )

-- A Master that has told the Slave to go away is not dialled: when a frame of a Slave that has
-- started discovery finds that its client has that flag, neither this frame nor any later one dials
-- the client's peer, whatever the peers, the switch and the known Masters are by then, until a client
-- is connected to it without the flag.
pub go_away_lem :
    (s : AutoConnect) (info : ConnectionInfo) (peers : List PeerInfo) (rest : List AutoConnect)
    (suppressed : List ℕ)
    → s.role ≡ slave
    → s.peers ≡ some peers
    → s.client ≡ some info
    → info.go_away_received ≡ true
    → NeverReconnected info.peer_device_id rest
    → NoneDials info.peer_device_id (pumps suppressed (s ∷ rest))
unfolding pumps pump_auto_connect pump_discovered
go_away_lem s info peers rest suppressed role found client away n =
    let listed = track-go_away info suppressed away in
    let id = info.peer_device_id in
    rw (role, found, client)
      (
        dial-DialsOther id (record s { client = some info }) peers (track (some info) suppressed)
            listed,
        pumps-NoneDials id rest (track (some info) suppressed) n listed,
      )

abbrev pub Passes : AutoConnect → List ℕ → PeerInfo → Type 0
Passes s suppressed peer =
    (client_busy s.client ≡ false) × (s.enabled ≡ true) × (may_dial s.known suppressed peer ≡ true)

dial-Passes :
    (s : AutoConnect) (peers : List PeerInfo) (suppressed : List ℕ) (peer : PeerInfo)
    → dial s peers suppressed ≡ some peer
    → Passes s suppressed peer
dial-Passes s peers suppressed peer e = elim (Bool-cases (client_busy s.client)) [
  | inl busy ↦ absurd (none-ne-some peer (rw busy at e))
  | inr free ↦ elim (Bool-cases s.enabled) [
    | inl on ↦
        (free, on, first_dialable-may_dial s.known suppressed peers peer (rw (free, on) at e))
    | inr off ↦ absurd (none-ne-some peer (rw (free, off) at e))
  ]
]

pump_discovered-Passes :
    (s : AutoConnect) (peers : Option (List PeerInfo)) (peer : PeerInfo)
    → (pump_discovered s peers).1 ≡ some peer
    → Passes s (pump_discovered s peers).0 peer
unfolding pump_discovered
pump_discovered-Passes s none peer e = absurd (none-ne-some peer e)
pump_discovered-Passes s (some peers) peer e =
    dial-Passes s peers (track s.client s.suppressed) peer e

-- What a frame dials: only on a Slave, with the switch on and no client that is connecting, pairing
-- or connected, and only a Master that has a port, is known and is not in the set after the frame.
pub dial_lem :
    (s : AutoConnect) (peer : PeerInfo)
    → (pump_auto_connect s).1 ≡ some peer
    → (is_master s.role ≡ false) × Passes s (pump_auto_connect s).0 peer
unfolding pump_auto_connect
dial_lem s peer e = elim (Bool-cases (is_master s.role)) [
  | inl m ↦ absurd (none-ne-some peer (rw (pump_auto_connect, m) at e))
  | inr sl ↦
      rw (pump_auto_connect, sl)
        (refl, pump_discovered-Passes s s.peers peer (rw (pump_auto_connect, sl) at e))
]
