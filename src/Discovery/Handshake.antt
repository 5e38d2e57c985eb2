-- ===== src/Discovery/Handshake.antt =====
-- How a connection is set up: TcpClient::run_once of src/discovery/tcp_client.cpp and TcpServer::run of
-- src/discovery/tcp_server.cpp up to the session loop, with known_peers.cpp (the map; its file is not
-- modelled) and pairing.cpp. What the sockets and the user answer is a record of answers, none
-- where a call fails or runs out of time.
pub mod Admission
pub mod Pairing
use no_cap_kvm.Prelude.{
  ℕ, ◌+◌, ◌-◌, ◌/◌, ◌%◌, Bool, true, false, ◌&&◌, not, Option, none, some, List, [], ◌∷◌, ◌++◌, ltb,
  ◌==◌, if◌then◌else◌,
}
use no_cap_kvm.Prelude.Assoc.{lookup, insert, erase}
use no_cap_kvm.Discovery.Types.{pairing_approved, pairing_rejected}
use no_cap_kvm.Discovery.Connection.{
  ConnectionState, ConnectionInfo, info, idle_info, connecting, pairing, connected, failed,
}
use no_cap_kvm.Discovery.Crypto.{Bytes, Sodium}
use no_cap_kvm.Discovery.NoiseIk.{TransportKeys, IkResult}

-- KnownPeers::peers_, in ascending order of the device ids.
abbrev pub KnownPeers : Type 0
KnownPeers = List (ℕ × Bytes)

unfoldable pub get_pubkey : KnownPeers → ℕ → Option Bytes
get_pubkey known device_id = lookup device_id known

unfoldable pub remember : KnownPeers → ℕ → Bytes → KnownPeers
remember known device_id pubkey = insert device_id pubkey known

unfoldable pub forget : KnownPeers → ℕ → KnownPeers
forget known device_id = erase device_id known

-- The two digits of `%02x`.
abbrev hex_digit : ℕ → ℕ
hex_digit n = if ltb n 10 then 48 + n else 87 + n

abbrev hex_byte : Bytes → Bytes
hex_byte [] = []
hex_byte (b ∷ bs) = hex_digit (b / 16) ∷ hex_digit (b % 16) ∷ []

abbrev rest_of : Bytes → Bytes
rest_of [] = []
rest_of (b ∷ bs) = bs

unfoldable pub compute_fingerprint : Sodium → Bytes → Bytes → Bytes
compute_fingerprint c initiator_pubkey responder_pubkey =
    let digest = c.sha256 (initiator_pubkey ++ responder_pubkey) in
    hex_byte digest ++ (hex_byte (rest_of digest) ++ hex_byte (rest_of (rest_of digest)))

-- own_wants_pairing
abbrev pub wants_pairing : Option Bytes → ℕ
wants_pairing none = 1
wants_pairing (some key) = 0

-- need_pairing, from the own key and the peer's flag: the key to go on with when there is no need.
abbrev pub settled_key : Option Bytes → ℕ → Option Bytes
settled_key none peer_wants_pairing = none
settled_key (some key) peer_wants_pairing = if peer_wants_pairing == 0 then some key else none

-- AttemptOutcome
pub data AttemptOutcome : Type 0 where
  retry_backoff give_up retry_fast : AttemptOutcome

-- What an attempt of the client meets: whether the socket is made and connects, the answers of the
-- peer, and the key exchange with a given static key of the peer.
pub record ClientAnswers : Type 0 where
  pub has_socket : Bool
  pub connects : Bool
  pub peer_device_id : Option ℕ
  pub peer_wants_pairing : Option ℕ
  pub peer_pubkey : Option Bytes
  pub decision_byte : Option ℕ
  pub exchange : Bytes → Option IkResult

-- Where the attempt stands at the session loop: `outcome` is none when the session begins.
pub record ClientAttempt : Type 0 where
  pub outcome : Option AttemptOutcome
  pub status : ConnectionInfo
  pub known : KnownPeers
  pub session : Option IkResult

abbrev pub give : AttemptOutcome → ConnectionInfo → KnownPeers → ClientAttempt
give outcome status known = record {
  outcome = some outcome;
  status = record status { state = failed };
  known = known;
  session = none;
}

module _ (c : Sodium) (peer_ip own_pubkey : Bytes) where
  -- run_ik_initiator and what follows.
  unfoldable pub client_open : ConnectionInfo → KnownPeers → ℕ → Option IkResult → ClientAttempt
  client_open status known id none = give retry_backoff status known
  client_open status known id (some ik) = record {
    outcome = none;
    status = record (info connected id peer_ip []) { audio_key = ik.keys.send_key };
    known = known;
    session = some ik;
  }

  -- The decision of the Master's user.
  unfoldable pub client_decided :
      ConnectionInfo → KnownPeers → ℕ → Bytes → (Bytes → Option IkResult) → Option ℕ → ClientAttempt
  client_decided status known id key exchange none = give retry_backoff status known
  client_decided status known id key exchange (some decision_byte) =
      if decision_byte == pairing_approved
      then client_open status (remember known id key) id (exchange key)
      else give give_up status known

  unfoldable pub client_pair :
      ConnectionInfo → KnownPeers → ℕ → ClientAnswers → Option Bytes → ClientAttempt
  client_pair status known id env none = give retry_backoff status known
  client_pair status known id env (some key) =
      client_decided (info pairing id peer_ip (compute_fingerprint c own_pubkey key)) known id key
        env.exchange env.decision_byte

  unfoldable pub client_trust :
      ConnectionInfo → KnownPeers → ℕ → ClientAnswers → Option Bytes → ClientAttempt
  client_trust status known id env none = client_pair status known id env env.peer_pubkey
  client_trust status known id env (some key) = client_open status known id (env.exchange key)

  unfoldable pub client_flag :
      ConnectionInfo → KnownPeers → ℕ → ClientAnswers → Option ℕ → ClientAttempt
  client_flag status known id env none = give retry_backoff status known
  client_flag status known id env (some flag) =
      client_trust status known id env (settled_key (get_pubkey known id) flag)

  unfoldable pub client_identify :
      ConnectionInfo → KnownPeers → ClientAnswers → Option ℕ → ClientAttempt
  client_identify status known env none = give retry_backoff status known
  client_identify status known env (some id) =
      client_flag status known id env env.peer_wants_pairing

  -- TcpClient::run_once up to the session.
  unfoldable pub client_attempt : KnownPeers → ClientAnswers → ClientAttempt
  client_attempt known env =
      let status = info connecting 0 peer_ip [] in
      if env.has_socket && env.connects
      then client_identify status known env env.peer_device_id
      else give retry_backoff status known

-- PairingDecision
pub data PairingDecision : Type 0 where
  pending approved rejected : PairingDecision

-- What a connection to the server meets: the decisions are those at the end of the wait.
pub record ServerAnswers : Type 0 where
  pub peer_device_id : Option ℕ
  pub peer_wants_pairing : Option ℕ
  pub peer_pubkey : Option Bytes
  pub decision : PairingDecision
  pub exchange : Option IkResult
  pub second_decision : PairingDecision

-- `kicked` is the std::set kicked_this_session_, as a map to nothing; `decision_byte` is what was
-- sent, and `go_away` whether a kMsgGoAway was.
pub record ServerAttempt : Type 0 where
  pub status : ConnectionInfo
  pub known : KnownPeers
  pub kicked : List (ℕ × Unit {0})
  pub decision_byte : Option ℕ
  pub go_away : Bool
  pub session : Option IkResult

abbrev pub is_approved : PairingDecision → Bool
is_approved approved = true
is_approved pending = false
is_approved rejected = false

-- std::array's ==
abbrev pub same_bytes : Bytes → Bytes → Bool
same_bytes [] [] = true
same_bytes [] (b ∷ ys) = false
same_bytes (a ∷ xs) [] = false
same_bytes (a ∷ xs) (b ∷ ys) = (a == b) && same_bytes xs ys

abbrev pub turn_away : ServerAttempt → ServerAttempt
turn_away s = record s { status = idle_info }

module _ (c : Sodium) (peer_ip own_pubkey : Bytes) where
  unfoldable pub server_admit : ServerAttempt → ℕ → IkResult → ServerAttempt
  server_admit s id ik = record s {
    status = record (info connected id peer_ip []) { audio_key = ik.keys.recv_key };
    session = some ik;
  }

  -- The gate for a device that was kicked.
  unfoldable pub server_gate :
      ServerAttempt → ℕ → PairingDecision → IkResult → Option (Unit {0}) → ServerAttempt
  server_gate s id decision ik none = server_admit s id ik
  server_gate s id decision ik (some _) =
      if is_approved decision
      then server_admit (record s { kicked = erase id s.kicked }) id ik
      else turn_away (record s { go_away = true })

  -- run_ik_responder and the check of the key that it found.
  unfoldable pub server_open :
      ServerAttempt → ℕ → Bytes → PairingDecision → Option IkResult → ServerAttempt
  server_open s id trusted decision none = turn_away s
  server_open s id trusted decision (some ik) =
      if same_bytes trusted ik.peer_static
      then server_gate s id decision ik (lookup id s.kicked)
      else turn_away s

  unfoldable pub server_pair : ServerAttempt → ℕ → ServerAnswers → Option Bytes → ServerAttempt
  server_pair s id env none = s
  server_pair s id env (some key) =
      if is_approved env.decision
      then server_open
          (record s {
            status = info pairing id peer_ip (compute_fingerprint c key own_pubkey);
            known = remember s.known id key;
            decision_byte = some pairing_approved;
          })
          id key env.second_decision env.exchange
      else turn_away (record s { decision_byte = some pairing_rejected })

  unfoldable pub server_trust : ServerAttempt → ℕ → ServerAnswers → Option Bytes → ServerAttempt
  server_trust s id env none = server_pair s id env env.peer_pubkey
  server_trust s id env (some key) = server_open s id key env.second_decision env.exchange

  unfoldable pub server_flag : ServerAttempt → ℕ → ServerAnswers → Option ℕ → ServerAttempt
  server_flag s id env none = s
  server_flag s id env (some flag) =
      server_trust s id env (settled_key (get_pubkey s.known id) flag)

  unfoldable pub server_identify : ServerAttempt → ServerAnswers → Option ℕ → ServerAttempt
  server_identify s env none = s
  server_identify s env (some id) = server_flag s id env env.peer_wants_pairing

  -- One accepted connection, up to the session loop.
  unfoldable pub server_attempt :
      ConnectionInfo → KnownPeers → List (ℕ × Unit {0}) → ServerAnswers → ServerAttempt
  server_attempt status known kicked env =
      server_identify
        (record {
          status = status;
          known = known;
          kicked = kicked;
          decision_byte = none;
          go_away = false;
          session = none;
        })
        env env.peer_device_id
