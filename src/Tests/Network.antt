-- ===== src/Tests/Network.antt =====
-- src/discovery, with a toy in place of libsodium that has its documented laws.
use no_cap_kvm.Prelude.{
  ◌-◌, arith, ℕ, ◌-◌, ◌*◌, ◌≡◌, refl, ap, true, false, Option, none, some, List, [], ◌∷◌, ◌++◌, map,
  length, take, replicate, length-append, length-replicate,
}
use mathlib.Core.Option.{none-ne-some}
use no_cap_kvm.Prelude.Int.{pos, negsuc}
use no_cap_kvm.Prelude.Bytes.{byte_at}
use no_cap_kvm.Topology.Geometry.{MonitorInfo}
use no_cap_kvm.Discovery.Connection.{idle_info, info, connected}
use no_cap_kvm.Discovery.Crypto.{Bytes, Sodium, SodiumLaws}
use no_cap_kvm.Discovery.Noise.{SymmetricState, keypair, aead_encrypt}
use no_cap_kvm.Discovery.NoiseIk.{IkResult, initiator_message, run_ik_initiator, run_ik_responder}
use no_cap_kvm.Discovery.NoiseIk.Agreement.{answer, ik_agreement}
use no_cap_kvm.Discovery.SecureChannel.{
  SecureChannel, Received, timeout, error, ok, open_channel, send, receive, send_messages,
  receive_messages,
}
use no_cap_kvm.Discovery.SecureChannel.Delivery.{
  delivered, receive-send_messages, receive-send_oversize,
}
use no_cap_kvm.Discovery.Payloads.{encode_monitor_list, decode_monitor_list, max_monitors}
use no_cap_kvm.Discovery.Payloads.RoundTrip.{shorten, decode-encode_monitor_list}
use no_cap_kvm.Discovery.Types.{master, PeerInfo}
use no_cap_kvm.Discovery.Handshake.{
  KnownPeers, get_pubkey, ServerAnswers, approved, client_attempt, server_attempt, server_identify,
  server_flag, server_trust, server_open, server_gate, server_admit,
}
use no_cap_kvm.Discovery.Handshake.Admission.{Admitted, server_attempt-Admitted}
use no_cap_kvm.Discovery.Handshake.Pairing.{Machines, slave_meets, pairing_lem}
use no_cap_kvm.Discovery.Handshake.Pairing
use no_cap_kvm.Discovery.Session.{Session, MonitorWatch, Clock, Wanted, begin}
use no_cap_kvm.Discovery.Session.Loop.{Round}

abbrev head : Bytes → ℕ
head bytes = byte_at bytes 0

abbrev pub toy : Sodium
toy = record {
  sha256 = λ m. m;
  generichash = λ m. m;
  hmac = λ k m. k ++ m;
  scalarmult = λ a p. some (head a * head p ∷ []);
  public_of = λ a. head a ∷ replicate 31 0;
  seal = λ k n ad p. p ++ replicate 16 0;
  unseal = λ k n ad ct. some (take (length ct - 16) ct);
}

take_text : (p : Bytes) → take (length (p ++ replicate 16 0) - 16) (p ++ replicate 16 0) ≡ p
take_text p =
    let len : length (p ++ replicate 16 0) - 16 ≡ length p =
      omega (arith, length-append {0} p (replicate 16 0)) in
    rw len (front p (replicate 16 0))
  where
    front : (a b : Bytes) → take (length a) (a ++ b) ≡ a
    front [] b = refl
    front (x ∷ a) b = ap (◌∷◌ x) (front a b)

*_swap : (a b : ℕ) → a * b ≡ b * a
*_swap a b = grind arith

pub toy_laws : SodiumLaws toy
toy_laws = record {
  shared = λ a b. (head a * head b ∷ [], refl, ap (λ n. some (n ∷ [])) (*_swap (head b) (head a)));
  unseal-seal = λ k n ad p. ap some (take_text p);
  length-seal = λ k n ad p. length-append p (replicate 16 0);
  length-public_of = λ a. refl;
}

abbrev key : ℕ → Bytes
key n = n ∷ replicate 31 0

ik_agreement_example :
    (s : SymmetricState) × (sent : Bytes) × (ri : IkResult) × (rr : IkResult) × (reply : Bytes)
    × (initiator_message toy (keypair toy (key 2)) (key 3) (keypair toy (key 5)) ≡ some (s, sent))
    × (run_ik_responder toy (keypair toy (key 3)) (keypair toy (key 7)) sent ≡ some (reply, rr))
    × (run_ik_initiator toy
          (keypair toy (key 2))
          (key 3)
          (keypair toy (key 5))
          (answer toy (keypair toy (key 3)) (keypair toy (key 7)))
        ≡ some ri)
    × (ri.keys.send_key ≡ rr.keys.recv_key)
    × (ri.keys.recv_key ≡ rr.keys.send_key)
    × (ri.peer_static ≡ key 3)
    × (rr.peer_static ≡ key 2)
ik_agreement_example = ik_agreement toy_laws (key 2) (key 3) (key 5) (key 7)

abbrev slave_end : SecureChannel
slave_end = open_channel (record { send_key = 1 ∷ []; recv_key = 2 ∷ [] })

abbrev master_end : SecureChannel
master_end = open_channel (record { send_key = 2 ∷ []; recv_key = 1 ∷ [] })

abbrev texts : List (ℕ × Bytes)
texts = (1, 4 ∷ 5 ∷ []) ∷ (10, []) ∷ []

receive-send_messages_example :
    receive_messages toy 2 master_end
      (record { bytes = (send_messages toy slave_end texts).0 ++ (9 ∷ []); has_closed = false })
    ≡ (
      map delivered texts,
      record master_end { recv_nonce = (send_messages toy slave_end texts).1.send_nonce },
      record { bytes = 9 ∷ []; has_closed = false },
    )
receive-send_messages_example =
    receive-send_messages toy_laws slave_end master_end texts (9 ∷ []) false
      (record { same_key = refl; same_nonce = refl }) ((omega arith), ((omega arith), tt))

-- A text that no frame can carry.
a_text : (n : ℕ) → (p : Bytes) × (length p ≡ n)
a_text n = (replicate n 0, length-replicate n 0)

abbrev long : Bytes
long = (a_text 8400000).0

receive-send_oversize_example :
    receive toy master_end
      (record { bytes = (send toy slave_end 12 long).0 ++ []; has_closed = false })
    ≡ (
      error,
      master_end,
      record { bytes = aead_encrypt toy (1 ∷ []) 0 [] (12 ∷ long) ++ []; has_closed = false },
    )
receive-send_oversize_example =
    receive-send_oversize toy_laws slave_end master_end 12 long [] false
      (omega (arith, (a_text 8400000).1)) (omega (arith, (a_text 8400000).1))

abbrev screen : MonitorInfo
screen = record {
  x = negsuc 1919;
  y = pos 0;
  width = pos 1920;
  height = pos 1080;
  primary = false;
  name = 68 ∷ [];
}

decode-encode_monitor_list_example :
    decode_monitor_list (encode_monitor_list (screen ∷ []))
    ≡ some (map shorten (take max_monitors (screen ∷ [])))
decode-encode_monitor_list_example = decode-encode_monitor_list (screen ∷ []) (
  record {
    x = ((omega arith), (omega arith));
    y = ((omega arith), (omega arith));
    width = ((omega arith), (omega arith));
    height = ((omega arith), (omega arith));
  },
  tt,
)

abbrev ik : Bytes → IkResult
ik peer = record { keys = record { send_key = []; recv_key = [] }; peer_static = peer }

abbrev meets : ServerAnswers
meets = record {
  peer_device_id = some 7;
  peer_wants_pairing = some 0;
  peer_pubkey = none;
  decision = approved;
  exchange = some (ik (4 ∷ []));
  second_decision = approved;
}

abbrev kept : KnownPeers
kept = (7, 4 ∷ []) ∷ []

server_attempt-Admitted_example :
    Admitted kept [] meets (server_attempt toy [] (3 ∷ []) idle_info kept [] meets) (ik (4 ∷ []))
unfolding get_pubkey server_attempt server_identify server_flag server_trust server_open server_gate
    server_admit
server_attempt-Admitted_example =
    server_attempt-Admitted toy [] (3 ∷ []) idle_info kept [] meets (ik (4 ∷ [])) refl

abbrev machines : Machines
machines = record {
  slave_id = 7;
  master_id = 8;
  slave_pubkey = 4 ∷ [];
  master_pubkey = 3 ∷ [];
  slave_known = [];
  master_known = [];
  kicked = [];
}

abbrev opens : Bytes → Option IkResult
opens k = some (ik k)

pairing_lem_example :
    let a = Pairing.master toy [] [] machines idle_info (ik (4 ∷ [])) in
    let b = client_attempt toy [] (4 ∷ []) [] (slave_meets machines a opens) in
    (a.session ≡ some (ik (4 ∷ [])))
    × (get_pubkey a.known 7 ≡ some (4 ∷ []))
    × (b.session ≡ some (ik (3 ∷ [])))
    × (get_pubkey b.known 8 ≡ some (3 ∷ []))
unfolding get_pubkey
pairing_lem_example =
    pairing_lem toy [] [] machines idle_info (ik (4 ∷ [])) (ik (3 ∷ [])) opens
      (λ k e. absurd (none-ne-some k e)) (λ k e. absurd (none-ne-some k e)) refl refl refl

abbrev session : Session
session = begin (info connected 7 [] []) none 100

abbrev clock : Clock
clock = record { heard = 1200; measured = 1201; now = 1202 }

abbrev ping : Received
ping = ok 14 (0 ∷ 0 ∷ 0 ∷ 5 ∷ [])

abbrev wanted : Wanted
wanted = record { running = true; disconnect_requested = false }

-- The peer's ping, and then three seconds and more without a byte.
abbrev rounds : List Round
rounds =
    record { wanted = wanted; heartbeat_timeout = 3000; clock = clock; result = ping }
    ∷ record {
      wanted = wanted;
      heartbeat_timeout = 3000;
      clock = record { heard = 4300; measured = 4300; now = 4301 };
      result = timeout;
    }
    ∷ []

-- The session after the first round: the pong has gone out, and a heartbeat and a probe.
abbrev session' : Session
session' = record session {
  last_heard = 1200;
  last_heartbeat_sent = 1202;
  last_ping_sent = 1202;
  next_ping_seq = 1;
  ping_in_flight_seq = some 0;
  ping_sent_at = 1202;
}

abbrev watch : MonitorWatch
watch = record { last_check = 1000; last_sent = [] }

abbrev peer : ℕ → PeerInfo
peer at = record {
  device_id = 7;
  hostname = [];
  role = master;
  tcp_port = 4711;
  ip_address = [];
  last_seen = at;
}
