-- ===== src/Discovery/Listener/Discovers.antt =====
-- Two machines on a network find each other, and a machine does not find itself.
use no_cap_kvm.Prelude.{
  ℕ, ◌-◌, ◌^◌, ◌≤◌, ◌<◌, true, false, Option, none, some, List, [], ◌∷◌, ◌≡◌, ◌≢◌, refl, ap, ◌∙◌,
  ltb, ltb-false, ◌==◌, if_intro, arith,
}
use no_cap_kvm.Prelude.Assoc.{lookup, SortedFrom, insert-SortedFrom, lookup-insert}
use no_cap_kvm.Discovery.Crypto.{Bytes}
use no_cap_kvm.Discovery.Types.{Role, PeerInfo, peer_timeout}
use no_cap_kvm.Discovery.Announce.{
  DecodedAnnounce, encode_announce, decode_announce, short_hostname,
}
use no_cap_kvm.Discovery.Announce.RoundTrip.{decode-encode_announce}
use no_cap_kvm.Discovery.PeerTable.{PeerTable, upsert}
use no_cap_kvm.Discovery.PeerTable.Freshness.{fresh, prune_lem}
use no_cap_kvm.Discovery.Listener.{Round, peer_of, note_announce, hear, listen_round, listen}

note_announce-SortedFrom :
    (own : ℕ) (peers : PeerTable) (ip : Bytes) (at : ℕ) (d : Option DecodedAnnounce)
    → SortedFrom 0 peers
    → SortedFrom 0 (note_announce own peers ip at d)
unfolding note_announce upsert
note_announce-SortedFrom own peers ip at none s = s
note_announce-SortedFrom own peers ip at (some d) s =
    if_intro (SortedFrom 0) (d.device_id == own) s
      (insert-SortedFrom 0 d.device_id (peer_of d ip at) peers (omega arith) s)

hear-SortedFrom :
    (own : ℕ) (peers : PeerTable) (at : ℕ) (got : Option (Bytes × Bytes))
    → SortedFrom 0 peers
    → SortedFrom 0 (hear own peers at got)
unfolding hear
hear-SortedFrom own peers at none s = s
hear-SortedFrom own peers at (some (packet, ip)) s =
    note_announce-SortedFrom own peers ip at (decode_announce packet) s

listen-SortedFrom : (own : ℕ) (rounds : List Round) → SortedFrom 0 (listen own rounds)
unfolding listen listen_round
listen-SortedFrom own [] = tt
listen-SortedFrom own (r ∷ rounds) =
    (prune_lem 0 0 r.now peer_timeout (hear own (listen own rounds) r.heard_at r.received) (
      hear-SortedFrom own (listen own rounds) r.heard_at r.received
        (listen-SortedFrom own rounds))).0

-- A machine that announces itself is found: when the listener of another machine takes its packet, the
-- table then has it under its id, with its name (cut to 32 bytes), role and port and the address the
-- packet came from, whatever the table was before, as long as the round takes no longer than the
-- timeout of five seconds.
pub listen-encode_announce :
    (own device_id : ℕ) (role : Role) (tcp_port : ℕ) (hostname ip : Bytes) (heard_at now : ℕ)
    (before : List Round)
    → device_id ≢ own
    → device_id < 2 ^ 64
    → tcp_port < 2 ^ 16
    → now - heard_at ≤ peer_timeout
    → lookup device_id (
        listen own (
          record {
            received = some (encode_announce device_id role tcp_port hostname, ip);
            heard_at = heard_at;
            now = now;
          }
          ∷ before))
      ≡ some (record {
        device_id = device_id;
        hostname = short_hostname hostname;
        role = role;
        tcp_port = tcp_port;
        ip_address = ip;
        last_seen = heard_at;
      })
unfolding listen listen_round hear note_announce upsert
listen-encode_announce own device_id role tcp_port hostname ip heard_at now before other i p soon =
    let decoded = decode-encode_announce device_id role tcp_port hostname i p in
    let packet = encode_announce device_id role tcp_port hostname in
    let peers = listen own before in
    let noted = hear own peers heard_at (some (packet, ip)) in
    let sorted =
      hear-SortedFrom own peers heard_at (some (packet, ip)) (listen-SortedFrom own before) in
    let kept = (prune_lem 0 device_id now peer_timeout noted sorted).1 in
    let not_own : (device_id == own) ≡ false = ground arith in
    let peer : PeerInfo = record {
      device_id = device_id;
      hostname = short_hostname hostname;
      role = role;
      tcp_port = tcp_port;
      ip_address = ip;
      last_seen = heard_at;
    } in
    let self : (device_id == device_id) ≡ true = ground arith in
    let there : lookup device_id noted ≡ some peer =
      rw (decoded, not_own) (lookup-insert device_id device_id peer peers ∙ rw self refl) in
    let young : ltb peer_timeout (now - heard_at) ≡ false = ltb-false _ _ soon in
    kept ∙ ap (fresh now peer_timeout) there ∙ rw young refl
