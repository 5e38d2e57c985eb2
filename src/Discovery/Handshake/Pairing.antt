-- ===== src/Discovery/Handshake/Pairing.antt =====
-- The two ends of one attempt, against each other.
use no_cap_kvm.Prelude.{
  ℕ, ◌≡◌, refl, ap, ◌∙◌, inl, inr, true, Option, none, some, List, [], ◌∷◌, arith, Option-cases,
}
use no_cap_kvm.Prelude.Assoc.{lookup}
use no_cap_kvm.Discovery.Connection.{ConnectionInfo}
use no_cap_kvm.Discovery.Crypto.{Bytes, Sodium}
use no_cap_kvm.Discovery.NoiseIk.{IkResult}
use no_cap_kvm.Discovery.Handshake.{
  KnownPeers, get_pubkey, wants_pairing, ClientAnswers, client_open, client_decided, client_pair,
  client_trust, client_flag, client_identify, client_attempt, approved, ServerAnswers,
  ServerAttempt, same_bytes, server_admit, server_gate, server_open, server_pair, server_trust,
  server_flag, server_identify, server_attempt,
}
use no_cap_kvm.Discovery.Handshake.Admission.{lookup-remember}

same_bytes_refl : (xs : Bytes) → same_bytes xs xs ≡ true
same_bytes_refl [] = refl
same_bytes_refl (x ∷ xs) = ground (arith, same_bytes_refl xs)

-- The Slave and the Master of an attempt.
pub record Machines : Type 0 where
  pub slave_id : ℕ
  pub master_id : ℕ
  pub slave_pubkey : Bytes
  pub master_pubkey : Bytes
  pub slave_known : KnownPeers
  pub master_known : KnownPeers
  pub kicked : List (ℕ × Unit {0})

-- What the Master meets when the Slave dials, its user approves and the key exchange gives `ik`.
abbrev pub master_meets : Machines → Option IkResult → ServerAnswers
master_meets m ik = record {
  peer_device_id = some m.slave_id;
  peer_wants_pairing = some (wants_pairing (get_pubkey m.slave_known m.master_id));
  peer_pubkey = some m.slave_pubkey;
  decision = approved;
  exchange = ik;
  second_decision = approved;
}

-- What the Slave meets then, with the decision byte that the Master sent.
abbrev pub slave_meets : Machines → ServerAttempt → (Bytes → Option IkResult) → ClientAnswers
slave_meets m master exchange = record {
  has_socket = true;
  connects = true;
  peer_device_id = some m.master_id;
  peer_wants_pairing = some (wants_pairing (get_pubkey m.master_known m.slave_id));
  peer_pubkey = some m.master_pubkey;
  decision_byte = master.decision_byte;
  exchange = exchange;
}

-- A key that is kept for a device is its key.
abbrev pub Keeps : KnownPeers → ℕ → Bytes → Type 0
Keeps known id key = (k : Bytes) → get_pubkey known id ≡ some k → k ≡ key

module _ (c : Sodium) (ip ip' : Bytes) (m : Machines) (status : ConnectionInfo)
    (ikm : IkResult) where
  abbrev pub master : ServerAttempt
  master =
      server_attempt c ip m.master_pubkey status m.master_known m.kicked (master_meets m (some ikm))

  master_connects :
      Keeps m.master_known m.slave_id m.slave_pubkey
      → ikm.peer_static ≡ m.slave_pubkey
      → lookup m.slave_id m.kicked ≡ none
      → (master.session ≡ some ikm) × (get_pubkey master.known m.slave_id ≡ some m.slave_pubkey)
  unfolding server_attempt server_identify server_flag server_trust server_pair server_open
      server_gate server_admit
  master_connects keeps static free =
      let same = same_bytes_refl m.slave_pubkey in
      let kept = lookup-remember m.master_known m.slave_id m.slave_pubkey in
      elim (Option-cases (get_pubkey m.master_known m.slave_id)) [
        | inl e ↦ rw (e, static, same, free) (refl, kept)
        | inr (k, e) ↦ elim (Option-cases (get_pubkey m.slave_known m.master_id)) [
          | inl e' ↦ rw (e, e', static, same, free) (refl, kept)
          | inr (k', e') ↦ rw (e, e', keeps k e, static, same, free) (refl, e ∙ ap some (keeps k e))
        ]
      ]

  slave_connects :
      (exchange : Bytes → Option IkResult) (iks : IkResult)
      → Keeps m.slave_known m.master_id m.master_pubkey
      → exchange m.master_pubkey ≡ some iks
      → ikm.peer_static ≡ m.slave_pubkey
      → lookup m.slave_id m.kicked ≡ none
      → (let slave =
            client_attempt c ip' m.slave_pubkey m.slave_known (slave_meets m master exchange) in
          (slave.session ≡ some iks) × (get_pubkey slave.known m.master_id ≡ some m.master_pubkey))
  unfolding server_attempt server_identify server_flag server_trust server_pair server_open
      server_gate server_admit client_attempt client_identify client_flag client_trust client_pair
      client_decided client_open
  slave_connects exchange iks keeps opens static free =
      let same = same_bytes_refl m.slave_pubkey in
      let kept = lookup-remember m.slave_known m.master_id m.master_pubkey in
      elim (Option-cases (get_pubkey m.slave_known m.master_id)) [
        | inl e ↦ elim (Option-cases (get_pubkey m.master_known m.slave_id)) [
          | inl e' ↦ rw (e, e', static, same, free, opens) (refl, kept)
          | inr (k', e') ↦ rw (e, e', static, same, free, opens) (refl, kept)
        ]
        | inr (k, e) ↦ elim (Option-cases (get_pubkey m.master_known m.slave_id)) [
          | inl e' ↦ rw (e, e', static, same, free, opens) (refl, kept)
          | inr (k', e') ↦ rw (e, e', keeps k e, opens) (refl, e ∙ ap some (keeps k e))
        ]
      ]

-- Pairing brings two machines together: when the Slave dials, the Master's user approves, the key
-- exchange succeeds on both sides for the Master's key and proves the Slave's, and the Slave was not
-- kicked, then both come to a session and each keeps the other's key, whichever of them knew the
-- other before, as long as no wrong key was kept.
pub pairing_lem :
    (c : Sodium) (ip ip' : Bytes) (m : Machines) (status : ConnectionInfo) (ikm iks : IkResult)
    (exchange : Bytes → Option IkResult)
    → Keeps m.master_known m.slave_id m.slave_pubkey
    → Keeps m.slave_known m.master_id m.master_pubkey
    → ikm.peer_static ≡ m.slave_pubkey
    → lookup m.slave_id m.kicked ≡ none
    → exchange m.master_pubkey ≡ some iks
    → (let a = master c ip ip' m status ikm in
        let b = client_attempt c ip' m.slave_pubkey m.slave_known (slave_meets m a exchange) in
        (a.session ≡ some ikm)
        × (get_pubkey a.known m.slave_id ≡ some m.slave_pubkey)
        × (b.session ≡ some iks)
        × (get_pubkey b.known m.master_id ≡ some m.master_pubkey))
pairing_lem c ip ip' m status ikm iks exchange keeps keeps' static free opens =
    let (a, a') = master_connects c ip ip' m status ikm keeps static free in
    let (b, b') = slave_connects c ip ip' m status ikm exchange iks keeps' opens static free in
    (a, a', b, b')
