-- ===== src/Discovery/Handshake/Admission.antt =====
-- Who is let in, on both sides.
use no_cap_kvm.Prelude.{
  ℕ, ◌≡◌, ◌≢◌, refl, sym, ap, ◌∙◌, ◌⊎◌, inl, inr, true, Option, none, some, List, [], ◌∷◌, arith,
  Bool-cases,
}
use mathlib.Core.Option.{none-ne-some, some-injective}
use no_cap_kvm.Prelude.Assoc.{lookup, lookup-insert}
use no_cap_kvm.Discovery.Connection.{ConnectionInfo}
use no_cap_kvm.Discovery.Crypto.{Bytes, Sodium}
use no_cap_kvm.Discovery.NoiseIk.{IkResult}
use no_cap_kvm.Discovery.Handshake.{
  KnownPeers, get_pubkey, remember, settled_key, PairingDecision, pending, approved, rejected,
  ServerAnswers, ServerAttempt, same_bytes, server_admit, server_gate, server_open, server_pair,
  server_trust, server_flag, server_identify, server_attempt, turn_away, is_approved,
}

pub lookup-remember :
    (known : KnownPeers) (id : ℕ) (key : Bytes) → get_pubkey (remember known id key) id ≡ some key
unfolding get_pubkey remember
lookup-remember known id key = lookup-insert id id key known ∙ ground arith

same_bytes→eq : (xs ys : Bytes) → same_bytes xs ys ≡ true → xs ≡ ys
same_bytes→eq [] [] h = refl
same_bytes→eq [] (b ∷ ys) h = grind arith
same_bytes→eq (a ∷ xs) [] h = grind arith
same_bytes→eq (a ∷ xs) (b ∷ ys) h = grind (arith, same_bytes→eq xs ys)

is_approved→eq : (d : PairingDecision) → is_approved d ≡ true → d ≡ approved
is_approved→eq approved h = refl
is_approved→eq pending h = grind arith
is_approved→eq rejected h = grind arith

settled_key_lem :
    (own : Option Bytes) (flag : ℕ) (k : Bytes) → settled_key own flag ≡ some k → own ≡ some k
settled_key_lem none flag k h = h
settled_key_lem (some key) flag k h = ground arith

-- What a session of the server rests on.
pub record Admitted (known : KnownPeers) (kicked : List (ℕ × Unit {0})) (env : ServerAnswers)
    (after : ServerAttempt) (ik : IkResult) : Type 0 where
  pub id : ℕ
  pub is_named : env.peer_device_id ≡ some id
  pub is_kept : get_pubkey after.known id ≡ some ik.peer_static
  pub is_trusted : (get_pubkey known id ≡ some ik.peer_static) ⊎ (env.decision ≡ approved)
  pub is_pardoned : (lookup id kicked ≡ none) ⊎ (env.second_decision ≡ approved)

module _ (c : Sodium) (peer_ip own_pubkey : Bytes) where
  -- A state with no session yet.
  no_session :
      (s : ServerAttempt) (ik : IkResult) → s.session ≡ none → (turn_away s).session ≢ some ik
  no_session s ik fresh h = none-ne-some ik (sym fresh ∙ h)

  server_gate_lem :
      (s : ServerAttempt) (id : ℕ) (decision : PairingDecision) (got ik : IkResult)
      (kicked : Option (Unit {0}))
      → s.session ≡ none
      → (server_gate c peer_ip own_pubkey s id decision got kicked).session ≡ some ik
      → ((server_gate c peer_ip own_pubkey s id decision got kicked).known ≡ s.known)
        × (got ≡ ik)
        × ((kicked ≡ none) ⊎ (decision ≡ approved))
  unfolding server_gate server_admit
  server_gate_lem s id decision got ik none fresh h = (refl, some-injective got ik h, inl refl)
  server_gate_lem s id approved got ik (some u) fresh h = (refl, some-injective got ik h, inr refl)
  server_gate_lem s id pending got ik (some u) fresh h = absurd (no_session s ik fresh h)
  server_gate_lem s id rejected got ik (some u) fresh h = absurd (no_session s ik fresh h)

  server_open_lem :
      (s : ServerAttempt) (id : ℕ) (key : Bytes) (decision : PairingDecision)
      (exchange : Option IkResult) (ik : IkResult)
      → s.session ≡ none
      → (server_open c peer_ip own_pubkey s id key decision exchange).session ≡ some ik
      → ((server_open c peer_ip own_pubkey s id key decision exchange).known ≡ s.known)
        × (key ≡ ik.peer_static)
        × ((lookup id s.kicked ≡ none) ⊎ (decision ≡ approved))
  unfolding server_open
  server_open_lem s id key decision none ik fresh h = absurd (no_session s ik fresh h)
  server_open_lem s id key decision (some got) ik fresh h =
      elim (Bool-cases (same_bytes key got.peer_static)) [
        | inl e ↦
            (let gate =
                server_gate_lem s id decision got ik (lookup id s.kicked) fresh (rw e at h) in
              (
                rw e gate.0,
                same_bytes→eq key got.peer_static e ∙ ap (λ r. r.peer_static) gate.1,
                gate.2,
              ))
        | inr e ↦ absurd (no_session s ik fresh (rw e at h))
      ]

  server_pair_lem :
      (s : ServerAttempt) (id : ℕ) (env : ServerAnswers) (key : Option Bytes) (ik : IkResult)
      → s.session ≡ none
      → (server_pair c peer_ip own_pubkey s id env key).session ≡ some ik
      → (get_pubkey (server_pair c peer_ip own_pubkey s id env key).known id ≡ some ik.peer_static)
        × (env.decision ≡ approved)
        × ((lookup id s.kicked ≡ none) ⊎ (env.second_decision ≡ approved))
  unfolding server_pair
  server_pair_lem s id env none ik fresh h = absurd (none-ne-some ik (sym fresh ∙ h))
  server_pair_lem s id env (some key) ik fresh h = elim (Bool-cases (is_approved env.decision)) [
    | inl e ↦
        (let open_lem =
            server_open_lem _ id key env.second_decision env.exchange ik fresh (rw e at h) in
          (
            rw e (
                ap (λ known. get_pubkey known id) open_lem.0
                ∙ lookup-remember s.known id key
                ∙ ap some open_lem.1),
            is_approved→eq env.decision e,
            open_lem.2,
          ))
    | inr e ↦ absurd (no_session s ik fresh (rw e at h))
  ]

  server_trust_lem :
      (s : ServerAttempt) (id : ℕ) (env : ServerAnswers) (key : Option Bytes) (ik : IkResult)
      → s.session ≡ none
      → ((k : Bytes) → key ≡ some k → get_pubkey s.known id ≡ some k)
      → (server_trust c peer_ip own_pubkey s id env key).session ≡ some ik
      → (get_pubkey (server_trust c peer_ip own_pubkey s id env key).known id ≡ some ik.peer_static)
        × ((get_pubkey s.known id ≡ some ik.peer_static) ⊎ (env.decision ≡ approved))
        × ((lookup id s.kicked ≡ none) ⊎ (env.second_decision ≡ approved))
  unfolding server_trust
  server_trust_lem s id env none ik fresh known h =
      let paired = server_pair_lem s id env env.peer_pubkey ik fresh h in
      (paired.0, inr paired.1, paired.2)
  server_trust_lem s id env (some key) ik fresh known h =
      let open_lem = server_open_lem s id key env.second_decision env.exchange ik fresh h in
      let kept = known key refl ∙ ap some open_lem.1 in
      (ap (λ known. get_pubkey known id) open_lem.0 ∙ kept, inl kept, open_lem.2)

  server_flag_lem :
      (s : ServerAttempt) (id : ℕ) (env : ServerAnswers) (flag : Option ℕ) (ik : IkResult)
      → s.session ≡ none
      → (server_flag c peer_ip own_pubkey s id env flag).session ≡ some ik
      → (get_pubkey (server_flag c peer_ip own_pubkey s id env flag).known id ≡ some ik.peer_static)
        × ((get_pubkey s.known id ≡ some ik.peer_static) ⊎ (env.decision ≡ approved))
        × ((lookup id s.kicked ≡ none) ⊎ (env.second_decision ≡ approved))
  unfolding server_flag
  server_flag_lem s id env none ik fresh h = absurd (none-ne-some ik (sym fresh ∙ h))
  server_flag_lem s id env (some flag) ik fresh h =
      server_trust_lem s id env (settled_key (get_pubkey s.known id) flag) ik fresh
        (settled_key_lem (get_pubkey s.known id) flag) h

  server_identify_lem :
      (s : ServerAttempt) (env : ServerAnswers) (peer : Option ℕ) (ik : IkResult)
      → s.session ≡ none
      → (server_identify c peer_ip own_pubkey s env peer).session ≡ some ik
      → (id : ℕ) × (peer ≡ some id)
        × (get_pubkey (server_identify c peer_ip own_pubkey s env peer).known id
            ≡ some ik.peer_static)
        × ((get_pubkey s.known id ≡ some ik.peer_static) ⊎ (env.decision ≡ approved))
        × ((lookup id s.kicked ≡ none) ⊎ (env.second_decision ≡ approved))
  unfolding server_identify
  server_identify_lem s env none ik fresh h = absurd (none-ne-some ik (sym fresh ∙ h))
  server_identify_lem s env (some id) ik fresh h =
      let (kept, trusted, pardoned) = server_flag_lem s id env env.peer_wants_pairing ik fresh h in
      (id, refl, kept, trusted, pardoned)

-- Whoever is let into a session has proved the key that the Master then keeps for the device id it
-- gave, that key was kept before or the user approved it in this attempt, and a device that was
-- kicked has been approved anew.
pub server_attempt-Admitted :
    (c : Sodium) (peer_ip own_pubkey : Bytes) (status : ConnectionInfo) (known : KnownPeers)
    (kicked : List (ℕ × Unit {0})) (env : ServerAnswers) (ik : IkResult)
    → (server_attempt c peer_ip own_pubkey status known kicked env).session ≡ some ik
    → Admitted known kicked env (server_attempt c peer_ip own_pubkey status known kicked env) ik
unfolding server_attempt
server_attempt-Admitted c peer_ip own_pubkey status known kicked env ik h =
    let (id, named, kept, trusted, pardoned) =
      server_identify_lem c peer_ip own_pubkey _ env env.peer_device_id ik refl h in
    record {
      id = id;
      is_named = named;
      is_kept = kept;
      is_trusted = trusted;
      is_pardoned = pardoned;
    }
