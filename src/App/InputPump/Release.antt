-- ===== src/App/InputPump/Release.antt =====
-- Control returns to the Master only with every held key released on the Slave.
use no_cap_kvm.Prelude.{
  ◌<◌, ◌^◌, Bool, true, false, ◌||◌, not, Option, none, some, List, [], ◌∷◌, ◌++◌, ◌≡◌, refl, sym,
  ap, ap₂, ◌∙◌, inl, inr, arith, Bool-cases,
}
use mathlib.Core.List.{append-nil, append_assoc}
use no_cap_kvm.Topology.Geometry.{ArrangementEntry, compute_bounds}
use no_cap_kvm.Topology.Crossing.{BoundaryCheck, compute_crossing, check_boundary}
use no_cap_kvm.Discovery.Connection.{ConnectionInfo}
use no_cap_kvm.Input.Protocol.{InputFrame, Injection, key, modifiers, dispatch_input_message}
use no_cap_kvm.Input.Protocol.RoundTrip.{IsTyped, message, dispatch-message}
use no_cap_kvm.App.InputPump.State.{
  InputState, HeldKey, Env, Effect, send, inject, warp, disconnect, track_keys, escape_combo_held,
  key_ups, release_held_keys_on_slave,
}
use no_cap_kvm.App.InputPump.Handoff.{
  moved, crossable, inverse_entry, pinned, past_margin, hand_to_master, maybe_return,
  frame_messages, handle_slave_owned,
}
use no_cap_kvm.App.InputPump.Pump.{
  center_x, center_y, activate_hook, force_back, with_disconnect, pump_frame, pump_connected,
}
use no_cap_kvm.App.InputPump.Ownership.{IsFree}

-- What the Slave injects for the messages among the effects, in their order.
pub slave_injections : List Effect → List Injection
slave_injections [] = []
slave_injections (send t p ∷ es) = dispatch_input_message t p ++ slave_injections es
slave_injections (inject v s d e ∷ es) = slave_injections es
slave_injections (warp x y ∷ es) = slave_injections es
slave_injections (disconnect ∷ es) = slave_injections es

pub releases : List HeldKey → List Injection
releases [] = modifiers 0 ∷ []
releases (k ∷ held) = key k.vk k.scancode false k.extended ∷ releases held

abbrev pub AreTyped : List HeldKey → Type 0
AreTyped [] = Unit {0}
AreTyped (k ∷ held) = (k.vk < 2 ^ 32) × (k.scancode < 2 ^ 32) × AreTyped held

dispatch_whole :
    (i : Injection) → IsTyped i → dispatch_input_message (message i).0 (message i).1 ≡ i ∷ []
dispatch_whole i h =
    ap (dispatch_input_message (message i).0) (sym (append-nil (message i).1))
    ∙ dispatch-message i [] h

-- The release sequence makes the Slave let go of each held key, with its scancode, and then of its
-- shadow modifiers.
pub slave_injections-release :
    (held : List HeldKey)
    → AreTyped held
    → slave_injections (release_held_keys_on_slave held) ≡ releases held
unfolding slave_injections releases release_held_keys_on_slave key_ups message
slave_injections-release [] h = rw (dispatch_whole (modifiers 0) (omega arith))
slave_injections-release (k ∷ held) h =
    ap₂ ◌++◌ (dispatch_whole (key k.vk k.scancode false k.extended) (h.0, h.1))
      (slave_injections-release held h.2)

-- Each injection as the message that asks the Slave for it.
pub asked : List Injection → List Effect
asked [] = []
asked (i ∷ rest) = send (message i).0 (message i).1 ∷ asked rest

release_held_keys_on_slave_lem :
    (held : List HeldKey) → release_held_keys_on_slave held ≡ asked (releases held)
unfolding asked releases release_held_keys_on_slave key_ups message
release_held_keys_on_slave_lem [] = refl
release_held_keys_on_slave_lem (k ∷ held) =
    ap
      (λ es.
        send (message (key k.vk k.scancode false k.extended)).0
          (message (key k.vk k.scancode false k.extended)).1
        ∷ es)
      (release_held_keys_on_slave_lem held)

-- Among the effects stand, in a row, the messages for a key-up of each of these keys, with its
-- scancode, and for modifiers of 0.
pub record Releases (effects : List Effect) (held : List HeldKey) : Type 0 where
  pub before : List Effect
  pub after : List Effect
  pub split : effects ≡ before ++ (asked (releases held) ++ after)

-- A frame that began on the Slave: it is still there, or control came back with the release.
pub data SlaveFrame (r : InputState × List Effect) : Type 0 where
  stays : r.0.owned_by_master ≡ false → SlaveFrame r
  returns : IsFree r.0 → Releases r.1 r.0.held_keys → SlaveFrame r

prepend-SlaveFrame :
    (pre : List Effect) (s : InputState) (es : List Effect)
    → SlaveFrame (s, es)
    → SlaveFrame (s, pre ++ es)
prepend-SlaveFrame pre s es (stays o) = stays o
prepend-SlaveFrame pre s es (returns f r) = returns f (record {
  before = pre ++ r.before;
  after = r.after;
  split = ap (◌++◌ pre) r.split ∙ sym (append_assoc pre r.before _);
})

pinned-owner :
    (s : InputState) (bc : BoundaryCheck) (inv : Option ArrangementEntry)
    → ((pinned s bc inv).owned_by_master ≡ s.owned_by_master)
      × ((pinned s bc inv).held_keys ≡ s.held_keys)
unfolding pinned
pinned-owner s bc none = (refl, refl)
pinned-owner s bc (some inv) = ground arith

Releases-front :
    (held held' : List HeldKey) (post : List Effect)
    → held' ≡ held
    → Releases (release_held_keys_on_slave held ++ post) held'
Releases-front held held' post e = record {
  before = [];
  after = post;
  split =
      ap (λ es. es ++ post)
        (release_held_keys_on_slave_lem held ∙ ap (λ h. asked (releases h)) (sym e));
}

Releases-back :
    (x : Effect) (held : List HeldKey) → Releases (x ∷ release_held_keys_on_slave held) held
Releases-back x held = record {
  before = x ∷ [];
  after = [];
  split =
      ap (◌∷◌ x) (release_held_keys_on_slave_lem held ∙ sym (append-nil (asked (releases held))));
}

hand_to_master-SlaveFrame :
    (s p : InputState) (bc : BoundaryCheck) (inv : ArrangementEntry)
    → p.owned_by_master ≡ false
    → p.held_keys ≡ s.held_keys
    → SlaveFrame (hand_to_master s p bc inv)
unfolding hand_to_master
hand_to_master-SlaveFrame s p bc inv o h =
    let c = compute_crossing s.local_monitors inv.direction inv.offset bc.perp_pos in
    elim (Bool-cases c.has_target) [
      | inr miss ↦ rw miss (stays o)
      | inl hit ↦ rw hit (
          returns (record { owned = refl; passing = refl })
            (Releases-front s.held_keys p.held_keys _ h))
    ]

maybe_return-SlaveFrame :
    (skip : Bool) (s : InputState) (bc : BoundaryCheck) (inv : Option ArrangementEntry)
    → s.owned_by_master ≡ false
    → SlaveFrame (maybe_return skip s bc inv)
unfolding maybe_return
maybe_return-SlaveFrame skip s bc none o = stays ((pinned-owner s bc none).0 ∙ o)
maybe_return-SlaveFrame skip s bc (some inv) o =
    let p = pinned-owner s bc (some inv) in
    elim (Bool-cases (skip || not (past_margin s bc))) [
      | inl no_return ↦ rw no_return (stays (p.0 ∙ o))
      | inr back ↦
          rw back (hand_to_master-SlaveFrame s (pinned s bc (some inv)) bc inv (p.0 ∙ o) p.1)
    ]

handle_slave_owned-SlaveFrame :
    (env : Env) (s : InputState) (info : ConnectionInfo) (frame : InputFrame)
    → s.owned_by_master ≡ false
    → SlaveFrame (handle_slave_owned env s info frame)
unfolding handle_slave_owned
handle_slave_owned-SlaveFrame env s0 info frame o =
    let s1 = moved s0 frame in
    let bc = check_boundary (compute_bounds info.peer_monitors) s1.logical_x s1.logical_y in
    let s = record s1 { just_handed_off = false } in
    prepend-SlaveFrame (frame_messages bc frame) _ _
      (maybe_return-SlaveFrame s1.just_handed_off s bc (crossable (inverse_entry s info) bc) o)

force_back-SlaveFrame : (s : InputState) → SlaveFrame (force_back s)
unfolding force_back
force_back-SlaveFrame s =
    returns (record { owned = refl; passing = refl }) (Releases-back _ s.held_keys)

with_disconnect-SlaveFrame :
    (r : InputState × List Effect) → SlaveFrame r → SlaveFrame (with_disconnect r)
with_disconnect-SlaveFrame r (stays o) = stays o
with_disconnect-SlaveFrame r (returns f k) = returns f (record {
  before = k.before;
  after = k.after ++ (disconnect ∷ []);
  split =
      ap (λ es. es ++ (disconnect ∷ [])) k.split
      ∙ append_assoc k.before _ _
      ∙ ap (◌++◌ k.before) (append_assoc _ k.after _);
})

pump_frame-SlaveFrame :
    (env : Env) (s : InputState) (info : ConnectionInfo) (frame : InputFrame)
    → s.owned_by_master ≡ false
    → SlaveFrame (pump_frame env s info frame)
unfolding pump_frame
pump_frame-SlaveFrame env s info frame o =
    let t = record s { held_keys = track_keys s.held_keys frame.keys } in
    ground (
      arith,
      with_disconnect-SlaveFrame (force_back t) (force_back-SlaveFrame t),
      handle_slave_owned-SlaveFrame env t info frame o,
    )

activate_hook-active : (env : Env) (s : InputState) → s.hook_active ≡ true → activate_hook env s ≡ s
unfolding activate_hook
activate_hook-active env s a = ground arith

-- A connected frame that begins with the Slave in control ends with the Slave in control, or with
-- the Master's input free and, among the effects, the messages for a key-up on the Slave of every key
-- held then and for the clearing of its modifiers. So it is for an ordinary crossing, the emergency combination and a
-- Slave that lost its screens.
pub pump_connected-SlaveFrame :
    (env : Env) (s : InputState) (info : ConnectionInfo) (frame : InputFrame)
    → s.hook_active ≡ true
    → s.owned_by_master ≡ false
    → SlaveFrame (pump_connected env s info frame)
unfolding pump_connected
pump_connected-SlaveFrame env s info frame a o =
    rw (activate_hook-active env s a)
      (ground (arith, force_back-SlaveFrame s, pump_frame-SlaveFrame env s info frame o))

abbrev pub Escaped : InputState × List Effect → Type 0
Escaped r =
    IsFree r.0 × Releases r.1 r.0.held_keys × ((es : List Effect) × (r.1 ≡ es ++ (disconnect ∷ [])))

force_back-Escaped : (s : InputState) → Escaped (with_disconnect (force_back s))
unfolding force_back
force_back-Escaped s = (
  record { owned = refl; passing = refl },
  record {
    before = warp (center_x s.local_monitors) (center_y s.local_monitors) ∷ [];
    after = disconnect ∷ [];
    split =
        ap
          (λ es.
            warp (center_x s.local_monitors) (center_y s.local_monitors)
            ∷ (es ++ (disconnect ∷ [])))
          (release_held_keys_on_slave_lem s.held_keys);
  },
  ((force_back s).1, refl),
)

pub pump_frame-escape :
    (env : Env) (s : InputState) (info : ConnectionInfo) (frame : InputFrame)
    → s.owned_by_master ≡ false
    → escape_combo_held env.vk (track_keys s.held_keys frame.keys) ≡ true
    → pump_frame env s info frame
      ≡ with_disconnect (force_back (record s { held_keys = track_keys s.held_keys frame.keys }))
unfolding pump_frame
pump_frame-escape env s info frame o combo = ground arith

-- The emergency combination takes control back from the Slave in the same frame, and the connection
-- is dropped: the Master's input is free, the held keys are released on the Slave, and the last
-- effect is the disconnection.
pub escape_combo_lem :
    (env : Env) (s : InputState) (info : ConnectionInfo) (frame : InputFrame)
    → s.owned_by_master ≡ false
    → escape_combo_held env.vk (track_keys s.held_keys frame.keys) ≡ true
    → Escaped (pump_frame env s info frame)
escape_combo_lem env s info frame o combo =
    rw (pump_frame-escape env s info frame o combo)
      (force_back-Escaped (record s { held_keys = track_keys s.held_keys frame.keys }))
