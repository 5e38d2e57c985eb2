-- ===== src/App/InputPump/Handoff.antt =====
-- `handle_master_owned` and `handle_slave_owned`: a frame on either side of the edge.
use no_cap_kvm.Prelude.{
  Bool, true, false, ◌&&◌, ◌||◌, not, Option, none, some, List, [], ◌∷◌, ◌++◌, if◌then◌else◌,
}
use no_cap_kvm.Prelude.Int.{ℤ, pos, negsuc, ◌+ℤ◌, ◌-ℤ◌}
use no_cap_kvm.Prelude.Assoc.{lookup}
use no_cap_kvm.Topology.Geometry.{
  MonitorInfo, ArrangementEntry, Direction, left, right, up, down, compute_bounds,
}
use no_cap_kvm.Topology.Crossing.{
  CrossingResult, BoundaryCheck, leb_ℤ, is_horizontal, compute_crossing, check_boundary,
  invert_entry,
}
use no_cap_kvm.Discovery.Connection.{ConnectionInfo}
use no_cap_kvm.Input.Protocol.{
  InputFrame, MouseButtonEvent, KeyEvent, encode_mouse_absolute, encode_mouse_button,
  encode_mouse_wheel, encode_key, msg_mouse_absolute, msg_mouse_button, msg_mouse_wheel, msg_key,
}
use no_cap_kvm.App.InputPump.State.{
  InputState, Env, Effect, send, warp, modifier_sync, release_held_keys_on_slave,
  release_held_keys_locally,
}

unfoldable pub dir_eq : Direction → Direction → Bool
dir_eq left left = true
dir_eq right right = true
dir_eq up up = true
dir_eq down down = true
dir_eq a b = false

abbrev pub is_empty : List MonitorInfo → Bool
is_empty [] = true
is_empty (m ∷ ms) = false

abbrev pub moved : InputState → InputFrame → InputState
moved s f = record s { logical_x = s.logical_x +ℤ f.dx; logical_y = s.logical_y +ℤ f.dy }

abbrev pub mouse_to : ℤ → ℤ → Effect
mouse_to x y = send msg_mouse_absolute (encode_mouse_absolute x y)

-- The landing point on the Slave, if the edge that was reached is the one where its screens stand.
unfoldable pub crossing_out : InputState → ConnectionInfo → BoundaryCheck → Option CrossingResult
crossing_out s info bc = elim (lookup info.peer_device_id s.arrangement) [
  | none ↦ none
  | some a ↦
      let c = compute_crossing info.peer_monitors a.direction a.offset bc.perp_pos in
      if bc.crossed && dir_eq a.direction bc.direction && not (is_empty info.peer_monitors)
      then (if c.has_target then some c else none)
      else none
]

-- The state on the far side of a crossing: what was pushed past the edge is carried along.
abbrev pub landed : InputState → CrossingResult → Bool → ℤ → ℤ → InputState
landed s c horizontal over_x over_y = record s {
  logical_x = c.x +ℤ (if horizontal then over_x else pos 0);
  logical_y = c.y +ℤ (if horizontal then pos 0 else over_y);
  just_handed_off = true;
}

unfoldable pub hand_to_slave :
    Env → InputState → BoundaryCheck → CrossingResult → InputState × List Effect
hand_to_slave env s bc c =
    let l =
      landed s c (is_horizontal bc.direction) (s.logical_x -ℤ bc.clamped_x)
        (s.logical_y -ℤ bc.clamped_y) in
    (
      record l { owned_by_master = false; suppress = true },
      mouse_to l.logical_x l.logical_y
          ∷ modifier_sync env.modifier_mask
          ∷ release_held_keys_locally s.held_keys,
    )

unfoldable pub handle_master_owned :
    Env → InputState → ConnectionInfo → InputFrame → InputState × List Effect
handle_master_owned env s0 info frame =
    let s1 = moved s0 frame in
    let bc = check_boundary (compute_bounds s1.local_monitors) s1.logical_x s1.logical_y in
    let s = record s1 { just_handed_off = false } in
    let stay : InputState × List Effect =
      (record s { logical_x = bc.clamped_x; logical_y = bc.clamped_y }, []) in
    if s1.just_handed_off
    then stay
    else elim (crossing_out s info bc) [ none ↦ stay | some c ↦ hand_to_slave env s bc c ]

abbrev pub return_margin : ℤ
return_margin = pos 4

-- overshoot >= kReturnMargin || overshoot <= -kReturnMargin
unfoldable pub past : ℤ → Bool
past overshoot = leb_ℤ return_margin overshoot || leb_ℤ overshoot (negsuc 3)

unfoldable pub past_margin : InputState → BoundaryCheck → Bool
past_margin s bc =
    bc.crossed && (past (s.logical_x -ℤ bc.clamped_x) || past (s.logical_y -ℤ bc.clamped_y))

-- `inv`: the arrangement seen from the Slave.
unfoldable pub inverse_entry : InputState → ConnectionInfo → Option ArrangementEntry
inverse_entry s info = elim (lookup info.peer_device_id s.arrangement) [
  | none ↦ none
  | some a ↦
      some (invert_entry a (compute_bounds s.local_monitors) (compute_bounds info.peer_monitors))
]

-- `inv`, where the edge that was reached leads back to the Master.
unfoldable pub crossable : Option ArrangementEntry → BoundaryCheck → Option ArrangementEntry
crossable none bc = none
crossable (some inv) bc = if bc.crossed && dir_eq bc.direction inv.direction then some inv else none

unfoldable pub button_messages : List MouseButtonEvent → List Effect
button_messages [] = []
button_messages (b ∷ bs) =
    send msg_mouse_button (encode_mouse_button b.button b.down) ∷ button_messages bs

unfoldable pub wheel_messages : List ℤ → List Effect
wheel_messages [] = []
wheel_messages (d ∷ ds) = send msg_mouse_wheel (encode_mouse_wheel d) ∷ wheel_messages ds

unfoldable pub key_messages : List KeyEvent → List Effect
key_messages [] = []
key_messages (k ∷ ks) =
    send msg_key (encode_key k.vk k.scancode k.down k.extended) ∷ key_messages ks

-- What the frame sends to the Slave, the clamped position first.
unfoldable pub frame_messages : BoundaryCheck → InputFrame → List Effect
frame_messages bc frame =
    mouse_to bc.clamped_x bc.clamped_y
    ∷ (button_messages frame.buttons
        ++ (wheel_messages frame.wheel_deltas ++ key_messages frame.keys))

-- Overshoot is kept only on the edge that leads back.
unfoldable pub pinned : InputState → BoundaryCheck → Option ArrangementEntry → InputState
pinned s bc none = record s { logical_x = bc.clamped_x; logical_y = bc.clamped_y }
pinned s bc (some inv) =
    if is_horizontal bc.direction
    then record s { logical_y = bc.clamped_y }
    else record s { logical_x = bc.clamped_x }

-- Back to the Master: `s` has the overshoot, `p` the pinned position.
unfoldable pub hand_to_master :
    InputState → InputState → BoundaryCheck → ArrangementEntry → InputState × List Effect
hand_to_master s p bc inv =
    let c = compute_crossing s.local_monitors inv.direction inv.offset bc.perp_pos in
    let l =
      landed p c (is_horizontal bc.direction) (s.logical_x -ℤ bc.clamped_x)
        (s.logical_y -ℤ bc.clamped_y) in
    if c.has_target
    then (
      record l { owned_by_master = true; suppress = false },
      release_held_keys_on_slave s.held_keys ++ (warp l.logical_x l.logical_y ∷ []),
    )
    else (p, [])

-- The end of `handle_slave_owned`: stay on the Slave, or cross back.
unfoldable pub maybe_return :
    Bool → InputState → BoundaryCheck → Option ArrangementEntry → InputState × List Effect
maybe_return skip s bc none = (pinned s bc none, [])
maybe_return skip s bc (some inv) =
    if skip || not (past_margin s bc)
    then (pinned s bc (some inv), [])
    else hand_to_master s (pinned s bc (some inv)) bc inv

unfoldable pub handle_slave_owned :
    Env → InputState → ConnectionInfo → InputFrame → InputState × List Effect
handle_slave_owned env s0 info frame =
    let s1 = moved s0 frame in
    let bc = check_boundary (compute_bounds info.peer_monitors) s1.logical_x s1.logical_y in
    let s = record s1 { just_handed_off = false } in
    let (end, effects) =
      maybe_return s1.just_handed_off s bc (crossable (inverse_entry s info) bc) in
    (end, frame_messages bc frame ++ effects)
