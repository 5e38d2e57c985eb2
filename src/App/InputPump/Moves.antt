-- ===== src/App/InputPump/Moves.antt =====
-- Where the pointer goes: it leaves the Master only towards the screens of the Slave, and what the
-- Slave is told of it lies on the Slave's screens.
use no_cap_kvm.Prelude.{
  ℕ, true, false, some, List, [], ◌∷◌, ◌≡◌, refl, arith, Bool-cases, Option-cases, inl, inr,
}
use no_cap_kvm.Prelude.Int.{◌+ℤ◌}
use no_cap_kvm.Prelude.Assoc.{lookup}
use no_cap_kvm.Topology.Geometry.{
  MonitorInfo, ArrangementEntry, Direction, left, right, up, down, compute_bounds,
}
use no_cap_kvm.Topology.Geometry.Bounds.{IsOrdered}
use no_cap_kvm.Topology.Crossing.{CrossingResult, BoundaryCheck, compute_crossing, check_boundary}
use no_cap_kvm.Topology.Crossing.Landing.{Contains, check_boundary_lem}
use no_cap_kvm.Discovery.Connection.{ConnectionInfo}
use no_cap_kvm.Input.Protocol.{InputFrame}
use no_cap_kvm.App.InputPump.State.{
  InputState, Env, Effect, modifier_sync, release_held_keys_locally,
}
use no_cap_kvm.App.InputPump.Handoff.{
  dir_eq, is_empty, moved, mouse_to, crossing_out, hand_to_slave, handle_master_owned,
}

dir_eq-eq : (a b : Direction) → dir_eq a b ≡ true → a ≡ b
unfolding dir_eq
dir_eq-eq left left h = refl
dir_eq-eq right right h = refl
dir_eq-eq up up h = refl
dir_eq-eq down down h = refl
dir_eq-eq a b h = ground arith

-- What it takes to leave: the stored entry names the edge that was reached, and the Slave has a
-- screen to land on.
pub record Leaves (arrangement : List (ℕ × ArrangementEntry)) (info : ConnectionInfo)
    (bc : BoundaryCheck) (c : CrossingResult) : Type 0 where
  pub entry : ArrangementEntry
  pub stored : lookup info.peer_device_id arrangement ≡ some entry
  pub reached : bc.crossed ≡ true
  pub faces : entry.direction ≡ bc.direction
  pub seen : is_empty info.peer_monitors ≡ false
  pub lands : c ≡ compute_crossing info.peer_monitors entry.direction entry.offset bc.perp_pos

crossing_out-Leaves :
    (s : InputState) (info : ConnectionInfo) (bc : BoundaryCheck) (c : CrossingResult)
    → crossing_out s info bc ≡ some c
    → Leaves s.arrangement info bc c
unfolding crossing_out
crossing_out-Leaves s info bc c h = elim (Option-cases (lookup info.peer_device_id s.arrangement)) [
  | inl e ↦ absurd (ground arith)
  | inr (a, e) ↦ record {
    entry = a;
    stored = e;
    reached = ground arith;
    faces = ground (arith, dir_eq-eq a.direction bc.direction);
    seen = ground arith;
    lands = ground arith;
  }
]

-- A frame that began on the Master. It stays, inside the Master's bounds, and sends nothing; or it
-- goes over, and the Slave gets the landing point, with what was pushed past the edge, then the
-- modifiers, while the held keys are let go on the Master.
pub data MasterFrame (env : Env) (s : InputState) (info : ConnectionInfo) (bc : BoundaryCheck)
    (r : InputState × List Effect) : Type 0 where
  stays :
      r.0.owned_by_master ≡ s.owned_by_master
      → Contains (compute_bounds s.local_monitors) r.0.logical_x r.0.logical_y
      → r.1 ≡ []
      → MasterFrame env s info bc r
  goes :
      (c : CrossingResult)
      → s.just_handed_off ≡ false
      → Leaves s.arrangement info bc c
      → r.0.owned_by_master ≡ false
      → r.0.suppress ≡ true
      → r.1
        ≡ mouse_to r.0.logical_x r.0.logical_y
          ∷ modifier_sync env.modifier_mask
          ∷ release_held_keys_locally s.held_keys
      → MasterFrame env s info bc r

-- The boundary check of a frame, on the position that its movement gives.
abbrev pub checked : List MonitorInfo → InputState → InputFrame → BoundaryCheck
checked ms s frame =
    check_boundary (compute_bounds ms) (s.logical_x +ℤ frame.dx) (s.logical_y +ℤ frame.dy)

-- A frame on the Master, with its bounds in the right order, stays inside them and sends nothing, or
-- goes over to the Slave. It goes over only if no handoff happened in the frame before, at the edge
-- for which the Slave's entry is stored, and to a Slave with a screen.
pub handle_master_owned-MasterFrame :
    (env : Env) (s : InputState) (info : ConnectionInfo) (frame : InputFrame)
    → IsOrdered (compute_bounds s.local_monitors)
    → MasterFrame env s info
        (checked s.local_monitors s frame)
        (handle_master_owned env s info frame)
unfolding handle_master_owned hand_to_slave
handle_master_owned-MasterFrame env s info frame o =
    let bc = checked s.local_monitors s frame in
    let t = record (moved s frame) { just_handed_off = false } in
    let inside =
      (check_boundary_lem (compute_bounds s.local_monitors) (s.logical_x +ℤ frame.dx)
        (s.logical_y +ℤ frame.dy) o).0 in
    elim (Bool-cases s.just_handed_off) [
      | inl j ↦ simp j (stays refl inside refl)
      | inr j ↦ elim (Option-cases (crossing_out t info bc)) [
        | inl e ↦ simp (j, e) (stays refl inside refl)
        | inr (c, e) ↦ simp (j, e) (goes c j (crossing_out-Leaves t info bc c e) refl refl refl)
      ]
    ]
