-- ===== src/App/InputPump/Pump.antt =====
-- `pump_input`: one frame of the application on the Master.
use no_cap_kvm.Prelude.{
  true, false, ◌&&◌, not, Option, none, some, List, [], ◌∷◌, ◌++◌, if◌then◌else◌,
}
use no_cap_kvm.Prelude.Int.{ℤ, ◌+ℤ◌, half_ℤ}
use no_cap_kvm.Topology.Geometry.{MonitorInfo, compute_bounds}
use no_cap_kvm.Discovery.Types.{Role, master, slave}
use no_cap_kvm.Discovery.Connection.{ConnectionInfo, is_connected}
use no_cap_kvm.Input.Protocol.{InputFrame}
use no_cap_kvm.App.InputPump.State.{
  InputState, Env, Effect, warp, disconnect, track_keys, escape_combo_held,
  release_held_keys_on_slave, deactivate_hook,
}
use no_cap_kvm.App.InputPump.Handoff.{is_empty, handle_master_owned, handle_slave_owned}

abbrev pub center_x : List MonitorInfo → ℤ
center_x ms = half_ℤ ((compute_bounds ms).min_x +ℤ (compute_bounds ms).max_x)

abbrev pub center_y : List MonitorInfo → ℤ
center_y ms = half_ℤ ((compute_bounds ms).min_y +ℤ (compute_bounds ms).max_y)

-- Without a connection the hook does not stay.
unfoldable pub let_hook_go : InputState → InputState × List Effect
let_hook_go s = (if s.hook_active then deactivate_hook s else s, [])

-- The start of tracking, at the cursor's position, or at the centre where it is not known.
unfoldable pub activate_hook : Env → InputState → InputState
activate_hook env s = if s.hook_active then s else elim env.cursor [
  | some (x, y) ↦ record s {
    hook_active = true;
    owned_by_master = true;
    logical_x = x;
    logical_y = y;
  }
  | none ↦ record s {
    hook_active = true;
    owned_by_master = true;
    logical_x = center_x s.local_monitors;
    logical_y = center_y s.local_monitors;
  }
]

-- Control back to the middle of the Master's screens, by force.
unfoldable pub force_back : InputState → InputState × List Effect
force_back s =
    let x = center_x s.local_monitors in
    let y = center_y s.local_monitors in
    (
      record s {
        suppress = false;
        owned_by_master = true;
        logical_x = x;
        logical_y = y;
        just_handed_off = true;
      },
      warp x y ∷ release_held_keys_on_slave s.held_keys,
    )

abbrev pub with_disconnect : InputState × List Effect → InputState × List Effect
with_disconnect (s, effects) = (s, effects ++ (disconnect ∷ []))

-- The rest of the pump, from `poll` on.
unfoldable pub pump_frame :
    Env → InputState → ConnectionInfo → InputFrame → InputState × List Effect
pump_frame env s0 info frame =
    let s = record s0 { held_keys = track_keys s0.held_keys frame.keys } in
    if escape_combo_held env.vk s.held_keys && not s.owned_by_master
    then with_disconnect (force_back s)
    else if s.owned_by_master
    then handle_master_owned env s info frame
    else handle_slave_owned env s info frame

unfoldable pub pump_connected :
    Env → InputState → ConnectionInfo → InputFrame → InputState × List Effect
pump_connected env s0 info frame =
    let s = activate_hook env s0 in
    if not s.owned_by_master && is_empty info.peer_monitors
    then force_back s
    else pump_frame env s info frame

-- `pump_input`, with the role and the server's status that it looks at.
unfoldable pub pump_as :
    Env → InputFrame → InputState → Role → Option ConnectionInfo → InputState × List Effect
pump_as env frame s slave server = (s, [])
pump_as env frame s master none = let_hook_go s
pump_as env frame s master (some info) =
    if is_connected info.state then pump_connected env s info frame else let_hook_go s

-- The frame is what `poll` would return.
unfoldable pub pump_input : Env → InputFrame → InputState → InputState × List Effect
pump_input env frame s = pump_as env frame s s.role s.server
