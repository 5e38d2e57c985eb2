-- ===== src/Tests/Pump.antt =====
-- src/app/input_pump.cpp with the Slave's screen to the right of the Master's.
use no_cap_kvm.Prelude.{arith, ℕ, ◌≡◌, refl, true, false, some, [], ◌∷◌, ◌++◌}
use no_cap_kvm.Prelude.Int.{pos, negsuc, ◌+ℤ◌}
use no_cap_kvm.Topology.Geometry.{MonitorInfo, right, compute_bounds}
use no_cap_kvm.Topology.Geometry.Bounds.{IsOrdered, compute_bounds-IsOrdered}
use no_cap_kvm.Discovery.Types.{master}
use no_cap_kvm.Discovery.Connection.{ConnectionInfo, info, connected, failed}
use no_cap_kvm.Input.Protocol.{InputFrame, KeyEvent, mouse_absolute, dispatch_input_message}
use no_cap_kvm.Input.Protocol.RoundTrip.{message, dispatch-message}
use no_cap_kvm.App.InputPump.State.{InputState, VkCodes, Env, is_ctrl, is_alt, is_shift, is_escape}
use no_cap_kvm.App.InputPump.Handoff.{handle_master_owned}
use no_cap_kvm.App.InputPump.Pump.{pump_frame, pump_connected}
use no_cap_kvm.App.InputPump.Ownership.{IsCoherent, World, frames, initial, frames-IsCoherent}
use no_cap_kvm.App.InputPump.Release.{SlaveFrame, Escaped, pump_connected-SlaveFrame}
use no_cap_kvm.App.InputPump.Escape.{IsCombo, pump_frame-IsCombo}
use no_cap_kvm.App.InputPump.Held.{held_as, last_event}
use no_cap_kvm.App.InputPump.Moves.{MasterFrame, checked, handle_master_owned-MasterFrame}

abbrev screen : MonitorInfo
screen = record {
  x = pos 0;
  y = pos 0;
  width = pos 1920;
  height = pos 1080;
  primary = true;
  name = [];
}

abbrev slave_up : ConnectionInfo
slave_up = record (info connected 7 [] []) { peer_monitors = screen ∷ [] }

abbrev slave_blank : ConnectionInfo
slave_blank = info connected 7 [] []

abbrev codes : VkCodes
codes = record {
  control = 17;
  lcontrol = 162;
  rcontrol = 163;
  menu = 18;
  lmenu = 164;
  rmenu = 165;
  shift = 16;
  lshift = 160;
  rshift = 161;
  escape = 27;
}

abbrev env : Env
env = record { vk = codes; cursor = some (pos 5, pos 6); modifier_mask = 0 }

abbrev on_master : InputState
on_master = record {
  role = master;
  server = some slave_up;
  local_monitors = screen ∷ [];
  arrangement = (7, record { device_id = 7; direction = right; offset = pos 0 }) ∷ [];
  hook_active = true;
  owned_by_master = true;
  logical_x = pos 1919;
  logical_y = pos 500;
  just_handed_off = false;
  held_keys = [];
  suppress = false;
}

abbrev on_slave : InputState
on_slave = record on_master {
  owned_by_master = false;
  suppress = true;
  logical_x = pos 10;
  held_keys = record { vk = 65; scancode = 30; extended = false } ∷ [];
}

abbrev press : ℕ → KeyEvent
press vk = record { vk = vk; scancode = 1; down = true; extended = false }

abbrev frame : InputFrame
frame = record { dx = pos 20; dy = pos 0; buttons = []; wheel_deltas = []; keys = press 66 ∷ [] }

abbrev escape_frame : InputFrame
escape_frame = record frame { keys = press 162 ∷ press 164 ∷ press 160 ∷ press 27 ∷ [] }

screen-IsOrdered : IsOrdered (compute_bounds (screen ∷ []))
unfolding ◌+ℤ◌
screen-IsOrdered = compute_bounds-IsOrdered screen [] (omega arith) (omega arith)

abbrev world : World
world = record {
  role = master;
  server = some slave_up;
  local_monitors = screen ∷ [];
  arrangement = on_master.arrangement;
}

frames-IsCoherent_example :
    IsCoherent (frames ((world, env, frame) ∷ (world, env, frame) ∷ []) (initial world))
frames-IsCoherent_example = frames-IsCoherent world ((world, env, frame) ∷ (world, env, frame) ∷ [])

pump_connected-SlaveFrame_example : SlaveFrame (pump_connected env on_slave slave_up frame)
pump_connected-SlaveFrame_example = pump_connected-SlaveFrame env on_slave slave_up frame refl refl

-- Ctrl, Alt, Shift and Escape, in this frame.
escape_frame-IsCombo : IsCombo env.vk on_slave escape_frame
unfolding is_ctrl is_alt is_shift is_escape
escape_frame-IsCombo = record {
  ctrl = 162;
  alt = 164;
  shift = 160;
  escape = 27;
  ctrl_code = refl;
  alt_code = refl;
  shift_code = refl;
  escape_code = refl;
  ctrl_down = (_, refl);
  alt_down = (_, refl);
  shift_down = (_, refl);
  escape_down = (_, refl);
}

pump_frame-IsCombo_example :
    Escaped (pump_frame env on_slave slave_up escape_frame)
    × ((vk : ℕ)
        → held_as vk (pump_frame env on_slave slave_up escape_frame).0.held_keys
          ≡ last_event vk (held_as vk on_slave.held_keys) escape_frame.keys)
pump_frame-IsCombo_example =
    pump_frame-IsCombo env on_slave slave_up escape_frame refl (refl, tt) escape_frame-IsCombo

handle_master_owned-MasterFrame_example :
    MasterFrame env on_master slave_up
      (checked (screen ∷ []) on_master frame)
      (handle_master_owned env on_master slave_up frame)
handle_master_owned-MasterFrame_example =
    handle_master_owned-MasterFrame env on_master slave_up frame screen-IsOrdered

abbrev cut_off : InputState
cut_off = record on_slave { server = some (info failed 7 [] []) }

abbrev blank : InputState
blank = record on_slave { server = some slave_blank }

dispatch-message_example :
    dispatch_input_message
      (message (mouse_absolute (negsuc 4) (pos 900))).0
      ((message (mouse_absolute (negsuc 4) (pos 900))).1 ++ (9 ∷ []))
    ≡ mouse_absolute (negsuc 4) (pos 900) ∷ []
dispatch-message_example =
    dispatch-message (mouse_absolute (negsuc 4) (pos 900)) (9 ∷ [])
      (((omega arith), (omega arith)), ((omega arith), (omega arith)))
