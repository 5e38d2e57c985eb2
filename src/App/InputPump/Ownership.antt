-- ===== src/App/InputPump/Ownership.antt =====
-- The hook suppresses local input exactly while the Slave owns it, and no lost link or lost screen
-- leaves the Master's own mouse suppressed.
use no_cap_kvm.Prelude.{
  ℕ, Bool, true, false, ◌||◌, not, Option, none, some, List, [], ◌∷◌, ◌≡◌, refl, arith,
}
use no_cap_kvm.Prelude.Int.{pos}
use no_cap_kvm.Topology.Geometry.{MonitorInfo, ArrangementEntry, compute_bounds}
use no_cap_kvm.Topology.Crossing.{BoundaryCheck, check_boundary}
use no_cap_kvm.Discovery.Types.{Role, master, slave}
use no_cap_kvm.Discovery.Connection.{ConnectionInfo, is_connected}
use no_cap_kvm.Input.Protocol.{InputFrame}
use no_cap_kvm.App.InputPump.State.{InputState, Env, deactivate_hook, track_keys}
use no_cap_kvm.App.InputPump.Handoff.{
  is_empty, moved, crossing_out, hand_to_slave, handle_master_owned, inverse_entry, crossable,
  pinned, hand_to_master, maybe_return, handle_slave_owned,
}
use no_cap_kvm.App.InputPump.Pump.{
  let_hook_go, activate_hook, force_back, pump_frame, pump_connected, pump_as, pump_input,
}

-- Local events are suppressed exactly while the Slave owns the input, and only under an active hook.
pub record IsCoherent (s : InputState) : Type 0 where
  pub flag : s.suppress ≡ not s.owned_by_master
  pub hooked : (s.hook_active || s.owned_by_master) ≡ true

let_hook_go-IsCoherent : (s : InputState) → IsCoherent s → IsCoherent (let_hook_go s).0
unfolding let_hook_go deactivate_hook
let_hook_go-IsCoherent s c = ground arith

activate_hook-IsCoherent :
    (env : Env) (s : InputState)
    → IsCoherent s
    → IsCoherent (activate_hook env s) × ((activate_hook env s).hook_active ≡ true)
unfolding activate_hook
activate_hook-IsCoherent env s c = ground arith

force_back-IsCoherent : (s : InputState) → IsCoherent (force_back s).0
unfolding force_back
force_back-IsCoherent s = record { flag = refl; hooked = ground arith }

handle_master_owned-IsCoherent :
    (env : Env) (s : InputState) (info : ConnectionInfo) (frame : InputFrame)
    → s.hook_active ≡ true
    → IsCoherent s
    → IsCoherent (handle_master_owned env s info frame).0
unfolding handle_master_owned hand_to_slave
handle_master_owned-IsCoherent env s info frame a c = ground arith

pinned-IsCoherent :
    (s : InputState) (bc : BoundaryCheck) (inv : Option ArrangementEntry)
    → IsCoherent s
    → IsCoherent (pinned s bc inv) × ((pinned s bc inv).hook_active ≡ s.hook_active)
unfolding pinned
pinned-IsCoherent s bc none c = (record { flag = c.flag; hooked = c.hooked }, refl)
pinned-IsCoherent s bc (some inv) c = ground arith

maybe_return-IsCoherent :
    (skip : Bool) (s : InputState) (bc : BoundaryCheck) (inv : Option ArrangementEntry)
    → IsCoherent s
    → IsCoherent (maybe_return skip s bc inv).0
unfolding maybe_return hand_to_master
maybe_return-IsCoherent skip s bc none c = (pinned-IsCoherent s bc none c).0
maybe_return-IsCoherent skip s bc (some inv) c = ground (arith, pinned-IsCoherent s bc (some inv) c)

handle_slave_owned-IsCoherent :
    (env : Env) (s : InputState) (info : ConnectionInfo) (frame : InputFrame)
    → IsCoherent s
    → IsCoherent (handle_slave_owned env s info frame).0
unfolding handle_slave_owned
handle_slave_owned-IsCoherent env s0 info frame c =
    let s1 = moved s0 frame in
    let bc = check_boundary (compute_bounds info.peer_monitors) s1.logical_x s1.logical_y in
    let s = record s1 { just_handed_off = false } in
    maybe_return-IsCoherent s1.just_handed_off s bc (crossable (inverse_entry s info) bc)
      (record { flag = c.flag; hooked = c.hooked })

pump_frame-IsCoherent :
    (env : Env) (s : InputState) (info : ConnectionInfo) (frame : InputFrame)
    → s.hook_active ≡ true
    → IsCoherent s
    → IsCoherent (pump_frame env s info frame).0
unfolding pump_frame
pump_frame-IsCoherent env s0 info frame a c =
    let s = record s0 { held_keys = track_keys s0.held_keys frame.keys } in
    let k : IsCoherent s = record { flag = c.flag; hooked = c.hooked } in
    ground (
      arith,
      force_back-IsCoherent s,
      handle_master_owned-IsCoherent env s info frame a k,
      handle_slave_owned-IsCoherent env s info frame k,
    )

pump_connected-IsCoherent :
    (env : Env) (s : InputState) (info : ConnectionInfo) (frame : InputFrame)
    → IsCoherent s
    → IsCoherent (pump_connected env s info frame).0
unfolding pump_connected
pump_connected-IsCoherent env s info frame c =
    let k = activate_hook-IsCoherent env s c in
    ground (
      arith,
      force_back-IsCoherent (activate_hook env s),
      pump_frame-IsCoherent env (activate_hook env s) info frame k.1 k.0,
    )

pump_as-IsCoherent :
    (env : Env) (frame : InputFrame) (s : InputState) (role : Role) (server : Option ConnectionInfo)
    → IsCoherent s
    → IsCoherent (pump_as env frame s role server).0
unfolding pump_as
pump_as-IsCoherent env frame s slave server c = c
pump_as-IsCoherent env frame s master none c = let_hook_go-IsCoherent s c
pump_as-IsCoherent env frame s master (some info) c =
    ground (arith, let_hook_go-IsCoherent s c, pump_connected-IsCoherent env s info frame c)

pub pump_input-IsCoherent :
    (env : Env) (frame : InputFrame) (s : InputState)
    → IsCoherent s
    → IsCoherent (pump_input env frame s).0
unfolding pump_input
pump_input-IsCoherent env frame s c = pump_as-IsCoherent env frame s s.role s.server c

-- What the rest of the application changes between two frames: the role, the connection, the screens
-- and their arrangement.
pub record World : Type 0 where
  pub role : Role
  pub server : Option ConnectionInfo
  pub local_monitors : List MonitorInfo
  pub arrangement : List (ℕ × ArrangementEntry)

abbrev pub enter : World → InputState → InputState
enter w s = record s {
  role = w.role;
  server = w.server;
  local_monitors = w.local_monitors;
  arrangement = w.arrangement;
}

-- Any sequence of frames.
pub frames : List (World × Env × InputFrame) → InputState → InputState
frames [] s = s
frames ((w, env, frame) ∷ rest) s = frames rest (pump_input env frame (enter w s)).0

-- The state in which the application starts.
abbrev pub initial : World → InputState
initial w = record {
  role = w.role;
  server = w.server;
  local_monitors = w.local_monitors;
  arrangement = w.arrangement;
  hook_active = false;
  owned_by_master = true;
  logical_x = pos 0;
  logical_y = pos 0;
  just_handed_off = false;
  held_keys = [];
  suppress = false;
}

frames-keep :
    (rest : List (World × Env × InputFrame)) (s : InputState)
    → IsCoherent s
    → IsCoherent (frames rest s)
unfolding frames
frames-keep [] s c = c
frames-keep ((w, env, frame) ∷ rest) s c =
    frames-keep rest (pump_input env frame (enter w s)).0
      (pump_input-IsCoherent env frame (enter w s) (record { flag = c.flag; hooked = c.hooked }))

-- After any sequence of frames, whatever becomes of the role, the connection and the screens between
-- them, the hook suppresses local input exactly while the Slave owns the input, and the Slave owns it
-- only under an active hook.
pub frames-IsCoherent :
    (w : World) (rest : List (World × Env × InputFrame)) → IsCoherent (frames rest (initial w))
frames-IsCoherent w rest = frames-keep rest (initial w) (record { flag = refl; hooked = refl })

-- There is no server, or its connection is not up.
abbrev pub NotConnected : Option ConnectionInfo → Type 0
NotConnected none = Unit {0}
NotConnected (some info) = is_connected info.state ≡ false

-- The Master's own input reaches it.
pub record IsFree (s : InputState) : Type 0 where
  pub owned : s.owned_by_master ≡ true
  pub passing : s.suppress ≡ false

let_hook_go-IsFree :
    (s : InputState)
    → IsCoherent s
    → IsFree (let_hook_go s).0 × ((let_hook_go s).0.hook_active ≡ false)
unfolding let_hook_go deactivate_hook
let_hook_go-IsFree s c = ground arith

pump_as-NotConnected :
    (env : Env) (frame : InputFrame) (s : InputState) (server : Option ConnectionInfo)
    → IsCoherent s
    → NotConnected server
    → pump_as env frame s master server ≡ let_hook_go s
unfolding pump_as
pump_as-NotConnected env frame s none c n = refl
pump_as-NotConnected env frame s (some info) c n = rw n

-- In a frame without a connection the Master's hook is taken down, and the Master owns its own,
-- unsuppressed input.
pub pump_input-NotConnected :
    (env : Env) (frame : InputFrame) (s : InputState)
    → IsCoherent s
    → s.role ≡ master
    → NotConnected s.server
    → IsFree (pump_input env frame s).0 × ((pump_input env frame s).0.hook_active ≡ false)
unfolding pump_input
pump_input-NotConnected env frame s c m n =
    simp (m, pump_as-NotConnected env frame s s.server c n) (let_hook_go-IsFree s c)

-- No pointer leaves for a Slave without a screen.
crossing_out_no_screen :
    (s : InputState) (info : ConnectionInfo) (bc : BoundaryCheck)
    → is_empty info.peer_monitors ≡ true
    → crossing_out s info bc ≡ none
unfolding crossing_out
crossing_out_no_screen s info bc e = ground arith

handle_master_owned_no_screen :
    (env : Env) (s : InputState) (info : ConnectionInfo) (frame : InputFrame)
    → is_empty info.peer_monitors ≡ true
    → IsFree s
    → IsFree (handle_master_owned env s info frame).0
unfolding handle_master_owned
handle_master_owned_no_screen env s info frame e f =
    let m = moved s frame in
    let bc = check_boundary (compute_bounds m.local_monitors) m.logical_x m.logical_y in
    ground (arith, crossing_out_no_screen (record m { just_handed_off = false }) info bc e)

pump_connected_no_screen :
    (env : Env) (s : InputState) (info : ConnectionInfo) (frame : InputFrame)
    → is_empty info.peer_monitors ≡ true
    → IsCoherent s
    → IsFree (pump_connected env s info frame).0
unfolding pump_connected pump_frame force_back
pump_connected_no_screen env s0 info frame e c0 =
    let s = activate_hook env s0 in
    let c = (activate_hook-IsCoherent env s0 c0).0 in
    let t = record s { held_keys = track_keys s.held_keys frame.keys } in
    ground (arith, handle_master_owned_no_screen env t info frame e)

-- In a frame in which the Slave has no screen, the Master owns its unsuppressed input, whoever
-- owned it before.
pub pump_input_no_screen :
    (env : Env) (frame : InputFrame) (s : InputState) (info : ConnectionInfo)
    → IsCoherent s
    → s.role ≡ master
    → s.server ≡ some info
    → is_connected info.state ≡ true
    → is_empty info.peer_monitors ≡ true
    → IsFree (pump_input env frame s).0
unfolding pump_input pump_as
pump_input_no_screen env frame s info c m e up none_left =
    simp (m, e, up) (pump_connected_no_screen env s info frame none_left c)
