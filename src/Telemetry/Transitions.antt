-- ===== src/Telemetry/Transitions.antt =====
-- src/app/telemetry_pump.cpp: the lines for what changes from one frame to the next, and what it
-- tells the periodic report.
pub mod Counts
use no_cap_kvm.Prelude.{
  same_flag, ℕ, Bool, true, false, Option, none, some, List, [], ◌∷◌, ◌++◌, ◌==◌, if◌then◌else◌,
}
use no_cap_kvm.Audio.JitterBuffer.{depth}
use no_cap_kvm.Audio.Playback.{PlaybackImpl}
use no_cap_kvm.Discovery.Types.{Role, master, slave}
use no_cap_kvm.Discovery.Connection.{
  ConnectionState, ConnectionInfo, idle, connecting, pairing, connected, failed, is_connected,
}
use no_cap_kvm.App.RetryBackoff.{track_reconnect}

-- The keys of the lines, with the name of the state as the text of those of the connection.
pub data Line : Type 0 where
  window_shown window_hidden : Line
  connection_established connection_dropped connection_state_changed : ConnectionState → Line

-- The telemetry's part of AppState.
pub record Telemetry : Type 0 where
  pub last_window_visible : Bool
  pub last_connection_state : ConnectionState
  pub ever_connected : Bool
  pub reconnect_count : ℕ

abbrev pub initial : Telemetry
initial = record {
  last_window_visible = true;
  last_connection_state = idle;
  ever_connected = false;
  reconnect_count = 0;
}

-- In this frame: the role, what the server and the client say of themselves, the Master's playback
-- with its number, and whether the window is visible.
pub record Frame : Type 0 where
  pub role : Role
  pub server : Option ConnectionInfo
  pub client : Option ConnectionInfo
  pub playback : Option PlaybackImpl
  pub playback_generation : ℕ
  pub window_visible : Bool

-- FrameContext, for tick.
pub record FrameContext : Type 0 where
  pub window_visible : Bool
  pub connected : Bool
  pub role : Role
  pub connection_state : ConnectionState
  pub audio_buffer_depth : ℕ
  pub audio_buffer_cap : ℕ
  pub audio_jitter_cap_episodes : ℕ
  pub audio_playback_generation : ℕ

abbrev pub state_number : ConnectionState → ℕ
state_number idle = 0
state_number connecting = 1
state_number pairing = 2
state_number connected = 3
state_number failed = 4

abbrev pub state_of : Option ConnectionInfo → ConnectionState
state_of none = idle
state_of (some info) = info.state

abbrev pub conn_state : Frame → ConnectionState
conn_state f = elim f.role [ master ↦ state_of f.server | slave ↦ state_of f.client ]

unfoldable pub window_lines : Bool → Bool → List Line
window_lines last visible =
    if same_flag last visible then [] else if visible then window_shown ∷ [] else window_hidden ∷ []

abbrev pub same_state : ConnectionState → ConnectionState → Bool
same_state a b = state_number a == state_number b

unfoldable pub connection_lines : ConnectionState → ConnectionState → List Line
connection_lines last now =
    if same_state now last
    then []
    else if is_connected now
    then connection_established now ∷ []
    else if is_connected last
    then connection_dropped now ∷ []
    else connection_state_changed now ∷ []

abbrev pub bare_context : Frame → FrameContext
bare_context f = record {
  window_visible = f.window_visible;
  connected = is_connected (conn_state f);
  role = f.role;
  connection_state = conn_state f;
  audio_buffer_depth = 0;
  audio_buffer_cap = 0;
  audio_jitter_cap_episodes = 0;
  audio_playback_generation = 0;
}

abbrev pub context_of : Frame → Role → Option PlaybackImpl → FrameContext
context_of f master (some p) = record (bare_context f) {
  audio_buffer_depth = depth p.buffer;
  audio_buffer_cap = p.buffer.max_depth;
  audio_jitter_cap_episodes = p.buffer.cap_episodes;
  audio_playback_generation = f.playback_generation;
}
context_of f master none = bare_context f
context_of f slave playback = bare_context f

-- The state, the lines, and the argument of tick.
unfoldable pub pump_telemetry : Telemetry → Frame → Telemetry × List Line × FrameContext
pump_telemetry t f =
    let now = conn_state f in
    let tracked =
      track_reconnect (is_connected t.last_connection_state) (is_connected now) t.ever_connected
        t.reconnect_count in
    (
      record {
        last_window_visible = f.window_visible;
        last_connection_state = now;
        ever_connected = tracked.0;
        reconnect_count = tracked.1;
      },
      window_lines t.last_window_visible f.window_visible
          ++ connection_lines t.last_connection_state now,
      context_of f f.role f.playback,
    )
