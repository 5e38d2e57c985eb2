-- ===== src/App/AudioPump/Coherence.antt =====
-- The Slave's capture device, channel and socket over any run of the program.
use no_cap_kvm.Prelude.{
  ℕ, Bool, true, false, ◌&&◌, ◌||◌, not, Option, none, some, List, [], ◌∷◌, ◌≡◌, refl, if_intro,
  ◌==◌,
}
use no_cap_kvm.Audio.Stream.{AudioFormat, AudioChannel, same_format}
use no_cap_kvm.Discovery.Crypto.{Sodium}
use no_cap_kvm.Discovery.Connection.{ConnectionInfo, is_connected}
use no_cap_kvm.App.RetryBackoff.{should_attempt, on_failure}
use no_cap_kvm.App.AudioPump.{
  Capture, SlaveAudio, Env, Effect, initial, stop_slave_audio, stop_if_active, forgive,
  disconnected, apply_request, report_status, open_send, capture_running, start_failed,
  start_capture, keep_capture, slave_connected, pump_slave,
}

abbrev pub is_some {ℓ} : {A : Type ℓ} → Option A → Bool
is_some none = false
is_some (some a) = true

abbrev pub RunsIn : AudioFormat → Option Capture → Type 0
RunsIn format none = Unit {0}
RunsIn format (some capture) = capture.format ≡ format

abbrev pub ClosedUnless : Bool → Option ℕ → Type 0
ClosedUnless true socket = Unit {0}
ClosedUnless false socket = socket ≡ none

-- `audio_active` says whether a device captures, in the format that is noted; the channel lives as
-- long as the device, and no socket is open without them.
pub record IsCoherent (s : SlaveAudio) : Type 0 where
  pub device : is_some s.capture ≡ s.active
  pub format : RunsIn s.active_format s.capture
  pub channel : is_some s.send_channel ≡ s.active
  pub socket : ClosedUnless s.active s.send_socket

-- What happens to the Slave's audio: a frame, or an edit of the settings by the user.
pub data Op : Type 0 where
  frame : Env → Option ConnectionInfo → Op
  edit : Bool → AudioFormat → Op

abbrev pub step : Sodium → Op → SlaveAudio → SlaveAudio
step c (frame env client) s = (pump_slave c env client s).0
step c (edit enabled format) s = record s { send_enabled = enabled; desired_format = format }

-- A run from the start of the program, the latest step first.
unfoldable pub run : Sodium → ℕ → List Op → SlaveAudio
run c two_seconds [] = initial two_seconds
run c two_seconds (op ∷ ops) = step c op (run c two_seconds ops)

stopped-IsCoherent :
    (s : SlaveAudio) → IsCoherent (record (stop_slave_audio s).0 { active = false })
unfolding stop_slave_audio
stopped-IsCoherent s = record { device = refl; format = tt; channel = refl; socket = refl }

stop_if_active-IsCoherent : (s : SlaveAudio) → IsCoherent s → IsCoherent (stop_if_active s).0
unfolding stop_if_active
stop_if_active-IsCoherent s h =
    if_intro (λ (r : SlaveAudio × List Effect). IsCoherent r.0) s.active (stopped-IsCoherent s) h

-- The members that the invariant reads.
same_parts :
    (s t : SlaveAudio)
    → s.capture ≡ t.capture
    → s.active ≡ t.active
    → s.active_format ≡ t.active_format
    → s.send_channel ≡ t.send_channel
    → s.send_socket ≡ t.send_socket
    → IsCoherent s
    → IsCoherent t
same_parts s t a b c d e h = record {
  device = rw (← a, ← b) h.device;
  format = rw (← a, ← c) h.format;
  channel = rw (← d, ← b) h.channel;
  socket = rw (← e, ← b) h.socket;
}

disconnected-IsCoherent : (s : SlaveAudio) → IsCoherent s → IsCoherent (disconnected s).0
unfolding disconnected
disconnected-IsCoherent s h =
    let t = (stop_if_active s).0 in
    same_parts t (record (forgive t) { status_reported = false }) refl refl refl refl refl
      (stop_if_active-IsCoherent s h)

apply_request-IsCoherent :
    (info : ConnectionInfo) (s : SlaveAudio) → IsCoherent s → IsCoherent (apply_request info s)
unfolding apply_request
apply_request-IsCoherent info s h =
    if_intro IsCoherent
      (info.master_audio_control_received
        && not (info.master_audio_control_seq == s.last_applied_seq))
      (same_parts s _ refl refl refl refl refl h) h

report_status-IsCoherent : (s : SlaveAudio) → IsCoherent s → IsCoherent (report_status s).0
unfolding report_status
report_status-IsCoherent s h =
    if_intro (λ (r : SlaveAudio × List Effect). IsCoherent r.0) _
      (same_parts s _ refl refl refl refl refl h) h

open_send-opened :
    (c : Sodium) (env : Env) (info : ConnectionInfo) (s : SlaveAudio) (ch : Option AudioChannel)
    → s.send_channel ≡ ch
    → is_some (open_send c env info s ch).send_channel ≡ true
unfolding open_send
open_send-opened c env info s none e = refl
open_send-opened c env info s (some ch) e = rw e refl

start_capture-IsCoherent :
    (c : Sodium) (env : Env) (info : ConnectionInfo) (s : SlaveAudio)
    → IsCoherent (start_capture c env info s).0
unfolding start_capture start_failed
start_capture-IsCoherent c env info s =
    let opened = open_send c env info (record s { capture = none }) s.send_channel in
    let failed = on_failure s.start_backoff env.now in
    let running : IsCoherent (capture_running c opened info s) = record {
      device = refl;
      format = refl;
      channel = open_send-opened c env info (record s { capture = none }) s.send_channel refl;
      socket = tt;
    } in
    if_intro (λ (r : SlaveAudio × List Effect). IsCoherent r.0) env.opens running
      (stopped-IsCoherent (record opened { start_backoff = failed.1 }))

keep_capture-IsCoherent :
    (c : Sodium) (env : Env) (info : ConnectionInfo) (s : SlaveAudio)
    → IsCoherent s
    → IsCoherent (keep_capture c env info s).0
unfolding keep_capture
keep_capture-IsCoherent c env info s h =
    let P = λ (r : SlaveAudio × List Effect). IsCoherent r.0 in
    if_intro P (not s.send_enabled || (info.peer_audio_port == 0))
      (same_parts (stop_if_active s).0 _ refl refl refl refl refl (stop_if_active-IsCoherent s h))
      (if_intro P (s.active && same_format s.active_format s.desired_format) h (
        if_intro P (should_attempt s.start_backoff env.now) (start_capture-IsCoherent c env info s)
          h))

pump_slave-IsCoherent :
    (c : Sodium) (env : Env) (client : Option ConnectionInfo) (s : SlaveAudio)
    → IsCoherent s
    → IsCoherent (pump_slave c env client s).0
unfolding pump_slave slave_connected
pump_slave-IsCoherent c env none s h = disconnected-IsCoherent s h
pump_slave-IsCoherent c env (some info) s h =
    let applied = apply_request-IsCoherent info s h in
    let reported = report_status-IsCoherent (apply_request info s) applied in
    if_intro (λ (r : SlaveAudio × List Effect). IsCoherent r.0) (is_connected info.state)
      (keep_capture-IsCoherent c env info (report_status (apply_request info s)).0 reported)
      (disconnected-IsCoherent s h)

-- Whatever frames and edits of the settings come in whatever order, whatever the connection says and
-- whether the devices and sockets open or not: the flag `audio_active` tells whether a capture device
-- runs, that device runs in the format that is noted as active, the channel exists exactly as long as
-- the device, and when there is none no socket is left open.
pub run-IsCoherent :
    (c : Sodium) (two_seconds : ℕ) (ops : List Op) → IsCoherent (run c two_seconds ops)
unfolding run initial
run-IsCoherent c two_seconds [] = record {
  device = refl;
  format = tt;
  channel = refl;
  socket = refl;
}
run-IsCoherent c two_seconds (frame env client ∷ ops) =
    pump_slave-IsCoherent c env client (run c two_seconds ops) (run-IsCoherent c two_seconds ops)
run-IsCoherent c two_seconds (edit enabled format ∷ ops) =
    same_parts (run c two_seconds ops) _ refl refl refl refl refl (run-IsCoherent c two_seconds ops)
