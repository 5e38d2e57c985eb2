-- ===== src/App/AudioPump/Requests.antt =====
-- A request of the Master is applied once: it does not come back over what the user then sets.
use no_cap_kvm.Prelude.{
  ℕ, Bool, true, Option, none, some, List, [], ◌∷◌, ◌≡◌, refl, sym, ◌∙◌, if_intro, arith,
}
use no_cap_kvm.Audio.Stream.{AudioFormat}
use no_cap_kvm.Discovery.Crypto.{Sodium}
use no_cap_kvm.Discovery.Connection.{ConnectionInfo, is_connected}
use no_cap_kvm.App.AudioPump.{
  SlaveAudio, Env, Effect, stop_if_active, disconnected, apply_request, report_status, keep_capture,
  slave_connected, pump_slave,
}
use no_cap_kvm.App.AudioPump.Quiet.{SameSettings, stop_if_active-IsQuiet, keep_capture-IsQuiet}

-- Frames one after the other.
unfoldable pub frames : Sodium → List (Env × Option ConnectionInfo) → SlaveAudio → SlaveAudio
frames c [] s = s
frames c ((env, client) ∷ rest) s = frames c rest (pump_slave c env client s).0

-- The latest request that the client knows of has the number `seq`, if there is a client.
abbrev pub IsNumbered : ℕ → Option ConnectionInfo → Type 0
IsNumbered seq none = Unit {0}
IsNumbered seq (some info) = info.master_audio_control_seq ≡ seq

abbrev pub AllNumbered : ℕ → List (Env × Option ConnectionInfo) → Type 0
AllNumbered seq [] = Unit {0}
AllNumbered seq ((env, client) ∷ rest) = IsNumbered seq client × AllNumbered seq rest

-- The settings are these, and the request of this number has been applied.
record Has (seq : ℕ) (enabled : Bool) (format : AudioFormat) (s : SlaveAudio) : Type 0 where
  enabled_same : s.send_enabled ≡ enabled
  format_same : s.desired_format ≡ format
  applied : s.last_applied_seq ≡ seq

Has-SameSettings :
    {seq : ℕ} {enabled : Bool} {format : AudioFormat} (s t : SlaveAudio)
    → Has seq enabled format s
    → SameSettings s t
    → Has seq enabled format t
Has-SameSettings s t h k = record {
  enabled_same = k.enabled ∙ h.enabled_same;
  format_same = k.format ∙ h.format_same;
  applied = k.applied ∙ h.applied;
}

disconnected-Has :
    {seq : ℕ} {enabled : Bool} {format : AudioFormat} (s : SlaveAudio)
    → Has seq enabled format s
    → Has seq enabled format (disconnected s).0
unfolding disconnected
disconnected-Has s h =
    let t = Has-SameSettings s (stop_if_active s).0 h (stop_if_active-IsQuiet s).0 in
    record { enabled_same = t.enabled_same; format_same = t.format_same; applied = t.applied }

-- A request that has been applied is not applied again.
apply_request-again :
    (info : ConnectionInfo) (s : SlaveAudio)
    → info.master_audio_control_seq ≡ s.last_applied_seq
    → apply_request info s ≡ s
unfolding apply_request
apply_request-again info s e = ground arith

report_status-Has :
    {seq : ℕ} {enabled : Bool} {format : AudioFormat} (s : SlaveAudio)
    → Has seq enabled format s
    → Has seq enabled format (report_status s).0
unfolding report_status
report_status-Has {seq = seq} {enabled = enabled} {format = format} s h =
    let kept : Has seq enabled format (record s {
      status_reported = true;
      last_reported_enabled = s.send_enabled;
      last_reported_format = s.desired_format;
    }) =
      record { enabled_same = h.enabled_same; format_same = h.format_same; applied = h.applied } in
    if_intro (λ (r : SlaveAudio × List Effect). Has seq enabled format r.0) _ kept h

pump_slave-Has :
    (c : Sodium) (env : Env) (client : Option ConnectionInfo) {seq : ℕ} {enabled : Bool}
    {format : AudioFormat} (s : SlaveAudio)
    → IsNumbered seq client
    → Has seq enabled format s
    → Has seq enabled format (pump_slave c env client s).0
unfolding pump_slave slave_connected
pump_slave-Has c env none s n h = disconnected-Has s h
pump_slave-Has c env (some info) {seq = seq} {enabled = enabled} {format = format} s n h =
    let asked : Has seq enabled format (apply_request info s) =
      rw (apply_request-again info s (n ∙ sym h.applied)) h in
    let reported = report_status (apply_request info s) in
    if_intro (λ (r : SlaveAudio × List Effect). Has seq enabled format r.0)
      (is_connected info.state)
      (Has-SameSettings reported.0 (keep_capture c env info reported.0).0
        (report_status-Has (apply_request info s) asked)
        (keep_capture-IsQuiet c env info reported.0).0)
      (disconnected-Has s h)

frames-Has :
    (c : Sodium) (fs : List (Env × Option ConnectionInfo)) {seq : ℕ} {enabled : Bool}
    {format : AudioFormat} (s : SlaveAudio)
    → AllNumbered seq fs
    → Has seq enabled format s
    → Has seq enabled format (frames c fs s)
unfolding frames
frames-Has c [] s n h = h
frames-Has c ((env, client) ∷ rest) s n h =
    frames-Has c rest (pump_slave c env client s).0 n.1 (pump_slave-Has c env client s n.0 h)

apply_request-applied :
    (info : ConnectionInfo) (s : SlaveAudio)
    → info.master_audio_control_received ≡ true
    → (apply_request info s).last_applied_seq ≡ info.master_audio_control_seq
unfolding apply_request
apply_request-applied info s h = ground arith

-- A request that the Slave has is applied by the next frame.
pump_slave-applied :
    (c : Sodium) (env : Env) (info : ConnectionInfo) (s : SlaveAudio)
    → is_connected info.state ≡ true
    → info.master_audio_control_received ≡ true
    → (pump_slave c env (some info) s).0.last_applied_seq ≡ info.master_audio_control_seq
unfolding pump_slave slave_connected
pump_slave-applied c env info s up received =
    let asked = apply_request info s in
    let applied : asked.last_applied_seq ≡ info.master_audio_control_seq =
      apply_request-applied info s received in
    let h : Has info.master_audio_control_seq asked.send_enabled asked.desired_format asked =
      record { enabled_same = refl; format_same = refl; applied = applied } in
    let reported = report_status asked in
    let kept =
      Has-SameSettings reported.0 (keep_capture c env info reported.0).0 (report_status-Has asked h)
        (keep_capture-IsQuiet c env info reported.0).0 in
    rw (pump_slave, up) kept.applied

-- Once a connected frame has seen the Master's request number `seq`, what the user sets on the Slave
-- stays, through any further frames, connected or not, as long as the client's latest request has
-- that number, whatever its content.
pub edit_stays :
    (c : Sodium) (env : Env) (info : ConnectionInfo) (s : SlaveAudio) (enabled : Bool)
    (format : AudioFormat) (fs : List (Env × Option ConnectionInfo))
    → is_connected info.state ≡ true
    → info.master_audio_control_received ≡ true
    → AllNumbered info.master_audio_control_seq fs
    → let edited = record (pump_slave c env (some info) s).0 {
      send_enabled = enabled;
      desired_format = format;
    } in
      ((frames c fs edited).send_enabled ≡ enabled) × ((frames c fs edited).desired_format ≡ format)
edit_stays c env info s enabled format fs up received n =
    let first = (pump_slave c env (some info) s).0 in
    let edited = record first { send_enabled = enabled; desired_format = format } in
    let h : Has info.master_audio_control_seq enabled format edited = record {
      enabled_same = refl;
      format_same = refl;
      applied = pump_slave-applied c env info s up received;
    } in
    let end = frames-Has c fs edited n h in (end.enabled_same, end.format_same)
