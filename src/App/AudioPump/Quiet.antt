-- ===== src/App/AudioPump/Quiet.antt =====
-- The part of a frame that starts and stops the capture leaves the settings and sends nothing.
use no_cap_kvm.Prelude.{
  ℕ, Bool, false, ◌&&◌, ◌||◌, not, Option, none, some, List, [], ◌∷◌, ◌++◌, ◌≡◌, refl, ◌∙◌,
  if_intro, ◌==◌,
}
use no_cap_kvm.Audio.Stream.{AudioChannel, same_format}
use no_cap_kvm.Discovery.Crypto.{Sodium}
use no_cap_kvm.Discovery.Connection.{ConnectionInfo}
use no_cap_kvm.Discovery.Session.{Session, server_message}
use no_cap_kvm.App.RetryBackoff.{RetryBackoff, should_attempt, on_failure}
use no_cap_kvm.App.AudioPump.{
  SlaveAudio, Env, Event, slave_stopped, slave_start_failed, capture_running, Effect, message,
  logged, start_failure, stop_slave_audio, stop_if_active, forgive, open_send, start_failed,
  start_capture, keep_capture,
}

-- The Master's session after the messages have arrived at time `now`.
unfoldable pub deliver : ℕ → Session → List Effect → Session
deliver now m [] = m
deliver now m (message msg_type payload ∷ es) =
    deliver now (server_message m now msg_type payload).0 es
deliver now m (logged e ∷ es) = deliver now m es
deliver now m (start_failure ∷ es) = deliver now m es

-- Nothing in these effects reaches the Master.
pub record IsSilent (es : List Effect) : Type 0 where
  pub stays : (now : ℕ) (m : Session) → deliver now m es ≡ m

pub record SameSettings (s t : SlaveAudio) : Type 0 where
  pub enabled : t.send_enabled ≡ s.send_enabled
  pub format : t.desired_format ≡ s.desired_format
  pub applied : t.last_applied_seq ≡ s.last_applied_seq
  pub reported_enabled : t.last_reported_enabled ≡ s.last_reported_enabled
  pub reported_format : t.last_reported_format ≡ s.last_reported_format

-- The rest of a frame sends nothing and leaves the settings.
abbrev pub IsQuiet : SlaveAudio → SlaveAudio × List Effect → Type 0
IsQuiet s r = SameSettings s r.0 × IsSilent r.1

same : (s : SlaveAudio) → SameSettings s s
same s = record {
  enabled = refl;
  format = refl;
  applied = refl;
  reported_enabled = refl;
  reported_format = refl;
}

no_effect : IsSilent []
unfolding deliver
no_effect = record { stays = λ now m. refl }

one_line : (e : Event) (es : List Effect) → IsSilent es → IsSilent (logged e ∷ es)
unfolding deliver
one_line e es h = record { stays = h.stays }

stop_slave_audio-IsSilent : (s : SlaveAudio) → IsSilent (stop_slave_audio s).1
unfolding stop_slave_audio
stop_slave_audio-IsSilent s =
    if_intro IsSilent s.active (one_line slave_stopped [] no_effect) no_effect

pub stop_if_active-IsQuiet : (s : SlaveAudio) → IsQuiet s (stop_if_active s)
unfolding stop_if_active stop_slave_audio
stop_if_active-IsQuiet s =
    let stopped : SameSettings s (record (stop_slave_audio s).0 { active = false }) = record {
      enabled = refl;
      format = refl;
      applied = refl;
      reported_enabled = refl;
      reported_format = refl;
    } in
    if_intro (IsQuiet s) s.active (stopped, stop_slave_audio-IsSilent s) (same s, no_effect)

open_send-SameSettings :
    (c : Sodium) (env : Env) (info : ConnectionInfo) (s : SlaveAudio) (ch : Option AudioChannel)
    → SameSettings s (open_send c env info s ch)
unfolding open_send
open_send-SameSettings c env info s none = record {
  enabled = refl;
  format = refl;
  applied = refl;
  reported_enabled = refl;
  reported_format = refl;
}
open_send-SameSettings c env info s (some ch) = same s

start_failed-IsQuiet :
    (c : Sodium) (s : SlaveAudio) (failed : Bool × RetryBackoff)
    → IsQuiet s (start_failed c s failed)
unfolding start_failed stop_slave_audio deliver
start_failed-IsQuiet c s failed =
    let stopped : SameSettings s (start_failed c s failed).0 = record {
      enabled = refl;
      format = refl;
      applied = refl;
      reported_enabled = refl;
      reported_format = refl;
    } in
    let after = stop_slave_audio-IsSilent (record s { start_backoff = failed.1 }) in
    let log =
      if_intro (λ es. IsSilent (es ++ (stop_slave_audio s).1)) failed.0
        (one_line (slave_start_failed s.desired_format) (stop_slave_audio s).1
          (record { stays = after.stays }))
        (record { stays = after.stays }) in
    (stopped, record { stays = log.stays })

start_capture-IsQuiet :
    (c : Sodium) (env : Env) (info : ConnectionInfo) (s : SlaveAudio)
    → IsQuiet s (start_capture c env info s)
unfolding start_capture
start_capture-IsQuiet c env info s =
    let bare = record s { capture = none } in
    let opened = open_send c env info bare s.send_channel in
    let kept = open_send-SameSettings c env info bare s.send_channel in
    let running : SameSettings s (capture_running c opened info s) = record {
      enabled = kept.enabled;
      format = kept.format;
      applied = kept.applied;
      reported_enabled = kept.reported_enabled;
      reported_format = kept.reported_format;
    } in
    let failed = start_failed-IsQuiet c opened (on_failure s.start_backoff env.now) in
    let stopped : SameSettings s (start_failed c opened (on_failure s.start_backoff env.now)).0 =
      record {
        enabled = failed.0.enabled ∙ kept.enabled;
        format = failed.0.format ∙ kept.format;
        applied = failed.0.applied ∙ kept.applied;
        reported_enabled = failed.0.reported_enabled ∙ kept.reported_enabled;
        reported_format = failed.0.reported_format ∙ kept.reported_format;
      } in
    if_intro (IsQuiet s) env.opens (running, one_line _ [] no_effect) (stopped, failed.1)

pub keep_capture-IsQuiet :
    (c : Sodium) (env : Env) (info : ConnectionInfo) (s : SlaveAudio)
    → IsQuiet s (keep_capture c env info s)
unfolding keep_capture
keep_capture-IsQuiet c env info s =
    let stopped = stop_if_active-IsQuiet s in
    let forgiven : SameSettings s (forgive (stop_if_active s).0) = record {
      enabled = stopped.0.enabled;
      format = stopped.0.format;
      applied = stopped.0.applied;
      reported_enabled = stopped.0.reported_enabled;
      reported_format = stopped.0.reported_format;
    } in
    let idle : IsQuiet s (s, []) = (same s, no_effect) in
    if_intro (IsQuiet s) (not s.send_enabled || (info.peer_audio_port == 0)) (forgiven, stopped.1)
      (if_intro (IsQuiet s) (s.active && same_format s.active_format s.desired_format) idle (
        if_intro (IsQuiet s) (should_attempt s.start_backoff env.now)
          (start_capture-IsQuiet c env info s) idle))
