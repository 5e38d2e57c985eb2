-- ===== src/App/AudioPump/Agreement.antt =====
-- The settings of the sound at both ends: what the Master hears of the Slave's.
use no_cap_kvm.Prelude.{
  same_flag, ℕ, ◌^◌, ◌<◌, Bool, true, false, ◌&&◌, ◌||◌, not, some, List, [], ◌∷◌, ◌++◌, ◌≡◌, refl,
  sym, ◌∙◌, ◌⊎◌, inl, inr, if_intro, Bool-cases, ◌==◌, arith,
}
use no_cap_kvm.Audio.Stream.{AudioFormat, same_format}
use no_cap_kvm.Discovery.Crypto.{Sodium}
use no_cap_kvm.Discovery.Connection.{ConnectionInfo, is_connected}
use no_cap_kvm.Discovery.Payloads.{encode_audio_settings}
use no_cap_kvm.Discovery.Payloads.RoundTrip.{decode-encode_numbers}
use no_cap_kvm.Discovery.Types.{msg_audio_status}
use no_cap_kvm.Discovery.Session.{Session, server_message}
use no_cap_kvm.App.AudioPump.{
  SlaveAudio, Env, Effect, message, logged, start_failure, apply_request, status_changed,
  report_status, keep_capture, slave_connected, pump_slave,
}
use no_cap_kvm.App.AudioPump.Quiet.{deliver, keep_capture-IsQuiet}

-- What the Master has noted as the Slave's settings.
pub record Sees (m : Session) (enabled : Bool) (format : AudioFormat) : Type 0 where
  pub enabled_same : m.status.peer_audio_send_enabled ≡ enabled
  pub rate_same : m.status.peer_audio_sample_rate ≡ format.sample_rate
  pub depth_same : m.status.peer_audio_bit_depth ≡ format.bit_depth

-- What the Slave has reported is what the Master has noted.
abbrev pub UpToDate : Session → SlaveAudio → Type 0
UpToDate m s = (s.status_reported ≡ false) ⊎ Sees m s.last_reported_enabled s.last_reported_format

-- When there is nothing to report, what was reported still holds.
unchanged_cases :
    (reported enabled last same : Bool)
    → (not reported || not (same_flag enabled last) || (enabled && not same)) ≡ false
    → (reported ≡ true) × (enabled ≡ last) × ((enabled ≡ false) ⊎ (same ≡ true))
unchanged_cases false enabled last same h = cc
unchanged_cases true true true true h = (refl, refl, inr refl)
unchanged_cases true true true false h = cc
unchanged_cases true true false same h = cc
unchanged_cases true false true same h = cc
unchanged_cases true false false same h = (refl, refl, inl refl)

same_format-eq :
    (f g : AudioFormat)
    → same_format f g ≡ true
    → (f.sample_rate ≡ g.sample_rate) × (f.bit_depth ≡ g.bit_depth)
same_format-eq f g h = ground arith

-- The Master notes what the message says.
server_message-Sees :
    (now : ℕ) (m : Session) (enabled : Bool) (format : AudioFormat)
    → format.sample_rate < 2 ^ 32
    → Sees
        (server_message m now msg_audio_status
          (encode_audio_settings enabled format.sample_rate format.bit_depth)).0
        enabled
        format
unfolding server_message
server_message-Sees now m enabled format h =
    let decoded =
      (decode-encode_numbers 0 enabled format.sample_rate format.bit_depth 0 (omega arith) h
        (omega arith)).1 in
    rw decoded (record { enabled_same = refl; rate_same = refl; depth_same = refl })

-- What the Master has noted when it knows the Slave's settings: whether it sends, and, if it does,
-- in which format.
pub record Agrees (m : Session) (s : SlaveAudio) : Type 0 where
  pub enabled_same : m.status.peer_audio_send_enabled ≡ s.send_enabled
  pub format_same :
      (s.send_enabled ≡ false)
      ⊎ ((m.status.peer_audio_sample_rate ≡ s.desired_format.sample_rate)
          × (m.status.peer_audio_bit_depth ≡ s.desired_format.bit_depth))

Sees-Agrees : (m : Session) (s : SlaveAudio) → Sees m s.send_enabled s.desired_format → Agrees m s
Sees-Agrees m s h = record {
  enabled_same = h.enabled_same;
  format_same = inr (h.rate_same, h.depth_same);
}

-- Nothing had to be reported.
unchanged-Agrees :
    (m : Session) (s : SlaveAudio)
    → UpToDate m s
    → status_changed s ≡ false
    → Agrees m s × Sees m s.last_reported_enabled s.last_reported_format
unchanged-Agrees m s known e =
    let (reported, enabled, format) =
      unchanged_cases s.status_reported s.send_enabled s.last_reported_enabled
        (same_format s.desired_format s.last_reported_format) e in
    elim known [
      | inl unreported ↦ absurd (let two = sym reported ∙ unreported in cc)
      | inr sees ↦ (
        record {
          enabled_same = sees.enabled_same ∙ sym enabled;
          format_same = elim format [
            | inl off ↦ inl off
            | inr alike ↦
                let (rate, depth) = same_format-eq s.desired_format s.last_reported_format alike in
                inr (sees.rate_same ∙ sym rate, sees.depth_same ∙ sym depth)
          ];
        },
        sees,
      )
    ]

-- After the report the Master knows the settings, and what the Slave has noted as reported.
record Reported (now : ℕ) (m : Session) (s : SlaveAudio) (r : SlaveAudio × List Effect)
    : Type 0 where
  agrees : Agrees (deliver now m r.1) s
  sees : Sees (deliver now m r.1) r.0.last_reported_enabled r.0.last_reported_format
  enabled : r.0.send_enabled ≡ s.send_enabled
  format : r.0.desired_format ≡ s.desired_format
  applied : r.0.last_applied_seq ≡ s.last_applied_seq

report_status-Reported :
    (now : ℕ) (m : Session) (s : SlaveAudio)
    → UpToDate m s
    → s.desired_format.sample_rate < 2 ^ 32
    → Reported now m s (report_status s)
unfolding report_status deliver
report_status-Reported now m s known h =
    let sees = server_message-Sees now m s.send_enabled s.desired_format h in
    elim (Bool-cases (status_changed s)) [
      | inl e ↦
          rw (report_status, e)
            (record {
              agrees = Sees-Agrees _ s sees;
              sees = sees;
              enabled = refl;
              format = refl;
              applied = refl;
            })
      | inr e ↦
          rw (report_status, e)
            (record {
              agrees = (unchanged-Agrees m s known e).0;
              sees = (unchanged-Agrees m s known e).1;
              enabled = refl;
              format = refl;
              applied = refl;
            })
    ]

deliver-append :
    (now : ℕ) (m : Session) (es fs : List Effect)
    → deliver now m (es ++ fs) ≡ deliver now (deliver now m es) fs
unfolding deliver
deliver-append now m [] fs = refl
deliver-append now m (message t p ∷ es) fs = deliver-append now (server_message m now t p).0 es fs
deliver-append now m (logged e ∷ es) fs = deliver-append now m es fs
deliver-append now m (start_failure ∷ es) fs = deliver-append now m es fs

apply_request-UpToDate :
    (m : Session) (info : ConnectionInfo) (s : SlaveAudio)
    → UpToDate m s
    → UpToDate m (apply_request info s)
unfolding apply_request
apply_request-UpToDate m info s h =
    if_intro (UpToDate m)
      (info.master_audio_control_received
        && not (info.master_audio_control_seq == s.last_applied_seq))
      h h

Agrees-same :
    (m : Session) (s t : SlaveAudio)
    → t.send_enabled ≡ s.send_enabled
    → t.desired_format ≡ s.desired_format
    → Agrees m s
    → Agrees m t
Agrees-same m s t e f h = record {
  enabled_same = h.enabled_same ∙ sym e;
  format_same = rw (e, f) h.format_same;
}

-- A frame of a connected Slave whose messages reach the Master: if what the Slave has noted as
-- reported on this connection is what the Master has noted, and the format it wants after the
-- Master's request has a 32-bit rate, then the Master knows afterwards whether the Slave sends and,
-- if it does, in which format it wants to; and it has noted what the Slave has noted as reported.
pub pump_slave-Agrees :
    (c : Sodium) (env : Env) (info : ConnectionInfo) (s : SlaveAudio) (now : ℕ) (m : Session)
    → is_connected info.state ≡ true
    → UpToDate m s
    → (apply_request info s).desired_format.sample_rate < 2 ^ 32
    → Agrees (deliver now m (pump_slave c env (some info) s).1) (pump_slave c env (some info) s).0
      × Sees
          (deliver now m (pump_slave c env (some info) s).1)
          (pump_slave c env (some info) s).0.last_reported_enabled
          (pump_slave c env (some info) s).0.last_reported_format
unfolding pump_slave slave_connected
pump_slave-Agrees c env info s now m up known small =
    let asked = apply_request info s in
    let known' : UpToDate m asked = apply_request-UpToDate m info s known in
    let first = report_status-Reported now m asked known' small in
    let reported = report_status asked in
    let (kept, silent) = keep_capture-IsQuiet c env info reported.0 in
    let last = keep_capture c env info reported.0 in
    let arrived =
      deliver-append now m reported.1 last.1 ∙ silent.stays now (deliver now m reported.1) in
    rw (pump_slave, up, slave_connected, arrived)
      (
        Agrees-same (deliver now m reported.1) asked last.0 (kept.enabled ∙ first.enabled)
            (kept.format ∙ first.format) first.agrees,
        rw (kept.reported_enabled, kept.reported_format) first.sees,
      )
