-- ===== src/App/AudioPump/Master/Playing.antt =====
-- The Master's playback over any run of the program.
use no_cap_kvm.Prelude.{
  ℕ, zero, suc, Bool, true, false, ◌&&◌, not, Option, none, some, List, [], ◌∷◌, ◌≡◌, refl, subst,
  ◌∙◌, if_intro, ◌==◌, arith, if◌then◌else◌, leb, ◌-◌,
}
use no_cap_kvm.Audio.JitterBuffer.{
  JitterBuffer, Frame, create, push, pop, pop_started, play, miss, note_cap,
  clear_at_cap_if_recovered, pops,
}
use no_cap_kvm.Audio.JitterBuffer.Invariant.{IsValid, push-IsValid, pop-IsValid, create-IsValid}
use no_cap_kvm.Audio.Stream.{AudioFormat, AudioChannel, same_format, drain}
use no_cap_kvm.Audio.Playback.{PlaybackImpl, Answer, start, data_callback, max_depth}
use no_cap_kvm.Audio.Playback.Content.{data_callback-Plays}
use no_cap_kvm.Discovery.Crypto.{Bytes, Sodium}
use no_cap_kvm.Discovery.Connection.{ConnectionInfo, is_connected}
use no_cap_kvm.App.AudioPump.{Effect}
use no_cap_kvm.App.AudioPump.Coherence.{is_some}
use no_cap_kvm.App.AudioPump.Master.{
  MasterAudio, MasterEnv, stop_master_audio, stop_if_active, disconnected, peer_format,
  send_control, sample, push_frames, restart, ensure_playing, receive_audio, master_connected,
  pump_master,
}

-- The buffer between the network and the device: well formed, and for 200 packets.
pub record IsBuffer (jb : JitterBuffer) : Type 0 where
  pub valid : IsValid jb
  pub cap : jb.max_depth ≡ max_depth

push-max_depth :
    (jb : JitterBuffer) (seq : ℕ) (frame : Frame) → (push jb seq frame).0.max_depth ≡ jb.max_depth
unfolding push note_cap clear_at_cap_if_recovered
push-max_depth jb seq frame = ground arith

pop-max_depth : (jb : JitterBuffer) → (pop jb).0.max_depth ≡ jb.max_depth
unfolding pop pop_started play miss clear_at_cap_if_recovered
pop-max_depth jb = ground arith

pops-IsBuffer : (n : ℕ) (jb : JitterBuffer) → IsBuffer jb → IsBuffer (pops n jb).1
unfolding pops
pops-IsBuffer zero jb h = h
pops-IsBuffer (suc n) jb h =
    pops-IsBuffer n (pop jb).0
      (record { valid = pop-IsValid jb h.valid; cap = pop-max_depth jb ∙ h.cap })

abbrev pub silence_of : AudioFormat → ℕ
silence_of format = if format.bit_depth == 8 then 128 else 0

-- A playback in the format that is noted.
pub record PlaysIn (format : AudioFormat) (p : PlaybackImpl) : Type 0 where
  pub buffer : IsBuffer p.buffer
  pub silence : p.silence_byte ≡ silence_of format

start-PlaysIn : (format : AudioFormat) → PlaysIn format (start format)
unfolding start create
start-PlaysIn format = record {
  buffer = record { valid = create-IsValid 8 200 (omega arith); cap = refl };
  silence = refl;
}

push_frames-PlaysIn :
    (format : AudioFormat) (p : PlaybackImpl) (frames : List (ℕ × Bytes))
    → PlaysIn format p
    → PlaysIn format (push_frames p frames)
unfolding push_frames
push_frames-PlaysIn format p [] h = h
push_frames-PlaysIn format p ((seq, audio) ∷ rest) h =
    push_frames-PlaysIn format (record p { buffer = (push p.buffer seq audio).0 }) rest
      (record {
        buffer = record {
          valid = push-IsValid seq audio p.buffer h.buffer.valid;
          cap = push-max_depth p.buffer seq audio ∙ h.buffer.cap;
        };
        silence = h.silence;
      })

-- The device's callback; it always answers.
abbrev pub answered : PlaybackImpl → Option Answer → PlaybackImpl
answered p none = p
answered p (some a) = a.impl

data_callback-PlaysIn :
    (format : AudioFormat) (p : PlaybackImpl) (byte_count : ℕ)
    → PlaysIn format p
    → PlaysIn format (answered p (data_callback p byte_count))
data_callback-PlaysIn format p byte_count h =
    let (f, plays, filled, e) = data_callback-Plays p byte_count in
    rw e (record {
      buffer = rw (← plays.buffer_left) (pops-IsBuffer plays.popped p.buffer h.buffer);
      silence = plays.silence ∙ h.silence;
    })

abbrev pub HoldsPlayback : AudioFormat → Bool → Option PlaybackImpl → Type 0
HoldsPlayback format active none = Unit {0}
HoldsPlayback format active (some p) = (active ≡ true) × PlaysIn format p

-- The Master's state: a playback only while audio is active, in the format that is noted and with
-- a well-formed buffer for at most 200 packets; and the channel exactly while audio is active.
pub record IsPlaying (s : MasterAudio) : Type 0 where
  pub playback : HoldsPlayback s.active_format s.active s.playback
  pub channel : is_some s.recv_channel ≡ s.active

-- What happens to the Master's audio: a frame, a request of the device, or a choice of the user.
pub data Op : Type 0 where
  frame : MasterEnv → Option ConnectionInfo → Op
  device : ℕ → Op
  choose : Bool → AudioFormat → Op

abbrev pub answer_device : ℕ → MasterAudio → Option PlaybackImpl → MasterAudio
answer_device byte_count s none = s
answer_device byte_count s (some p) = record s {
  playback = some (answered p (data_callback p byte_count));
}

abbrev pub step : Sodium → Op → MasterAudio → MasterAudio
step c (frame env server) s = (pump_master c env server s).0
step c (device byte_count) s = answer_device byte_count s s.playback
step c (choose enabled format) s = record s {
  overridden = true;
  desired_enabled = enabled;
  desired_format = format;
}

-- A run, the latest step first.
unfoldable pub run : Sodium → MasterAudio → List Op → MasterAudio
run c s [] = s
run c s (op ∷ ops) = step c op (run c s ops)

same_parts :
    (s t : MasterAudio)
    → s.playback ≡ t.playback
    → s.active ≡ t.active
    → s.active_format ≡ t.active_format
    → s.recv_channel ≡ t.recv_channel
    → IsPlaying s
    → IsPlaying t
same_parts s t a b c d h = record {
  playback = rw (← a, ← b, ← c) h.playback;
  channel = rw (← d, ← b) h.channel;
}

stop_if_active-IsPlaying : (s : MasterAudio) → IsPlaying s → IsPlaying (stop_if_active s).0
unfolding stop_if_active stop_master_audio
stop_if_active-IsPlaying s h =
    let stopped : IsPlaying (record (stop_master_audio s) { active = false }) = record {
      playback = tt;
      channel = refl;
    } in
    if_intro (λ (r : MasterAudio × List Effect). IsPlaying r.0) s.active stopped h

disconnected-IsPlaying : (s : MasterAudio) → IsPlaying s → IsPlaying (disconnected s).0
unfolding disconnected
disconnected-IsPlaying s h =
    same_parts (stop_if_active s).0 _ refl refl refl refl (stop_if_active-IsPlaying s h)

send_control-IsPlaying :
    (info : ConnectionInfo) (s : MasterAudio) → IsPlaying s → IsPlaying (send_control info s).0
unfolding send_control
send_control-IsPlaying info s h =
    let P = λ (r : MasterAudio × List Effect). IsPlaying r.0 in
    if_intro P (not s.overridden) (same_parts s _ refl refl refl refl h)
      (if_intro P _ (same_parts s _ refl refl refl refl h) h)

started-HoldsPlayback :
    (format : AudioFormat) (opens : Bool)
    → HoldsPlayback format true (if opens then some (start format) else none)
started-HoldsPlayback format true = (refl, start-PlaysIn format)
started-HoldsPlayback format false = tt

ensure_playing-IsPlaying :
    (c : Sodium) (env : MasterEnv) (info : ConnectionInfo) (s : MasterAudio)
    → IsPlaying s
    → IsPlaying (ensure_playing c env info s).0
unfolding ensure_playing restart
ensure_playing-IsPlaying c env info s h =
    let fresh : IsPlaying (restart c env info s).0 = record {
      playback = started-HoldsPlayback (peer_format info) env.opens;
      channel = refl;
    } in
    if_intro (λ (r : MasterAudio × List Effect). IsPlaying r.0)
      (s.active && same_format (peer_format info) s.active_format) h fresh

sample-IsPlaying :
    (env : MasterEnv) (p : PlaybackImpl) (s : MasterAudio)
    → IsPlaying s
    → IsPlaying (sample env p s)
unfolding sample
sample-IsPlaying env p s h =
    if_intro IsPlaying (leb env.second (env.now - s.last_sample_at))
      (same_parts s _ refl refl refl refl h) h

sample-playback :
    (env : MasterEnv) (p : PlaybackImpl) (s : MasterAudio) → (sample env p s).playback ≡ s.playback
unfolding sample
sample-playback env p s =
    if_intro (λ (t : MasterAudio). t.playback ≡ s.playback)
      (leb env.second (env.now - s.last_sample_at)) refl refl

-- The sampling leaves what the invariant reads.
receive_audio-IsPlaying :
    (c : Sodium) (env : MasterEnv) (s : MasterAudio) (o : Option PlaybackImpl)
    (ch : Option AudioChannel)
    → s.playback ≡ o
    → IsPlaying s
    → IsPlaying (receive_audio c env s o ch).0
unfolding receive_audio
receive_audio-IsPlaying c env s none ch e h = h
receive_audio-IsPlaying c env s (some p) none e h = sample-IsPlaying env p s h
receive_audio-IsPlaying c env s (some p) (some channel) e h =
    let sampled = sample-IsPlaying env p s h in
    let held : HoldsPlayback (sample env p s).active_format (sample env p s).active (some p) =
      subst (HoldsPlayback (sample env p s).active_format (sample env p s).active)
        (sample-playback env p s ∙ e) sampled.playback in
    record {
      playback = (held.0, push_frames-PlaysIn _ p (drain c channel env.waiting).frames held.1);
      channel = sampled.channel;
    }

pump_master-IsPlaying :
    (c : Sodium) (env : MasterEnv) (server : Option ConnectionInfo) (s : MasterAudio)
    → IsPlaying s
    → IsPlaying (pump_master c env server s).0
unfolding pump_master master_connected
pump_master-IsPlaying c env none s h = disconnected-IsPlaying s h
pump_master-IsPlaying c env (some info) s h =
    let P = λ (r : MasterAudio × List Effect × List Bytes). IsPlaying r.0 in
    let asked = send_control info s in
    let kept = send_control-IsPlaying info s h in
    let playing = (ensure_playing c env info asked.0).0 in
    if_intro P (is_connected info.state)
      (if_intro P (not info.peer_audio_send_enabled) (stop_if_active-IsPlaying asked.0 kept) (
        receive_audio-IsPlaying c env playing playing.playback playing.recv_channel refl
          (ensure_playing-IsPlaying c env info asked.0 kept)))
      (disconnected-IsPlaying s h)

answer_device-IsPlaying :
    (byte_count : ℕ) (s : MasterAudio) (o : Option PlaybackImpl)
    → s.playback ≡ o
    → IsPlaying s
    → IsPlaying (answer_device byte_count s o)
answer_device-IsPlaying byte_count s none e h = h
answer_device-IsPlaying byte_count s (some p) e h =
    let held = subst (HoldsPlayback s.active_format s.active) e h.playback in
    record {
      playback = (held.0, data_callback-PlaysIn s.active_format p byte_count held.1);
      channel = h.channel;
    }

-- Before the first frame: no audio.
pub record IsSilent (s : MasterAudio) : Type 0 where
  pub inactive : s.active ≡ false
  pub no_playback : s.playback ≡ none
  pub no_channel : s.recv_channel ≡ none

-- From a state without audio, whatever frames, requests of the device and choices of the user come in
-- whatever order: a playback exists only while audio is active, it writes the silence of the format
-- that is noted as active, its jitter buffer is well formed and has a ceiling of 200 packets; and the
-- channel exists exactly while audio is active.
pub run-IsPlaying :
    (c : Sodium) (s : MasterAudio) (ops : List Op) → IsSilent s → IsPlaying (run c s ops)
unfolding run
run-IsPlaying c s [] h = record {
  playback = rw h.no_playback tt;
  channel = rw (h.no_channel, h.inactive) refl;
}
run-IsPlaying c s (frame env server ∷ ops) h =
    pump_master-IsPlaying c env server (run c s ops) (run-IsPlaying c s ops h)
run-IsPlaying c s (device byte_count ∷ ops) h =
    answer_device-IsPlaying byte_count (run c s ops) (run c s ops).playback refl
      (run-IsPlaying c s ops h)
run-IsPlaying c s (choose enabled format ∷ ops) h =
    same_parts (run c s ops) _ refl refl refl refl (run-IsPlaying c s ops h)
