-- ===== src/Tests/Streaming.antt =====
-- src/audio/playback.cpp, protocol.cpp and channel.cpp, and src/app/audio_pump.cpp.
use no_cap_kvm.Prelude.{
  arith, ◌≡◌, ◌+◌, ◌-◌, ◌++◌, refl, true, false, none, some, List, [], ◌∷◌, length, replicate, ltb,
  if◌then◌else◌, inl,
}
use no_cap_kvm.Discovery.Connection.{ConnectionInfo, info, idle_info, connected}
use no_cap_kvm.Discovery.Session.{Session, begin}
use no_cap_kvm.Audio.JitterBuffer.{JitterBuffer}
use no_cap_kvm.Audio.Stream.{AudioChannel, send_all, drain}
use no_cap_kvm.Audio.Stream.Packets.{numbered, after, drain-send_all}
use no_cap_kvm.Audio.Playback.{PlaybackImpl, Answer, Filled, data_callback}
use no_cap_kvm.Audio.Playback.Filling.{data_callback_lem}
use no_cap_kvm.Audio.Playback.Content.{Plays, data_callback-Plays}
use no_cap_kvm.App.AudioPump.{SlaveAudio, Env, pump_slave, initial, apply_request, default_format}
use no_cap_kvm.App.AudioPump.Coherence
use no_cap_kvm.App.AudioPump.Coherence.{run-IsCoherent}
use no_cap_kvm.App.AudioPump.Quiet.{deliver}
use no_cap_kvm.App.AudioPump.Agreement.{Sees, Agrees, pump_slave-Agrees}
use no_cap_kvm.App.AudioPump.Requests.{frames, edit_stays}
use no_cap_kvm.App.AudioPump.Master.{MasterAudio, MasterEnv}
use no_cap_kvm.App.AudioPump.Master.Playing
use no_cap_kvm.App.AudioPump.Master.Playing.{run-IsPlaying}
use no_cap_kvm.App.AudioLossWindow
use no_cap_kvm.App.BufferDepthWindow
use no_cap_kvm.Tests.Network.{toy, toy_laws}

-- One byte of a packet is left, and one packet waits.
abbrev buffer : JitterBuffer
buffer = record {
  buffer = (5, 50 ∷ 51 ∷ []) ∷ [];
  target_depth = 1;
  max_depth = 4;
  recovery_threshold = 3;
  started = true;
  next_seq = 5;
  at_cap = false;
  cap_episodes = 0;
  playout_misses = 0;
  frames_played = 0;
  consecutive_misses = 0;
}

abbrev impl : PlaybackImpl
impl = record { buffer = buffer; silence_byte = 128; carry = 40 ∷ 41 ∷ []; carry_pos = 1 }

data_callback_lem_example : (a : Answer) × (data_callback impl 5 ≡ some a) × (length a.out ≡ 5)
data_callback_lem_example = data_callback_lem impl 5

data_callback-Plays_example :
    (f : Filled) × Plays impl f
    × (length f.out + f.remaining ≡ 5)
    × (data_callback impl 5
        ≡ some (record {
          out = f.out ++ replicate (5 - length f.out) 128;
          impl = f.impl;
          underruns = if ltb (length f.out) 5 then 1 else 0;
        }))
data_callback-Plays_example = data_callback-Plays impl 5

abbrev sender : AudioChannel
sender = record { key = 7 ∷ []; send_seq = 4294967295 }

abbrev receiver : AudioChannel
receiver = record { key = 7 ∷ []; send_seq = 0 }

drain-send_all_example :
    drain toy receiver ((send_all toy sender ((1 ∷ []) ∷ (2 ∷ []) ∷ [])).0 ++ [])
    ≡ after (numbered 4294967295 ((1 ∷ []) ∷ (2 ∷ []) ∷ [])) (drain toy receiver [])
drain-send_all_example =
    drain-send_all toy_laws sender receiver ((1 ∷ []) ∷ (2 ∷ []) ∷ []) [] refl (omega arith)
      (omega arith, (omega arith, tt))

abbrev env : Env
env = record { now = 5; socket = some 3; opens = true }

-- A Master that asks for 24 kHz.
abbrev linked : ConnectionInfo
linked = record (info connected 9 (127 ∷ []) []) {
  peer_audio_port = 5000;
  master_audio_control_received = true;
  master_audio_control_seq = 1;
  master_requested_sample_rate = 24000;
}

abbrev history : List Coherence.Op
history =
    Coherence.frame (record env { opens = false }) (some linked)
    ∷ Coherence.edit true default_format
    ∷ Coherence.frame env (some linked)
    ∷ []

run-IsCoherent_example : Coherence.IsCoherent (Coherence.run toy 2 history)
run-IsCoherent_example = run-IsCoherent toy 2 history

abbrev master_session : Session
master_session = begin idle_info none 0

pump_slave-Agrees_example :
    Agrees
      (deliver 8 master_session (pump_slave toy env (some linked) (initial 2)).1)
      (pump_slave toy env (some linked) (initial 2)).0
    × Sees
        (deliver 8 master_session (pump_slave toy env (some linked) (initial 2)).1)
        (pump_slave toy env (some linked) (initial 2)).0.last_reported_enabled
        (pump_slave toy env (some linked) (initial 2)).0.last_reported_format
unfolding initial apply_request
pump_slave-Agrees_example =
    pump_slave-Agrees toy env linked (initial 2) 8 master_session refl (inl refl) (omega arith)

abbrev edited : SlaveAudio
edited = record (pump_slave toy env (some linked) (initial 2)).0 {
  send_enabled = false;
  desired_format = default_format;
}

edit_stays_example :
    ((frames toy ((env, some linked) ∷ (env, none) ∷ []) edited).send_enabled ≡ false)
    × ((frames toy ((env, some linked) ∷ (env, none) ∷ []) edited).desired_format ≡ default_format)
edit_stays_example =
    edit_stays toy env linked (initial 2) false default_format
      ((env, some linked) ∷ (env, none) ∷ []) refl refl (refl, (tt, tt))

abbrev silent : MasterAudio
silent = record {
  active = false;
  playback = none;
  playback_generation = 0;
  underruns_baseline = 0;
  loss_window = AudioLossWindow.create 60;
  last_sample_at = 0;
  depth_window = BufferDepthWindow.create 10;
  recv_channel = none;
  active_format = default_format;
  desired_enabled = true;
  desired_format = default_format;
  overridden = false;
  control_sent = false;
  last_sent_enabled = true;
  last_sent_format = default_format;
}

abbrev master_env : MasterEnv
master_env = record { now = 9; underruns = 0; opens = true; second = 1; waiting = (1 ∷ []) ∷ [] }

abbrev sounding : ConnectionInfo
sounding = record (info connected 9 [] []) {
  peer_audio_send_enabled = true;
  peer_audio_sample_rate = 48000;
}

abbrev master_history : List Playing.Op
master_history =
    Playing.device 4
    ∷ Playing.choose true default_format
    ∷ Playing.frame master_env (some sounding)
    ∷ []

run-IsPlaying_example : Playing.IsPlaying (Playing.run toy silent master_history)
run-IsPlaying_example =
    run-IsPlaying toy silent master_history
      (record { inactive = refl; no_playback = refl; no_channel = refl })
