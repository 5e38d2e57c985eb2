-- ===== src/App/AudioPump/Master.antt =====
-- pump_master and stop_master_audio of src/app/audio_pump.cpp: the Master's end of the sound.
pub mod Playing
use no_cap_kvm.Prelude.{
  same_flag, ℕ, ◌+◌, ◌-◌, Bool, true, false, ◌&&◌, ◌||◌, not, Option, none, some, List, [], ◌∷◌,
  ◌++◌, leb, if◌then◌else◌, length,
}
use no_cap_kvm.Prelude.Bytes.{u64}
use no_cap_kvm.Audio.JitterBuffer.{JitterBuffer, push, depth}
use no_cap_kvm.Audio.Stream.{
  AudioFormat, AudioChannel, Drained, same_format, open_channel, derive_audio_key, drain,
}
use no_cap_kvm.Audio.Playback.{PlaybackImpl, start}
use no_cap_kvm.Discovery.Crypto.{Bytes, Sodium}
use no_cap_kvm.Discovery.Connection.{ConnectionInfo, is_connected}
use no_cap_kvm.Discovery.Payloads.{encode_audio_settings}
use no_cap_kvm.Discovery.Types.{msg_audio_control}
use no_cap_kvm.App.AudioPump.{
  Event, Effect, message, logged, master_stopped, master_start_failed, master_started,
  master_restarted,
}
use no_cap_kvm.App.AudioLossWindow
use no_cap_kvm.App.AudioLossWindow.{AudioLossWindow}
use no_cap_kvm.App.BufferDepthWindow
use no_cap_kvm.App.BufferDepthWindow.{BufferDepthWindow}

-- The Master's part of AppState.
pub record MasterAudio : Type 0 where
  pub active : Bool
  pub playback : Option PlaybackImpl
  pub playback_generation : ℕ
  pub underruns_baseline : ℕ
  pub loss_window : AudioLossWindow
  pub last_sample_at : ℕ
  pub depth_window : BufferDepthWindow
  pub recv_channel : Option AudioChannel
  pub active_format : AudioFormat
  pub desired_enabled : Bool
  pub desired_format : AudioFormat
  pub overridden : Bool
  pub control_sent : Bool
  pub last_sent_enabled : Bool
  pub last_sent_format : AudioFormat

-- In this frame: the time, the counter audio_underruns, whether the playback device opens, one
-- second in ticks, and the datagrams that wait in the server's socket.
pub record MasterEnv : Type 0 where
  pub now : ℕ
  pub underruns : ℕ
  pub opens : Bool
  pub second : ℕ
  pub waiting : List Bytes

-- With the log line, which comes in any case.
unfoldable pub stop_master_audio : MasterAudio → MasterAudio
stop_master_audio s = record s {
  playback = none;
  recv_channel = none;
  loss_window = AudioLossWindow.reset s.loss_window;
  depth_window = BufferDepthWindow.reset s.depth_window;
}

unfoldable pub stop_if_active : MasterAudio → MasterAudio × List Effect
unfolding stop_master_audio
stop_if_active s =
    if s.active
    then (record (stop_master_audio s) { active = false }, logged master_stopped ∷ [])
    else (s, [])

unfoldable pub disconnected : MasterAudio → MasterAudio × List Effect
disconnected s =
    (record (stop_if_active s).0 { control_sent = false; overridden = false }, (stop_if_active s).1)

abbrev pub peer_format : ConnectionInfo → AudioFormat
peer_format info = record {
  sample_rate = info.peer_audio_sample_rate;
  bit_depth = info.peer_audio_bit_depth;
}

abbrev pub want_send_control : MasterAudio → Bool
want_send_control s =
    not s.control_sent
    || not (same_flag s.desired_enabled s.last_sent_enabled)
    || (s.desired_enabled && not (same_format s.desired_format s.last_sent_format))

-- Mirrors the Slave's settings, or asks it for those that the user wants.
unfoldable pub send_control : ConnectionInfo → MasterAudio → MasterAudio × List Effect
send_control info s =
    if not s.overridden
    then (
      record s {
        desired_enabled = info.peer_audio_send_enabled;
        desired_format = peer_format info;
      },
      [],
    )
    else if want_send_control s
    then (
      record s {
        control_sent = true;
        last_sent_enabled = s.desired_enabled;
        last_sent_format = s.desired_format;
      },
      message msg_audio_control (
            encode_audio_settings s.desired_enabled s.desired_format.sample_rate
              s.desired_format.bit_depth)
          ∷ [],
    )
    else (s, [])

-- What is sampled once a second.
unfoldable pub sample : MasterEnv → PlaybackImpl → MasterAudio → MasterAudio
sample env p s =
    if leb env.second (env.now - s.last_sample_at)
    then record s {
      loss_window =
          AudioLossWindow.record_sample s.loss_window env.now p.buffer.playout_misses
            p.buffer.frames_played;
      depth_window = BufferDepthWindow.record_sample s.depth_window env.now (depth p.buffer);
      last_sample_at = env.now;
    }
    else s

-- push_frame for each frame that was taken from the socket.
unfoldable pub push_frames : PlaybackImpl → List (ℕ × Bytes) → PlaybackImpl
push_frames p [] = p
push_frames p ((seq, audio) ∷ rest) =
    push_frames (record p { buffer = (push p.buffer seq audio).0 }) rest

module _ (c : Sodium) where
  abbrev pub recv_channel : ConnectionInfo → Option AudioChannel → AudioChannel
  recv_channel info none = open_channel (derive_audio_key c info.audio_key)
  recv_channel info (some channel) = channel

  -- A new playback, or none when its device does not open.
  unfoldable pub restart : MasterEnv → ConnectionInfo → MasterAudio → MasterAudio × List Effect
  restart env info s = (
    record s {
      playback = if env.opens then some (start (peer_format info)) else none;
      playback_generation = u64 (s.playback_generation + 1);
      underruns_baseline = env.underruns;
      loss_window = AudioLossWindow.reset s.loss_window;
      last_sample_at = 0;
      depth_window = BufferDepthWindow.reset s.depth_window;
      active_format = peer_format info;
      recv_channel = some (recv_channel info s.recv_channel);
      active = true;
    },
    logged (
          if env.opens
          then if s.active
            then master_restarted (peer_format info)
            else master_started (peer_format info)
          else master_start_failed (peer_format info))
        ∷ [],
  )

  unfoldable pub ensure_playing :
      MasterEnv → ConnectionInfo → MasterAudio → MasterAudio × List Effect
  ensure_playing env info s =
      if s.active && same_format (peer_format info) s.active_format
      then (s, [])
      else restart env info s

  -- Takes what waits, when there is a playback; the channel is there whenever that is. What is left
  -- in the socket comes last.
  unfoldable pub receive_audio :
      MasterEnv → MasterAudio → Option PlaybackImpl → Option AudioChannel → MasterAudio × List Bytes
  receive_audio env s none channel = (s, env.waiting)
  receive_audio env s (some p) none = (sample env p s, env.waiting)
  receive_audio env s (some p) (some channel) =
      let d = drain c channel env.waiting in
      (record (sample env p s) { playback = some (push_frames p d.frames) }, d.waiting)

  -- The state, what is done to the world, and what is left in the socket.
  unfoldable pub master_connected :
      MasterEnv → ConnectionInfo → MasterAudio → MasterAudio × List Effect × List Bytes
  master_connected env info s =
      let asked = send_control info s in
      if not info.peer_audio_send_enabled
      then ((stop_if_active asked.0).0, asked.1 ++ (stop_if_active asked.0).1, env.waiting)
      else (let playing = ensure_playing env info asked.0 in
          let heard = receive_audio env playing.0 playing.0.playback playing.0.recv_channel in
          (heard.0, asked.1 ++ playing.1, heard.1))

  abbrev pub idle_frame : MasterEnv → MasterAudio → MasterAudio × List Effect × List Bytes
  idle_frame env s = ((disconnected s).0, (disconnected s).1, env.waiting)

  -- `server` is what tcp_server->status() says, none for no server.
  unfoldable pub pump_master :
      MasterEnv → Option ConnectionInfo → MasterAudio → MasterAudio × List Effect × List Bytes
  pump_master env none s = idle_frame env s
  pump_master env (some info) s =
      if is_connected info.state then master_connected env info s else idle_frame env s
