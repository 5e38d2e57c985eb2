-- ===== src/Telemetry/Report.antt =====
-- tick of src/telemetry/telemetry.cpp and generation_delta of include/nockvm/telemetry/counter_delta.h:
-- the report of an interval. Of the summary the counters are modelled; the frame times and rates,
-- which are floating-point, and the figures of the process are not.
pub mod Episodes
use no_cap_kvm.Prelude.{
  ℕ, ◌+◌, ◌-◌, ◌^◌, Bool, true, false, List, [], ◌∷◌, ◌++◌, ltb, leb, ◌==◌, if◌then◌else◌,
}
use no_cap_kvm.Prelude.Bytes.{u64}
use no_cap_kvm.Telemetry.Transitions.{FrameContext}

pub record GenerationCounter : Type 0 where
  pub generation : ℕ
  pub value : ℕ

unfoldable pub generation_delta : GenerationCounter → GenerationCounter → ℕ
generation_delta previous current =
    if current.generation == previous.generation
    then if leb previous.value current.value then current.value - previous.value else 0
    else current.value

pub record Counters : Type 0 where
  pub raw_input_events : ℕ
  pub raw_input_processed : ℕ
  pub audio_packets_received : ℕ
  pub audio_packets_decoded : ℕ
  pub audio_packets_rejected : ℕ
  pub audio_packets_dropped_cap : ℕ
  pub audio_underruns : ℕ
  pub audio_slave_start_failures : ℕ
  pub clipboard_sent : ℕ
  pub clipboard_received : ℕ

-- kSustainedUnderrunThreshold
abbrev pub sustained_underrun_threshold : ℕ
sustained_underrun_threshold = 100

-- The lines, with what they print of the counters; the summary has the packets and the input events
-- of the interval, which it prints as rates.
pub data ReportLine : Type 0 where
  summary : Counters → FrameContext → ℕ → ℕ → ℕ → ReportLine
  sustained_underruns : ℕ → ℕ → ReportLine
  jitter_buffer_cap_reached : ℕ → ℕ → ℕ → ReportLine

-- The variables of the report.
pub record Reporter : Type 0 where
  pub frame_count_interval : ℕ
  pub prev_audio_received : ℕ
  pub prev_audio_underruns : ℕ
  pub prev_raw_input_events : ℕ
  pub prev_jitter_cap : GenerationCounter

-- Whether the interval is over, its length in whole seconds, and the counters.
pub record TickEnv : Type 0 where
  pub is_due : Bool
  pub interval_s : ℕ
  pub counters : Counters

-- A difference of two uint64_t.
abbrev pub minus_u64 : ℕ → ℕ → ℕ
minus_u64 a b = u64 (a + 2 ^ 64 - b)

abbrev pub jitter_cap : FrameContext → GenerationCounter
jitter_cap ctx = record {
  generation = ctx.audio_playback_generation;
  value = ctx.audio_jitter_cap_episodes;
}

unfoldable pub cap_lines : ℕ → FrameContext → Counters → List ReportLine
cap_lines delta ctx c =
    if ltb 0 delta
    then jitter_buffer_cap_reached delta ctx.audio_buffer_cap c.audio_packets_dropped_cap ∷ []
    else []

unfoldable pub underrun_lines : ℕ → ℕ → List ReportLine
underrun_lines delta interval_s =
    if leb sustained_underrun_threshold delta then sustained_underruns delta interval_s ∷ [] else []

-- `frames` counts this frame too.
unfoldable pub report : TickEnv → FrameContext → Reporter → ℕ → Reporter × List ReportLine
report env ctx r frames =
    let c = env.counters in
    (
      record {
        frame_count_interval = 0;
        prev_audio_received = c.audio_packets_received;
        prev_audio_underruns = c.audio_underruns;
        prev_raw_input_events = c.raw_input_events;
        prev_jitter_cap = jitter_cap ctx;
      },
      summary c ctx frames (minus_u64 c.audio_packets_received r.prev_audio_received)
            (minus_u64 c.raw_input_events r.prev_raw_input_events)
          ∷ (underrun_lines (minus_u64 c.audio_underruns r.prev_audio_underruns) env.interval_s
              ++ cap_lines (generation_delta r.prev_jitter_cap (jitter_cap ctx)) ctx c),
    )

-- One frame, when the log could be opened.
unfoldable pub tick : TickEnv → FrameContext → Reporter → Reporter × List ReportLine
tick env ctx r =
    let frames = u64 (r.frame_count_interval + 1) in
    if env.is_due then report env ctx r frames else (record r { frame_count_interval = frames }, [])
