-- ===== src/Telemetry/Report/Episodes.antt =====
-- The episodes of a full jitter buffer that the log reports.
use no_cap_kvm.Prelude.{ℕ, ◌+◌, ◌≤◌, List, [], ◌∷◌, ◌≡◌, arith, if_intro}
use no_cap_kvm.Prelude.Bytes.{u64}
use no_cap_kvm.Telemetry.Transitions.{FrameContext}
use no_cap_kvm.Telemetry.Report.{
  generation_delta, ReportLine, summary, sustained_underruns, jitter_buffer_cap_reached, Reporter,
  TickEnv, cap_lines, underrun_lines, report, tick,
}

-- The episodes in these lines.
abbrev pub episodes : List ReportLine → ℕ
episodes [] = 0
episodes (summary c ctx frames received events ∷ lines) = episodes lines
episodes (sustained_underruns delta interval ∷ lines) = episodes lines
episodes (jitter_buffer_cap_reached delta cap total ∷ lines) = delta + episodes lines

-- The frames of one playback whose count of episodes does not go down.
pub record Follows (ctx : FrameContext) (r : Reporter) : Type 0 where
  pub same_playback : ctx.audio_playback_generation ≡ r.prev_jitter_cap.generation
  pub grows : r.prev_jitter_cap.value ≤ ctx.audio_jitter_cap_episodes

report-episodes :
    (env : TickEnv) (ctx : FrameContext) (r : Reporter) (frames : ℕ)
    → Follows ctx r
    → r.prev_jitter_cap.value + episodes (report env ctx r frames).1
      ≡ (report env ctx r frames).0.prev_jitter_cap.value
unfolding report cap_lines underrun_lines generation_delta
report-episodes env ctx r frames h =
    let same = h.same_playback in let grows = h.grows in ground arith

-- A tick reports exactly the episodes since the last report: what was counted then and what it logs
-- now make up what is counted for the next.
pub tick-episodes :
    (env : TickEnv) (ctx : FrameContext) (r : Reporter)
    → Follows ctx r
    → r.prev_jitter_cap.value + episodes (tick env ctx r).1
      ≡ (tick env ctx r).0.prev_jitter_cap.value
unfolding tick
tick-episodes env ctx r h =
    let frames = u64 (r.frame_count_interval + 1) in
    if_intro
      (λ (after : Reporter × List ReportLine).
        r.prev_jitter_cap.value + episodes after.1 ≡ after.0.prev_jitter_cap.value)
      env.is_due (report-episodes env ctx r frames h) (omega arith)
