-- ===== src/Tests/Windows.antt =====
-- src/app/retry_backoff.h, reconnect_tracker.h, audio_loss_window.h and buffer_depth_window.h.
use no_cap_kvm.Prelude.{ℕ, List, [], ◌∷◌}
use no_cap_kvm.App.AudioLossWindow
use no_cap_kvm.App.BufferDepthWindow

abbrev loss : ℕ → ℕ → AudioLossWindow.Sample
loss at misses = record { at = at; misses = misses; played = 10 }

abbrev calls : List AudioLossWindow.Sample
calls = loss 120 9 ∷ loss 70 4 ∷ loss 30 1 ∷ []

abbrev at_depth : ℕ → ℕ → BufferDepthWindow.Sample
at_depth at d = record { at = at; depth = d }
