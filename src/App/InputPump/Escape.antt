-- ===== src/App/InputPump/Escape.antt =====
-- The emergency combination of Ctrl, Alt, Shift and Escape, as the user presses it.
use no_cap_kvm.Prelude.{
  ℕ, Bool, true, false, some, List, [], ◌∷◌, ◌≡◌, refl, ap, ◌∙◌, arith, ◌==◌, Bool-cases, inl, inr,
}
use no_cap_kvm.Discovery.Connection.{ConnectionInfo}
use no_cap_kvm.Input.Protocol.{InputFrame}
use no_cap_kvm.App.InputPump.State.{
  InputState, HeldKey, Env, VkCodes, is_ctrl, is_alt, is_shift, is_escape, any_held, track_keys,
  escape_combo_held,
}
use no_cap_kvm.App.InputPump.Held.{held_as, IsDistinct, last_event, track_keys_lem}
use no_cap_kvm.App.InputPump.Pump.{force_back, pump_frame}
use no_cap_kvm.App.InputPump.Release.{Escaped, pump_frame-escape, escape_combo_lem}

-- The last event of the key in the frame was a press, or it has none and was held before.
abbrev pub IsDown : ℕ → InputState → InputFrame → Type 0
IsDown vk s frame = (h : HeldKey) × (last_event vk (held_as vk s.held_keys) frame.keys ≡ some h)

-- One key of each of the four kinds is down.
pub record IsCombo (v : VkCodes) (s : InputState) (frame : InputFrame) : Type 0 where
  pub ctrl : ℕ
  pub alt : ℕ
  pub shift : ℕ
  pub escape : ℕ
  pub ctrl_code : is_ctrl v ctrl ≡ true
  pub alt_code : is_alt v alt ≡ true
  pub shift_code : is_shift v shift ≡ true
  pub escape_code : is_escape v escape ≡ true
  pub ctrl_down : IsDown ctrl s frame
  pub alt_down : IsDown alt s frame
  pub shift_down : IsDown shift s frame
  pub escape_down : IsDown escape s frame

any_held-held_as :
    (p : ℕ → Bool) (vk : ℕ) (h : HeldKey) (held : List HeldKey)
    → p vk ≡ true
    → held_as vk held ≡ some h
    → any_held p held ≡ true
unfolding any_held
any_held-held_as p vk h [] e f = cc
any_held-held_as p vk h (k ∷ held) e f = elim (Bool-cases (k.vk == vk)) [
  | inl same ↦ let at : k.vk ≡ vk = ground arith in rw (at, e) refl
  | inr other ↦ let rest = any_held-held_as p vk h held e (rw other at f) in ground arith
]

-- A key that is down is held after the frame's events.
any_held-track_keys :
    (p : ℕ → Bool) (vk : ℕ) (s : InputState) (frame : InputFrame)
    → IsDistinct s.held_keys
    → p vk ≡ true
    → IsDown vk s frame
    → any_held p (track_keys s.held_keys frame.keys) ≡ true
any_held-track_keys p vk s frame d e (h, down) =
    any_held-held_as p vk h (track_keys s.held_keys frame.keys) e
      ((track_keys_lem vk s.held_keys frame.keys d).1 ∙ down)

escape_combo_held-IsCombo :
    (v : VkCodes) (s : InputState) (frame : InputFrame)
    → IsDistinct s.held_keys
    → IsCombo v s frame
    → escape_combo_held v (track_keys s.held_keys frame.keys) ≡ true
unfolding escape_combo_held
escape_combo_held-IsCombo v s frame d c =
    rw
      (
        any_held-track_keys (is_ctrl v) c.ctrl s frame d c.ctrl_code c.ctrl_down,
        any_held-track_keys (is_alt v) c.alt s frame d c.alt_code c.alt_down,
        any_held-track_keys (is_shift v) c.shift s frame d c.shift_code c.shift_down,
        any_held-track_keys (is_escape v) c.escape s frame d c.escape_code c.escape_down,
      )
      refl

-- While the Slave is in control and the held keys are distinct: when a frame's key events leave a
-- Ctrl, an Alt, a Shift and the Escape key down, whether pressed in this frame or before and in any
-- order, the Master's input is free after the frame, the last effect is the disconnection, and
-- before it the Slave is asked for a key-up of every key that is then held and for no modifiers. A
-- key is then held exactly as its last event says.
pub pump_frame-IsCombo :
    (env : Env) (s : InputState) (info : ConnectionInfo) (frame : InputFrame)
    → s.owned_by_master ≡ false
    → IsDistinct s.held_keys
    → IsCombo env.vk s frame
    → Escaped (pump_frame env s info frame)
      × ((vk : ℕ)
          → held_as vk (pump_frame env s info frame).0.held_keys
            ≡ last_event vk (held_as vk s.held_keys) frame.keys)
unfolding force_back
pump_frame-IsCombo env s info frame o d c =
    let combo = escape_combo_held-IsCombo env.vk s frame d c in
    (
      escape_combo_lem env s info frame o combo,
      λ vk.
          ap (λ r. held_as vk r.0.held_keys) (pump_frame-escape env s info frame o combo)
          ∙ (track_keys_lem vk s.held_keys frame.keys d).1,
    )
