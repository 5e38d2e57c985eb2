-- ===== src/App/InputPump/Held.antt =====
-- The list of held keys is a map from key codes, without duplicates, of the keys whose last event was
-- a press.
use no_cap_kvm.Prelude.{
  ℕ, Option, none, some, List, [], ◌∷◌, ◌≡◌, refl, ◌∙◌, arith, if◌then◌else◌, ◌==◌,
}
use no_cap_kvm.Input.Protocol.{KeyEvent}
use no_cap_kvm.App.InputPump.State.{HeldKey, hold, let_go, track_key, track_keys}

-- The entry for a key code.
abbrev pub held_as : ℕ → List HeldKey → Option HeldKey
held_as vk [] = none
held_as vk (h ∷ held) = if h.vk == vk then some h else held_as vk held

-- No two entries have the same code.
abbrev pub IsDistinct : List HeldKey → Type 0
IsDistinct [] = Unit {0}
IsDistinct (h ∷ held) = (held_as h.vk held ≡ none) × IsDistinct held

abbrev pub entry : KeyEvent → HeldKey
entry k = record { vk = k.vk; scancode = k.scancode; extended = k.extended }

held_as-hold :
    (vk : ℕ) (k : KeyEvent) (held : List HeldKey)
    → held_as vk (hold k held) ≡ (if k.vk == vk then some (entry k) else held_as vk held)
unfolding hold
held_as-hold vk k [] = refl
held_as-hold vk k (h ∷ held) = ground (arith, held_as-hold vk k held)

hold-IsDistinct : (k : KeyEvent) (held : List HeldKey) → IsDistinct held → IsDistinct (hold k held)
unfolding hold
hold-IsDistinct k [] d = (refl, tt)
hold-IsDistinct k (h ∷ held) d =
    ground (arith, held_as-hold h.vk k held, hold-IsDistinct k held d.1)

held_as-let_go :
    (vk gone : ℕ) (held : List HeldKey)
    → IsDistinct held
    → held_as vk (let_go gone held) ≡ (if gone == vk then none else held_as vk held)
unfolding let_go
held_as-let_go vk gone [] d = ground arith
held_as-let_go vk gone (h ∷ held) d = ground (arith, held_as-let_go vk gone held d.1)

let_go-IsDistinct :
    (gone : ℕ) (held : List HeldKey) → IsDistinct held → IsDistinct (let_go gone held)
unfolding let_go
let_go-IsDistinct gone [] d = tt
let_go-IsDistinct gone (h ∷ held) d =
    ground (arith, held_as-let_go h.vk gone held d.1, let_go-IsDistinct gone held d.1)

track_key-IsDistinct :
    (held : List HeldKey) (k : KeyEvent) → IsDistinct held → IsDistinct (track_key held k)
unfolding track_key
track_key-IsDistinct held k d =
    ground (arith, hold-IsDistinct k held d, let_go-IsDistinct k.vk held d)

held_as-track_key :
    (vk : ℕ) (held : List HeldKey) (k : KeyEvent)
    → IsDistinct held
    → held_as vk (track_key held k)
      ≡ (if k.vk == vk then (if k.down then some (entry k) else none) else held_as vk held)
unfolding track_key
held_as-track_key vk held k d =
    ground (arith, held_as-hold vk k held, held_as-let_go vk k.vk held d)

-- The reference: the last event of the key code decides, and a code with no event is as before.
abbrev pub last_event : ℕ → Option HeldKey → List KeyEvent → Option HeldKey
last_event vk before [] = before
last_event vk before (k ∷ ks) =
    last_event vk (if k.vk == vk then (if k.down then some (entry k) else none) else before) ks

-- Tracking a frame's key events keeps the held keys distinct, and holds a key exactly as its last
-- event says: pressed with that event's scancode, or not at all after a release.
pub track_keys_lem :
    (vk : ℕ) (held : List HeldKey) (ks : List KeyEvent)
    → IsDistinct held
    → IsDistinct (track_keys held ks)
      × (held_as vk (track_keys held ks) ≡ last_event vk (held_as vk held) ks)
unfolding track_keys
track_keys_lem vk held [] d = (d, refl)
track_keys_lem vk held (k ∷ ks) d =
    let r = track_keys_lem vk (track_key held k) ks (track_key-IsDistinct held k d) in
    (r.0, r.1 ∙ rw (held_as-track_key vk held k d))
