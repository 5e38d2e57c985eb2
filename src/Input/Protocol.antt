-- ===== src/Input/Protocol.antt =====
-- include/nockvm/input/protocol.h, hook.h (the event types) and src/input/protocol.cpp: the payloads
-- of the input messages.
pub mod RoundTrip
use no_cap_kvm.Prelude.{
  ℕ, ◌+◌, Bool, true, false, not, Option, none, some, List, [], ◌∷◌, ◌++◌, length, ltb, ◌==◌,
  if◌then◌else◌,
}
use no_cap_kvm.Prelude.Int.{ℤ}
use no_cap_kvm.Prelude.Bytes.{
  u8, byte_at, write_be32, read_be32, write_be16, read_be16, to_u32, to_i32, to_u16, to_i16,
}

abbrev pub msg_mouse_absolute : ℕ
msg_mouse_absolute = 2

abbrev pub msg_mouse_button : ℕ
msg_mouse_button = 3

abbrev pub msg_mouse_wheel : ℕ
msg_mouse_wheel = 4

abbrev pub msg_key : ℕ
msg_key = 5

abbrev pub msg_modifier_sync : ℕ
msg_modifier_sync = 6

pub record MouseButtonEvent : Type 0 where
  pub button : ℕ
  pub down : Bool

pub record KeyEvent : Type 0 where
  pub vk : ℕ
  pub scancode : ℕ
  pub down : Bool
  pub extended : Bool

pub record InputFrame : Type 0 where
  pub dx : ℤ
  pub dy : ℤ
  pub buttons : List MouseButtonEvent
  pub wheel_deltas : List ℤ
  pub keys : List KeyEvent

-- A bool as a byte, and back: `data[i] != 0`.
abbrev pub flag : Bool → ℕ
flag true = 1
flag false = 0

abbrev pub is_set : ℕ → Bool
is_set b = not (b == 0)

unfoldable pub encode_mouse_absolute : ℤ → ℤ → List ℕ
encode_mouse_absolute x y = write_be32 (to_u32 x) ++ write_be32 (to_u32 y)

unfoldable pub decode_mouse_absolute : List ℕ → Option (ℤ × ℤ)
decode_mouse_absolute bytes =
    if ltb (length bytes) 8
    then none
    else some (to_i32 (read_be32 bytes 0), to_i32 (read_be32 bytes 4))

unfoldable pub encode_mouse_button : ℕ → Bool → List ℕ
encode_mouse_button button down = button ∷ flag down ∷ []

unfoldable pub decode_mouse_button : List ℕ → Option (ℕ × Bool)
decode_mouse_button bytes =
    if ltb (length bytes) 2 then none else some (byte_at bytes 0, is_set (byte_at bytes 1))

unfoldable pub encode_mouse_wheel : ℤ → List ℕ
encode_mouse_wheel delta = write_be16 (to_u16 delta)

unfoldable pub decode_mouse_wheel : List ℕ → Option ℤ
decode_mouse_wheel bytes = if ltb (length bytes) 2 then none else some (to_i16 (read_be16 bytes 0))

unfoldable pub encode_key : ℕ → ℕ → Bool → Bool → List ℕ
encode_key vk scancode down extended =
    write_be32 vk ++ (write_be32 scancode ++ (flag down ∷ flag extended ∷ []))

unfoldable pub decode_key : List ℕ → Option (ℕ × ℕ × Bool × Bool)
decode_key bytes =
    if ltb (length bytes) 10
    then none
    else some
        (read_be32 bytes 0, read_be32 bytes 4, is_set (byte_at bytes 8), is_set (byte_at bytes 9))

unfoldable pub encode_modifier_sync : ℕ → List ℕ
encode_modifier_sync mask = mask ∷ []

unfoldable pub decode_modifier_sync : List ℕ → Option ℕ
decode_modifier_sync bytes = if ltb (length bytes) 1 then none else some (byte_at bytes 0)

-- The calls of src/input/inject.cpp, which reach the operating system.
pub data Injection : Type 0 where
  mouse_absolute : ℤ → ℤ → Injection
  mouse_button : ℕ → Bool → Injection
  mouse_wheel : ℤ → Injection
  key : ℕ → ℕ → Bool → Bool → Injection
  modifiers : ℕ → Injection

-- `dispatch_input_message` of src/discovery/tcp_client.cpp: what the Slave injects for a message.
unfoldable pub dispatch_input_message : ℕ → List ℕ → List Injection
dispatch_input_message msg_type payload =
    if msg_type == msg_mouse_absolute
    then elim (decode_mouse_absolute payload) [ none ↦ [] | some (x, y) ↦ mouse_absolute x y ∷ [] ]
    else if msg_type == msg_mouse_button
    then elim (decode_mouse_button payload) [ none ↦ [] | some (b, d) ↦ mouse_button b d ∷ [] ]
    else if msg_type == msg_mouse_wheel
    then elim (decode_mouse_wheel payload) [ none ↦ [] | some d ↦ mouse_wheel d ∷ [] ]
    else if msg_type == msg_key
    then elim (decode_key payload) [ none ↦ [] | some (v, s, d, e) ↦ key v s d e ∷ [] ]
    else if msg_type == msg_modifier_sync
    then elim (decode_modifier_sync payload) [ none ↦ [] | some m ↦ modifiers m ∷ [] ]
    else []
