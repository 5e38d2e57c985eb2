-- ===== src/Input/Protocol/RoundTrip.antt =====
-- What the Master encodes is what the Slave injects.
use no_cap_kvm.Prelude.{ℕ, ◌<◌, ◌^◌, Bool, some, List, [], ◌∷◌, ◌++◌, ◌≡◌, arith}
use no_cap_kvm.Prelude.Int.{ℤ}
use no_cap_kvm.Prelude.Bytes.{
  InI32, InI16, read_be32, write_be32, read_be16, write_be16, be32_value, be16_value, to_u32-lt,
  to_i32-to_u32, to_u32, to_u16-lt, to_i16-to_u16, to_u16,
}
use no_cap_kvm.Input.Protocol.{
  Injection, mouse_absolute, mouse_button, mouse_wheel, key, modifiers, encode_mouse_absolute,
  encode_mouse_button, encode_mouse_wheel, encode_key, encode_modifier_sync, decode_mouse_absolute,
  decode_mouse_button, decode_mouse_wheel, decode_key, decode_modifier_sync, dispatch_input_message,
  msg_mouse_absolute, msg_mouse_button, msg_mouse_wheel, msg_key, msg_modifier_sync,
}

pub decode-encode_mouse_absolute :
    (x y : ℤ) (rest : List ℕ)
    → InI32 x
    → InI32 y
    → decode_mouse_absolute (encode_mouse_absolute x y ++ rest) ≡ some (x, y)
unfolding decode_mouse_absolute encode_mouse_absolute read_be32 write_be32
decode-encode_mouse_absolute x y rest hx hy = ground (
  arith,
  be32_value (to_u32 x) (to_u32-lt x),
  be32_value (to_u32 y) (to_u32-lt y),
  to_i32-to_u32 x hx,
  to_i32-to_u32 y hy,
)

pub decode-encode_mouse_button :
    (b : ℕ) (d : Bool) (rest : List ℕ)
    → decode_mouse_button (encode_mouse_button b d ++ rest) ≡ some (b, d)
unfolding decode_mouse_button encode_mouse_button
decode-encode_mouse_button b d rest = ground arith

pub decode-encode_mouse_wheel :
    (d : ℤ) (rest : List ℕ) → InI16 d → decode_mouse_wheel (encode_mouse_wheel d ++ rest) ≡ some d
unfolding decode_mouse_wheel encode_mouse_wheel read_be16 write_be16
decode-encode_mouse_wheel d rest h =
    ground (arith, be16_value (to_u16 d) (to_u16-lt d), to_i16-to_u16 d h)

pub decode-encode_key :
    (v s : ℕ) (d e : Bool) (rest : List ℕ)
    → v < 2 ^ 32
    → s < 2 ^ 32
    → decode_key (encode_key v s d e ++ rest) ≡ some (v, s, d, e)
unfolding decode_key encode_key read_be32 write_be32
decode-encode_key v s d e rest hv hs = ground (arith, be32_value v hv, be32_value s hs)

pub decode-encode_modifier_sync :
    (m : ℕ) (rest : List ℕ) → decode_modifier_sync (encode_modifier_sync m ++ rest) ≡ some m
unfolding decode_modifier_sync encode_modifier_sync
decode-encode_modifier_sync m rest = ground arith

-- The message by which src/app/input_pump.cpp asks for an injection.
unfoldable pub message : Injection → ℕ × List ℕ
message (mouse_absolute x y) = (msg_mouse_absolute, encode_mouse_absolute x y)
message (mouse_button b d) = (msg_mouse_button, encode_mouse_button b d)
message (mouse_wheel d) = (msg_mouse_wheel, encode_mouse_wheel d)
message (key v s d e) = (msg_key, encode_key v s d e)
message (modifiers m) = (msg_modifier_sync, encode_modifier_sync m)

-- The arguments are values of their C++ types.
abbrev pub IsTyped : Injection → Type 0
IsTyped (mouse_absolute x y) = InI32 x × InI32 y
IsTyped (mouse_button b d) = b < 256
IsTyped (mouse_wheel d) = InI16 d
IsTyped (key v s d e) = (v < 2 ^ 32) × (s < 2 ^ 32)
IsTyped (modifiers m) = m < 256

-- For every injection with arguments of their C++ types, the Slave's dispatch of the Master's message
-- makes exactly that injection, also with further bytes behind the payload.
pub dispatch-message :
    (i : Injection) (rest : List ℕ)
    → IsTyped i
    → dispatch_input_message (message i).0 ((message i).1 ++ rest) ≡ i ∷ []
unfolding message dispatch_input_message
dispatch-message (mouse_absolute x y) rest h = rw (decode-encode_mouse_absolute x y rest h.0 h.1)
dispatch-message (mouse_button b d) rest h = rw (decode-encode_mouse_button b d rest)
dispatch-message (mouse_wheel d) rest h = rw (decode-encode_mouse_wheel d rest h)
dispatch-message (key v s d e) rest h = rw (decode-encode_key v s d e rest h.0 h.1)
dispatch-message (modifiers m) rest h = rw (decode-encode_modifier_sync m rest)
