-- ===== src/Prelude/Bytes.antt =====
-- Bytes on the wire: big-endian fields of two and four bytes, and int32_t as a 32-bit pattern.
-- A byte is a number below 256. The `|` of shifted bytes is written as a sum.
use no_cap_kvm.Prelude.Tests.{ltb, if◌then◌else◌}
use no_cap_kvm.Prelude.Lists.{get_or}
use no_cap_kvm.Prelude.Int.{ℤ, pos, negsuc, pos_part, neg_part}
use Prim.Native.Nat.{ℕ, ◌+◌, ◌-◌, ◌*◌, ◌/◌, ◌%◌, ◌^◌, ◌≤◌, ◌<◌}
use mathlib.Core.Path.{◌≡◌}
use mathlib.Core.List.{List, [], ◌∷◌, ◌++◌}
use native.Mathlib.Omega.{arith}

abbrev pub u8 : ℕ → ℕ
u8 n = n % 256

abbrev pub u16 : ℕ → ℕ
u16 n = n % 2 ^ 16

abbrev pub u32 : ℕ → ℕ
u32 n = n % 2 ^ 32

abbrev pub u64 : ℕ → ℕ
u64 n = n % 2 ^ 64

-- The byte at `data + i`; the callers check the length before they read.
abbrev pub byte_at : List ℕ → ℕ → ℕ
byte_at bytes i = get_or bytes i 0

unfoldable pub write_be32 : ℕ → List ℕ
write_be32 v = u8 (v / 2 ^ 24) ∷ u8 (v / 2 ^ 16) ∷ u8 (v / 2 ^ 8) ∷ u8 v ∷ []

unfoldable pub read_be32 : List ℕ → ℕ → ℕ
read_be32 bytes i =
    byte_at bytes i * 2 ^ 24
    + byte_at bytes (i + 1) * 2 ^ 16
    + byte_at bytes (i + 2) * 2 ^ 8
    + byte_at bytes (i + 3)

unfoldable pub write_be16 : ℕ → List ℕ
write_be16 v = u8 (v / 2 ^ 8) ∷ u8 v ∷ []

unfoldable pub read_be16 : List ℕ → ℕ → ℕ
read_be16 bytes i = byte_at bytes i * 2 ^ 8 + byte_at bytes (i + 1)

-- The four bytes of a field make up its value again.
pub be32_value :
    (v : ℕ)
    → v < 2 ^ 32
    → u8 (v / 2 ^ 24) * 2 ^ 24 + u8 (v / 2 ^ 16) * 2 ^ 16 + u8 (v / 2 ^ 8) * 2 ^ 8 + u8 v ≡ v
be32_value v h = omega arith

pub be16_value : (v : ℕ) → v < 2 ^ 16 → u8 (v / 2 ^ 8) * 2 ^ 8 + u8 v ≡ v
be16_value v h = omega arith

-- static_cast<uint32_t> of an int32_t, and back.
unfoldable pub to_u32 : ℤ → ℕ
to_u32 (pos n) = n % 2 ^ 32
to_u32 (negsuc n) = 2 ^ 32 - 1 - n % 2 ^ 32

unfoldable pub to_i32 : ℕ → ℤ
to_i32 w = if ltb w (2 ^ 31) then pos w else negsuc (2 ^ 32 - w - 1)

-- The values of an int32_t.
abbrev pub InI32 : ℤ → Type 0
InI32 z = (pos_part z < 2 ^ 31) × (neg_part z ≤ 2 ^ 31)

pub to_u32-lt : (z : ℤ) → to_u32 z < 2 ^ 32
unfolding to_u32
to_u32-lt (pos n) = omega arith
to_u32-lt (negsuc n) = omega arith

pub to_i32-to_u32 : (z : ℤ) → InI32 z → to_i32 (to_u32 z) ≡ z
unfolding to_u32 to_i32
to_i32-to_u32 (pos n) h = ground arith
to_i32-to_u32 (negsuc n) h = ground arith

-- A byte string: every element is below 256.
abbrev pub AreBytes : List ℕ → Type 0
AreBytes [] = Unit {0}
AreBytes (b ∷ bs) = (b < 256) × AreBytes bs

-- The same for int16_t.
unfoldable pub to_u16 : ℤ → ℕ
to_u16 (pos n) = n % 2 ^ 16
to_u16 (negsuc n) = 2 ^ 16 - 1 - n % 2 ^ 16

unfoldable pub to_i16 : ℕ → ℤ
to_i16 w = if ltb w (2 ^ 15) then pos w else negsuc (2 ^ 16 - w - 1)

abbrev pub InI16 : ℤ → Type 0
InI16 z = (pos_part z < 2 ^ 15) × (neg_part z ≤ 2 ^ 15)

pub to_u16-lt : (z : ℤ) → to_u16 z < 2 ^ 16
unfolding to_u16
to_u16-lt (pos n) = omega arith
to_u16-lt (negsuc n) = omega arith

pub to_i16-to_u16 : (z : ℤ) → InI16 z → to_i16 (to_u16 z) ≡ z
unfolding to_u16 to_i16
to_i16-to_u16 (pos n) h = ground arith
to_i16-to_u16 (negsuc n) h = ground arith

-- A field that was written is read back, wherever the rest of the message stands.
pub read_be32-write_be32 :
    (v : ℕ) (rest : List ℕ) → v < 2 ^ 32 → read_be32 (write_be32 v ++ rest) 0 ≡ v
unfolding read_be32 write_be32
read_be32-write_be32 v rest h = be32_value v h

pub read_be16-write_be16 :
    (v : ℕ) (rest : List ℕ) → v < 2 ^ 16 → read_be16 (write_be16 v ++ rest) 0 ≡ v
unfolding read_be16 write_be16
read_be16-write_be16 v rest h = be16_value v h
