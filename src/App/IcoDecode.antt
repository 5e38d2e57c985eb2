-- ===== src/App/IcoDecode.antt =====
-- src/app/ico_decode.cpp: the reader of icon files. A read of the buffer is none out of bounds,
-- which would be undefined behaviour in the code; size_t is wide enough for every sum and product.
pub mod Bounds
use no_cap_kvm.Prelude.{
  ℕ, zero, suc, ◌+◌, ◌-◌, ◌*◌, ◌/◌, ◌%◌, ◌^◌, Bool, true, false, ◌&&◌, ◌||◌, not, Option, none,
  some, List, [], ◌∷◌, ◌++◌, length, take, drop, ltb, leb, ◌==◌, if◌then◌else◌,
}
use no_cap_kvm.Prelude.Bytes.{byte_at, u32}
use no_cap_kvm.Discovery.Crypto.{Bytes}

pub record DecodedIcon : Type 0 where
  pub width : ℕ
  pub height : ℕ
  pub argb32_be : Bytes

pub record DirEntry : Type 0 where
  pub width : ℕ
  pub height : ℕ
  pub bit_count : ℕ
  pub bytes_in_res : ℕ
  pub image_offset : ℕ

-- A read out of bounds, nullopt, or a value.
pub data Decode (A : Type 0) : Type 0 where
  fault bail : Decode A
  done : A → Decode A

unfoldable pub slice : Bytes → ℕ → ℕ → Option Bytes
slice b off n = if leb (off + n) (length b) then some (take n (drop off b)) else none

-- What is done with bytes that are read.
abbrev pub reading : {A : Type 0} → Option Bytes → (Bytes → Decode A) → Decode A
reading none next = fault
reading (some bytes) next = next bytes

abbrev pub u16le : Bytes → ℕ
u16le bytes = byte_at bytes 0 + byte_at bytes 1 * 2 ^ 8

abbrev pub u32le : Bytes → ℕ
u32le bytes =
    byte_at bytes 0 + byte_at bytes 1 * 2 ^ 8 + byte_at bytes 2 * 2 ^ 16 + byte_at bytes 3 * 2 ^ 24

-- An int32_t read from these bytes is above 0.
abbrev pub is_positive : ℕ → Bool
is_positive word = ltb 0 word && ltb word (2 ^ 31)

-- A row of BGRA pixels as ARGB.
unfoldable pub argb_row : Bytes → Bytes
argb_row (blue ∷ green ∷ red ∷ alpha ∷ rest) = alpha ∷ red ∷ green ∷ blue ∷ argb_row rest
argb_row bytes = []

abbrev pub above : Option Bytes → Option Bytes → Option Bytes
above none rest = none
above (some row) none = none
above (some row) (some rest) = some (argb_row row ++ rest)

-- The image from the last of `height` rows of the file to the first.
unfoldable pub read_rows : Bytes → ℕ → ℕ → ℕ → Option Bytes
read_rows b pixels_off row_stride zero = some []
read_rows b pixels_off row_stride (suc k) =
    above (slice b (pixels_off + row_stride * k) row_stride) (read_rows b pixels_off row_stride k)

abbrev pub icon_of : ℕ → ℕ → Bytes → Decode DecodedIcon
icon_of width height pixels = done (record { width = width; height = height; argb32_be = pixels })

-- The part of decode_bmp_frame after the header.
unfoldable pub decode_pixels : Bytes → ℕ → ℕ → ℕ → Decode DecodedIcon
decode_pixels b pixels_off width height =
    if ltb (length b) (pixels_off + width * 4 * height)
    then bail
    else reading (read_rows b pixels_off (width * 4) height) (icon_of width height)

-- The tests on the header's fields.
unfoldable pub check_header : Bytes → ℕ → ℕ → ℕ → ℕ → ℕ → Decode DecodedIcon
check_header b pixels_off width height_x2 bit_count compression =
    if not (bit_count == 32) || not (compression == 0)
    then bail
    else if not (is_positive width) || not (is_positive height_x2) || not (height_x2 % 2 == 0)
    then bail
    else decode_pixels b pixels_off width (height_x2 / 2)

unfoldable pub decode_bmp_frame : Bytes → DirEntry → Decode DecodedIcon
decode_bmp_frame b entry =
    let off = entry.image_offset in
    if ltb (length b) (off + 40)
    then bail
    else reading (slice b off 4) (λ header_size.
      if ltb (u32le header_size) 40
      then bail
      else reading (slice b (off + 4) 4) (λ width. reading (slice b (off + 8) 4) (λ height_x2.
        reading (slice b (off + 14) 2) (λ bit_count. reading (slice b (off + 16) 4) (λ compression.
          check_header b (off + u32le header_size) (u32le width) (u32le height_x2) (u16le bit_count)
            (u32le compression))))))

-- kPngMagic
abbrev pub png_magic : Bytes
png_magic = 0x89 ∷ 80 ∷ 78 ∷ 71 ∷ 13 ∷ 10 ∷ 26 ∷ 10 ∷ []

abbrev pub same_bytes : Bytes → Bytes → Bool
same_bytes [] [] = true
same_bytes [] (y ∷ ys) = false
same_bytes (x ∷ xs) [] = false
same_bytes (x ∷ xs) (y ∷ ys) = (x == y) && same_bytes xs ys

abbrev pub not_png : Bytes → Decode Bool
not_png magic = done (same_bytes magic png_magic)

unfoldable pub is_png : Bytes → ℕ → Decode Bool
is_png b off = if ltb (length b) (off + 8) then done false else reading (slice b off 8) not_png

abbrev pub or_256 : ℕ → ℕ
or_256 n = if n == 0 then 256 else n

abbrev pub entry_of : Bytes → DirEntry
entry_of bytes = record {
  width = or_256 (byte_at bytes 0);
  height = or_256 (byte_at bytes 1);
  bit_count = u16le (drop 6 bytes);
  bytes_in_res = u32le (drop 8 bytes);
  image_offset = u32le (drop 12 bytes);
}

abbrev pub listed : Option Bytes → Option (List DirEntry) → Option (List DirEntry)
listed none rest = none
listed (some bytes) none = none
listed (some bytes) (some rest) = some (entry_of bytes ∷ rest)

-- The entries from number `i` on.
unfoldable pub read_entries : Bytes → ℕ → ℕ → Option (List DirEntry)
read_entries b i zero = some []
read_entries b i (suc n) = listed (slice b (6 + i * 16) 16) (read_entries b (i + 1) n)

-- What an attempt on one entry amounts to: an icon ends the loop.
abbrev pub or_else : Decode DecodedIcon → Decode DecodedIcon → Decode DecodedIcon
or_else fault rest = fault
or_else bail rest = rest
or_else (done icon) rest = done icon

abbrev pub unless_png : Bytes → DirEntry → Decode Bool → Decode DecodedIcon
unless_png b e fault = fault
unless_png b e bail = bail
unless_png b e (done true) = bail
unless_png b e (done false) = decode_bmp_frame b e

-- One entry; the sum of two uint32_t wraps.
unfoldable pub try_entry : Bytes → DirEntry → Decode DecodedIcon
try_entry b e =
    if ltb (length b) (u32 (e.image_offset + e.bytes_in_res))
    then bail
    else unless_png b e (is_png b e.image_offset)

unfoldable pub try_entries : Bytes → List DirEntry → Decode DecodedIcon
try_entries b [] = bail
try_entries b (e ∷ rest) = or_else (try_entry b e) (try_entries b rest)

abbrev pub try_all :
    Bytes → (List DirEntry → List DirEntry) → Option (List DirEntry) → Decode DecodedIcon
try_all b order none = fault
try_all b order (some entries) = try_entries b (order entries)

-- `file` is what the file holds, none if it cannot be opened; `order` is std::sort by the distance
-- of the width from 32, which leaves open how equal entries come out.
unfoldable pub load_ico_as_argb32 :
    (List DirEntry → List DirEntry) → Option Bytes → Decode DecodedIcon
load_ico_as_argb32 order none = bail
load_ico_as_argb32 order (some b) =
    if ltb (length b) 6
    then bail
    else reading (slice b 0 6) (λ header.
      if not (u16le header == 0) || not (u16le (drop 2 header) == 1)
      then bail
      else if (u16le (drop 4 header) == 0) || ltb (length b) (6 + u16le (drop 4 header) * 16)
      then bail
      else try_all b order (read_entries b 0 (u16le (drop 4 header))))
