-- ===== src/App/IcoDecode/Bounds.antt =====
-- The icon reader stays inside its buffer, and an icon that it returns is complete.
use no_cap_kvm.Prelude.{
  ℕ, zero, suc, ◌+◌, ◌*◌, ◌/◌, ◌%◌, ◌≤◌, Bool, true, false, ◌||◌, not, Option, none, some, List, [],
  ◌∷◌, ◌++◌, ◌≡◌, refl, length, length-append, length-take, length-drop, take, drop, ltb, leb, ◌==◌,
  if◌then◌else◌, if_intro, arith, Bool-cases, inl, inr,
}
use no_cap_kvm.Prelude.Bytes.{u32}
use no_cap_kvm.Discovery.Crypto.{Bytes}
use no_cap_kvm.App.IcoDecode.{
  DecodedIcon, DirEntry, Decode, fault, bail, done, slice, reading, u16le, u32le, is_positive,
  argb_row, read_rows, decode_pixels, check_header, decode_bmp_frame, same_bytes, png_magic, is_png,
  entry_of, read_entries, or_else, unless_png, try_entry, try_entries, try_all, load_ico_as_argb32,
}

-- What a decoder may come to: never a read out of bounds, and an icon only with all its pixels.
abbrev pub IsSafe : Decode DecodedIcon → Type 0
IsSafe fault = ⊥
IsSafe bail = Unit {0}
IsSafe (done icon) = length icon.argb32_be ≡ icon.width * 4 * icon.height

-- A read inside the buffer gives as many bytes as were asked for.
slice_lem :
    (b : Bytes) (off n : ℕ)
    → off + n ≤ length b
    → (bytes : Bytes) × (slice b off n ≡ some bytes) × (length bytes ≡ n)
unfolding slice
slice_lem b off n h =
    let ok : leb (off + n) (length b) ≡ true = ground arith in
    (take n (drop off b), rw ok refl, omega (arith, length-take n (drop off b), length-drop off b))

reading-IsSafe :
    (b : Bytes) (off n : ℕ) (next : Bytes → Decode DecodedIcon)
    → off + n ≤ length b
    → ((bytes : Bytes) → IsSafe (next bytes))
    → IsSafe (reading (slice b off n) next)
reading-IsSafe b off n next h safe = let (bytes, e, len) = slice_lem b off n h in rw e (safe bytes)

length-argb_row : (w : ℕ) (bytes : Bytes) → length bytes ≡ w * 4 → length (argb_row bytes) ≡ w * 4
unfolding argb_row
length-argb_row zero [] h = refl
length-argb_row zero (a ∷ bs) h = absurd (omega arith)
length-argb_row (suc w) [] h = absurd (omega arith)
length-argb_row (suc w) (a ∷ []) h = absurd (omega arith)
length-argb_row (suc w) (a ∷ b ∷ []) h = absurd (omega arith)
length-argb_row (suc w) (a ∷ b ∷ c ∷ []) h = absurd (omega arith)
length-argb_row (suc w) (a ∷ b ∷ c ∷ d ∷ rest) h =
    omega (arith, length-argb_row w rest (omega arith))

mul_suc : (m n : ℕ) → m * suc n ≡ m * n + m
mul_suc m n = grind arith

read_rows_lem :
    (b : Bytes) (pixels_off w height : ℕ)
    → pixels_off + w * 4 * height ≤ length b
    → (pixels : Bytes) × (read_rows b pixels_off (w * 4) height ≡ some pixels)
      × (length pixels ≡ w * 4 * height)
unfolding read_rows
read_rows_lem b pixels_off w zero h = ([], refl, grind arith)
read_rows_lem b pixels_off w (suc k) h =
    let rows = mul_suc (w * 4) k in
    let (row, e, len) = slice_lem b (pixels_off + w * 4 * k) (w * 4) (omega arith) in
    let (rest, f, more) = read_rows_lem b pixels_off w k (omega arith) in
    (
      argb_row row ++ rest,
      rw (e, f) refl,
      omega (arith, length-append {0} (argb_row row) rest, length-argb_row w row len),
    )

decode_pixels-IsSafe :
    (b : Bytes) (pixels_off w height : ℕ) → IsSafe (decode_pixels b pixels_off w height)
unfolding decode_pixels
decode_pixels-IsSafe b pixels_off w height =
    elim (Bool-cases (ltb (length b) (pixels_off + w * 4 * height))) [
      | inl short ↦ rw (decode_pixels, short) tt
      | inr fits ↦
          let (pixels, e, len) = read_rows_lem b pixels_off w height (ground arith) in
          rw (decode_pixels, fits, e) len
    ]

check_header-IsSafe :
    (b : Bytes) (off w h2 bits comp : ℕ) → IsSafe (check_header b off w h2 bits comp)
unfolding check_header
check_header-IsSafe b off w h2 bits comp =
    if_intro IsSafe (not (bits == 32) || not (comp == 0)) {x = bail} tt (
      if_intro IsSafe (not (is_positive w) || not (is_positive h2) || not (h2 % 2 == 0)) {x = bail}
        tt (decode_pixels-IsSafe b off w (h2 / 2)))

decode_bmp_frame-IsSafe : (b : Bytes) (e : DirEntry) → IsSafe (decode_bmp_frame b e)
unfolding decode_bmp_frame
decode_bmp_frame-IsSafe b e =
    let off = e.image_offset in
    elim (Bool-cases (ltb (length b) (off + 40))) [
      | inl short ↦ rw (decode_bmp_frame, short) tt
      | inr room ↦
          let fits : off + 40 ≤ length b = ground arith in
          rw (decode_bmp_frame, room)
            (reading-IsSafe b off 4 _ (omega arith) (λ header_size.
              if_intro IsSafe (ltb (u32le header_size) 40) {x = bail} tt (
                reading-IsSafe b (off + 4) 4 _ (omega arith) (λ width.
                  reading-IsSafe b (off + 8) 4 _ (omega arith) (λ height_x2.
                    reading-IsSafe b (off + 14) 2 _ (omega arith) (λ bit_count.
                      reading-IsSafe b (off + 16) 4 _ (omega arith) (λ compression.
                        check_header-IsSafe b (off + u32le header_size) (u32le width)
                          (u32le height_x2) (u16le bit_count) (u32le compression))))))))
    ]

is_png_lem : (b : Bytes) (off : ℕ) → (png : Bool) × (is_png b off ≡ done png)
unfolding is_png
is_png_lem b off = elim (Bool-cases (ltb (length b) (off + 8))) [
  | inl short ↦ (false, rw (is_png, short) refl)
  | inr room ↦
      let (magic, e, len) = slice_lem b off 8 (ground arith) in
      (same_bytes magic png_magic, rw (is_png, room, e) refl)
]

unless_png-IsSafe : (b : Bytes) (e : DirEntry) (png : Bool) → IsSafe (unless_png b e (done png))
unless_png-IsSafe b e true = tt
unless_png-IsSafe b e false = decode_bmp_frame-IsSafe b e

try_entry-IsSafe : (b : Bytes) (e : DirEntry) → IsSafe (try_entry b e)
unfolding try_entry
try_entry-IsSafe b e =
    let (png, known) = is_png_lem b e.image_offset in
    if_intro IsSafe (ltb (length b) (u32 (e.image_offset + e.bytes_in_res))) {x = bail} tt
      (rw known (unless_png-IsSafe b e png))

or_else-IsSafe : (d rest : Decode DecodedIcon) → IsSafe d → IsSafe rest → IsSafe (or_else d rest)
or_else-IsSafe fault rest h k = h
or_else-IsSafe bail rest h k = k
or_else-IsSafe (done icon) rest h k = h

try_entries-IsSafe : (b : Bytes) (es : List DirEntry) → IsSafe (try_entries b es)
unfolding try_entries
try_entries-IsSafe b [] = tt
try_entries-IsSafe b (e ∷ rest) =
    or_else-IsSafe (try_entry b e) (try_entries b rest) (try_entry-IsSafe b e)
      (try_entries-IsSafe b rest)

-- The whole directory is inside the file.
read_entries_lem :
    (b : Bytes) (i n : ℕ)
    → 6 + (i + n) * 16 ≤ length b
    → (es : List DirEntry) × (read_entries b i n ≡ some es)
unfolding read_entries
read_entries_lem b i zero h = ([], refl)
read_entries_lem b i (suc n) h =
    let (bytes, e, len) = slice_lem b (6 + i * 16) 16 (omega arith) in
    let (rest, f) = read_entries_lem b (i + 1) n (omega arith) in
    (entry_of bytes ∷ rest, rw (e, f) refl)

directory-IsSafe :
    (order : List DirEntry → List DirEntry) (b : Bytes) (count : ℕ)
    → IsSafe (
        if (count == 0) || ltb (length b) (6 + count * 16)
        then bail
        else try_all b order (read_entries b 0 count))
directory-IsSafe order b count =
    elim (Bool-cases ((count == 0) || ltb (length b) (6 + count * 16))) [
      | inl bad ↦ rw bad tt
      | inr good ↦
          let (es, e) = read_entries_lem b 0 count (ground arith) in
          rw (good, e) (try_entries-IsSafe b (order es))
    ]

-- Whatever the file holds, and however the sort orders equal entries: the reader does not read out of
-- bounds, and an icon that it returns has four bytes for each of its pixels.
pub load_ico_as_argb32-IsSafe :
    (order : List DirEntry → List DirEntry) (file : Option Bytes)
    → IsSafe (load_ico_as_argb32 order file)
unfolding load_ico_as_argb32
load_ico_as_argb32-IsSafe order none = tt
load_ico_as_argb32-IsSafe order (some b) = elim (Bool-cases (ltb (length b) 6)) [
  | inl short ↦ rw (load_ico_as_argb32, short) tt
  | inr room ↦
      rw (load_ico_as_argb32, room)
        (reading-IsSafe b 0 6 _ (ground arith) (λ header.
          if_intro IsSafe (not (u16le header == 0) || not (u16le (drop 2 header) == 1)) {x = bail}
            tt (directory-IsSafe order b (u16le (drop 4 header)))))
]
