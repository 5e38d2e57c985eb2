-- ===== src/Discovery/Payloads/RoundTrip.antt =====
-- What one end encodes is what the other decodes.
use no_cap_kvm.Prelude.{
  ℕ, zero, suc, ◌^◌, ◌<◌, min, ◌≡◌, refl, ap, subst, ◌∙◌, Bool, true, false, some, List, [], ◌∷◌,
  ◌++◌, length, length-append, length-take, ltb-false, take, drop, ltb, arith, map,
}
use no_cap_kvm.Prelude.Bytes.{
  u8, write_be32, read_be32, write_be16, read_be16, to_u32, to_i32, InI32, to_u32-lt, to_i32-to_u32,
  be32_value, be16_value,
}
use no_cap_kvm.Prelude.Int.{ℤ}
use no_cap_kvm.Topology.Geometry.{MonitorInfo}
use no_cap_kvm.Input.Protocol.{flag, is_set}
use no_cap_kvm.Discovery.Payloads.{
  encode_audio_port, decode_audio_port, encode_audio_settings, decode_audio_settings,
  encode_ping_seq, decode_ping_seq, short_name, max_monitors, max_name_len, fixed_record_len,
  encode_monitor, encode_monitors, encode_monitor_list, decode_monitors, decode_monitor_list,
}

-- A port, the audio settings and a ping's number are decoded as they were encoded, for all values of
-- their machine types.
pub decode-encode_numbers :
    (port : ℕ) (send_enabled : Bool) (sample_rate bit_depth seq : ℕ)
    → port < 2 ^ 16
    → sample_rate < 2 ^ 32
    → seq < 2 ^ 32
    → (decode_audio_port (encode_audio_port port) ≡ some port)
      × (decode_audio_settings (encode_audio_settings send_enabled sample_rate bit_depth)
          ≡ some (send_enabled, sample_rate, bit_depth))
      × (decode_ping_seq (encode_ping_seq seq) ≡ some seq)
unfolding decode_audio_port encode_audio_port decode_audio_settings encode_audio_settings
    decode_ping_seq encode_ping_seq write_be32 read_be32 write_be16 read_be16
decode-encode_numbers port true sample_rate bit_depth seq p r s = (
  ap some (be16_value port p),
  ap (λ v. some (true, v, bit_depth)) (be32_value sample_rate r),
  ap some (be32_value seq s),
)
decode-encode_numbers port false sample_rate bit_depth seq p r s = (
  ap some (be16_value port p),
  ap (λ v. some (false, v, bit_depth)) (be32_value sample_rate r),
  ap some (be32_value seq s),
)

-- The coordinates are those of an int32_t.
pub record FitsI32 (m : MonitorInfo) : Type 0 where
  pub x : InI32 m.x
  pub y : InI32 m.y
  pub width : InI32 m.width
  pub height : InI32 m.height

abbrev pub AllFitI32 : List MonitorInfo → Type 0
AllFitI32 [] = Unit {0}
AllFitI32 (m ∷ ms) = FitsI32 m × AllFitI32 ms

-- What is lost of a screen: its name after 32 bytes.
abbrev pub shorten : MonitorInfo → MonitorInfo
shorten m = record m { name = short_name m.name }

take_front : (a b : List ℕ) → take (length a) (a ++ b) ≡ a
take_front [] b = refl
take_front (x ∷ a) b = ap (◌∷◌ x) (take_front a b)

drop_front : (a b : List ℕ) → drop (length a) (a ++ b) ≡ b
drop_front [] b = refl
drop_front (x ∷ a) b = drop_front a b

is_set-flag : (b : Bool) → is_set (flag b) ≡ b
is_set-flag true = refl
is_set-flag false = refl

-- A coordinate is read back from the four bytes it was written to.
coordinate : (z : ℤ) → InI32 z → to_i32 (read_be32 (write_be32 (to_u32 z)) 0) ≡ z
unfolding write_be32 read_be32
coordinate z h = ap to_i32 (be32_value (to_u32 z) (to_u32-lt z)) ∙ to_i32-to_u32 z h

length-short_name : (name : List ℕ) → u8 (min (length name) max_name_len) ≡ length (short_name name)
length-short_name name = omega (arith, length-take (min (length name) max_name_len) name)

decode_monitors-encode :
    (m : MonitorInfo) (count : ℕ) (rest : List ℕ) (ms : List MonitorInfo)
    → FitsI32 m
    → decode_monitors count rest ≡ some ms
    → decode_monitors (suc count) (encode_monitor m ++ rest) ≡ some (shorten m ∷ ms)
unfolding decode_monitors encode_monitor write_be32 read_be32
decode_monitors-encode m count rest ms f e =
    let name = short_name m.name in
    let len = length-short_name m.name in
    let guard : ltb (length (encode_monitor m ++ rest)) fixed_record_len ≡ false =
      ltb-false _ _ (omega arith) in
    let guard2 : ltb (length (name ++ rest)) (length name) ≡ false =
      ltb-false _ _ (omega (arith, length-append {0} name rest)) in
    rw
      (
        guard,
        len,
        guard2,
        drop_front name rest,
        take_front name rest,
        e,
        coordinate m.x f.x,
        coordinate m.y f.y,
        coordinate m.width f.width,
        coordinate m.height f.height,
        is_set-flag m.primary,
      )
      refl

decode_none : decode_monitors 0 [] ≡ some []
unfolding decode_monitors
decode_none = refl

min_zero : (n : ℕ) → min n 0 ≡ 0
min_zero n = omega arith

zero_min : (n : ℕ) → min 0 n ≡ 0
zero_min n = omega arith

min-suc : (a b : ℕ) → min (suc a) (suc b) ≡ suc (min a b)
min-suc a b = omega arith

take_long : (n : ℕ) (ms : List MonitorInfo) → take (min (length ms) n) ms ≡ take n ms
take_long zero ms = rw (min_zero (length ms)) refl
take_long (suc n) [] = rw (zero_min (suc n)) refl
take_long (suc n) (m ∷ ms) = rw (min-suc (length ms) n) (ap (◌∷◌ m) (take_long n ms))

take-min :
    (ms : List MonitorInfo) → take (u8 (min (length ms) max_monitors)) ms ≡ take max_monitors ms
take-min ms =
    let word : u8 (min (length ms) max_monitors) ≡ min (length ms) max_monitors = omega arith in
    rw word (take_long max_monitors ms)

decode_all :
    (ms : List MonitorInfo)
    → AllFitI32 ms
    → decode_monitors (length ms) (encode_monitors ms) ≡ some (map shorten ms)
unfolding encode_monitors
decode_all [] f = decode_none
decode_all (m ∷ ms) f =
    decode_monitors-encode m (length ms) (encode_monitors ms) (map shorten ms) f.0
      (decode_all ms f.1)

AllFitI32-take : (n : ℕ) (ms : List MonitorInfo) → AllFitI32 ms → AllFitI32 (take n ms)
AllFitI32-take zero ms f = tt
AllFitI32-take (suc n) [] f = tt
AllFitI32-take (suc n) (m ∷ ms) f = (f.0, AllFitI32-take n ms f.1)

-- The Master learns the Slave's screens as they are: a list of screens whose coordinates are values
-- of int32_t is decoded, of the first 32 screens each with all its fields, the name up to 32 bytes.
pub decode-encode_monitor_list :
    (monitors : List MonitorInfo)
    → AllFitI32 monitors
    → decode_monitor_list (encode_monitor_list monitors)
      ≡ some (map shorten (take max_monitors monitors))
unfolding encode_monitor_list decode_monitor_list
decode-encode_monitor_list monitors f =
    let count = u8 (min (length monitors) max_monitors) in
    let sent = take count monitors in
    let whole : length sent ≡ count = omega (arith, length-take count monitors) in
    subst (λ n. decode_monitors n (encode_monitors sent) ≡ some (map shorten sent)) whole
      (decode_all sent (AllFitI32-take count monitors f))
    ∙ ap (λ ms. some (map shorten ms)) (take-min monitors)
