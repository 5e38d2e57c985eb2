-- ===== src/Discovery/Payloads.antt =====
-- src/discovery/audio_port_protocol.cpp, ping_protocol.cpp and monitor_protocol.cpp: the payloads of
-- the messages that the two ends exchange beside the input.
pub mod RoundTrip
use no_cap_kvm.Prelude.{
  ℕ, zero, suc, ◌+◌, ◌*◌, min, Bool, true, false, not, Option, none, some, List, [], ◌∷◌, ◌++◌,
  length, take, drop, ltb, ◌==◌, if◌then◌else◌,
}
use no_cap_kvm.Prelude.Choice.{◌>>=◌}
use no_cap_kvm.Prelude.Bytes.{
  u8, byte_at, write_be32, read_be32, write_be16, read_be16, to_u32, to_i32,
}
use no_cap_kvm.Topology.Geometry.{MonitorInfo}
use no_cap_kvm.Input.Protocol.{flag, is_set}

unfoldable pub encode_audio_port : ℕ → List ℕ
encode_audio_port port = write_be16 port

unfoldable pub decode_audio_port : List ℕ → Option ℕ
decode_audio_port bytes = if ltb (length bytes) 2 then none else some (read_be16 bytes 0)

unfoldable pub encode_audio_settings : Bool → ℕ → ℕ → List ℕ
encode_audio_settings send_enabled sample_rate bit_depth =
    flag send_enabled ∷ (write_be32 sample_rate ++ (bit_depth ∷ []))

unfoldable pub decode_audio_settings : List ℕ → Option (Bool × ℕ × ℕ)
decode_audio_settings bytes =
    if ltb (length bytes) 6
    then none
    else some (is_set (byte_at bytes 0), read_be32 bytes 1, byte_at bytes 5)

unfoldable pub encode_ping_seq : ℕ → List ℕ
encode_ping_seq seq = write_be32 seq

unfoldable pub decode_ping_seq : List ℕ → Option ℕ
decode_ping_seq bytes = if ltb (length bytes) 4 then none else some (read_be32 bytes 0)

-- kMaxMonitors, kMaxNameLen and kFixedRecordLen
abbrev pub max_monitors : ℕ
max_monitors = 32

abbrev pub max_name_len : ℕ
max_name_len = 32

abbrev pub fixed_record_len : ℕ
fixed_record_len = 4 * 4 + 1 + 1

-- The name that goes out.
abbrev pub short_name : List ℕ → List ℕ
short_name name = take (min (length name) max_name_len) name

unfoldable pub encode_monitor : MonitorInfo → List ℕ
encode_monitor m =
    write_be32 (to_u32 m.x)
    ++ (write_be32 (to_u32 m.y)
        ++ (write_be32 (to_u32 m.width)
            ++ (write_be32 (to_u32 m.height)
                ++ (flag m.primary ∷ u8 (min (length m.name) max_name_len) ∷ short_name m.name))))

unfoldable pub encode_monitors : List MonitorInfo → List ℕ
encode_monitors [] = []
encode_monitors (m ∷ ms) = encode_monitor m ++ encode_monitors ms

unfoldable pub encode_monitor_list : List MonitorInfo → List ℕ
encode_monitor_list monitors =
    let count = u8 (min (length monitors) max_monitors) in
    count ∷ encode_monitors (take count monitors)

-- `data + offset` is the rest of the bytes here. A list that is cut short is none: the callers
-- look at `out` only when the result is true.
unfoldable pub decode_monitors : ℕ → List ℕ → Option (List MonitorInfo)
decode_monitors zero bytes = some []
decode_monitors (suc count) bytes =
    let name_len = byte_at bytes 17 in
    let after = drop fixed_record_len bytes in
    let rest = decode_monitors count (drop name_len after) in
    if ltb (length bytes) fixed_record_len
    then none
    else if ltb (length after) name_len
    then none
    else do
      ms ← rest
      some (
          record {
            x = to_i32 (read_be32 bytes 0);
            y = to_i32 (read_be32 bytes 4);
            width = to_i32 (read_be32 bytes 8);
            height = to_i32 (read_be32 bytes 12);
            primary = is_set (byte_at bytes 16);
            name = take name_len after;
          }
          ∷ ms)

unfoldable pub decode_monitor_list : List ℕ → Option (List MonitorInfo)
decode_monitor_list [] = none
decode_monitor_list (count ∷ bytes) = decode_monitors count bytes
