-- ===== src/Discovery/Announce.antt =====
-- src/discovery/protocol.cpp: the packet with which a machine announces itself, and the device id
-- that the two ends of a connection exchange first.
pub mod RoundTrip
use no_cap_kvm.Prelude.{
  ℕ, ◌+◌, ◌-◌, ◌*◌, ◌/◌, ◌^◌, min, Bool, true, false, not, Option, none, some, List, [], ◌∷◌, ◌++◌,
  length, take, drop, replicate, ltb, ◌==◌, ◌&&◌, ◌||◌, if◌then◌else◌,
}
use no_cap_kvm.Prelude.Bytes.{u8, u32, byte_at, write_be32, read_be32, write_be16, read_be16}
use no_cap_kvm.Discovery.Types.{
  Role, master, slave, protocol_magic, protocol_version, announce_packet_size, max_hostname_len,
}

pub record DecodedAnnounce : Type 0 where
  pub device_id : ℕ
  pub role : Role
  pub tcp_port : ℕ
  pub hostname : List ℕ

abbrev pub role_byte : Role → ℕ
role_byte master = 0
role_byte slave = 1

abbrev pub role_of : ℕ → Role
role_of byte = if byte == 0 then master else slave

-- The name that goes out.
abbrev pub short_hostname : List ℕ → List ℕ
short_hostname hostname = take (min (length hostname) max_hostname_len) hostname

unfoldable pub encode_announce : ℕ → Role → ℕ → List ℕ → List ℕ
encode_announce device_id role tcp_port hostname =
    let hostname_len = u8 (min (length hostname) max_hostname_len) in
    write_be32 protocol_magic
    ++ (write_be16 protocol_version
        ++ (write_be32 (u32 (device_id / 2 ^ 32))
            ++ (write_be32 (u32 device_id)
                ++ (role_byte role
                    ∷ (write_be16 tcp_port
                        ++ (hostname_len
                            ∷ (short_hostname hostname
                                ++ replicate (max_hostname_len - hostname_len) 0)))))))

unfoldable pub decode_announce : List ℕ → Option DecodedAnnounce
decode_announce bytes =
    if not (length bytes == announce_packet_size)
    then none
    else if not (read_be32 bytes 0 == protocol_magic)
    then none
    else if not (read_be16 bytes 4 == protocol_version)
    then none
    else if not (byte_at bytes 14 == 0) && not (byte_at bytes 14 == 1)
    then none
    else if ltb max_hostname_len (byte_at bytes 17)
    then none
    else some (record {
      device_id = read_be32 bytes 6 * 2 ^ 32 + read_be32 bytes 10;
      role = role_of (byte_at bytes 14);
      tcp_port = read_be16 bytes 15;
      hostname = take (byte_at bytes 17) (drop 18 bytes);
    })

unfoldable pub encode_device_id : ℕ → List ℕ
encode_device_id device_id = write_be32 (u32 (device_id / 2 ^ 32)) ++ write_be32 (u32 device_id)

unfoldable pub decode_device_id : List ℕ → ℕ
decode_device_id bytes = read_be32 bytes 0 * 2 ^ 32 + read_be32 bytes 4
