-- ===== src/Discovery/Announce/RoundTrip.antt =====
-- An announcement is understood by the machines that hear it.
use no_cap_kvm.Prelude.{
  ℕ, ◌+◌, ◌-◌, ◌*◌, ◌/◌, ◌^◌, ◌<◌, min, ◌≡◌, refl, ap, false, not, some, List, [], ◌∷◌, ◌++◌,
  length, take, replicate, ltb, ◌==◌, ◌&&◌, arith, ltb-false, length-take, length-append,
  length-replicate,
}
use no_cap_kvm.Prelude.Bytes.{
  u8, u32, write_be32, read_be32, write_be16, read_be16, be32_value, be16_value,
}
use no_cap_kvm.Discovery.Types.{Role, master, slave, max_hostname_len}
use no_cap_kvm.Discovery.Announce.{
  role_byte, role_of, short_hostname, encode_announce, decode_announce, encode_device_id,
  decode_device_id,
}

take_front : (a b : List ℕ) → take (length a) (a ++ b) ≡ a
take_front [] b = refl
take_front (x ∷ a) b = ap (◌∷◌ x) (take_front a b)

-- The two words of a device id.
id_words :
    (id : ℕ)
    → id < 2 ^ 64
    → read_be32 (write_be32 (u32 (id / 2 ^ 32))) 0 * 2 ^ 32 + read_be32 (write_be32 (u32 id)) 0 ≡ id
unfolding read_be32 write_be32
id_words id h =
    let high = be32_value (u32 (id / 2 ^ 32)) (omega arith) in
    let low = be32_value (u32 id) (omega arith) in rw (high, low) (omega arith)

port_value : (port : ℕ) → port < 2 ^ 16 → read_be16 (write_be16 port) 0 ≡ port
unfolding read_be16 write_be16
port_value port h = be16_value port h

length-short_hostname :
    (name : List ℕ) → u8 (min (length name) max_hostname_len) ≡ length (short_hostname name)
length-short_hostname name = omega (arith, length-take (min (length name) max_hostname_len) name)

is_role : (role : Role) → (not (role_byte role == 0) && not (role_byte role == 1)) ≡ false
is_role master = refl
is_role slave = refl

role_of-byte : (role : Role) → role_of (role_byte role) ≡ role
role_of-byte master = refl
role_of-byte slave = refl

-- What a machine announces is what the others decode: its device id, role and port, for all values of
-- their machine types, and the first 32 bytes of its name.
pub decode-encode_announce :
    (device_id : ℕ) (role : Role) (tcp_port : ℕ) (hostname : List ℕ)
    → device_id < 2 ^ 64
    → tcp_port < 2 ^ 16
    → decode_announce (encode_announce device_id role tcp_port hostname)
      ≡ some (record {
        device_id = device_id;
        role = role;
        tcp_port = tcp_port;
        hostname = short_hostname hostname;
      })
unfolding decode_announce encode_announce read_be32 write_be32 read_be16 write_be16
decode-encode_announce device_id role tcp_port hostname i p =
    let name = short_hostname hostname in
    let len = length-short_hostname hostname in
    let pad : List ℕ = replicate (max_hostname_len - length name) 0 in
    let fits : ltb max_hostname_len (length name) ≡ false =
      ltb-false _ _
        (omega (arith, length-take (min (length hostname) max_hostname_len) hostname)) in
    let whole : length (name ++ pad) ≡ 32 = omega (
      arith,
      length-append {0} name pad,
      length-replicate {A = ℕ} (max_hostname_len - length name) 0,
      length-take (min (length hostname) max_hostname_len) hostname,
    ) in
    rw
      (
        len,
        whole,
        fits,
        is_role role,
        role_of-byte role,
        take_front name pad,
        id_words device_id i,
        port_value tcp_port p,
      )
      refl

-- The device id that one end of a connection sends is the one the other reads.
pub decode-encode_device_id :
    (device_id : ℕ) → device_id < 2 ^ 64 → decode_device_id (encode_device_id device_id) ≡ device_id
unfolding decode_device_id encode_device_id read_be32 write_be32
decode-encode_device_id device_id h = id_words device_id h
