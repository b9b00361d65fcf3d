-- ===== src/Proto.antt =====
-- The wire format, diode_common/src/proto.rs and hash.rs: the constants, the packet encoder, the
-- parity field of a START packet and the MD5 text. The `md5` crate is the parameter `md5`.
pub mod Header
use data_diode.Prelude.{
  ℕ, ◌+◌, ◌-◌, ◌*◌, ◌/◌, ◌%◌, [], ◌∷◌, ◌++◌, Option, ◌≡◌, arith, Bytes, length, replicate,
  if◌then◌else◌, ltb,
}
use data_diode.Decimal.{max_u64, display, zero_padded, parse_utf8}

abbrev pub chunk_size : ℕ
chunk_size = 940

abbrev pub shard_size : ℕ
shard_size = 960

abbrev pub header_size : ℕ
header_size = 1 + 10 + 32 + 32

abbrev pub batch_data_chunks : ℕ
batch_data_chunks = 1000

abbrev pub batch_parity_chunks : ℕ
batch_parity_chunks = 100

abbrev pub pkg_type_start : ℕ
pkg_type_start = 0

abbrev pub pkg_type_data : ℕ
pkg_type_data = 1

abbrev pub pkg_type_end : ℕ
pkg_type_end = 2

abbrev pub pkg_type_parity : ℕ
pkg_type_parity = 3

abbrev pub pkg_type_udp : ℕ
pkg_type_udp = 4

abbrev pub empty_hash : Bytes
empty_hash = replicate 32 b'0'

abbrev pub udp_max_forward_bytes : ℕ
udp_max_forward_bytes = 4 * 1024 * 1024

-- The buffer is cleared, so nothing of its old contents `buf` is left.
unfoldable pub encode_packet_into : Bytes → ℕ → ℕ → Bytes → Bytes → Bytes → Bytes
unfolding zero_padded
encode_packet_into buf pkg_type count_or_filesize path_hash data_hash payload =
    display pkg_type ++ (zero_padded 10 count_or_filesize ++ (path_hash ++ (data_hash ++ payload)))

unfoldable pub encode_packet : ℕ → ℕ → Bytes → Bytes → Bytes → Bytes
unfolding encode_packet_into
encode_packet pkg_type count_or_filesize path_hash data_hash payload =
    encode_packet_into [] pkg_type count_or_filesize path_hash data_hash payload

unfoldable pub encode_parity_field : ℕ → Bytes
unfolding zero_padded
encode_parity_field parity_count = zero_padded 32 parity_count

unfoldable pub decode_parity_field : Bytes → Option ℕ
unfolding parse_utf8
decode_parity_field bytes = parse_utf8 max_u64 bytes

-- `{:02x}` of a byte.
abbrev hex_digit : ℕ → ℕ
hex_digit d = if ltb d 10 then b'0' + d else b'a' + (d - 10)

unfoldable pub hex : Bytes → Bytes
hex [] = []
hex (b ∷ s) = hex_digit (b / 16) ∷ hex_digit (b % 16) ∷ hex s

module _ (md5 : Bytes → Bytes) where
  unfoldable pub md5_hex : Bytes → Bytes
  unfolding hex
  md5_hex content = hex (md5 content)

pub length-hex : (s : Bytes) → length (hex s) ≡ 2 * length s
unfolding hex
length-hex [] = omega arith
length-hex (b ∷ s) = omega (arith, length-hex s)
