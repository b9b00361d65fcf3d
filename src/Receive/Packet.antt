-- ===== src/Receive/Packet.antt =====
-- `Packet` and `decode_packet` of diode_receive/src/main.rs.
pub mod RoundTrip
use data_diode.Prelude.{
  ℕ, Option, none, some, Bytes, length, drop, slice, ◌>>=◌, if◌then◌else◌, ltb,
}
use data_diode.Decimal.{max_u8, max_u64, parse_utf8}
use data_diode.Proto.{header_size}

pub record Packet : Type 0 where
  pub pkg_type : ℕ
  pub count : ℕ
  pub path_hash : Bytes
  pub data_hash : Bytes
  pub content : Bytes

-- The field `data` of the source is `content` here.
unfoldable pub decode_packet : Bytes → Option Packet
decode_packet raw = if ltb (length raw) header_size then none else (do
  pkg_type ← parse_utf8 max_u8 (slice 0 1 raw)
  count ← parse_utf8 max_u64 (slice 1 11 raw)
  some (record {
    pkg_type = pkg_type;
    count = count;
    path_hash = slice 11 43 raw;
    data_hash = slice 43 75 raw;
    content = drop 75 raw;
  }))
