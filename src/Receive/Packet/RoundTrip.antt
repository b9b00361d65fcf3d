-- ===== src/Receive/Packet/RoundTrip.antt =====
-- What the receiver makes of a packet that the sender has encoded.
use data_diode.Prelude.{
  ℕ, ◌+◌, ◌^◌, ◌≤◌, ◌<◌, ◌++◌, some, ◌≡◌, ◌∙◌, arith, Bytes, length, length-append, drop, slice,
  take-append, drop-append, drop-drop, ltb_of_le,
}
use data_diode.Decimal.{max_u8, max_u64, parse_utf8, display, zero_padded}
use data_diode.Decimal.RoundTrip.{
  length-display, length-zero_padded, parse_utf8-display, parse_utf8-zero_padded,
}
use data_diode.Proto.{encode_packet, header_size}
use data_diode.Receive.Packet.{decode_packet}

decode_packet_of_fields :
    (raw : Bytes) {t n : ℕ}
    → header_size ≤ length raw
    → parse_utf8 max_u8 (slice 0 1 raw) ≡ some t
    → parse_utf8 max_u64 (slice 1 11 raw) ≡ some n
    → decode_packet raw
      ≡ some (record {
        pkg_type = t;
        count = n;
        path_hash = slice 11 43 raw;
        data_hash = slice 43 75 raw;
        content = drop 75 raw;
      })
unfolding decode_packet
decode_packet_of_fields raw h ht hn = rw (ltb_of_le (length raw) header_size h, ht, hn)

-- The five fields of a packet, each cut out of the bytes at its place.
module _ (a b c d e : Bytes) (ha : length a ≡ 1) (hb : length b ≡ 10) (hc : length c ≡ 32)
    (hd : length d ≡ 32) where
  pub raw : Bytes
  raw = a ++ (b ++ (c ++ (d ++ e)))

  drop_1 : drop 1 raw ≡ b ++ (c ++ (d ++ e))
  unfolding raw
  drop_1 = drop-append 1 a _ ha

  drop_11 : drop 11 raw ≡ c ++ (d ++ e)
  drop_11 = drop-drop 1 10 raw ∙ rw drop_1 (drop-append 10 b _ hb)

  drop_43 : drop 43 raw ≡ d ++ e
  drop_43 = drop-drop 11 32 raw ∙ rw drop_11 (drop-append 32 c _ hc)

  drop_75 : drop 75 raw ≡ e
  drop_75 = drop-drop 43 32 raw ∙ rw drop_43 (drop-append 32 d _ hd)

  slice_0 : slice 0 1 raw ≡ a
  unfolding raw
  slice_0 = take-append 1 a _ ha

  slice_1 : slice 1 11 raw ≡ b
  slice_1 = rw drop_1 (take-append 10 b _ hb)

  slice_11 : slice 11 43 raw ≡ c
  slice_11 = rw drop_11 (take-append 32 c _ hc)

  slice_43 : slice 43 75 raw ≡ d
  slice_43 = rw drop_43 (take-append 32 d _ hd)

  length-raw : length raw ≡ 75 + length e
  unfolding raw
  length-raw = omega (
    arith,
    length-append a (b ++ (c ++ (d ++ e))),
    length-append b (c ++ (d ++ e)),
    length-append c (d ++ e),
    length-append d e,
  )

  pub decode_packet-raw :
      {t n : ℕ}
      → parse_utf8 max_u8 a ≡ some t
      → parse_utf8 max_u64 b ≡ some n
      → decode_packet raw
        ≡ some (record { pkg_type = t; count = n; path_hash = c; data_hash = d; content = e })
  decode_packet-raw {t} {n} ht hn =
      decode_packet_of_fields raw {t = t} {n = n} (omega (arith, length-raw)) (rw slice_0 ht)
        (rw slice_1 hn)
      ∙ rw (slice_11, slice_43, drop_75)

-- Every packet that the sender can form is decoded to the type, count, hashes and payload that it
-- was encoded from: the type has one digit, the count ten and each hash 32 bytes.
pub decode_packet-encode_packet :
    (pkg_type count : ℕ) (path_hash data_hash payload : Bytes)
    → pkg_type < 10
    → count < 10 ^ 10
    → length path_hash ≡ 32
    → length data_hash ≡ 32
    → decode_packet (encode_packet pkg_type count path_hash data_hash payload)
      ≡ some (record {
        pkg_type = pkg_type;
        count = count;
        path_hash = path_hash;
        data_hash = data_hash;
        content = payload;
      })
decode_packet-encode_packet pkg_type count path_hash data_hash payload ht hn hp hd =
    unfold encode_packet raw in
    decode_packet-raw (display pkg_type) (zero_padded 10 count) path_hash data_hash payload
      (length-display pkg_type ht) (length-zero_padded 10 count (omega arith) hn) hp hd
      (parse_utf8-display max_u8 pkg_type (omega arith) (omega arith))
      (parse_utf8-zero_padded max_u64 10 count (omega arith) (omega arith) (omega arith))
