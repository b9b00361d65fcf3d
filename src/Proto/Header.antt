-- ===== src/Proto/Header.antt =====
-- What the encoders guarantee of their fixed-width fields.
use data_diode.Prelude.{ℕ, ◌≤◌, some, ◌≡◌, refl, arith, length}
use data_diode.Decimal.{max_u64}
use data_diode.Decimal.RoundTrip.{length-zero_padded, parse_utf8-zero_padded}
use data_diode.Proto.{encode_parity_field, decode_parity_field, empty_hash}

-- The parity count of a START packet survives its trip, fills its 32 bytes, and disabling FEC
-- gives the empty hash.
pub decode-encode_parity_field :
    (n : ℕ)
    → n ≤ max_u64
    → (decode_parity_field (encode_parity_field n) ≡ some n)
      × (length (encode_parity_field n) ≡ 32)
      × (encode_parity_field 0 ≡ empty_hash)
decode-encode_parity_field n h = (
  unfold decode_parity_field encode_parity_field in
      parse_utf8-zero_padded max_u64 32 n (omega arith) (omega arith) h,
  unfold encode_parity_field in length-zero_padded 32 n (omega arith) (omega arith),
  unfold encode_parity_field in refl,
)
