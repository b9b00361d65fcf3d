-- ===== src/Tests/Wire.antt =====
-- The wire format and the UDP forwarder at work.
use data_diode.Prelude.{
  ℕ, ◌≤◌, ◌<◌, List, [], ◌∷◌, ◌++◌, ◌≢◌, none, some, ◌≡◌, refl, arith, Bytes, length, replicate,
  All,
}
use data_diode.Proto.{
  encode_packet, encode_parity_field, decode_parity_field, empty_hash, udp_max_forward_bytes,
}
use data_diode.Proto.Header.{decode-encode_parity_field}
use data_diode.Receive.Packet.{Packet, decode_packet}
use data_diode.Receive.Packet.RoundTrip.{decode_packet-encode_packet}
use data_diode.Forward.{new_forward_state, forward_all}
use data_diode.Forward.Bounds.{forward_all_bounded}
use data_diode.Tests.Samples.{codes}

decode-encode_parity_field_example :
    (decode_parity_field (encode_parity_field 100) ≡ some 100)
    × (length (encode_parity_field 100) ≡ 32)
    × (encode_parity_field 0 ≡ empty_hash)
decode-encode_parity_field_example = decode-encode_parity_field 100 (omega arith)

decode_packet-encode_packet_example :
    decode_packet (encode_packet 1 7 empty_hash empty_hash (codes "hello"))
    ≡ some (record {
      pkg_type = 1;
      count = 7;
      path_hash = empty_hash;
      data_hash = empty_hash;
      content = codes "hello";
    })
decode_packet-encode_packet_example =
    decode_packet-encode_packet 1 7 empty_hash empty_hash (codes "hello") (omega arith)
      (omega arith) refl refl

abbrev fragment : ℕ → Bytes → Packet
fragment count content = record {
  pkg_type = 4;
  count = count;
  path_hash = replicate 30 b'0' ++ b'0' ∷ b'5' ∷ [];
  data_hash = empty_hash;
  content = content;
}

abbrev fragments : List (ℕ × Packet)
fragments = (1, fragment 0 (codes "hel")) ∷ (2, fragment 1 (codes "lo")) ∷ []

forward_all_bounded_example :
    let f = forward_all (new_forward_state 0) fragments in
    All (λ datagram. (1 ≤ length datagram) × (length datagram ≤ udp_max_forward_bytes)) f.0
    × (f.1.current_id ≢ none → length f.1.full_packet < f.1.expected_size)
    × (f.1.expected_size ≤ udp_max_forward_bytes)
forward_all_bounded_example = forward_all_bounded 0 fragments
