-- ===== src/Send/File/Packets.antt =====
-- The packets that a file is to be sent as, without the loop that sends them.
use data_diode.Prelude.{
  ℕ, zero, suc, ◌+◌, ◌*◌, List, [], ◌∷◌, ◌++◌, none, some, Bytes, length, take, drop, replicate,
}
use data_diode.Proto.{
  batch_data_chunks, batch_parity_chunks, pkg_type_start, pkg_type_data, pkg_type_parity,
  pkg_type_end, empty_hash, encode_packet, encode_packet_into, encode_parity_field, md5_hex,
}
use data_diode.Receive.State.{wrapping_add, wrapping_mul}
use data_diode.Send.{chunks}
use data_diode.Send.Link.{control_resend}
use data_diode.Send.Parity.{ReedSolomonEncoder, encode_batch}

-- Batches of 1000 chunks, the last one shorter.
abbrev pub groups_within : ℕ → List Bytes → List (List Bytes)
groups_within zero cs = []
groups_within (suc rounds) [] = []
groups_within (suc rounds) (c ∷ cs) =
    take batch_data_chunks (c ∷ cs) ∷ groups_within rounds (drop batch_data_chunks (c ∷ cs))

module _ (md5 : Bytes → Bytes) (rel_path_hash : Bytes) where
  abbrev pub data_packet : ℕ → Bytes → Bytes
  data_packet count chunk =
      encode_packet_into [] pkg_type_data count rel_path_hash (md5_hex md5 chunk) chunk

  abbrev pub parity_packet : ℕ → Bytes → Bytes
  parity_packet index shard =
      encode_packet_into [] pkg_type_parity index rel_path_hash (md5_hex md5 shard) shard

  abbrev pub data_packets : ℕ → List Bytes → List Bytes
  data_packets count [] = []
  data_packets count (c ∷ cs) = data_packet count c ∷ data_packets (count + 1) cs

  abbrev pub parity_packets : ℕ → List Bytes → List Bytes
  parity_packets index [] = []
  parity_packets index (s ∷ shards) =
      parity_packet index s ∷ parity_packets (wrapping_add index 1) shards

  module _ (enc : ReedSolomonEncoder) where
    -- The recovery shards of a batch; there are none when the encoder fails.
    abbrev pub shards_sent : List Bytes → List Bytes
    shards_sent payloads = elim (encode_batch enc payloads batch_parity_chunks) [
      | none ↦ []
      | some shards ↦ shards
    ]

    abbrev pub parity_of_batch : ℕ → List Bytes → List Bytes
    parity_of_batch batch_idx payloads =
        parity_packets (wrapping_mul batch_idx batch_parity_chunks) (shards_sent payloads)

    -- Each batch with its parity, from batch number `batch_idx` on.
    abbrev pub batches_from : ℕ → List (List Bytes) → List Bytes
    batches_from batch_idx [] = []
    batches_from batch_idx (g ∷ gs) =
        data_packets (batch_idx * batch_data_chunks) g
        ++ (parity_of_batch batch_idx g ++ batches_from (batch_idx + 1) gs)

abbrev pub start_packet : Bytes → Bytes → ℕ → Bytes
start_packet rel_path rel_path_hash filesize =
    encode_packet pkg_type_start filesize rel_path_hash (encode_parity_field batch_parity_chunks)
      rel_path

abbrev pub end_packet : Bytes → ℕ → Bytes
end_packet rel_path count = encode_packet pkg_type_end count empty_hash empty_hash rel_path

-- All the packets of a file.
unfoldable pub file_packets : (Bytes → Bytes) → ReedSolomonEncoder → Bytes → ℕ → Bytes → List Bytes
file_packets md5 enc rel_path filesize c =
    let cs = chunks c in
    let rel_path_hash = md5_hex md5 rel_path in
    replicate control_resend (start_packet rel_path rel_path_hash filesize)
    ++ (batches_from md5 rel_path_hash enc 0 (groups_within (length cs) cs)
        ++ replicate control_resend (end_packet rel_path (length cs)))
