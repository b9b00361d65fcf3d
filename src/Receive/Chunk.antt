-- ===== src/Receive/Chunk.antt =====
-- `is_chunk_valid` and the batch arithmetic of diode_receive/src/main.rs.
use data_diode.Prelude.{
  ℕ, ◌+◌, ◌-◌, ◌/◌, ◌%◌, min, Bool, true, false, not, ◌&&◌, Option, none, some, Bytes, length,
  if◌then◌else◌, ◌==◌, leb, beq_bytes,
}
use data_diode.Proto.{
  chunk_size, shard_size, batch_data_chunks, batch_parity_chunks, pkg_type_data, pkg_type_parity,
  md5_hex,
}
use data_diode.Receive.Packet.{Packet}
use data_diode.Receive.State.{ReceiveState, wrapping_mul}

-- No transfer, no path hash to agree with.
abbrev path_hash_matches : Option Bytes → Bytes → Bool
path_hash_matches none h = true
path_hash_matches (some expected) h = beq_bytes h expected

module _ (md5 : Bytes → Bytes) where
  unfoldable pub is_chunk_valid : Packet → ReceiveState → ℕ → Bool
  is_chunk_valid packet state pkg_type =
      if not (path_hash_matches state.path_hash packet.path_hash)
      then false
      else if (pkg_type == pkg_type_data)
          && not (leb 1 (length packet.content) && leb (length packet.content) chunk_size)
      then false
      else if (pkg_type == pkg_type_parity) && not (length packet.content == shard_size)
      then false
      else if not (beq_bytes (md5_hex md5 packet.content) packet.data_hash)
      then false
      else true

unfoldable pub batch_for_data : ℕ → ℕ
batch_for_data count = count / batch_data_chunks

unfoldable pub batch_for_parity : ℕ → ℕ
batch_for_parity count = count / batch_parity_chunks

-- `file_size.div_ceil(CHUNK_SIZE)`.
unfoldable pub total_chunks : ℕ → ℕ
total_chunks file_size = (file_size + (chunk_size - 1)) / chunk_size

-- The first chunk of a batch; the product is taken in a usize.
unfoldable pub batch_start : ℕ → ℕ
batch_start batch_idx = wrapping_mul batch_idx batch_data_chunks

unfoldable pub batch_data_size : ℕ → ℕ → ℕ
batch_data_size batch_idx file_size =
    if leb (total_chunks file_size) (batch_start batch_idx)
    then 0
    else min (total_chunks file_size - batch_start batch_idx) batch_data_chunks

-- The length that chunk `n` of the file must have: the last one takes what is left.
unfoldable pub expected_len : ℕ → ℕ → ℕ
expected_len file_size n =
    if n + 1 == total_chunks file_size
    then (if file_size % chunk_size == 0 then chunk_size else file_size % chunk_size)
    else chunk_size
