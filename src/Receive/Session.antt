-- ===== src/Receive/Session.antt =====
-- A transfer under way in the receiver: the packets of a file, and what holds between them.
pub mod Gather
pub mod Step
pub mod Run
pub mod Finish
pub mod Start
pub mod Whole
pub mod Wire
use data_diode.Prelude.{
  ℕ, ◌+◌, ◌*◌, ◌≤◌, ◌<◌, false, List, [], ◌∷◌, some, ◌≡◌, Bytes, length, if◌then◌else◌,
}
use data_diode.BTreeMap.{BTreeMap, contains_key, insert}
use data_diode.BTreeMap.Laws.{Ascends, Each}
use data_diode.FileSystem.{FileName, File}
use data_diode.Proto.{
  batch_data_chunks, batch_parity_chunks, pkg_type_data, pkg_type_parity, md5_hex,
}
use data_diode.Receive.Packet.{Packet}
use data_diode.Receive.State.{Receiver}
use data_diode.Receive.Chunk.{total_chunks, batch_start, batch_data_size}
use data_diode.Receive.Buffer.Bounds.{IsSound}
use data_diode.Receive.Finalize.Contents.{nth_chunk}
use data_diode.Receive.Finalize.Chunks.{Genuine}
use data_diode.Receive.Finalize.Recovery.{shards_of}
use data_diode.Receive.Finalize.Batch.{Output}

-- What a batch is sent as: its chunks and its parity shards, by their index in the batch.
pub data Piece : Type 0 where
  chunk : ℕ → Piece
  shard : ℕ → Piece

-- The two buffers.
abbrev pub Buffers : Type 0
Buffers = BTreeMap Bytes × BTreeMap Bytes

abbrev pub buffers : Receiver → Buffers
buffers r = (r.state.data_buffer, r.state.parity_buffer)

-- The first value of a key stays.
abbrev pub store : ℕ → Bytes → BTreeMap Bytes → BTreeMap Bytes
store k v m = if contains_key k m then m else insert k v m

-- The file that is sent: its contents and path, the hash of the path, the file that the receiver
-- writes it to, and the functions that make hashes and the parity shards of so many chunks.
pub record Upload : Type 0 where
  pub md5 : Bytes → Bytes
  pub recovery : ℕ → (ℕ → Bytes) → ℕ → Bytes
  pub contents : Bytes
  pub path_hash : Bytes
  pub path : Bytes
  pub name : FileName

module _ (u : Upload) where
  open u use {md5, recovery, contents, path_hash, path, name}

  abbrev pub chunk_count : ℕ
  chunk_count = total_chunks (length contents)

  -- A batch of the file has this piece.
  abbrev pub IsPiece : ℕ → Piece → Type 0
  IsPiece b (chunk i) = (i < batch_data_chunks) × (b * batch_data_chunks + i < chunk_count)
  IsPiece b (shard j) = (j < batch_parity_chunks) × (b * batch_data_chunks < chunk_count)

  -- The parity shards of a batch.
  abbrev pub shard_of_batch : ℕ → ℕ → Bytes
  shard_of_batch b j =
      recovery (batch_data_size b (length contents)) (shards_of contents (batch_start b)) j

  abbrev pub bytes_of : ℕ → Piece → Bytes
  bytes_of b (chunk i) = nth_chunk contents (b * batch_data_chunks + i)
  bytes_of b (shard j) = shard_of_batch b j

  abbrev pub collect : ℕ → Piece → Buffers → Buffers
  collect b (chunk i) (chunks, shards) =
      (store (b * batch_data_chunks + i) (bytes_of b (chunk i)) chunks, shards)
  collect b (shard j) (chunks, shards) = (chunks, store j (bytes_of b (shard j)) shards)

  -- What has arrived of a batch, whatever its order and however often.
  abbrev pub gather : ℕ → List Piece → Buffers → Buffers
  gather b [] m = m
  gather b (piece ∷ pieces) m = gather b pieces (collect b piece m)

  -- The packet of a piece of the batch `b`.
  abbrev pub packet_of : ℕ → Piece → Packet
  packet_of b (chunk i) = record {
    pkg_type = pkg_type_data;
    count = b * batch_data_chunks + i;
    path_hash = path_hash;
    data_hash = md5_hex md5 (bytes_of b (chunk i));
    content = bytes_of b (chunk i);
  }
  packet_of b (shard j) = record {
    pkg_type = pkg_type_parity;
    count = b * batch_parity_chunks + j;
    path_hash = path_hash;
    data_hash = md5_hex md5 (bytes_of b (shard j));
    content = bytes_of b (shard j);
  }

  -- The file is being received, and its batch `b` is the current one: the buffers hold pieces of
  -- it, and the batches before it are written.
  pub record Session (b : ℕ) (r : Receiver) : Type 0 where
    pub sound : IsSound r.state
    pub active : r.state.file_path ≡ some path
    pub hashed : r.state.path_hash ≡ some path_hash
    pub sized : r.state.file_size ≡ length contents
    pub with_parity : r.state.parity_per_batch ≡ batch_parity_chunks
    pub current : r.state.current_batch ≡ b
    pub going : r.state.failed ≡ false
    pub early : b * batch_data_chunks ≤ chunk_count
    pub in_batch :
        Ascends
          (batch_start b)
          (batch_start b + batch_data_size b (length contents))
          r.state.data_buffer
    pub genuine : Genuine contents r.state.data_buffer
    pub genuine_parity : Each (λ j s. s ≡ shard_of_batch b j) r.state.parity_buffer
    pub file : File
    pub opened : r.state.output ≡ some file
    pub named : file.name ≡ name
    pub output : Output contents name (batch_start b) r.fs
