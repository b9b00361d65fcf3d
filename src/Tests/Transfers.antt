-- ===== src/Tests/Transfers.antt =====
-- A whole transfer of one chunk, which is lost and restored from a parity packet.
use data_diode.Prelude.{
  ℕ, ◌+◌, ◌≤◌, ◌<◌, false, List, [], ◌∷◌, none, some, ◌≡◌, refl, subst, arith, Bytes, length,
  length-replicate, beq_bytes,
}
use data_diode.BTreeMap.{BTreeMap, get, contains_key, insert}
use data_diode.BTreeMap.Laws.{Ascends, Each}
use data_diode.FileSystem.{FileSystem}
use data_diode.SafePath.{split}
use data_diode.SafePath.Inside.{resolve}
use data_diode.SafePath.Pieces.{is_safe_rel_path-has_safe_pieces}
use data_diode.Utf8.{from_utf8_ascii}
use data_diode.Proto.{md5_hex, length-hex}
use data_diode.Receive.State.{Receiver, new_state, new_stats}
use data_diode.Receive.Chunk.{total_chunks, batch_start, batch_data_size}
use data_diode.Receive.Transfer.{partial_path, contains_byte}
use data_diode.Receive.Finalize.Codec.{add_all, decode_with, Restores}
use data_diode.Receive.Finalize.Recovery.{length-shards_of}
use data_diode.Receive.Worker.{receive_all}
use data_diode.Receive.Session.{Upload, chunk_count, Piece, shard}
use data_diode.Receive.Session.Gather.{IsFit}
use data_diode.Receive.Session.Step.{RestoresBatches}
use data_diode.Receive.Session.Run.{AreComplete}
use data_diode.Receive.Session.Whole.{IsPlaced, IsReady, arriving, IsPublished, IsReceived}
use data_diode.Receive.Session.Wire.{datagrams, receive_all-IsReceived, receive_all-IsPublished}
use data_diode.Tests.Samples.{codes, mirror, length_hash}
use data_diode.Tests.Restoring.{copy, hello, get_first, not_missing}

-- The mirror keeps the last shard.
add_copies :
    (shards : ℕ → Bytes) (m : BTreeMap Bytes) (s : Bytes)
    → s ≡ shards 0
    → Each (λ j t. t ≡ copy shards j) m
    → (t : Bytes) × (add_all mirror.add_recovery_shard m (some s) ≡ some (some t)) × (t ≡ shards 0)
unfolding add_all
add_copies shards [] s e h = (s, refl, e)
add_copies shards ((j, t) ∷ m) s e (same, h) = add_copies shards m t same h

add_some :
    (m : BTreeMap Bytes) (s : Bytes)
    → (t : Bytes) × (add_all mirror.add_recovery_shard m (some s) ≡ some (some t))
unfolding add_all
add_some [] s = (s, refl)
add_some ((j, t) ∷ m) s = add_some m t

mirror_restores :
    (shards : ℕ → Bytes) (originals recoveries : BTreeMap Bytes)
    → Ascends 0 1 originals
    → Each (λ j s. s ≡ copy shards j) recoveries
    → 1 ≤ length originals + length recoveries
    → (restored : BTreeMap Bytes) × (decode_with mirror 1 100 originals recoveries ≡ some restored)
      × ((i : ℕ) → i < 1 → get i originals ≡ none → get i restored ≡ some (shards i))
unfolding decode_with add_all get
mirror_restores shards [] [] a e h = absurd (omega arith)
mirror_restores shards [] ((j, s) ∷ m) a (e, es) h =
    let (t, made, same) = add_copies shards m s e es in
    ((0, t) ∷ [], rw made refl, λ i lt missing. get_first shards i t lt same)
mirror_restores shards ((i, s) ∷ []) m a e h =
    let (t, made) = add_some m s in
    ((0, t) ∷ [], rw made refl, λ k lt missing. absurd (not_missing i k s a.1 lt missing))
mirror_restores shards ((i, s) ∷ (j, t) ∷ m) r a e h = absurd (omega (arith, a.1, a.2.0, a.2.1))

mirror-Restores_100 : Restores mirror 1 100 copy
mirror-Restores_100 = record {
  recovery_size = λ shards sized j. sized 0;
  restores = λ shards originals recoveries sized a b e p h.
      mirror_restores shards originals recoveries a p h;
}

abbrev pub upload : Upload
upload = record {
  md5 = length_hash;
  recovery = λ k. copy;
  contents = hello;
  path_hash = md5_hex length_hash (codes "a");
  path = codes "a";
  name = resolve (partial_path (codes "out") (codes "a"));
}

pub upload-IsFit : IsFit upload
upload-IsFit = record {
  small = omega arith;
  recovery_size = λ b j. length-shards_of hello (batch_start b) 0;
}

pub one_chunk_at_most : (b : ℕ) → 0 < batch_data_size b 5 → 1 ≡ batch_data_size b 5
unfolding batch_data_size total_chunks
one_chunk_at_most b h = ground arith

pub upload-RestoresBatches : RestoresBatches mirror upload upload-IsFit
upload-RestoresBatches b h =
    subst (λ k. Restores mirror k 100 copy) (one_chunk_at_most b h) mirror-Restores_100

pub upload-IsPlaced : IsPlaced upload (codes "out")
unfolding contains_byte split beq_bytes
upload-IsPlaced = record {
  placed = refl;
  safe = is_safe_rel_path-has_safe_pieces (codes "a");
  no_nul = refl;
  text = from_utf8_ascii (codes "a") (omega arith, tt);
}

pub digests : (s : Bytes) → length (md5_hex length_hash s) ≡ 32
unfolding md5_hex
digests s = omega (arith, length-hex (length_hash s), length-replicate {A = ℕ} 16 (length s))

abbrev one_shard : List (List Piece)
one_shard = (shard 3 ∷ []) ∷ []

one_shard-AreComplete :
    AreComplete mirror upload upload-IsFit (codes "out") false (chunk_count upload) 0 one_shard
unfolding total_chunks batch_data_size batch_start contains_key insert
one_shard-AreComplete = (omega arith, ((omega arith, omega arith), tt), omega arith, omega arith)

abbrev pub empty_disk : FileSystem
empty_disk = record { files = []; attempts = [] }

-- A receiver in the middle of another transfer, to which the file of the path `b` belongs.
abbrev pub receiving_another : Receiver
receiving_another = record {
  state = record new_state {
    file_path = some (codes "b");
    path_hash = some [];
    file_size = 2000;
    data_buffer = (0, 1 ∷ 2 ∷ []) ∷ [];
    bytes_buffered = 2;
    output =
        some (record { name = resolve (partial_path (codes "out") (codes "b")); position = 0 });
  };
  stats = new_stats;
  fs = empty_disk;
  udp_queue = [];
}

pub receiving_another-IsReady : IsReady (codes "a") receiving_another
unfolding beq_bytes
receiving_another-IsReady = record {
  sound = record {
    in_batch = (omega arith, omega arith, tt);
    in_parity = tt;
    chunk_sizes = (omega arith, tt);
    shard_sizes = tt;
    counted = refl;
    idle = λ n. cc;
  };
  other = refl;
  calm = refl;
}

receive_all-IsReceived_example :
    IsReceived mirror upload upload-IsFit
      (codes "out")
      false
      upload-RestoresBatches
      upload-IsPlaced
      (receive_all length_hash mirror (codes "out") false receiving_another (
        datagrams (
          arriving mirror upload upload-IsFit
            (codes "out")
            false
            upload-RestoresBatches
            upload-IsPlaced
            2
            one_shard
            2
            1)))
receive_all-IsReceived_example =
    receive_all-IsReceived mirror upload upload-IsFit (codes "out") false (digests (codes "a"))
      digests upload-RestoresBatches upload-IsPlaced receiving_another 2 2 1 one_shard
      receiving_another-IsReady (omega arith) one_shard-AreComplete

receive_all-IsPublished_example :
    IsPublished mirror upload upload-IsFit
      (codes "out")
      false
      upload-RestoresBatches
      upload-IsPlaced
      (chunk_count upload)
      (omega arith)
      (receive_all length_hash mirror (codes "out") false receiving_another (
        datagrams (
          arriving mirror upload upload-IsFit
            (codes "out")
            false
            upload-RestoresBatches
            upload-IsPlaced
            2
            one_shard
            2
            1)))
receive_all-IsPublished_example =
    receive_all-IsPublished mirror upload upload-IsFit (codes "out") false (digests (codes "a"))
      digests upload-RestoresBatches upload-IsPlaced (chunk_count upload) (omega arith)
      receiving_another 2 2 1 one_shard receiving_another-IsReady (omega arith) (omega arith)
      one_shard-AreComplete
