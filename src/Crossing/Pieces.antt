-- ===== src/Crossing/Pieces.antt =====
-- The packets of a file, batch by batch, as the receiver sees them.
use data_diode.Prelude.{
  ℕ, zero, suc, ◌+◌, ◌*◌, ◌^◌, ◌<◌, List, ◌∷◌, ◌++◌, map, map-append, append_assoc, ◌≡◌, refl, sym,
  ap, ◌∙◌, subst, arith, Bytes, length, length-append,
}
use data_diode.Proto.{batch_data_chunks, batch_parity_chunks, encode_packet}
use data_diode.Receive.State.{wrapping_add, wrapping_mul}
use data_diode.Receive.Chunk.{total_chunks, batch_data_size}
use data_diode.Receive.Finalize.Contents.{nth_chunk}
use data_diode.Receive.Finalize.Recovery.{shards_of}
use data_diode.Receive.Session.{Upload, chunk_count, Piece, chunk, shard, shard_of_batch, packet_of}
use data_diode.Receive.Session.Gather.{IsFit, batch_start_early}
use data_diode.Receive.Session.Wire.{wire}
use data_diode.Send.Parity.{ReedSolomonEncoder}
use data_diode.Send.File.Packets.{data_packets, parity_packets, shards_sent, parity_of_batch}
use data_diode.Crossing.Cut.{tabulate, length-tabulate}
use data_diode.Crossing.Codec.{Encodes, encode_batch-recovery}

module _ (u : Upload) (fit : IsFit u) where
  open u use {md5, recovery, contents, path_hash}

  abbrev pub size_of : ℕ → ℕ
  size_of b = batch_data_size b (length contents)

  -- All the pieces of a batch, in the order in which they are sent.
  abbrev pub all_pieces : ℕ → List Piece
  all_pieces b = tabulate 0 (size_of b) chunk ++ tabulate 0 batch_parity_chunks shard

  abbrev pub raw_of : ℕ → Piece → Bytes
  raw_of b piece = wire (packet_of u b piece)

  data_packets-raw :
      (b i k : ℕ)
      → data_packets md5 path_hash
          (b * batch_data_chunks + i)
          (tabulate (b * batch_data_chunks + i) k (nth_chunk contents))
        ≡ map (raw_of b) (tabulate i k chunk)
  unfolding encode_packet
  data_packets-raw b i zero = refl
  data_packets-raw b i (suc k) = ap (◌∷◌ (raw_of b (chunk i))) (
      subst
        (λ n.
          data_packets md5 path_hash n (tabulate n k (nth_chunk contents))
          ≡ map (raw_of b) (tabulate (i + 1) k chunk))
        (next (b * batch_data_chunks) i) (data_packets-raw b (i + 1) k))
    where
      next : (n i : ℕ) → n + (i + 1) ≡ n + i + 1
      next n i = omega arith

  parity_packets-raw :
      (b j m : ℕ)
      → b * batch_parity_chunks + j + m < 2 ^ 64
      → parity_packets md5 path_hash
          (b * batch_parity_chunks + j)
          (tabulate j m (shard_of_batch u b))
        ≡ map (raw_of b) (tabulate j m shard)
  unfolding encode_packet
  parity_packets-raw b j zero few = refl
  parity_packets-raw b j (suc m) few =
      let next : b * batch_parity_chunks + (j + 1) ≡ wrapping_add (b * batch_parity_chunks + j) 1 =
        omega arith in
      ap (◌∷◌ (raw_of b (shard j))) (
        subst
          (λ n.
            parity_packets md5 path_hash n (tabulate (j + 1) m (shard_of_batch u b))
            ≡ map (raw_of b) (tabulate (j + 1) m shard))
          next (parity_packets-raw b (j + 1) m (omega arith)))

  pub length-all_pieces : (b : ℕ) → length (all_pieces b) ≡ size_of b + 100
  length-all_pieces b =
      length-append (tabulate 0 (size_of b) chunk) (tabulate 0 batch_parity_chunks shard)
      ∙ ap (λ n. n + 100) (length-tabulate chunk 0 (size_of b))

  -- The payloads of a batch.
  abbrev pub group : ℕ → List Bytes
  group b = tabulate (b * batch_data_chunks) (size_of b) (nth_chunk contents)

  module _ (enc : ReedSolomonEncoder) where
    -- The encoder makes the parity shards of the batches of the file.
    abbrev pub EncodesBatches : Type 0
    EncodesBatches =
        (b : ℕ) → 0 < size_of b → Encodes enc (size_of b) batch_parity_chunks (recovery (size_of b))

    module _ (law : EncodesBatches) where
      shards_sent-shard_of_batch :
          (b : ℕ)
          → b * batch_data_chunks < chunk_count u
          → shards_sent md5 path_hash enc (group b)
            ≡ tabulate 0 batch_parity_chunks (shard_of_batch u b)
      shards_sent-shard_of_batch b h =
          let (start, size) = batch_start_early b (length contents) fit.small (omega arith) in
          let made =
            encode_batch-recovery enc contents (recovery (size_of b)) (b * batch_data_chunks)
              (size_of b) batch_parity_chunks (law b (omega arith)) in
          rw (shards_sent, made)
            (ap (λ n. tabulate 0 batch_parity_chunks (recovery (size_of b) (shards_of contents n)))
              (sym start))

      parity_of_batch-raw :
          (b : ℕ)
          → b * batch_data_chunks < chunk_count u
          → parity_of_batch md5 path_hash enc b (group b)
            ≡ map (raw_of b) (tabulate 0 batch_parity_chunks shard)
      unfolding total_chunks
      parity_of_batch-raw b h =
          let first : wrapping_mul b batch_parity_chunks ≡ b * batch_parity_chunks + 0 =
            omega (arith, fit.small) in
          ap (parity_packets md5 path_hash (wrapping_mul b batch_parity_chunks))
            (shards_sent-shard_of_batch b h)
          ∙ ap
              (λ n.
                parity_packets md5 path_hash n
                  (tabulate 0 batch_parity_chunks (shard_of_batch u b)))
              first
          ∙ parity_packets-raw b 0 batch_parity_chunks (omega (arith, fit.small))

      -- A batch with its parity.
      pub batch-raw :
          (b : ℕ) (rest : List Bytes)
          → b * batch_data_chunks < chunk_count u
          → data_packets md5 path_hash (b * batch_data_chunks) (group b)
              ++ (parity_of_batch md5 path_hash enc b (group b) ++ rest)
            ≡ map (raw_of b) (all_pieces b) ++ rest
      batch-raw b rest h =
          let chunks = tabulate 0 (size_of b) chunk in
          let shards = tabulate 0 batch_parity_chunks shard in
          let sent : data_packets md5 path_hash (b * batch_data_chunks) (group b)
              ≡ map (raw_of b) chunks =
            subst
              (λ n.
                data_packets md5 path_hash n (tabulate n (size_of b) (nth_chunk contents))
                ≡ map (raw_of b) chunks)
              (same b) (data_packets-raw b 0 (size_of b)) in
          ap (λ xs. xs ++ (parity_of_batch md5 path_hash enc b (group b) ++ rest)) sent
          ∙ ap (λ ys. map (raw_of b) chunks ++ (ys ++ rest)) (parity_of_batch-raw b h)
          ∙ sym (append_assoc (map (raw_of b) chunks) (map (raw_of b) shards) rest)
          ∙ ap (λ xs. xs ++ rest) (sym (map-append (raw_of b) chunks shards))
        where
          same : (b : ℕ) → b * batch_data_chunks + 0 ≡ b * batch_data_chunks
          same b = omega arith
