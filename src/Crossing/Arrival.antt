-- ===== src/Crossing/Arrival.antt =====
-- What arrives of a batch fills the receiver's buffers.
use data_diode.Prelude.{
  ℕ, zero, suc, ◌+◌, ◌*◌, ◌<◌, Bool, true, false, List, [], ◌∷◌, ◌++◌, ◌≡◌, refl, ap, ◌∙◌, arith,
  Bytes, length, take, drop, length-take, length-drop, All, All-append,
}
use data_diode.BTreeMap.{BTreeMap}
use data_diode.BTreeMap.Laws.{Ascends, length-insert, contains_key_above, Ascends-more}
use data_diode.Proto.{batch_data_chunks, batch_parity_chunks}
use data_diode.Receive.Finalize.Contents.{nth_chunk}
use data_diode.Receive.Finalize.{ReedSolomon}
use data_diode.Receive.Session.{
  Upload, chunk_count, Piece, chunk, shard, Buffers, store, shard_of_batch, IsPiece, gather,
}
use data_diode.Receive.Session.Gather.{IsFit, batch_start_early, store-Ascends}
use data_diode.Receive.Session.Run.{AreComplete}
use data_diode.Send.Parity.{ReedSolomonEncoder}
use data_diode.Crossing.Keep.{kept, keep, kept-take-drop, keep_parts, All-keep}
use data_diode.Crossing.Cut.{tabulate, length-tabulate, All-tabulate}
use data_diode.Crossing.Pieces.{size_of, all_pieces, EncodesBatches}
use data_diode.Crossing.Batches.{KeepsBatches, kept_pieces}

-- The values at the keys from `k` on that the mask keeps.
abbrev fill : (ℕ → Bytes) → List Bool → ℕ → BTreeMap Bytes → BTreeMap Bytes
fill f [] k m = m
fill f (true ∷ mask) k m = fill f mask (k + 1) (store k (f k) m)
fill f (false ∷ mask) k m = fill f mask (k + 1) m

length-store :
    (k : ℕ) (v : Bytes) (m : BTreeMap Bytes) → Ascends 0 k m → length (store k v m) ≡ suc (length m)
length-store k v m a =
    let fresh = contains_key_above 0 k k m a (omega arith) in rw fresh (length-insert k v m fresh)

length-fill :
    (f : ℕ → Bytes) (mask : List Bool) (k : ℕ) (m : BTreeMap Bytes)
    → Ascends 0 k m
    → length (fill f mask k m) ≡ length m + kept mask
length-fill f [] k m a = omega arith
length-fill f (true ∷ mask) k m a =
    let wider = Ascends-more 0 k (k + 1) m (omega arith) a in
    let stored = store-Ascends k (f k) 0 (k + 1) m (omega arith) (omega arith) wider in
    omega (arith, length-fill f mask (k + 1) (store k (f k) m) stored, length-store k (f k) m a)
length-fill f (false ∷ mask) k m a =
    length-fill f mask (k + 1) m (Ascends-more 0 k (k + 1) m (omega arith) a)

module _ (u : Upload) (fit : IsFit u) where
  open u use {contents}

  gather-append :
      (b : ℕ) (pieces more : List Piece) (m : Buffers)
      → gather u b (pieces ++ more) m ≡ gather u b more (gather u b pieces m)
  gather-append b [] more m = refl
  gather-append b (chunk i ∷ pieces) more m = gather-append b pieces more _
  gather-append b (shard j ∷ pieces) more m = gather-append b pieces more _

  gather-chunks :
      (b n i k : ℕ) (mask : List Bool) (m s : BTreeMap Bytes)
      → length mask ≡ n
      → b * batch_data_chunks + i ≡ k
      → gather u b (keep mask (tabulate i n chunk)) (m, s) ≡ (fill (nth_chunk contents) mask k m, s)
  gather-chunks b n i k [] m s same at = refl
  gather-chunks b zero i k (bit ∷ mask) m s same at = absurd (omega arith)
  gather-chunks b (suc n) i k (false ∷ mask) m s same at =
      gather-chunks b n (i + 1) (k + 1) mask m s (omega arith) (omega arith)
  gather-chunks b (suc n) i k (true ∷ mask) m s same at =
      let here = b * batch_data_chunks + i in
      gather-chunks b n (i + 1) (k + 1) mask (store here (nth_chunk contents here) m) s
        (omega arith) (omega arith)
      ∙ ap (λ j. (fill (nth_chunk contents) mask (k + 1) (store j (nth_chunk contents j) m), s)) at

  gather-shards :
      (b n j : ℕ) (mask : List Bool) (m s : BTreeMap Bytes)
      → length mask ≡ n
      → gather u b (keep mask (tabulate j n shard)) (m, s) ≡ (m, fill (shard_of_batch u b) mask j s)
  gather-shards b n j [] m s same = refl
  gather-shards b zero j (bit ∷ mask) m s same = absurd (omega arith)
  gather-shards b (suc n) j (false ∷ mask) m s same =
      gather-shards b n (j + 1) mask m s (omega arith)
  gather-shards b (suc n) j (true ∷ mask) m s same =
      gather-shards b n (j + 1) mask m (store j (shard_of_batch u b j) s) (omega arith)

  -- Every packet that arrives adds a value.
  pub gather-kept :
      (b : ℕ) (mask : List Bool)
      → length mask ≡ size_of u fit b + 100
      → let m = gather u b (keep mask (all_pieces u fit b)) ([], []) in
        length m.0 + length m.1 ≡ kept mask
  gather-kept b mask same =
      let k = size_of u fit b in
      let chunks = tabulate 0 k chunk in
      let split : keep mask (all_pieces u fit b)
          ≡ keep (take k mask) chunks ++ keep (drop k mask) (tabulate 0 batch_parity_chunks shard) =
        keep_parts mask chunks (tabulate 0 batch_parity_chunks shard)
        ∙ ap
            (λ n.
              keep (take n mask) chunks
              ++ keep (drop n mask) (tabulate 0 batch_parity_chunks shard))
            (length-tabulate chunk 0 k) in
      let all : gather u b (keep mask (all_pieces u fit b)) ([], []) ≡ (
        fill (nth_chunk contents) (take k mask) (b * batch_data_chunks) [],
        fill (shard_of_batch u b) (drop k mask) 0 [],
      ) =
        ap (λ pieces. gather u b pieces ([], [])) split
        ∙ gather-append b (keep (take k mask) chunks)
            (keep (drop k mask) (tabulate 0 batch_parity_chunks shard)) ([], [])
        ∙ ap (gather u b (keep (drop k mask) (tabulate 0 batch_parity_chunks shard))) (
            gather-chunks b k 0 (b * batch_data_chunks) (take k mask) [] []
              (omega (arith, length-take k mask)) (omega arith))
        ∙ gather-shards b 100 0 (drop k mask)
            (fill (nth_chunk contents) (take k mask) (b * batch_data_chunks) []) []
            (omega (arith, length-drop k mask)) in
      ap (λ (m : Buffers). length m.0 + length m.1) all
      ∙ omega (
        arith,
        length-fill (nth_chunk contents) (take k mask) (b * batch_data_chunks) [] tt,
        length-fill (shard_of_batch u b) (drop k mask) 0 [] tt,
        kept-take-drop k mask,
      )

  all_pieces-IsPiece :
      (b : ℕ) → b * batch_data_chunks < chunk_count u → All (IsPiece u b) (all_pieces u fit b)
  all_pieces-IsPiece b h =
      let (start, size) = batch_start_early b (length contents) fit.small (omega arith) in
      All-append (IsPiece u b) (tabulate 0 (size_of u fit b) chunk)
        (tabulate 0 batch_parity_chunks shard)
        (All-tabulate (IsPiece u b) chunk 0 (size_of u fit b) (λ i lt. (omega arith, omega arith)))
        (All-tabulate (IsPiece u b) shard 0 batch_parity_chunks (λ j lt. (lt, h)))

  module _ (rs : ReedSolomon) (dir : Bytes) (enabled : Bool) (enc : ReedSolomonEncoder)
      (law : EncodesBatches u fit enc) where
    pub kept_pieces-AreComplete :
        (masks : List (List Bool)) (b : ℕ)
        → KeepsBatches rs u fit dir enabled enc law b masks
        → AreComplete rs u fit dir enabled
            (chunk_count u)
            b
            (kept_pieces rs u fit dir enabled enc law b masks)
    kept_pieces-AreComplete [] b h = h
    kept_pieces-AreComplete (mask ∷ masks) b (early, same, several, h) = (
      early,
      All-keep (IsPiece u b) mask (all_pieces u fit b) (all_pieces-IsPiece b early),
      omega (arith, gather-kept b mask same),
      kept_pieces-AreComplete masks (b + 1) h,
    )
