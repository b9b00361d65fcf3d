-- ===== src/Crossing/Codec.antt =====
-- What the two sides rely on of the crate `reed_solomon_simd` together.
use data_diode.Prelude.{
  ℕ, zero, suc, ◌+◌, List, [], ◌∷◌, map, Option, some, ◌≡◌, refl, ap, ◌∙◌, arith, Bytes, length,
  take_all, ◌>>=◌, bind_ext,
}
use data_diode.Proto.{shard_size}
use data_diode.Receive.Finalize.{padded}
use data_diode.Receive.Finalize.Contents.{nth_chunk}
use data_diode.Receive.Finalize.Chunks.{length-nth_chunk}
use data_diode.Receive.Finalize.Recovery.{shards_of, length-shards_of}
use data_diode.Send.Parity.{ReedSolomonEncoder, shard_of, add_shards, encode_batch}
use data_diode.Crossing.Cut.{tabulate, length-tabulate, tabulate_at}

module _ (enc : ReedSolomonEncoder) where
  open enc use {Encoder, new_encoder, add_shard, encode}

  -- The calls that add shards, in order.
  unfoldable pub add_each : List Bytes → Encoder → Option Encoder
  add_each [] e = some e
  add_each (s ∷ shards) e = do e' ← add_shard s e; add_each shards e'

  unfoldable pub encode_with : ℕ → ℕ → List Bytes → Option (List Bytes)
  encode_with k m shards = do e ← new_encoder k m shard_size; e ← add_each shards e; encode e

  -- The documented use of the encoder: `k` original shards give `m` recovery shards, which depend
  -- on the originals alone.
  pub record Encodes (k m : ℕ) (recovery : (ℕ → Bytes) → ℕ → Bytes) : Type 0 where
    pub encodes :
        (shards : ℕ → Bytes)
        → ((i : ℕ) → length (shards i) ≡ shard_size)
        → encode_with k m (tabulate 0 k shards) ≡ some (tabulate 0 m (recovery shards))

  add_shards-add_each :
      (payloads : List Bytes) (e : Encoder)
      → add_shards enc payloads e ≡ add_each (map shard_of payloads) e
  unfolding add_shards add_each
  add_shards-add_each [] e = refl
  add_shards-add_each (p ∷ payloads) e =
      bind_ext (add_shard (shard_of p) e) (λ e'. add_shards-add_each payloads e')

  encode_batch-encode_with :
      (payloads : List Bytes) (m : ℕ)
      → encode_batch enc payloads m ≡ encode_with (length payloads) m (map shard_of payloads)
  unfolding encode_batch encode_with
  encode_batch-encode_with payloads m =
      bind_ext (new_encoder (length payloads) m shard_size)
        (λ e. ap (λ o. o >>= encode) (add_shards-add_each payloads e))

-- A chunk is padded alike on both sides.
shard_of-padded : (c : Bytes) (n : ℕ) → shard_of (nth_chunk c n) ≡ padded (nth_chunk c n)
unfolding shard_of padded
shard_of-padded c n =
    rw (take_all (nth_chunk c n) shard_size (omega (arith, length-nth_chunk c n))) refl

map-shard_of :
    (c : Bytes) (start i k : ℕ)
    → map shard_of (tabulate (start + i) k (nth_chunk c)) ≡ tabulate i k (shards_of c start)
map-shard_of c start i zero = refl
map-shard_of c start i (suc k) =
    ap (λ s. s ∷ map shard_of (tabulate (start + i + 1) k (nth_chunk c)))
      (shard_of-padded c (start + i))
    ∙ ap (λ rest. shards_of c start i ∷ rest)
        (ap (map shard_of)
            (tabulate_at (nth_chunk c) (start + i + 1) (start + (i + 1)) k k (omega arith) refl)
          ∙ map-shard_of c start (i + 1) k)

-- The parity of a batch of the file.
pub encode_batch-recovery :
    (enc : ReedSolomonEncoder) (c : Bytes) (recovery : (ℕ → Bytes) → ℕ → Bytes) (start k m : ℕ)
    → Encodes enc k m recovery
    → encode_batch enc (tabulate start k (nth_chunk c)) m
      ≡ some (tabulate 0 m (recovery (shards_of c start)))
encode_batch-recovery enc c recovery start k m law =
    encode_batch-encode_with enc (tabulate start k (nth_chunk c)) m
    ∙ ap (λ n. encode_with enc n m (map shard_of (tabulate start k (nth_chunk c))))
        (length-tabulate (nth_chunk c) start k)
    ∙ ap (encode_with enc k m) (
        ap (map shard_of) (tabulate_at (nth_chunk c) start (start + 0) k k (omega arith) refl)
        ∙ map-shard_of c start 0 k)
    ∙ law.encodes (shards_of c start) (length-shards_of c start)
