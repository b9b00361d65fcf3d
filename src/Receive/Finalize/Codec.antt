-- ===== src/Receive/Finalize/Codec.antt =====
-- How `finalize_current_batch` calls the decoder of `reed_solomon_simd`, and what it relies on.
use data_diode.Prelude.{
  ℕ, suc, ◌+◌, ◌-◌, ◌≤◌, ◌<◌, [], ◌∷◌, Option, none, some, ◌≡◌, refl, ap, arith, Bytes, length,
  take_all, ◌>>=◌, bind_ext, ltb_of_le, leb_of_lt,
}
use data_diode.BTreeMap.{BTreeMap, get}
use data_diode.BTreeMap.Laws.{Ascends, Ascends-le, Each}
use data_diode.Proto.{shard_size}
use data_diode.Receive.State.{ReceiveState}
use data_diode.Receive.Chunk.{batch_start}
use data_diode.Receive.Finalize.{ReedSolomon, padded, add_originals, add_recoveries, run_decoder}

-- The calls that add the shards of a map, in the order of their indices.
unfoldable pub add_all : {D : Type 0} → (ℕ → Bytes → D → Option D) → BTreeMap Bytes → D → Option D
add_all f [] d = some d
add_all f ((i, s) ∷ m) d = do d' ← f i s d; add_all f m d'

module _ (rs : ReedSolomon) where
  open rs use {Decoder, new_decoder, add_original_shard, add_recovery_shard, decode}

  unfoldable pub decode_with : ℕ → ℕ → BTreeMap Bytes → BTreeMap Bytes → Option (BTreeMap Bytes)
  decode_with k m originals recoveries = do
    d ← new_decoder k m shard_size
    d ← add_all add_original_shard originals d
    d ← add_all add_recovery_shard recoveries d
    decode d

  -- The documented promise of the code for `k` original and `m` recovery shards, where `recovery`
  -- is what the encoder makes: any `k` of the `k + m` shards give the originals that are missing.
  pub record Restores (k m : ℕ) (recovery : (ℕ → Bytes) → ℕ → Bytes) : Type 0 where
    pub recovery_size :
        (shards : ℕ → Bytes)
        → ((i : ℕ) → length (shards i) ≡ shard_size)
        → (j : ℕ) → length (recovery shards j) ≡ shard_size
    pub restores :
        (shards : ℕ → Bytes) (originals recoveries : BTreeMap Bytes)
        → ((i : ℕ) → length (shards i) ≡ shard_size)
        → Ascends 0 k originals
        → Ascends 0 m recoveries
        → Each (λ i s. s ≡ shards i) originals
        → Each (λ j s. s ≡ recovery shards j) recoveries
        → k ≤ length originals + length recoveries
        → (restored : BTreeMap Bytes) × (decode_with k m originals recoveries ≡ some restored)
          × ((i : ℕ) → i < k → get i originals ≡ none → get i restored ≡ some (shards i))

-- The data chunks of a batch as the decoder gets them.
abbrev pub rebase : ℕ → BTreeMap Bytes → BTreeMap Bytes
rebase start [] = []
rebase start ((n, s) ∷ m) = (n - start, padded s) ∷ rebase start m

pub length-rebase : (start : ℕ) (m : BTreeMap Bytes) → length (rebase start m) ≡ length m
length-rebase start [] = refl
length-rebase start ((n, s) ∷ m) = ap suc (length-rebase start m)

pub rebase-Ascends :
    (start lo size : ℕ) (m : BTreeMap Bytes)
    → start ≤ lo
    → Ascends lo (start + size) m
    → Ascends (lo - start) size (rebase start m)
rebase-Ascends start lo size [] h a = tt
rebase-Ascends start lo size ((n, s) ∷ m) h (a, b, rest) = (
  omega arith,
  omega arith,
  Ascends-le (suc n - start) (suc (n - start)) size (rebase start m) (omega arith)
      (rebase-Ascends start (suc n) size m (omega arith) rest),
)

pub get-rebase-none :
    (start lo size i : ℕ) (m : BTreeMap Bytes)
    → start ≤ lo
    → Ascends lo (start + size) m
    → get (start + i) m ≡ none
    → get i (rebase start m) ≡ none
unfolding get
get-rebase-none start lo size i [] h a e = refl
get-rebase-none start lo size i ((n, s) ∷ m) h (a, b, rest) e =
    ground (arith, get-rebase-none start (suc n) size i m)

pub rebase-Each :
    (f : ℕ → Bytes) (start lo hi : ℕ) (m : BTreeMap Bytes)
    → start ≤ lo
    → Ascends lo hi m
    → Each (λ n s. s ≡ f n) m
    → Each (λ i s. s ≡ padded (f (start + i))) (rebase start m)
rebase-Each f start lo hi [] h a e = tt
rebase-Each f start lo hi ((n, s) ∷ m) h (a, b, rest) (e, es) =
    let back : start + (n - start) ≡ n = omega arith in
    (rw (back, e) refl, rebase-Each f start (suc n) hi m (omega arith) rest es)

module _ (rs : ReedSolomon) where
  open rs use {Decoder, add_original_shard, add_recovery_shard}

  -- No chunk is left out when all lie in the batch.
  add_originals_lem :
      (start lo size : ℕ) (m : BTreeMap Bytes) (d : Decoder)
      → start ≤ lo
      → Ascends lo (start + size) m
      → add_originals rs start size m d ≡ add_all add_original_shard (rebase start m) d
  unfolding add_originals add_all
  add_originals_lem start lo size [] d h a = refl
  add_originals_lem start lo size ((n, s) ∷ m) d h (a, b, rest) =
      rw (leb_of_lt size (n - start) (omega arith)) (
        bind_ext (add_original_shard (n - start) (padded s) d)
          (λ d'. add_originals_lem start (suc n) size m d' (omega arith) rest))

  add_recoveries_lem :
      (parity lo : ℕ) (m : BTreeMap Bytes) (d : Decoder)
      → Ascends lo parity m
      → Each (λ j s. length s ≡ shard_size) m
      → add_recoveries rs parity m d ≡ add_all add_recovery_shard m d
  unfolding add_recoveries add_all
  add_recoveries_lem parity lo [] d a e = refl
  add_recoveries_lem parity lo ((j, s) ∷ m) d (a, b, rest) (e, es) =
      rw
        (
          leb_of_lt parity j b,
          ltb_of_le (length s) shard_size (omega arith),
          take_all s shard_size (omega arith),
        )
        (bind_ext (add_recovery_shard j s d) (λ d'. add_recoveries_lem parity (suc j) m d' rest es))

  -- What the receiver asks of the decoder for a batch.
  pub run_decoder_lem :
      (state : ReceiveState) (size : ℕ)
      → let start = batch_start state.current_batch in
        Ascends start (start + size) state.data_buffer
        → Ascends 0 state.parity_per_batch state.parity_buffer
        → Each (λ j s. length s ≡ shard_size) state.parity_buffer
        → run_decoder rs state size
          ≡ decode_with rs size state.parity_per_batch
              (rebase start state.data_buffer)
              state.parity_buffer
  unfolding run_decoder decode_with
  run_decoder_lem state size a p e =
      bind_ext (rs.new_decoder size state.parity_per_batch shard_size) (λ d.
        rw
          (add_originals_lem (batch_start state.current_batch) (batch_start state.current_batch)
            size state.data_buffer d (omega arith) a)
          (bind_ext
            (add_all add_original_shard (rebase (batch_start state.current_batch) state.data_buffer)
              d)
            (λ d'.
              rw (add_recoveries_lem state.parity_per_batch 0 state.parity_buffer d' p e) refl)))
