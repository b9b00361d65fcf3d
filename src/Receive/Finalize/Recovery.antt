-- ===== src/Receive/Finalize/Recovery.antt =====
-- What `finalize_current_batch` restores when some chunks of a batch were lost.
use data_diode.Prelude.{
  ℕ, ◌+◌, ◌-◌, ◌≤◌, ◌<◌, false, [], inl, inr, none, some, ◌≡◌, refl, ap, ◌∙◌, arith, Bytes, length,
  length-append, take, replicate, length-replicate, length-take, ◌==◌, leb, ltb_of_le, leb→le,
  leb→gt, ==_of_positive, Bool-cases,
}
use data_diode.BTreeMap.{BTreeMap, get}
use data_diode.BTreeMap.Laws.{
  Ascends, Ascends-le, Each-map, length-le_of_Ascends, length-lt_of_missing, Each,
}
use data_diode.Proto.{shard_size}
use data_diode.Receive.State.{ReceiveState}
use data_diode.Receive.Chunk.{batch_start, batch_data_size}
use data_diode.Receive.Finalize.{ReedSolomon, ok, padded, restore, run_decoder}
use data_diode.Receive.Finalize.Contents.{nth_chunk}
use data_diode.Receive.Finalize.Chunks.{Genuine}
use data_diode.Receive.Finalize.Codec.{
  Restores, rebase, length-rebase, rebase-Ascends, rebase-Each, get-rebase-none, run_decoder_lem,
}

-- The original shards of the batch that begins with chunk `start`, as the sender encodes them.
abbrev pub shards_of : Bytes → ℕ → ℕ → Bytes
shards_of c start i = padded (nth_chunk c (start + i))

-- The chunks and shards in the buffers belong to the current batch of the file `c`, as sent.
pub record Arrived (c : Bytes) (recovery : (ℕ → Bytes) → ℕ → Bytes) (state : ReceiveState)
    : Type 0 where
  pub sized : state.file_size ≡ length c
  pub in_batch :
      Ascends
        (batch_start state.current_batch)
        (batch_start state.current_batch + batch_data_size state.current_batch state.file_size)
        state.data_buffer
  pub in_parity : Ascends 0 state.parity_per_batch state.parity_buffer
  pub genuine : Genuine c state.data_buffer
  pub genuine_parity :
      Each
        (λ j s. s ≡ recovery (shards_of c (batch_start state.current_batch)) j)
        state.parity_buffer
  -- Not more is lost than the parity makes up for.
  pub enough :
      batch_data_size state.current_batch state.file_size
      ≤ length state.data_buffer + length state.parity_buffer

pub length-shards_of : (c : Bytes) (start i : ℕ) → length (shards_of c start i) ≡ shard_size
unfolding padded
length-shards_of c start i =
    let s = take shard_size (nth_chunk c (start + i)) in
    omega (
      arith,
      length-append s (replicate (shard_size - length s) 0),
      length-replicate {A = ℕ} (shard_size - length s) 0,
      length-take shard_size (nth_chunk c (start + i)),
    )

-- Every chunk that the batch misses is among the restored ones.
abbrev pub MakesUp : Bytes → ReceiveState → ℕ → BTreeMap Bytes → Type 0
MakesUp c state size restored =
    let start = batch_start state.current_batch in
    (i : ℕ)
    → i < size
    → get (start + i) state.data_buffer ≡ none
    → get i restored ≡ some (shards_of c start i)

module _ (rs : ReedSolomon) (c : Bytes) (recovery : (ℕ → Bytes) → ℕ → Bytes) (state : ReceiveState)
    (v : Arrived c recovery state) where
  complete-MakesUp :
      batch_data_size state.current_batch state.file_size ≤ length state.data_buffer
      → (restored : BTreeMap Bytes)
      → MakesUp c state (batch_data_size state.current_batch state.file_size) restored
  complete-MakesUp h restored i lt e =
      let start = batch_start state.current_batch in
      let size = batch_data_size state.current_batch state.file_size in
      absurd (
        omega (
          arith,
          length-lt_of_missing start (start + size) (start + i) state.data_buffer v.in_batch
              (omega arith) (omega arith) e,
        ))

  run_decoder-MakesUp :
      Restores rs
        (batch_data_size state.current_batch state.file_size)
        state.parity_per_batch
        recovery
      → (restored : BTreeMap Bytes) × (run_decoder rs state
            (batch_data_size state.current_batch state.file_size)
          ≡ some restored)
        × MakesUp c state (batch_data_size state.current_batch state.file_size) restored
  run_decoder-MakesUp law =
      let start = batch_start state.current_batch in
      let size = batch_data_size state.current_batch state.file_size in
      let (restored, e, makes) =
        law.restores (shards_of c start) (rebase start state.data_buffer) state.parity_buffer
          (length-shards_of c start)
          (Ascends-le (start - start) 0 size (rebase start state.data_buffer) (omega arith)
            (rebase-Ascends start start size state.data_buffer (omega arith) v.in_batch))
          v.in_parity
          (rebase-Each (nth_chunk c) start start (start + size) state.data_buffer (omega arith)
            v.in_batch v.genuine)
          v.genuine_parity (omega (arith, v.enough, length-rebase start state.data_buffer)) in
      (
        restored,
        run_decoder_lem rs state size v.in_batch v.in_parity (
              Each-map state.parity_buffer
                (λ j s e.
                  ap length e ∙ law.recovery_size (shards_of c start) (length-shards_of c start) j)
                v.genuine_parity)
            ∙ e,
        λ i lt missing.
            makes i lt (
              get-rebase-none start start size i state.data_buffer (omega arith) v.in_batch
                missing),
      )

  pub restore-MakesUp :
      Restores rs
        (batch_data_size state.current_batch state.file_size)
        state.parity_per_batch
        recovery
      → (restored : BTreeMap Bytes) × (restore rs state
            (batch_data_size state.current_batch state.file_size)
          ≡ ok restored)
        × MakesUp c state (batch_data_size state.current_batch state.file_size) restored
  unfolding restore
  restore-MakesUp law =
      let size = batch_data_size state.current_batch state.file_size in
      elim (Bool-cases (leb size (length state.data_buffer))) [
        | inl e ↦ ([], rw e refl, complete-MakesUp (leb→le size (length state.data_buffer) e) [])
        | inr e ↦
            let fec : (state.parity_per_batch == 0) ≡ false =
              ==_of_positive state.parity_per_batch (
                omega (
                  arith,
                  leb→gt size (length state.data_buffer) e,
                  v.enough,
                  length-le_of_Ascends 0 state.parity_per_batch state.parity_buffer (omega arith)
                      v.in_parity,
                )) in
            let (restored, d, makes) = run_decoder-MakesUp law in
            (
              restored,
              rw
                  (
                    e,
                    fec,
                    ltb_of_le (length state.data_buffer + length state.parity_buffer) size v.enough,
                    d,
                  )
                  refl,
              makes,
            )
      ]
