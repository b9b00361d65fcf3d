-- ===== src/Receive/Session/Step.antt =====
-- A packet of the file in the worker loop: one of the current batch, or the first of the next.
use data_diode.Prelude.{
  ℕ, ◌+◌, ◌-◌, ◌*◌, ◌/◌, ◌%◌, ◌≤◌, ◌<◌, true, false, not, ◌&&◌, [], some, ◌≡◌, refl, sym, ap, ◌∙◌,
  subst, arith, length, ◌==◌, ltb, lt→ltb, ltb_of_le, ==_refl,
}
use data_diode.BTreeMap.Laws.{Ascends, Each}
use data_diode.Receive.Finalize.Chunks.{Genuine}
use data_diode.FileSystem.{FileSystem}
use data_diode.Proto.{batch_data_chunks, batch_parity_chunks, pkg_type_data, pkg_type_parity}
use data_diode.Receive.State.{ReceiveState, Receiver}
use data_diode.Receive.Chunk.{
  is_chunk_valid, batch_for_data, batch_for_parity, batch_start, batch_data_size,
}
use data_diode.Receive.Finalize.{
  ReedSolomon, Result, ok, err, after_batch, finalize_current_batch, advance_loop, advance_to_batch,
}
use data_diode.Receive.Finalize.Bounds.{Settles, finalize-Settles, cleared-SoundFor}
use data_diode.Receive.Finalize.Codec.{Restores}
use data_diode.Receive.Finalize.Recovery.{Arrived}
use data_diode.Receive.Finalize.Batch.{Output, BatchWritten, finalize_current_batch-BatchWritten}
use data_diode.Receive.Worker.{advance_if_later, handle_data, handle_parity}
use data_diode.Receive.Session.{
  Upload, chunk_count, chunk, shard, buffers, shard_of_batch, packet_of, IsPiece, Session,
}
use data_diode.Receive.Session.Gather.{
  IsFit, data_valid, parity_valid, batch_start_early, Took, store_chunk-Took, store_shard-Took,
}

module _ (rs : ReedSolomon) (u : Upload) (fit : IsFit u) where
  open u use {md5, recovery, contents, path_hash, path, name}

  module _ (b : ℕ) (r q : Receiver) (going : r.state.failed ≡ false)
      (hashed : r.state.path_hash ≡ some path_hash) (advanced : advance_if_later md5 rs r b ≡ q)
      (v : Session u b q) where
    stays : (not q.state.failed && b == q.state.current_batch) ≡ true
    stays = rw (v.going, v.current) (==_refl b)

    pub handle_data-Took :
        (i : ℕ)
        → IsPiece u b (chunk i)
        → Took u fit b (chunk i) q (handle_data md5 rs r (packet_of u b (chunk i)))
    unfolding handle_data batch_for_data
    handle_data-Took i h =
        let batch : (b * 1000 + i) / 1000 ≡ b = omega (arith, h.0) in
        let accepted : (not r.state.failed
              && is_chunk_valid md5 (packet_of u b (chunk i)) r.state pkg_type_data)
            ≡ true =
          rw ((data_valid u fit b i r.state hashed h).0, going) refl in
        rw (batch, advanced, accepted, stays) (store_chunk-Took u fit b i q v h)

    pub handle_parity-Took :
        (j : ℕ)
        → IsPiece u b (shard j)
        → Took u fit b (shard j) q (handle_parity md5 rs r (packet_of u b (shard j)))
    unfolding handle_parity batch_for_parity
    handle_parity-Took j h =
        let batch : (b * 100 + j) / 100 ≡ b = omega (arith, h.0) in
        let idx : (b * 100 + j) % 100 ≡ j = omega (arith, h.0) in
        let accepted : (not r.state.failed
              && is_chunk_valid md5 (packet_of u b (shard j)) r.state pkg_type_parity)
            ≡ true =
          rw (parity_valid u fit b j r.state hashed, going) refl in
        rw (batch, advanced, accepted, stays, idx) (store_shard-Took u fit b j q v h)

  -- A packet of the current batch.
  pub handle_current :
      (b : ℕ) (r : Receiver) → r.state.current_batch ≡ b → advance_if_later md5 rs r b ≡ r
  unfolding advance_if_later
  handle_current b r e =
      let none_later : ltb r.state.current_batch b ≡ false =
        ltb_of_le r.state.current_batch b (omega arith) in
      rw none_later refl

  -- Enough pieces of the current batch arrived.
  abbrev pub HasEnough : ℕ → Receiver → Type 0
  HasEnough b r =
      batch_data_size b (length contents)
      ≤ length r.state.data_buffer + length r.state.parity_buffer

  Session-Arrived :
      (b : ℕ) (r : Receiver)
      → Session u b r
      → HasEnough b r
      → Arrived contents (recovery (batch_data_size b (length contents))) r.state
  Session-Arrived b r v enough = record {
    sized = v.sized;
    in_batch = rw (v.current, v.sized) v.in_batch;
    in_parity = rw v.with_parity v.sound.in_parity;
    genuine = v.genuine;
    genuine_parity = rw v.current v.genuine_parity;
    enough = rw (v.current, v.sized) enough;
  }

  -- The promise of the code for the sizes of the batches.
  abbrev pub RestoresBatches : Type 0
  RestoresBatches =
      (b : ℕ)
      → 0 < batch_data_size b (length contents)
      → Restores rs (batch_data_size b (length contents)) batch_parity_chunks
          (recovery (batch_data_size b (length contents)))

  pub finalize-BatchWritten :
      (b : ℕ) (r : Receiver)
      → Session u b r
      → HasEnough b r
      → RestoresBatches
      → 0 < batch_data_size b (length contents)
      → BatchWritten contents name
          (batch_start b + batch_data_size b (length contents))
          (finalize_current_batch rs r.state r.fs)
  finalize-BatchWritten b r v enough law nonempty =
      let arrived = Session-Arrived b r v enough in
      let at : batch_start r.state.current_batch
            + batch_data_size r.state.current_batch r.state.file_size
          ≡ batch_start b + batch_data_size b (length contents) =
        rw (v.current, v.sized) refl in
      let promise : Restores rs (batch_data_size r.state.current_batch r.state.file_size)
          r.state.parity_per_batch (recovery (batch_data_size b (length contents))) =
        rw (v.current, v.sized, v.with_parity) (law b nonempty) in
      let before : Output contents v.file.name (batch_start r.state.current_batch) r.fs =
        rw (v.named, v.current) v.output in
      let W = finalize_current_batch rs r.state r.fs in
      subst (λ f. BatchWritten contents f (batch_start b + batch_data_size b (length contents)) W)
        v.named
        (subst (λ n. BatchWritten contents v.file.name n W) at
          (finalize_current_batch-BatchWritten rs contents
            (recovery (batch_data_size b (length contents))) r.state arrived v.file r.fs before
            (omega (arith, fit.small)) v.opened promise))

  -- The next batch begins with empty buffers.
  abbrev pub Begun : ℕ → Receiver → ReceiveState × FileSystem → Type 0
  Begun b r (state, fs) =
      let q = record r { state = state; fs = fs } in Session u b q × (buffers q ≡ ([], []))

  after_batch-Begun :
      (b : ℕ) (r : Receiver) (n : ℕ)
      → Session u b r
      → (b + 1) * batch_data_chunks ≤ chunk_count u
      → n ≡ batch_start (b + 1)
      → (w : Result (Unit {0}) × ReceiveState × FileSystem) → Settles r.state w
      → BatchWritten contents name n w
      → Begun (b + 1) r (after_batch w (advance_loop rs 0 (b + 1)))
  unfolding after_batch advance_loop
  after_batch-Begun b r n v early at (err e, state, fs) s written = elim written [ ]
  after_batch-Begun b r n v early at (ok _, state, fs) s (output, file, opened, named) =
      let (sound, active) =
        cleared-SoundFor path r.state state.output (r.state.current_batch + 1)
          (v.sound, v.active) in
      (
        record {
          sound = rw s sound;
          active = ap (λ t. t.file_path) s ∙ v.active;
          hashed = ap (λ t. t.path_hash) s ∙ v.hashed;
          sized = ap (λ t. t.file_size) s ∙ v.sized;
          with_parity = ap (λ t. t.parity_per_batch) s ∙ v.with_parity;
          current = ap (λ t. t.current_batch + 1) s ∙ ap (λ k. k + 1) v.current;
          going = ap (λ t. t.failed) s ∙ v.going;
          early = early;
          in_batch = subst (Ascends _ _) (sym (ap (λ t. t.data_buffer) s)) tt;
          genuine = subst (Genuine contents) (sym (ap (λ t. t.data_buffer) s)) tt;
          genuine_parity =
              subst (Each (λ j t. t ≡ shard_of_batch u (b + 1) j))
                (sym (ap (λ t. t.parity_buffer) s)) tt;
          file = file;
          opened = opened;
          named = named;
          output = rw (sym at) output;
        },
        ap (λ t. (t.data_buffer, t.parity_buffer)) s,
      )

  -- The first packet of the next batch writes the current one.
  pub handle_next :
      (b : ℕ) (r : Receiver)
      → Session u b r
      → HasEnough b r
      → RestoresBatches
      → (b + 1) * batch_data_chunks ≤ chunk_count u
      → let q = advance_if_later md5 rs r (b + 1) in Session u (b + 1) q × (buffers q ≡ ([], []))
  unfolding advance_if_later advance_to_batch advance_loop
  handle_next b r v enough law early =
      let later : ltb r.state.current_batch (b + 1) ≡ true =
        lt→ltb r.state.current_batch (b + 1) (omega (arith, v.current)) in
      let goes_on : (not r.state.failed && ltb r.state.current_batch (b + 1)) ≡ true =
        rw (later, v.going) refl in
      let one_round : b + 1 - r.state.current_batch ≡ 1 = omega (arith, v.current) in
      let (start, size) = batch_start_early b (length contents) fit.small v.early in
      let (next_start, next_size) = batch_start_early (b + 1) (length contents) fit.small early in
      rw (later, one_round, goes_on)
        (after_batch-Begun b r (batch_start b + batch_data_size b (length contents)) v early
          (omega arith) (finalize_current_batch rs r.state r.fs) (finalize-Settles rs r.state r.fs)
          (finalize-BatchWritten b r v enough law (omega arith)))
