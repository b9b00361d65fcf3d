-- ===== src/Receive/Finalize/Batch.antt =====
-- A whole batch of `finalize_current_batch`: all of its chunks written to the file.
use data_diode.Prelude.{
  ℕ, ◌+◌, ◌^◌, ◌≤◌, ◌<◌, [], inl, inr, some, ◌≡◌, refl, sym, subst, arith, Bytes, length, take,
  ==-cases,
}
use data_diode.BTreeMap.{BTreeMap}
use data_diode.FileSystem.{FileName, FileSystem, File, lookup, seek}
use data_diode.Receive.State.{ReceiveState}
use data_diode.Receive.Chunk.{total_chunks, batch_start, batch_data_size}
use data_diode.Receive.Finalize.{
  ReedSolomon, Result, ok, err, conclude, write_at, write_chunks, batch_offset, write_output,
  write_restored, finalize_current_batch,
}
use data_diode.Receive.Finalize.Contents.{chunk_begin, attempt_calm}
use data_diode.Receive.Finalize.Chunks.{WrittenTo, chunk_at-nth_chunk, write_chunks-WrittenTo}
use data_diode.Receive.Finalize.Codec.{Restores}
use data_diode.Receive.Finalize.Recovery.{Arrived, MakesUp, restore-MakesUp}

-- The file `name` is there, as long as the contents `c`, and holds them up to where chunk `n` begins;
-- no file system call will be refused.
pub record Output (c : Bytes) (name : FileName) (n : ℕ) (fs : FileSystem) : Type 0 where
  pub bytes : Bytes
  pub found : lookup name fs.files ≡ some bytes
  pub same_length : length bytes ≡ length c
  pub agrees : take (chunk_begin c n) bytes ≡ take (chunk_begin c n) c
  pub calm : fs.attempts ≡ []

-- A batch that was written: the file up to where chunk `n` begins, still open.
abbrev pub BatchWritten :
    Bytes → FileName → ℕ → Result (Unit {0}) × ReceiveState × FileSystem → Type 0
BatchWritten c name n (err e, state, fs) = ⊥
BatchWritten c name n (ok _, state, fs) =
    Output c name n fs × (file : File) × (state.output ≡ some file) × (file.name ≡ name)

conclude-BatchWritten :
    (c : Bytes) (name : FileName) (n : ℕ) (state : ReceiveState)
    (w : Result (Unit {0}) × File × FileSystem)
    → WrittenTo c name n w
    → BatchWritten c name n (conclude state w)
unfolding conclude
conclude-BatchWritten c name n state (err _, file, fs) x = elim x [ ]
conclude-BatchWritten c name n state (ok _, file, fs) (w, at, named) = (
  record {
    bytes = w.bytes;
    found = rw (sym named) w.found;
    same_length = w.same_length;
    agrees = rw (sym at) w.agrees;
    calm = w.calm;
  },
  file,
  refl,
  named,
)

seek_calm :
    (file : File) (offset : ℕ) (fs : FileSystem)
    → fs.attempts ≡ []
    → seek file offset fs ≡ (some (record file { position = offset }), fs)
unfolding seek
seek_calm file offset fs h = simp (seek, attempt_calm fs h)

batch_size_facts :
    (b size : ℕ)
    → 0 < batch_data_size b size
    → batch_start b + batch_data_size b size ≤ total_chunks size
unfolding batch_data_size
batch_size_facts b size h = ground arith

batch_offset_lem :
    (c : Bytes) (state : ReceiveState)
    → length c < 2 ^ 64
    → batch_start state.current_batch < total_chunks (length c)
    → batch_offset state ≡ chunk_begin c (batch_start state.current_batch)
unfolding batch_offset total_chunks
batch_offset_lem c state h here = omega arith

module _ (rs : ReedSolomon) (c : Bytes) (recovery : (ℕ → Bytes) → ℕ → Bytes) (state : ReceiveState)
    (v : Arrived c recovery state) (file : File) (fs : FileSystem)
    (o : Output c file.name (batch_start state.current_batch) fs) (small : length c < 2 ^ 64) where
  write_output-BatchWritten :
      (restored : BTreeMap Bytes)
      → state.output ≡ some file
      → MakesUp c state (batch_data_size state.current_batch state.file_size) restored
      → 0 < batch_data_size state.current_batch state.file_size
      → BatchWritten c file.name
          (batch_start state.current_batch + batch_data_size state.current_batch state.file_size)
          (write_output state.output state
            (batch_data_size state.current_batch state.file_size)
            restored
            fs)
  unfolding write_output write_at
  write_output-BatchWritten restored open_file makes nonempty =
      let start = batch_start state.current_batch in
      let size = batch_data_size state.current_batch state.file_size in
      let inside : start + size ≤ total_chunks (length c) =
        subst (λ n. start + size ≤ total_chunks n) v.sized
          (batch_size_facts state.current_batch state.file_size nonempty) in
      let at : batch_offset state ≡ chunk_begin c start =
        batch_offset_lem c state small (omega arith) in
      let holds = BatchWritten c file.name (start + size) in
      let sought = seek_calm file (batch_offset state) fs o.calm in
      subst (λ out. holds (write_output out state size restored fs)) (sym open_file)
        (subst (λ f. holds (write_at f state size restored)) (sym sought)
          (conclude-BatchWritten c file.name (start + size) state
            (write_chunks size 0 state restored (record file { position = batch_offset state }) fs)
            (write_chunks-WrittenTo c state restored size
              (λ i lt.
                chunk_at-nth_chunk c state v.sized restored i (omega arith) v.genuine (makes i lt))
              inside size 0 (record file { position = batch_offset state }) fs (omega arith)
              (record {
                bytes = o.bytes;
                found = o.found;
                same_length = o.same_length;
                agrees = rw at o.agrees;
                calm = o.calm;
              })
              (omega arith))))

  -- When the chunks and shards that arrived belong to the file being sent and are as many as the
  -- batch has chunks, when the codec keeps its promise for these counts, and when the file is open
  -- with the earlier batches in it and no file system call is refused, then
  -- `finalize_current_batch` succeeds, and the file is byte for byte the one that was sent up to
  -- the end of the batch, has its length, and is still open for the next batch.
  pub finalize_current_batch-BatchWritten :
      state.output ≡ some file
      → Restores rs
          (batch_data_size state.current_batch state.file_size)
          state.parity_per_batch
          recovery
      → BatchWritten c file.name
          (batch_start state.current_batch + batch_data_size state.current_batch state.file_size)
          (finalize_current_batch rs state fs)
  unfolding finalize_current_batch write_restored
  finalize_current_batch-BatchWritten open_file law =
      let size = batch_data_size state.current_batch state.file_size in
      let (restored, e, makes) = restore-MakesUp rs c recovery state v law in
      elim (==-cases size 0) [
        | inl (z, t) ↦
            let same : batch_start state.current_batch + size ≡ batch_start state.current_batch =
              omega arith in
            rw (t, same) (o, file, open_file, refl)
        | inr (p, t) ↦ rw (t, e) (write_output-BatchWritten restored open_file makes (omega arith))
      ]
