-- ===== src/Receive/Finalize.antt =====
-- `finalize_current_batch` and `advance_to_batch` of diode_receive/src/main.rs. The crate
-- `reed_solomon_simd` is the parameter `rs`.
use data_diode.Prelude.{
  ℕ, zero, suc, ◌+◌, ◌-◌, Bool, true, false, not, ◌&&◌, ◌||◌, [], ◌∷◌, ◌++◌, Option, none, some,
  Bytes, length, take, replicate, ◌>>=◌, if◌then◌else◌, ◌==◌, leb, ltb,
}
pub mod Frame
pub mod Bounds
pub mod Contents
pub mod Chunks
pub mod Codec
pub mod Recovery
pub mod Batch
pub mod Progress
use data_diode.Proto.{chunk_size, shard_size}
use data_diode.BTreeMap.{BTreeMap, get}
use data_diode.FileSystem.{FileSystem, File, seek, write_all}
use data_diode.Receive.State.{ReceiveState, wrapping_mul}
use data_diode.Receive.Chunk.{batch_start, batch_data_size, expected_len}

-- What the receiver calls of the decoder. A call that returns an error gives `none`; its text
-- goes to the log. `decode` gives the original shards that were not added.
pub record ReedSolomon : Type 1 where
  pub Decoder : Type 0
  pub new_decoder : ℕ → ℕ → ℕ → Option Decoder
  pub add_original_shard : ℕ → Bytes → Decoder → Option Decoder
  pub add_recovery_shard : ℕ → Bytes → Decoder → Option Decoder
  pub decode : Decoder → Option (BTreeMap Bytes)

-- The messages of the `Err` results, without their text.
pub data FinalizeError : Type 0 where
  fec_disabled insufficient fec_failed no_output seek_failed write_failed : FinalizeError
  too_short restored_too_short still_missing : ℕ → FinalizeError

pub data Result {ℓ} (A : Type ℓ) : Type ℓ where
  ok : A → Result A
  err : FinalizeError → Result A

abbrev ok_or {ℓ} : {A : Type ℓ} → Option A → FinalizeError → Result A
ok_or none e = err e
ok_or (some a) e = ok a

-- A chunk in a buffer of `SHARD_SIZE` zeros.
unfoldable pub padded : Bytes → Bytes
padded s = let s' = take shard_size s in s' ++ replicate (shard_size - length s') 0

module _ (rs : ReedSolomon) where
  open rs use {Decoder, new_decoder, add_original_shard, add_recovery_shard, decode}

  unfoldable pub add_originals : ℕ → ℕ → BTreeMap Bytes → Decoder → Option Decoder
  add_originals start size [] d = some d
  add_originals start size ((abs_idx, s) ∷ m) d =
      let next = (do
        d' ← add_original_shard (abs_idx - start) (padded s) d
        add_originals start size m d') in
      let skip = add_originals start size m d in if leb size (abs_idx - start) then skip else next

  unfoldable pub add_recoveries : ℕ → BTreeMap Bytes → Decoder → Option Decoder
  add_recoveries parity_per_batch [] d = some d
  add_recoveries parity_per_batch ((idx, s) ∷ m) d =
      let next = (do
        d' ← add_recovery_shard idx (take shard_size s) d
        add_recoveries parity_per_batch m d') in
      let skip = add_recoveries parity_per_batch m d in
      if leb parity_per_batch idx || ltb (length s) shard_size then skip else next

  -- The shards that the decoder restores.
  unfoldable pub run_decoder : ReceiveState → ℕ → Option (BTreeMap Bytes)
  run_decoder state data_size = do
    d ← new_decoder data_size state.parity_per_batch shard_size
    d ← add_originals (batch_start state.current_batch) data_size state.data_buffer d
    d ← add_recoveries state.parity_per_batch state.parity_buffer d
    decode d

  unfoldable pub restore : ReceiveState → ℕ → Result (BTreeMap Bytes)
  restore state data_size =
      if leb data_size (length state.data_buffer)
      then ok []
      else if state.parity_per_batch == 0
      then err fec_disabled
      else if ltb (length state.data_buffer + length state.parity_buffer) data_size
      then err insufficient
      else ok_or (run_decoder state data_size) fec_failed

-- The bytes of chunk `i` of the batch: received, or else restored, and cut to its length.
unfoldable pub chunk_at : ReceiveState → BTreeMap Bytes → ℕ → Result Bytes
chunk_at state restored i =
    let n = batch_start state.current_batch + i in
    let len = expected_len state.file_size n in
    elim (get n state.data_buffer) [
      | some s ↦ if ltb (length s) len then err (too_short n) else ok (take len s)
      | none ↦ elim (get i restored) [
        | some shard ↦
            if ltb (length shard) len then err (restored_too_short n) else ok (take len shard)
        | none ↦ err (still_missing n)
      ]
    ]

-- What a round of the write loop does with its chunk, and how the loop goes on, which is `next`.
unfoldable pub after_write :
    Bool × File × FileSystem
    → (File → FileSystem → Result (Unit {0}) × File × FileSystem)
    → Result (Unit {0}) × File × FileSystem
after_write (false, file, fs) next = (err write_failed, file, fs)
after_write (true, file, fs) next = next file fs

unfoldable pub write_chunk :
    Result Bytes
    → (File → FileSystem → Result (Unit {0}) × File × FileSystem)
    → File
    → FileSystem
    → Result (Unit {0}) × File × FileSystem
write_chunk (err e) next file fs = (err e, file, fs)
write_chunk (ok chunk) next file fs = after_write (write_all file chunk fs) next

-- The loop over `0..data_size`, with `rounds` rounds left from `i` on.
unfoldable pub write_chunks :
    ℕ
    → ℕ
    → ReceiveState
    → BTreeMap Bytes
    → File
    → FileSystem
    → Result (Unit {0}) × File × FileSystem
write_chunks zero i state restored file fs = (ok tt, file, fs)
write_chunks (suc rounds) i state restored file fs =
    write_chunk (chunk_at state restored i) (write_chunks rounds (i + 1) state restored) file fs

abbrev pub clear_buffers : ReceiveState → ReceiveState
clear_buffers state = record state { data_buffer = []; parity_buffer = []; bytes_buffered = 0 }

-- The buffers are cleared only when every chunk was written.
unfoldable pub conclude :
    ReceiveState
    → Result (Unit {0}) × File × FileSystem
    → Result (Unit {0}) × ReceiveState × FileSystem
conclude state (err e, file, fs) = (err e, record state { output = some file }, fs)
conclude state (ok _, file, fs) = (ok tt, clear_buffers (record state { output = some file }), fs)

unfoldable pub write_at :
    Option File × FileSystem
    → ReceiveState
    → ℕ
    → BTreeMap Bytes
    → Result (Unit {0}) × ReceiveState × FileSystem
write_at (none, fs) state data_size restored = (err seek_failed, state, fs)
write_at (some file, fs) state data_size restored =
    conclude state (write_chunks data_size 0 state restored file fs)

-- The byte at which the current batch begins; the product is taken in u64.
unfoldable pub batch_offset : ReceiveState → ℕ
batch_offset state = wrapping_mul (batch_start state.current_batch) chunk_size

unfoldable pub write_output :
    Option File
    → ReceiveState
    → ℕ
    → BTreeMap Bytes
    → FileSystem
    → Result (Unit {0}) × ReceiveState × FileSystem
write_output none state data_size restored fs = (err no_output, state, fs)
write_output (some file) state data_size restored fs =
    write_at (seek file (batch_offset state) fs) state data_size restored

unfoldable pub write_restored :
    Result (BTreeMap Bytes)
    → ReceiveState
    → ℕ
    → FileSystem
    → Result (Unit {0}) × ReceiveState × FileSystem
write_restored (err e) state data_size fs = (err e, state, fs)
write_restored (ok restored) state data_size fs =
    write_output state.output state data_size restored fs

-- A round of the batch loop that failed ends it; otherwise the next batch begins.
unfoldable pub after_batch :
    Result (Unit {0}) × ReceiveState × FileSystem
    → (ReceiveState → FileSystem → ReceiveState × FileSystem)
    → ReceiveState × FileSystem
after_batch (err e, state, fs) next = (record state { failed = true }, fs)
after_batch (ok _, state, fs) next =
    next (record state { current_batch = state.current_batch + 1 }) fs

module _ (rs : ReedSolomon) where
  unfoldable pub finalize_current_batch :
      ReceiveState → FileSystem → Result (Unit {0}) × ReceiveState × FileSystem
  finalize_current_batch state fs =
      let data_size = batch_data_size state.current_batch state.file_size in
      if data_size == 0
      then (ok tt, clear_buffers state, fs)
      else write_restored (restore rs state data_size) state data_size fs

  -- The `while` loop. Each round moves to the next batch, so as many rounds are enough as there
  -- are batches up to the target.
  unfoldable pub advance_loop : ℕ → ℕ → ReceiveState → FileSystem → ReceiveState × FileSystem
  advance_loop zero target state fs = (state, fs)
  advance_loop (suc rounds) target state fs =
      let next = after_batch (finalize_current_batch state fs) (advance_loop rounds target) in
      if not state.failed && ltb state.current_batch target then next else (state, fs)

  unfoldable pub advance_to_batch : ReceiveState → ℕ → FileSystem → ReceiveState × FileSystem
  advance_to_batch state target fs = advance_loop (target - state.current_batch) target state fs
