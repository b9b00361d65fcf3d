-- ===== src/Receive/Finalize/Bounds.antt =====
-- `finalize_current_batch` and `advance_to_batch` keep the buffers sound.
use data_diode.Prelude.{
  ℕ, zero, suc, ◌+◌, ◌-◌, Bool, true, not, ◌&&◌, Option, none, some, ◌≡◌, refl, Bytes, ◌==◌, ltb,
  both_branches,
}
use data_diode.BTreeMap.{BTreeMap}
use data_diode.FileSystem.{FileSystem, File, seek}
use data_diode.Receive.State.{ReceiveState}
use data_diode.Receive.Chunk.{batch_data_size}
use data_diode.Receive.Buffer.Bounds.{IsSound}
use data_diode.Receive.Finalize.{
  ReedSolomon, Result, ok, err, restore, write_chunks, clear_buffers, conclude, write_at,
  batch_offset, write_output, write_restored, after_batch, finalize_current_batch, advance_loop,
  advance_to_batch,
}

-- A finished batch leaves empty buffers; a failed one leaves them as they were.
abbrev pub Settles : ReceiveState → Result (Unit {0}) × ReceiveState × FileSystem → Type 0
Settles state (err e, state', fs) = state' ≡ record state { output = state'.output }
Settles state (ok _, state', fs) = state' ≡ clear_buffers (record state { output = state'.output })

conclude-Settles :
    (state : ReceiveState) (w : Result (Unit {0}) × File × FileSystem)
    → Settles state (conclude state w)
unfolding conclude
conclude-Settles state (err e, file, fs) = refl
conclude-Settles state (ok _, file, fs) = refl

write_at-Settles :
    (found : Option File × FileSystem) (state : ReceiveState) (size : ℕ) (restored : BTreeMap Bytes)
    → Settles state (write_at found state size restored)
unfolding write_at
write_at-Settles (none, fs) state size restored = refl
write_at-Settles (some file, fs) state size restored =
    conclude-Settles state (write_chunks size 0 state restored file fs)

write_output-Settles :
    (output : Option File) (state : ReceiveState) (size : ℕ) (restored : BTreeMap Bytes)
    (fs : FileSystem)
    → Settles state (write_output output state size restored fs)
unfolding write_output
write_output-Settles none state size restored fs = refl
write_output-Settles (some file) state size restored fs =
    write_at-Settles (seek file (batch_offset state) fs) state size restored

write_restored-Settles :
    (r : Result (BTreeMap Bytes)) (state : ReceiveState) (size : ℕ) (fs : FileSystem)
    → Settles state (write_restored r state size fs)
unfolding write_restored
write_restored-Settles (err e) state size fs = refl
write_restored-Settles (ok restored) state size fs =
    write_output-Settles state.output state size restored fs

module _ (rs : ReedSolomon) where
  pub finalize-Settles :
      (state : ReceiveState) (fs : FileSystem) → Settles state (finalize_current_batch rs state fs)
  unfolding finalize_current_batch
  finalize-Settles state fs =
      let size = batch_data_size state.current_batch state.file_size in
      both_branches (Settles state) (size == 0) refl
        (write_restored-Settles (restore rs state size) state size fs)

-- Of a transfer that is under way.
abbrev pub SoundFor : Bytes → ReceiveState → Type 0
SoundFor p state = IsSound state × (state.file_path ≡ some p)

module _ (p : Bytes) where
  -- The output file and the failure mark do not matter while a transfer is under way.
  with_output-SoundFor :
      (state : ReceiveState) (o : Option File) (b : Bool)
      → SoundFor p state
      → SoundFor p (record state { output = o; failed = b })
  with_output-SoundFor state o b (v, active) = (
    record {
      in_batch = v.in_batch;
      in_parity = v.in_parity;
      chunk_sizes = v.chunk_sizes;
      shard_sizes = v.shard_sizes;
      counted = v.counted;
      idle = λ n. cc;
    },
    active,
  )

  -- With empty buffers any batch may be the current one.
  pub cleared-SoundFor :
      (state : ReceiveState) (o : Option File) (batch : ℕ)
      → SoundFor p state
      → SoundFor p (record (clear_buffers (record state { output = o })) { current_batch = batch })
  cleared-SoundFor state o batch (v, active) = (
    record {
      in_batch = tt;
      in_parity = tt;
      chunk_sizes = tt;
      shard_sizes = tt;
      counted = refl;
      idle = λ n. cc;
    },
    active,
  )

  module _ (rs : ReedSolomon) where
    Settles-SoundFor :
        (state : ReceiveState) (w : Result (Unit {0}) × ReceiveState × FileSystem)
        → SoundFor p state
        → Settles state w
        → SoundFor p w.1
    Settles-SoundFor state (err e, state', fs) v s =
        rw s (with_output-SoundFor state state'.output state.failed v)
    Settles-SoundFor state (ok _, state', fs) v s =
        rw s (cleared-SoundFor state state'.output state.current_batch v)

    pub finalize-SoundFor :
        (state : ReceiveState) (fs : FileSystem)
        → SoundFor p state
        → SoundFor p (finalize_current_batch rs state fs).1
    finalize-SoundFor state fs v =
        Settles-SoundFor state (finalize_current_batch rs state fs) v (finalize-Settles rs state fs)

    after_batch-SoundFor :
        (next : ReceiveState → FileSystem → ReceiveState × FileSystem)
        → ((state : ReceiveState) (fs : FileSystem)
            → SoundFor p state
            → SoundFor p (next state fs).0)
        → (w : Result (Unit {0}) × ReceiveState × FileSystem) (state : ReceiveState)
        → SoundFor p state
        → Settles state w
        → SoundFor p (after_batch w next).0
    unfolding after_batch
    after_batch-SoundFor next h (err e, state', fs) state v s =
        rw s (with_output-SoundFor state state'.output true v)
    after_batch-SoundFor next h (ok _, state', fs) state v s =
        h (record state' { current_batch = state'.current_batch + 1 }) fs
          (rw s (cleared-SoundFor state state'.output (state.current_batch + 1) v))

    advance_loop-SoundFor :
        (rounds target : ℕ) (state : ReceiveState) (fs : FileSystem)
        → SoundFor p state
        → SoundFor p (advance_loop rs rounds target state fs).0
    unfolding advance_loop
    advance_loop-SoundFor zero target state fs v = v
    advance_loop-SoundFor (suc rounds) target state fs v =
        both_branches (λ (w : ReceiveState × FileSystem). SoundFor p w.0)
          (not state.failed && ltb state.current_batch target)
          (after_batch-SoundFor (advance_loop rs rounds target)
            (advance_loop-SoundFor rounds target) (finalize_current_batch rs state fs) state v
            (finalize-Settles rs state fs))
          v

    pub advance-SoundFor :
        (state : ReceiveState) (target : ℕ) (fs : FileSystem)
        → SoundFor p state
        → SoundFor p (advance_to_batch rs state target fs).0
    unfolding advance_to_batch
    advance-SoundFor state target fs v =
        advance_loop-SoundFor (target - state.current_batch) target state fs v
