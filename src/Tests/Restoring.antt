-- ===== src/Tests/Restoring.antt =====
-- A batch whose only chunk is lost and restored from a parity shard.
use data_diode.Prelude.{
  ℕ, ◌+◌, ◌≤◌, ◌<◌, [], ◌∷◌, none, some, ◌≡◌, refl, ap, subst, arith, Bytes, length, beq_bytes,
}
use data_diode.BTreeMap.{BTreeMap, get}
use data_diode.BTreeMap.Laws.{Ascends, Each}
use data_diode.FileSystem.{beq_name, FileName, FileSystem, File, lookup}
use data_diode.SafePath.{normal}
use data_diode.Receive.State.{ReceiveState, new_state}
use data_diode.Receive.Chunk.{total_chunks, batch_start, batch_data_size}
use data_diode.Receive.Finalize.{padded, finalize_current_batch, advance_to_batch}
use data_diode.Receive.Finalize.Codec.{add_all, decode_with, Restores}
use data_diode.Receive.Finalize.Recovery.{Arrived}
use data_diode.Receive.Finalize.Batch.{Output, BatchWritten, finalize_current_batch-BatchWritten}
use data_diode.Receive.Finalize.Progress.{Reaches, advance_to_batch-Reaches}
use data_diode.Tests.Samples.{codes, mirror}

-- With one original shard, every recovery shard is a copy of it.
abbrev pub copy : (ℕ → Bytes) → ℕ → Bytes
copy shards j = shards 0

pub get_first :
    (shards : ℕ → Bytes) (i : ℕ) (s : Bytes)
    → i < 1
    → s ≡ shards 0
    → get i ((0, s) ∷ []) ≡ some (shards i)
unfolding get
get_first shards i s lt e =
    let first : 0 ≡ i = omega arith in
    subst (λ n. get n ((0, s) ∷ []) ≡ some (shards n)) first (ap some e)

pub not_missing : (i k : ℕ) (s : Bytes) → i < 1 → k < 1 → ¬ (get k ((i, s) ∷ []) ≡ none)
unfolding get
not_missing i k s hi hk missing = ground arith

mirror-restores :
    (shards : ℕ → Bytes) (originals recoveries : BTreeMap Bytes)
    → Ascends 0 1 originals
    → Ascends 0 1 recoveries
    → Each (λ j s. s ≡ copy shards j) recoveries
    → 1 ≤ length originals + length recoveries
    → (restored : BTreeMap Bytes) × (decode_with mirror 1 1 originals recoveries ≡ some restored)
      × ((i : ℕ) → i < 1 → get i originals ≡ none → get i restored ≡ some (shards i))
unfolding decode_with add_all get
mirror-restores shards [] [] a b e h = absurd (omega arith)
mirror-restores shards [] ((j, s) ∷ []) a b (e, es) h =
    ((0, s) ∷ [], refl, λ i lt missing. get_first shards i s lt e)
mirror-restores shards [] ((j, s) ∷ (k, t) ∷ m) a b e h = absurd (omega (arith, b.1, b.2.0, b.2.1))
mirror-restores shards ((i, s) ∷ []) [] a b e h =
    ((0, s) ∷ [], refl, λ k lt missing. absurd (not_missing i k s a.1 lt missing))
mirror-restores shards ((i, s) ∷ []) ((j, t) ∷ []) a b e h =
    ((0, t) ∷ [], refl, λ k lt missing. absurd (not_missing i k s a.1 lt missing))
mirror-restores shards ((i, s) ∷ []) ((j, t) ∷ (k, u) ∷ m) a b e h =
    absurd (omega (arith, b.1, b.2.0, b.2.1))
mirror-restores shards ((i, s) ∷ (j, t) ∷ m) r a b e h = absurd (omega (arith, a.1, a.2.0, a.2.1))

mirror-Restores : Restores mirror 1 1 copy
mirror-Restores = record {
  recovery_size = λ shards sized j. sized 0;
  restores = λ shards originals recoveries sized a b e p h.
      mirror-restores shards originals recoveries a b p h;
}

abbrev pub hello : Bytes
hello = codes "hello"

abbrev partial : FileName
partial = normal (codes "out") ∷ normal (codes "a.partial") ∷ []

abbrev output : File
output = record { name = partial; position = 0 }

-- A transfer of five bytes: the DATA packet was lost, a PARITY packet arrived.
abbrev state : ReceiveState
state = record new_state {
  file_path = some (codes "a");
  file_size = 5;
  parity_per_batch = 1;
  parity_buffer = (0, padded hello) ∷ [];
  bytes_buffered = 960;
  output = some output;
}

abbrev before : FileSystem
before = record { files = (partial, 0 ∷ 0 ∷ 0 ∷ 0 ∷ 0 ∷ []) ∷ []; attempts = [] }

state-Arrived : Arrived hello copy state
unfolding batch_start batch_data_size total_chunks padded
state-Arrived = record {
  sized = refl;
  in_batch = tt;
  in_parity = (omega arith, omega arith, tt);
  genuine = tt;
  genuine_parity = (refl, tt);
  enough = omega arith;
}

before-Output : Output hello partial (batch_start state.current_batch) before
unfolding lookup batch_start beq_name beq_bytes
before-Output = record {
  bytes = 0 ∷ 0 ∷ 0 ∷ 0 ∷ 0 ∷ [];
  found = refl;
  same_length = refl;
  agrees = refl;
  calm = refl;
}

one_chunk : batch_data_size 0 5 ≡ 1
unfolding batch_start batch_data_size total_chunks
one_chunk = refl

finalize_current_batch-BatchWritten_example :
    BatchWritten hello partial
      (batch_start 0 + batch_data_size 0 5)
      (finalize_current_batch mirror state before)
finalize_current_batch-BatchWritten_example =
    finalize_current_batch-BatchWritten mirror hello copy state state-Arrived output before
      before-Output (omega arith) refl (rw one_chunk mirror-Restores)

advance_to_batch-Reaches_example : Reaches 1 (advance_to_batch mirror state 1 before)
advance_to_batch-Reaches_example = advance_to_batch-Reaches mirror 1 state before (omega arith)
