-- ===== src/Receive/Finalize/Frame.antt =====
-- What `finalize_current_batch` and `advance_to_batch` leave alone: they write to the output file
-- only, and keep the identity of the transfer.
use data_diode.Prelude.{
  ℕ, zero, suc, ◌+◌, ◌-◌, Bool, true, false, not, ◌&&◌, inl, inr, Option, none, some, ◌≡◌, refl,
  ◌∙◌, Bytes, ◌==◌, ltb, Option-cases, both_branches, OnSome,
}
use data_diode.BTreeMap.{BTreeMap}
use data_diode.FileSystem.{FileName, FileSystem, File, seek, write_all}
use data_diode.FileSystem.Frame.{
  SameOutside, SameOutside-refl, SameOutside-trans, seek-SameOutside, write_all-SameOutside,
  seek_name, write_all_name,
}
use data_diode.Receive.State.{ReceiveState}
use data_diode.Receive.Chunk.{batch_data_size}
use data_diode.Receive.Finalize.{
  ReedSolomon, Result, ok, err, restore, chunk_at, after_write, write_chunk, write_chunks, conclude,
  write_at, batch_offset, write_output, write_restored, after_batch, finalize_current_batch,
  advance_loop, advance_to_batch,
}

module _ (P : FileName → Type 0) where
  -- The loop leaves other files alone, and its file is still one of them.
  abbrev Writes : FileSystem → Result (Unit {0}) × File × FileSystem → Type 0
  Writes fs w = SameOutside P fs w.2 × P w.1.name

  module _ (next : File → FileSystem → Result (Unit {0}) × File × FileSystem)
      (h : (file : File) (fs : FileSystem) → P file.name → Writes fs (next file fs)) where
    after_write-Writes :
        (w : Bool × File × FileSystem) (fs : FileSystem)
        → SameOutside P fs w.2
        → P w.1.name
        → Writes fs (after_write w next)
    unfolding after_write
    after_write-Writes (false, file, fs') fs same named = (same, named)
    after_write-Writes (true, file, fs') fs same named =
        let (rest, named') = h file fs' named in
        (SameOutside-trans P fs fs' (next file fs').2 same rest, named')

    write_chunk-Writes :
        (r : Result Bytes) (file : File) (fs : FileSystem)
        → P file.name
        → Writes fs (write_chunk r next file fs)
    unfolding write_chunk
    write_chunk-Writes (err e) file fs p = (SameOutside-refl P fs, p)
    write_chunk-Writes (ok chunk) file fs p =
        after_write-Writes (write_all file chunk fs) fs (write_all-SameOutside P file chunk fs p)
          (rw (write_all_name file chunk fs) p)

  write_chunks-Writes :
      (rounds i : ℕ) (state : ReceiveState) (restored : BTreeMap Bytes) (file : File)
      (fs : FileSystem)
      → P file.name
      → Writes fs (write_chunks rounds i state restored file fs)
  unfolding write_chunks
  write_chunks-Writes zero i state restored file fs p = (SameOutside-refl P fs, p)
  write_chunks-Writes (suc rounds) i state restored file fs p =
      write_chunk-Writes (write_chunks rounds (i + 1) state restored)
        (write_chunks-Writes rounds (i + 1) state restored) (chunk_at state restored i) file fs p

  -- Other files are left alone, the output file is still one of them, and the transfer is the same.
  pub record Keeps (state : ReceiveState) (fs : FileSystem) (state' : ReceiveState)
      (fs' : FileSystem) : Type 0 where
    pub same : SameOutside P fs fs'
    pub named : OnSome (λ f. P f.name) state'.output
    pub same_path : state'.file_path ≡ state.file_path
    pub same_size : state'.file_size ≡ state.file_size

  Keeps-refl :
      (state : ReceiveState) (fs : FileSystem)
      → OnSome (λ f. P f.name) state.output
      → Keeps state fs state fs
  Keeps-refl state fs p = record {
    same = SameOutside-refl P fs;
    named = p;
    same_path = refl;
    same_size = refl;
  }

  conclude-Keeps :
      (state : ReceiveState) (fs : FileSystem) (w : Result (Unit {0}) × File × FileSystem)
      → Writes fs w
      → let c = conclude state w in Keeps state fs c.1 c.2
  unfolding conclude
  conclude-Keeps state fs (err e, file, fs') (same, named) = record {
    same = same;
    named = named;
    same_path = refl;
    same_size = refl;
  }
  conclude-Keeps state fs (ok _, file, fs') (same, named) = record {
    same = same;
    named = named;
    same_path = refl;
    same_size = refl;
  }

  Writes-trans :
      (s t : FileSystem) (w : Result (Unit {0}) × File × FileSystem)
      → SameOutside P s t
      → Writes t w
      → Writes s w
  Writes-trans s t w p (q, named) = (SameOutside-trans P s t w.2 p q, named)

  write_at-Keeps :
      (found : Option File × FileSystem) (state : ReceiveState) (size : ℕ)
      (restored : BTreeMap Bytes) (fs : FileSystem)
      → OnSome (λ f. P f.name) state.output
      → SameOutside P fs found.1
      → OnSome (λ f. P f.name) found.0
      → let w = write_at found state size restored in Keeps state fs w.1 w.2
  unfolding write_at
  write_at-Keeps (none, fs') state size restored fs p same named = record {
    same = same;
    named = p;
    same_path = refl;
    same_size = refl;
  }
  write_at-Keeps (some file, fs') state size restored fs p same named =
      conclude-Keeps state fs (write_chunks size 0 state restored file fs') (
        Writes-trans fs fs' (write_chunks size 0 state restored file fs') same
          (write_chunks-Writes size 0 state restored file fs' named))

  seek-OnSome :
      (f : File) (offset : ℕ) (fs : FileSystem)
      → P f.name
      → OnSome (λ g. P g.name) (seek f offset fs).0
  seek-OnSome f offset fs p = elim (Option-cases (seek f offset fs).0) [
    | inl (g, e) ↦ rw e (rw (seek_name f offset fs e) p)
    | inr e ↦ rw e tt
  ]

  write_output-Keeps :
      (output : Option File) (state : ReceiveState) (size : ℕ) (restored : BTreeMap Bytes)
      (fs : FileSystem)
      → OnSome (λ f. P f.name) state.output
      → OnSome (λ f. P f.name) output
      → let w = write_output output state size restored fs in Keeps state fs w.1 w.2
  unfolding write_output
  write_output-Keeps none state size restored fs p named = Keeps-refl state fs p
  write_output-Keeps (some file) state size restored fs p named =
      write_at-Keeps (seek file (batch_offset state) fs) state size restored fs p
        (seek-SameOutside P file (batch_offset state) fs)
        (seek-OnSome file (batch_offset state) fs named)

  write_restored-Keeps :
      (r : Result (BTreeMap Bytes)) (state : ReceiveState) (size : ℕ) (fs : FileSystem)
      → OnSome (λ f. P f.name) state.output
      → let w = write_restored r state size fs in Keeps state fs w.1 w.2
  unfolding write_restored
  write_restored-Keeps (err e) state size fs p = Keeps-refl state fs p
  write_restored-Keeps (ok restored) state size fs p =
      write_output-Keeps state.output state size restored fs p p

  module _ (rs : ReedSolomon) where
    pub finalize-Keeps :
        (state : ReceiveState) (fs : FileSystem)
        → OnSome (λ f. P f.name) state.output
        → let w = finalize_current_batch rs state fs in Keeps state fs w.1 w.2
    unfolding finalize_current_batch
    finalize-Keeps state fs p =
        let size = batch_data_size state.current_batch state.file_size in
        both_branches
          (λ (w : Result (Unit {0}) × ReceiveState × FileSystem). Keeps state fs w.1 w.2)
          (size == 0)
          (record { same = SameOutside-refl P fs; named = p; same_path = refl; same_size = refl })
          (write_restored-Keeps (restore rs state size) state size fs p)

    after_batch-Keeps :
        (next : ReceiveState → FileSystem → ReceiveState × FileSystem)
        → ((state : ReceiveState) (fs : FileSystem)
            → OnSome (λ f. P f.name) state.output
            → let w = next state fs in Keeps state fs w.0 w.1)
        → (w : Result (Unit {0}) × ReceiveState × FileSystem) (state : ReceiveState)
          (fs : FileSystem)
        → Keeps state fs w.1 w.2
        → let a = after_batch w next in Keeps state fs a.0 a.1
    unfolding after_batch
    after_batch-Keeps next h (err e, state', fs') state fs k = record {
      same = k.same;
      named = k.named;
      same_path = k.same_path;
      same_size = k.same_size;
    }
    after_batch-Keeps next h (ok _, state', fs') state fs k =
        let later = record state' { current_batch = state'.current_batch + 1 } in
        let l = h later fs' k.named in
        record {
          same = SameOutside-trans P fs fs' (next later fs').1 k.same l.same;
          named = l.named;
          same_path = l.same_path ∙ k.same_path;
          same_size = l.same_size ∙ k.same_size;
        }

    advance_loop-Keeps :
        (rounds target : ℕ) (state : ReceiveState) (fs : FileSystem)
        → OnSome (λ f. P f.name) state.output
        → let w = advance_loop rs rounds target state fs in Keeps state fs w.0 w.1
    unfolding advance_loop
    advance_loop-Keeps zero target state fs p = Keeps-refl state fs p
    advance_loop-Keeps (suc rounds) target state fs p =
        both_branches (λ (w : ReceiveState × FileSystem). Keeps state fs w.0 w.1)
          (not state.failed && ltb state.current_batch target)
          (after_batch-Keeps (advance_loop rs rounds target) (advance_loop-Keeps rounds target)
            (finalize_current_batch rs state fs) state fs (finalize-Keeps state fs p))
          (Keeps-refl state fs p)

    pub advance-Keeps :
        (state : ReceiveState) (target : ℕ) (fs : FileSystem)
        → OnSome (λ f. P f.name) state.output
        → let w = advance_to_batch rs state target fs in Keeps state fs w.0 w.1
    unfolding advance_to_batch
    advance-Keeps state target fs p =
        advance_loop-Keeps (target - state.current_batch) target state fs p
