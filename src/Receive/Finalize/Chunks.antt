-- ===== src/Receive/Finalize/Chunks.antt =====
-- The write loop of `finalize_current_batch` on the chunks of a file that was sent.
use data_diode.Prelude.{
  ℕ, zero, suc, ◌+◌, ◌-◌, ◌*◌, ◌/◌, ◌%◌, ◌≤◌, ◌<◌, min, [], ◌∷◌, inl, inr, none, some, ◌≡◌, refl,
  sym, ap, ◌∙◌, arith, Bytes, length, length-append, take, drop, replicate, length-take,
  length-drop, take-append, take_all, ltb_of_le, ==-cases, Option-cases,
}
use data_diode.BTreeMap.{BTreeMap, get}
use data_diode.BTreeMap.Laws.{Each, get-Each}
use data_diode.FileSystem.{FileName, FileSystem, File, write_bytes, write_all}
use data_diode.Proto.{chunk_size, shard_size}
use data_diode.Receive.State.{ReceiveState}
use data_diode.Receive.Chunk.{total_chunks, batch_start, expected_len}
use data_diode.Receive.Finalize.{
  Result, ok, err, padded, chunk_at, after_write, write_chunk, write_chunks,
}
use data_diode.Receive.Finalize.Contents.{
  nth_chunk, chunk_begin, Written, write_all_calm, write_bytes-Written,
}

pub length-nth_chunk :
    (c : Bytes) (n : ℕ) → length (nth_chunk c n) ≡ min chunk_size (length c - n * chunk_size)
length-nth_chunk c n =
    rw (length-take chunk_size (drop (n * chunk_size) c), length-drop (n * chunk_size) c)

-- A chunk of the file takes its place.
chunk_begin_next :
    (c : Bytes) (n : ℕ) → chunk_begin c n + length (nth_chunk c n) ≡ chunk_begin c (n + 1)
chunk_begin_next c n = omega (arith, length-nth_chunk c n)

expected_len_lem :
    (size n : ℕ)
    → n < total_chunks size
    → expected_len size n ≡ min chunk_size (size - n * chunk_size)
unfolding expected_len total_chunks
expected_len_lem size n h = elim (==-cases (n + 1) ((size + 939) / 940)) [
  | inl (e, t) ↦ rw t (elim (==-cases (size % 940) 0) [
    | inl (z, u) ↦ rw u (omega arith)
    | inr (z, u) ↦ rw u (omega arith)
  ])
  | inr (e, t) ↦ rw t (omega arith)
]

expected_len-nth_chunk :
    (c : Bytes) (n : ℕ)
    → n < total_chunks (length c)
    → expected_len (length c) n ≡ length (nth_chunk c n)
expected_len-nth_chunk c n h = expected_len_lem (length c) n h ∙ sym (length-nth_chunk c n)

take-length-take : (n : ℕ) (s : Bytes) → take (length (take n s)) s ≡ take n s
take-length-take zero s = refl
take-length-take (suc n) [] = refl
take-length-take (suc n) (x ∷ s) = ap (◌∷◌ x) (take-length-take n s)

take-padded : (s : Bytes) → length s ≤ chunk_size → take (length s) (padded s) ≡ s
unfolding padded
take-padded s h =
    rw (take_all s shard_size (omega arith))
      (take-append (length s) s (replicate (shard_size - length s) 0) refl)

length-padded : (s : Bytes) → length s ≤ chunk_size → length s ≤ length (padded s)
unfolding padded
length-padded s h = omega (
  arith,
  length-append (take shard_size s) (replicate (shard_size - length (take shard_size s)) 0),
  length-take shard_size s,
)

-- The values are chunks of the file, by their index.
abbrev pub Genuine : Bytes → BTreeMap Bytes → Type 0
Genuine c m = Each (λ n s. s ≡ nth_chunk c n) m

module _ (c : Bytes) (state : ReceiveState) (sized : state.file_size ≡ length c) where
  -- Chunk `i` of the batch is written as it was sent, if it was received or else restored.
  pub chunk_at-nth_chunk :
      (restored : BTreeMap Bytes) (i : ℕ)
      → batch_start state.current_batch + i < total_chunks (length c)
      → Genuine c state.data_buffer
      → (get (batch_start state.current_batch + i) state.data_buffer ≡ none
          → get i restored ≡ some (padded (nth_chunk c (batch_start state.current_batch + i))))
      → chunk_at state restored i ≡ ok (nth_chunk c (batch_start state.current_batch + i))
  unfolding chunk_at
  chunk_at-nth_chunk restored i here genuine missing =
      let n = batch_start state.current_batch + i in
      let len : expected_len state.file_size n ≡ length (nth_chunk c n) =
        rw sized (expected_len-nth_chunk c n here) in
      elim (Option-cases (get n state.data_buffer)) [
        | inl (s, e) ↦
            rw
              (
                e,
                chunk_at,
                len,
                get-Each (λ n s. s ≡ nth_chunk c n) n s state.data_buffer genuine e,
                ltb_of_le (length (nth_chunk c n)) (length (nth_chunk c n)) (omega arith),
              )
              (ap ok (take_all (nth_chunk c n) (length (nth_chunk c n)) (omega arith)))
        | inr e ↦
            rw
              (
                e,
                chunk_at,
                missing e,
                len,
                ltb_of_le (length (padded (nth_chunk c n))) (length (nth_chunk c n))
                    (length-padded (nth_chunk c n) (omega (arith, length-nth_chunk c n))),
              )
              (ap ok (take-padded (nth_chunk c n) (omega (arith, length-nth_chunk c n))))
      ]

-- What the write loop leaves when it succeeds: the file up to where chunk `n` begins.
abbrev pub WrittenTo : Bytes → FileName → ℕ → Result (Unit {0}) × File × FileSystem → Type 0
WrittenTo c name n (err e, file, fs) = ⊥
WrittenTo c name n (ok _, file, fs) =
    Written c file fs × (file.position ≡ chunk_begin c n) × (file.name ≡ name)

module _ (c : Bytes) where
  after_write-WrittenTo :
      (next : File → FileSystem → Result (Unit {0}) × File × FileSystem) (m n : ℕ) (file : File)
      (fs : FileSystem)
      → m < total_chunks (length c)
      → Written c file fs
      → file.position ≡ chunk_begin c m
      → ((file' : File) (fs' : FileSystem)
          → Written c file' fs'
          → file'.position ≡ chunk_begin c (m + 1)
          → WrittenTo c file'.name n (next file' fs'))
      → WrittenTo c file.name n (after_write (write_all file (nth_chunk c m) fs) next)
  unfolding after_write total_chunks
  after_write-WrittenTo next m n file fs here w at go =
      let chunk = nth_chunk c m in
      let position : file.position ≡ m * chunk_size = omega arith in
      let step : file.position + length chunk ≡ chunk_begin c (m + 1) =
        ap (λ p. p + length chunk) at ∙ chunk_begin_next c m in
      rw (write_all_calm file chunk fs w.calm) (
        go (record file { position = file.position + length chunk }) (write_bytes file chunk fs)
          (write_bytes-Written c file chunk fs w (omega arith)
            (rw position (sym (take-length-take chunk_size (drop (m * chunk_size) c)))))
          step)

  module _ (state : ReceiveState) (restored : BTreeMap Bytes) (size : ℕ)
      (good : (i : ℕ)
        → i < size
        → chunk_at state restored i ≡ ok (nth_chunk c (batch_start state.current_batch + i)))
      (inside : batch_start state.current_batch + size ≤ total_chunks (length c)) where
    pub write_chunks-WrittenTo :
        (rounds i : ℕ) (file : File) (fs : FileSystem)
        → i + rounds ≡ size
        → Written c file fs
        → file.position ≡ chunk_begin c (batch_start state.current_batch + i)
        → WrittenTo c file.name
            (batch_start state.current_batch + size)
            (write_chunks rounds i state restored file fs)
    unfolding write_chunks write_chunk
    write_chunks-WrittenTo zero i file fs e w at = (w, omega arith, refl)
    write_chunks-WrittenTo (suc rounds) i file fs e w at =
        let start = batch_start state.current_batch in
        rw (good i (omega arith)) (
          after_write-WrittenTo (write_chunks rounds (i + 1) state restored) (start + i)
            (start + size) file fs (omega arith) w at
            (λ file' fs' w' at'.
              write_chunks-WrittenTo rounds (i + 1) file' fs' (omega arith) w' (omega arith)))
