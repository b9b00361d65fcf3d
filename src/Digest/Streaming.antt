-- ===== src/Digest/Streaming.antt =====
-- A file is digested as a whole, whatever the portions it is read in.
use data_diode.Prelude.{
  ℕ, zero, suc, ◌+◌, ◌<◌, min, List, [], ◌∷◌, ◌++◌, Option, some, ◌≡◌, refl, sym, ap, ◌∙◌, arith,
  Bytes, length, take, drop, length-drop, take-append-drop,
}
use data_diode.Proto.{hex}
use data_diode.Send.Reader.{read_bytes, ReadStep, at_most, interrupted, io_error, Reader, read}
use data_diode.Digest.{
  Hasher, sha256_file_buffer, hash_file_buffer, after_portion, hash_loop, hash_reader, hash_opened,
  sha256_file, hash_file,
}

-- Every call of `read` works, with however few bytes.
abbrev pub NoError : List ReadStep → Type 0
NoError [] = Unit
NoError (at_most n ∷ steps) = NoError steps
NoError (interrupted ∷ steps) = ⊥
NoError (io_error ∷ steps) = ⊥

-- What the documentation of the digest promises: portions are digested as what they make together.
pub record IsStreaming (sha : Hasher) : Type 0 where
  pub update_nil : (state : sha.State) → sha.update [] state ≡ state
  pub update_append :
      (s t : Bytes) (state : sha.State)
      → sha.update (s ++ t) state ≡ sha.update t (sha.update s state)

module _ (sha : Hasher) (law : IsStreaming sha) where
  after_portion_lem :
      (k : ℕ) (rest : Bytes) (state : sha.State) (next : sha.State → Option sha.State)
      → 0 < k
      → (0 < length rest
          → next (sha.update (take k rest) state)
            ≡ some (sha.update (drop k rest) (sha.update (take k rest) state)))
      → after_portion sha (read_bytes (take k rest)) state next ≡ some (sha.update rest state)
  unfolding after_portion
  after_portion_lem zero rest state next pos h = absurd (omega arith)
  after_portion_lem (suc k) [] state next pos h = ap some (sym (law.update_nil state))
  after_portion_lem (suc k) (b ∷ s) state next pos h =
      h (omega arith)
      ∙ ap some (
          sym (law.update_append (b ∷ take k s) (drop k s) state)
          ∙ ap (λ t. sha.update (b ∷ t) state) (take-append-drop k s))

  hash_loop_lem :
      (rounds size : ℕ) (rest : Bytes) (steps : List ReadStep) (state : sha.State)
      → length rest < rounds
      → 0 < size
      → NoError steps
      → hash_loop sha rounds size state (record { rest = rest; steps = steps })
        ≡ some (sha.update rest state)
  unfolding hash_loop read
  hash_loop_lem zero size rest steps state enough pos ok = absurd (omega arith)
  hash_loop_lem (suc rounds) size rest [] state enough pos ok =
      after_portion_lem size rest state _ pos (λ some_bytes.
        hash_loop_lem rounds size (drop size rest) [] (sha.update (take size rest) state)
          (omega (arith, length-drop size rest)) pos ok)
  hash_loop_lem (suc rounds) size rest (at_most n ∷ steps) state enough pos ok =
      let k = min size (n + 1) in
      after_portion_lem k rest state _ (omega arith) (λ some_bytes.
        hash_loop_lem rounds size (drop k rest) steps (sha.update (take k rest) state)
          (omega (arith, length-drop k rest)) pos ok)
  hash_loop_lem (suc rounds) size rest (interrupted ∷ steps) state enough pos ok = elim ok [ ]
  hash_loop_lem (suc rounds) size rest (io_error ∷ steps) state enough pos ok = elim ok [ ]

  -- When no read fails, both functions give the digest of the whole contents in hexadecimal, however
  -- few bytes a read gives: the receiver and the release tool agree on every file.
  pub sha256_file-hash_file :
      (reader : Reader)
      → NoError reader.steps
      → (sha256_file sha (some reader) ≡ some (hex (sha.finalize (sha.update reader.rest sha.new))))
        × (hash_file sha (some reader) ≡ some (hex (sha.finalize (sha.update reader.rest sha.new))))
  unfolding sha256_file hash_file hash_opened hash_reader
  sha256_file-hash_file reader ok =
      let enough : length reader.rest < length reader.rest + 1 = omega arith in
      (
        rw
            (hash_loop_lem (length reader.rest + 1) sha256_file_buffer reader.rest reader.steps
              sha.new enough (omega arith) ok)
            refl,
        rw
            (hash_loop_lem (length reader.rest + 1) hash_file_buffer reader.rest reader.steps
              sha.new enough (omega arith) ok)
            refl,
      )
