-- ===== src/Send/Reader/Failing.antt =====
-- `read_chunk` on a reader whose calls may fail.
use data_diode.Prelude.{
  ℕ, zero, suc, ◌+◌, ◌-◌, ◌≤◌, ◌<◌, min, List, [], ◌∷◌, ◌++◌, append_assoc, append-nil, ◌⊎◌, inl,
  inr, Option, none, some, ◌≡◌, refl, sym, ap, ◌∙◌, arith, Bytes, length, take, drop, ==-cases,
}
use data_diode.Send.Reader.{
  ReadStep, at_most, interrupted, io_error, Reader, read_bytes, read, after_read, read_loop,
  read_chunk,
}
use data_diode.Send.Reader.Exact.{take_nil, drop_nil, take_portion, drop_portion, reader_of}

-- All that was asked for was read, or all that there was; or there was an error.
abbrev pub IsReadOr : Bytes → ℕ → Bytes → Option Bytes × Reader → Type 0
IsReadOr got room rest (result, reader) =
    ((result ≡ some (got ++ take room rest)) × (reader.rest ≡ drop room rest)) ⊎ (result ≡ none)

after_read-IsReadOr :
    (k room : ℕ) (got rest : Bytes) (steps : List ReadStep) (again : Option Bytes × Reader)
    (more : Bytes → Option Bytes × Reader)
    → 0 < k
    → k ≤ room
    → (0 < length (take k rest)
        → IsReadOr
            (got ++ take k rest)
            (room - length (take k rest))
            (drop k rest)
            (more (take k rest)))
    → IsReadOr got room rest
        (after_read (read_bytes (take k rest)) got again more (reader_of (drop k rest) steps))
unfolding after_read
after_read-IsReadOr zero room got rest steps again more pos le h = absurd (omega arith)
after_read-IsReadOr (suc k) room got [] steps again more pos le h =
    inl (rw (take_nil {A = ℕ} room, append-nil got) refl, sym (drop_nil room))
after_read-IsReadOr (suc k) room got (b ∷ s) steps again more pos le h = elim (h (omega arith)) [
  | inl (e, d) ↦ inl (
    e
        ∙ ap some (
            append_assoc got (take (suc k) (b ∷ s)) _
            ∙ ap (λ t. got ++ t) (take_portion (suc k) room (b ∷ s) le)),
    d ∙ drop_portion (suc k) room (b ∷ s) le,
  )
  | inr failed ↦ inr failed
]

full-IsReadOr :
    (room : ℕ) (got rest : Bytes) (steps : List ReadStep)
    → room ≡ 0
    → IsReadOr got room rest (some got, reader_of rest steps)
full-IsReadOr room got rest steps e = rw e (inl (ap some (sym (append-nil got)), refl))

read_loop-IsReadOr :
    (rounds room : ℕ) (got rest : Bytes) (steps : List ReadStep)
    → room + length steps ≤ rounds
    → IsReadOr got room rest (read_loop rounds got room (reader_of rest steps))
unfolding read_loop read after_read
read_loop-IsReadOr zero room got rest steps enough = full-IsReadOr room got rest steps (omega arith)
read_loop-IsReadOr (suc rounds) room got rest [] enough = elim (==-cases room 0) [
  | inl (e, t) ↦ rw t (full-IsReadOr room got rest [] e)
  | inr (p, t) ↦ rw t (
      after_read-IsReadOr room room got rest [] _
        (λ s. read_loop rounds (got ++ s) (room - length s) (reader_of (drop room rest) []))
        (omega arith) (omega arith)
        (λ some_bytes.
          read_loop-IsReadOr rounds (room - length (take room rest)) (got ++ take room rest)
            (drop room rest) [] (omega arith)))
]
read_loop-IsReadOr (suc rounds) room got rest (at_most n ∷ steps) enough = elim (==-cases room 0) [
  | inl (e, t) ↦ rw t (full-IsReadOr room got rest (at_most n ∷ steps) e)
  | inr (p, t) ↦
      let k = min room (n + 1) in
      rw t (
        after_read-IsReadOr k room got rest steps _
          (λ s. read_loop rounds (got ++ s) (room - length s) (reader_of (drop k rest) steps))
          (omega arith) (omega arith)
          (λ some_bytes.
            read_loop-IsReadOr rounds (room - length (take k rest)) (got ++ take k rest)
              (drop k rest) steps (omega arith)))
]
read_loop-IsReadOr (suc rounds) room got rest (interrupted ∷ steps) enough =
    elim (==-cases room 0) [
      | inl (e, t) ↦ rw t (full-IsReadOr room got rest (interrupted ∷ steps) e)
      | inr (p, t) ↦ rw t (read_loop-IsReadOr rounds room got rest steps (omega arith))
    ]
read_loop-IsReadOr (suc rounds) room got rest (io_error ∷ steps) enough = elim (==-cases room 0) [
  | inl (e, t) ↦ rw t (full-IsReadOr room got rest (io_error ∷ steps) e)
  | inr (p, t) ↦ rw t (inr refl)
]

-- The next bytes of the file, as many as the buffer holds or the file still has; or an error.
pub read_chunk-IsReadOr :
    (reader : Reader) (room : ℕ) → IsReadOr [] room reader.rest (read_chunk reader room)
unfolding read_chunk
read_chunk-IsReadOr reader room =
    read_loop-IsReadOr (room + length reader.steps) room [] reader.rest reader.steps (omega arith)
