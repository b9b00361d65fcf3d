-- ===== src/Send/Reader/Exact.antt =====
-- `read_chunk` fills its buffer whatever the reader's portions are.
use data_diode.Prelude.{
  ℕ, zero, suc, ◌+◌, ◌-◌, ◌≤◌, ◌<◌, min, List, [], ◌∷◌, ◌++◌, append_assoc, append-nil, inl, inr,
  Option, some, ◌≡◌, refl, sym, ap, ◌∙◌, arith, Bytes, length, take, drop, ==-cases,
}
use data_diode.Send.Reader.{
  ReadStep, at_most, interrupted, io_error, Reader, read_bytes, read, after_read, read_loop,
  read_chunk,
}

pub take_nil : {A : Type 0} (n : ℕ) → take {A = A} n [] ≡ []
take_nil zero = refl
take_nil (suc n) = refl

pub drop_nil : {A : Type 0} (n : ℕ) → drop {A = A} n [] ≡ []
drop_nil zero = refl
drop_nil (suc n) = refl

-- A portion and what follows it up to the room that was there.
pub take_portion :
    (k room : ℕ) (s : Bytes)
    → k ≤ room
    → take k s ++ take (room - length (take k s)) (drop k s) ≡ take room s
take_portion zero room s h = ap (λ n. take n s) (omega arith)
take_portion (suc k) room [] h = take_nil (room - 0) ∙ sym (take_nil room)
take_portion (suc k) zero (b ∷ s) h = absurd (omega arith)
take_portion (suc k) (suc room) (b ∷ s) h =
    let less : suc room - length (take (suc k) (b ∷ s)) ≡ room - length (take k s) = omega arith in
    ap (◌∷◌ b) (ap (λ n. take k s ++ take n (drop k s)) less ∙ take_portion k room s (omega arith))

pub drop_portion :
    (k room : ℕ) (s : Bytes) → k ≤ room → drop (room - length (take k s)) (drop k s) ≡ drop room s
drop_portion zero room s h = ap (λ n. drop n s) (omega arith)
drop_portion (suc k) room [] h = drop_nil (room - 0) ∙ sym (drop_nil room)
drop_portion (suc k) zero (b ∷ s) h = absurd (omega arith)
drop_portion (suc k) (suc room) (b ∷ s) h =
    let less : suc room - length (take (suc k) (b ∷ s)) ≡ room - length (take k s) = omega arith in
    ap (λ n. drop n (drop k s)) less ∙ drop_portion k room s (omega arith)

-- No call of `read` fails but by an interruption.
abbrev pub NoFailure : List ReadStep → Type 0
NoFailure [] = Unit
NoFailure (io_error ∷ steps) = ⊥
NoFailure (at_most n ∷ steps) = NoFailure steps
NoFailure (interrupted ∷ steps) = NoFailure steps

-- All that was asked for was read, or all that there was.
abbrev pub IsRead : Bytes → ℕ → Bytes → Option Bytes × Reader → Type 0
IsRead got room rest (result, reader) =
    (result ≡ some (got ++ take room rest))
    × (reader.rest ≡ drop room rest)
    × NoFailure reader.steps

abbrev pub reader_of : Bytes → List ReadStep → Reader
reader_of rest steps = record { rest = rest; steps = steps }

after_read-IsRead :
    (k room : ℕ) (got rest : Bytes) (steps : List ReadStep) (again : Option Bytes × Reader)
    (more : Bytes → Option Bytes × Reader)
    → 0 < k
    → k ≤ room
    → NoFailure steps
    → (0 < length (take k rest)
        → IsRead
            (got ++ take k rest)
            (room - length (take k rest))
            (drop k rest)
            (more (take k rest)))
    → IsRead got room rest
        (after_read (read_bytes (take k rest)) got again more (reader_of (drop k rest) steps))
unfolding after_read
after_read-IsRead zero room got rest steps again more pos le ok h = absurd (omega arith)
after_read-IsRead (suc k) room got [] steps again more pos le ok h =
    (rw (take_nil {A = ℕ} room, append-nil got) refl, sym (drop_nil room), ok)
after_read-IsRead (suc k) room got (b ∷ s) steps again more pos le ok h =
    let (e, d, n) = h (omega arith) in
    (
      e
          ∙ ap some (
              append_assoc got (take (suc k) (b ∷ s)) _
              ∙ ap (λ t. got ++ t) (take_portion (suc k) room (b ∷ s) le)),
      d ∙ drop_portion (suc k) room (b ∷ s) le,
      n,
    )

full-IsRead :
    (room : ℕ) (got rest : Bytes) (steps : List ReadStep)
    → room ≡ 0
    → NoFailure steps
    → IsRead got room rest (some got, reader_of rest steps)
full-IsRead room got rest steps e ok = rw e (ap some (sym (append-nil got)), refl, ok)

read_loop-IsRead :
    (rounds room : ℕ) (got rest : Bytes) (steps : List ReadStep)
    → room + length steps ≤ rounds
    → NoFailure steps
    → IsRead got room rest (read_loop rounds got room (reader_of rest steps))
unfolding read_loop read after_read
read_loop-IsRead zero room got rest steps enough ok =
    full-IsRead room got rest steps (omega arith) ok
read_loop-IsRead (suc rounds) room got rest [] enough ok = elim (==-cases room 0) [
  | inl (e, t) ↦ rw t (full-IsRead room got rest [] e ok)
  | inr (p, t) ↦ rw t (
      after_read-IsRead room room got rest [] _
        (λ s. read_loop rounds (got ++ s) (room - length s) (reader_of (drop room rest) []))
        (omega arith) (omega arith) ok
        (λ some_bytes.
          read_loop-IsRead rounds (room - length (take room rest)) (got ++ take room rest)
            (drop room rest) [] (omega arith) ok))
]
read_loop-IsRead (suc rounds) room got rest (at_most n ∷ steps) enough ok = elim (==-cases room 0) [
  | inl (e, t) ↦ rw t (full-IsRead room got rest (at_most n ∷ steps) e ok)
  | inr (p, t) ↦
      let k = min room (n + 1) in
      rw t (
        after_read-IsRead k room got rest steps _
          (λ s. read_loop rounds (got ++ s) (room - length s) (reader_of (drop k rest) steps))
          (omega arith) (omega arith) ok
          (λ some_bytes.
            read_loop-IsRead rounds (room - length (take k rest)) (got ++ take k rest) (drop k rest)
              steps (omega arith) ok))
]
read_loop-IsRead (suc rounds) room got rest (interrupted ∷ steps) enough ok =
    elim (==-cases room 0) [
      | inl (e, t) ↦ rw t (full-IsRead room got rest (interrupted ∷ steps) e ok)
      | inr (p, t) ↦ rw t (read_loop-IsRead rounds room got rest steps (omega arith) ok)
    ]
read_loop-IsRead (suc rounds) room got rest (io_error ∷ steps) enough ok = elim ok [ ]

-- Unless a read fails, `read_chunk` gives the next bytes of the file, as many as its buffer holds
-- or the file still has, and leaves the others for the next call, whatever portions the reads come
-- in and however often they are interrupted.
pub read_chunk-IsRead :
    (reader : Reader) (room : ℕ)
    → NoFailure reader.steps
    → ((read_chunk reader room).0 ≡ some (take room reader.rest))
      × ((read_chunk reader room).1.rest ≡ drop room reader.rest)
      × NoFailure (read_chunk reader room).1.steps
unfolding read_chunk
read_chunk-IsRead reader room ok =
    read_loop-IsRead (room + length reader.steps) room [] reader.rest reader.steps (omega arith) ok
