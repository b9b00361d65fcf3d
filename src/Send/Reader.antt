-- ===== src/Send/Reader.antt =====
-- `read_chunk` of diode_send/src/main.rs, over a reader that may give fewer bytes than it is asked
-- for.
pub mod Exact
pub mod Failing
use data_diode.Prelude.{
  ℕ, zero, suc, ◌+◌, ◌-◌, min, List, [], ◌∷◌, ◌++◌, Option, none, some, Bytes, length, take, drop,
  if◌then◌else◌, ◌==◌,
}

-- How a call of `read` goes: it gives one byte more than the number at most, or it fails.
pub data ReadStep : Type 0 where
  at_most : ℕ → ReadStep
  interrupted io_error : ReadStep

-- The bytes of the file that were not read yet, and how the calls of `read` to come will go; a call
-- behind the end of the list gives all that it is asked for, and at the end of the file there are
-- no bytes to give.
pub record Reader : Type 0 where
  pub rest : Bytes
  pub steps : List ReadStep

pub data ReadResult : Type 0 where
  read_bytes : Bytes → ReadResult
  read_interrupted read_failed : ReadResult

abbrev give : ℕ → Bytes → List ReadStep → ReadResult × Reader
give n rest steps = (read_bytes (take n rest), record { rest = drop n rest; steps = steps })

-- `read` into a buffer with room for `room` bytes.
unfoldable pub read : Reader → ℕ → ReadResult × Reader
read reader room = elim reader.steps [
  | [] ↦ give room reader.rest []
  | at_most n ∷ steps ↦ give (min room (n + 1)) reader.rest steps
  | interrupted ∷ steps ↦ (read_interrupted, record reader { steps = steps })
  | io_error ∷ steps ↦ (read_failed, record reader { steps = steps })
]

-- What a round of the loop does with the answer of `read`, and how the loop goes on: with the bytes
-- that came, which `more` gets, or as before.
unfoldable pub after_read :
    ReadResult
    → Bytes
    → Option Bytes × Reader
    → (Bytes → Option Bytes × Reader)
    → Reader
    → Option Bytes × Reader
after_read (read_bytes []) got again more reader = (some got, reader)
after_read (read_bytes (b ∷ s)) got again more reader = more (b ∷ s)
after_read read_interrupted got again more reader = again
after_read read_failed got again more reader = (none, reader)

-- The loop, with what was read so far: it ends when the buffer is full or nothing more comes, and
-- gives `none` on an error other than an interruption. Every round reads a byte at least, uses up a
-- step, or ends the loop, so that as many rounds as there are bytes of room and steps are enough.
unfoldable pub read_loop : ℕ → Bytes → ℕ → Reader → Option Bytes × Reader
read_loop zero got room reader = (some got, reader)
read_loop (suc rounds) got room reader =
    let (result, reader') = read reader room in
    let rest =
      after_read result got (read_loop rounds got room reader')
        (λ s. read_loop rounds (got ++ s) (room - length s) reader') reader' in
    if room == 0 then (some got, reader) else rest

-- The bytes that `read_chunk` puts into a buffer of the length `room`.
unfoldable pub read_chunk : Reader → ℕ → Option Bytes × Reader
read_chunk reader room = read_loop (room + length reader.steps) [] room reader
