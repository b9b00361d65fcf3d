-- ===== src/Digest.antt =====
-- `sha256_file` of diode_receive/src/main.rs, and `hash_file` and `main` of
-- diode_receive/src/sha256.rs. The crate `sha2` is the parameter `sha`.
pub mod Streaming
pub mod Sums
use data_diode.Prelude.{
  ℕ, zero, suc, ◌+◌, ◌*◌, Bool, true, false, not, ◌||◌, List, [], ◌∷◌, ◌++◌, Option, none, some,
  Bytes, length, ◌>>=◌, if◌then◌else◌,
}
use data_diode.Proto.{hex}
use data_diode.Send.Reader.{Reader, ReadResult, read_bytes, read_interrupted, read_failed, read}

-- A running digest.
pub record Hasher : Type 1 where
  pub State : Type 0
  pub new : State
  pub update : Bytes → State → State
  pub finalize : State → Bytes

abbrev pub sha256_file_buffer : ℕ
sha256_file_buffer = 64 * 1024

abbrev pub hash_file_buffer : ℕ
hash_file_buffer = 1024

module _ (sha : Hasher) where
  open sha use {State, new, update, finalize}

  -- A round of the loop with the answer of `read`, and how the loop goes on. Any error ends it, an
  -- interruption too.
  unfoldable pub after_portion : ReadResult → State → (State → Option State) → Option State
  after_portion (read_bytes []) state next = some state
  after_portion (read_bytes (b ∷ s)) state next = next (update (b ∷ s) state)
  after_portion read_interrupted state next = none
  after_portion read_failed state next = none

  -- The loop. A round reads a byte at least or is the last.
  unfoldable pub hash_loop : ℕ → ℕ → State → Reader → Option State
  hash_loop zero size state reader = some state
  hash_loop (suc rounds) size state reader =
      let (result, reader') = read reader size in
      after_portion result state (λ state'. hash_loop rounds size state' reader')

  -- The digest in hexadecimal, or `none` for the `Err` of either function.
  unfoldable pub hash_reader : ℕ → Reader → Option Bytes
  hash_reader size reader = do
    state ← hash_loop (length reader.rest + 1) size new reader
    some (hex (finalize state))

  unfoldable pub hash_opened : ℕ → Option Reader → Option Bytes
  hash_opened size none = none
  hash_opened size (some reader) = hash_reader size reader

  unfoldable pub sha256_file : Option Reader → Option Bytes
  sha256_file opened = hash_opened sha256_file_buffer opened

  unfoldable pub hash_file : Option Reader → Option Bytes
  hash_file opened = hash_opened hash_file_buffer opened

-- An argument of `main`: its name, what `File::open` gives, and whether its line can be printed.
pub record Argument : Type 0 where
  pub name : Bytes
  pub opened : Option Reader
  pub printable : Bool

-- `{hex}  {name}` and the end of the line.
abbrev pub sum_line : Bytes → Bytes → Bytes
sum_line digest name = digest ++ (b' ' ∷ b' ' ∷ (name ++ 10 ∷ []))

-- What an argument prints, and whether it failed.
unfoldable pub print_sum : Option Bytes → Argument → Bytes × Bool
print_sum none argument = ([], true)
print_sum (some digest) argument =
    if argument.printable then (sum_line digest argument.name, false) else ([], true)

module _ (sha : Hasher) where
  -- The loop over the arguments: the output, and `any_failed`.
  unfoldable pub print_sums : List Argument → Bytes × Bool
  print_sums [] = ([], false)
  print_sums (argument ∷ arguments) =
      let (line, failed) = print_sum (hash_file sha argument.opened) argument in
      let (lines, any_failed) = print_sums arguments in (line ++ lines, failed || any_failed)

  -- The output, and whether the exit code is that of success.
  unfoldable pub diode_sha256 : List Argument → Bytes × Bool
  diode_sha256 [] = ([], false)
  diode_sha256 (argument ∷ arguments) =
      let (lines, any_failed) = print_sums (argument ∷ arguments) in (lines, not any_failed)
