-- ===== src/Digest/Sums.antt =====
-- What `diode_sha256` prints, and its exit code.
use data_diode.Prelude.{
  Bool, true, false, not, ◌||◌, List, [], ◌∷◌, ◌++◌, ◌≢◌, ◌↔◌, Option, none, some, ◌≡◌, refl, arith,
  Bytes, All, if◌then◌else◌,
}
use data_diode.Digest.{Hasher, hash_file, Argument, sum_line, print_sum, print_sums, diode_sha256}

-- The line of an argument with this digest: none where it cannot be read or written.
abbrev pub line_of : Option Bytes → Argument → Bytes
line_of none argument = []
line_of (some digest) argument = if argument.printable then sum_line digest argument.name else []

-- The argument can be read and its line be written.
abbrev pub HasLine : Option Bytes → Argument → Type 0
HasLine digest argument = (digest ≢ none) × (argument.printable ≡ true)

print_sum_lem :
    (digest : Option Bytes) (argument : Argument)
    → ((print_sum digest argument).0 ≡ line_of digest argument)
      × (((print_sum digest argument).1 ≡ false) ↔ HasLine digest argument)
unfolding print_sum
print_sum_lem none argument = (refl, ((λ e. cc), (λ h. absurd (h.0 refl))))
print_sum_lem (some digest) argument = ground arith

-- A failure of one of the two is a failure.
or_false : (a b : Bool) → ((a || b) ≡ false) ↔ ((a ≡ false) × (b ≡ false))
or_false a b = ground arith

module _ (sha : Hasher) where
  abbrev pub lines_of : List Argument → Bytes
  lines_of [] = []
  lines_of (argument ∷ arguments) =
      line_of (hash_file sha argument.opened) argument ++ lines_of arguments

  abbrev pub AllLines : List Argument → Type 0
  AllLines arguments = All (λ argument. HasLine (hash_file sha argument.opened) argument) arguments

  print_sums_lem :
      (arguments : List Argument)
      → ((print_sums sha arguments).0 ≡ lines_of arguments)
        × (((print_sums sha arguments).1 ≡ false) ↔ AllLines arguments)
  unfolding print_sums
  print_sums_lem [] = (refl, ((λ h. tt), (λ h. refl)))
  print_sums_lem (argument ∷ arguments) =
      let digest = hash_file sha argument.opened in
      let (a, b) = print_sum_lem digest argument in
      let (c, d) = print_sums_lem arguments in
      let either = or_false (print_sum digest argument).1 (print_sums sha arguments).1 in
      (
        rw (a, c) refl,
        ((λ h. (b.0 (either.0 h).0, d.0 (either.0 h).1)), (λ h. either.1 (b.1 h.0, d.1 h.1))),
      )

  -- The tool prints the line of each argument in order and leaves out those that cannot be read or
  -- written; an argument that fails does not end the run. It exits with success exactly when there
  -- is an argument and each has its line.
  pub diode_sha256-lines_of :
      (arguments : List Argument)
      → ((diode_sha256 sha arguments).0 ≡ lines_of arguments)
        × (((diode_sha256 sha arguments).1 ≡ true) ↔ ((arguments ≢ []) × AllLines arguments))
  unfolding diode_sha256
  diode_sha256-lines_of [] = (refl, ((λ e. cc), (λ h. absurd (h.0 refl))))
  diode_sha256-lines_of (argument ∷ arguments) =
      let all = argument ∷ arguments in
      let (c, d) = print_sums_lem all in
      (c, ((λ e. ((λ q. cc), d.0 (not_true (print_sums sha all).1 e))), (λ h. rw (d.1 h.1) refl)))
    where
      not_true : (b : Bool) → not b ≡ true → b ≡ false
      not_true true e = cc
      not_true false e = refl
