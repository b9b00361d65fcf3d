-- ===== src/Decimal.antt =====
-- Decimal numbers as the standard library prints and reads them: `{:0w}` of `format!` and
-- `str::parse` at an unsigned type, which the packet header (diode_common/src/proto.rs) rests on.
pub mod RoundTrip
use data_diode.Prelude.{
  ℕ, zero, suc, ◌+◌, ◌-◌, ◌*◌, ◌/◌, ◌%◌, ◌^◌, ◌||◌, [], ◌∷◌, ◌++◌, Option, none, some, Bytes,
  length, replicate, ◌>>=◌, if◌then◌else◌, ◌==◌, ltb,
}
use data_diode.Utf8.{from_utf8}

abbrev pub max_u8 : ℕ
max_u8 = 2 ^ 8 - 1

-- `usize` is 64 bits wide, as on the two target machines.
abbrev pub max_u64 : ℕ
max_u64 = 2 ^ 64 - 1

-- The digits of `n` before `out`, the last one first; `fuel` digits are enough below `10 ^ fuel`.
pub digits : ℕ → ℕ → Bytes → Bytes
digits zero n out = out
digits (suc fuel) n out =
    let front = digits fuel (n / 10) ((b'0' + n % 10) ∷ out) in
    if ltb n 10 then (b'0' + n % 10) ∷ out else front

-- `to_string()` of a u64, which has at most 20 digits.
unfoldable pub display : ℕ → Bytes
unfolding digits
display n = digits 20 n []

-- `format!("{:0w}", n)`.
unfoldable pub zero_padded : ℕ → ℕ → Bytes
unfolding display
zero_padded w n = replicate (w - length (display n)) b'0' ++ display n

-- The loop of `from_str_radix`: `checked_mul` and `checked_add`, at the type with maximum `max`.
pub scan : ℕ → Bytes → ℕ → Option ℕ
scan max [] n = some n
scan max (c ∷ s) n =
    let rest = scan max s (n * 10 + (c - b'0')) in
    if ltb c b'0' || ltb b'9' c then none else if ltb max (n * 10 + (c - b'0')) then none else rest

-- `s.parse::<T>().ok()`.
unfoldable pub parse : ℕ → Bytes → Option ℕ
unfolding scan
parse max [] = none
parse max (c ∷ []) = scan max (c ∷ []) 0
parse max (c ∷ d ∷ s) = if c == b'+' then scan max (d ∷ s) 0 else scan max (c ∷ d ∷ s) 0

-- `std::str::from_utf8(bytes).ok()?.parse::<T>().ok()`.
unfoldable pub parse_utf8 : ℕ → Bytes → Option ℕ
unfolding parse
parse_utf8 max bytes = do s ← from_utf8 bytes; parse max s
