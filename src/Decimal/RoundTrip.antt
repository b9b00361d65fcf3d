-- ===== src/Decimal/RoundTrip.antt =====
-- A number printed with leading zeros is read back, and its width is known.
use data_diode.Prelude.{
  ℕ, zero, suc, ◌+◌, ◌-◌, ◌/◌, ◌%◌, ◌^◌, ◌≤◌, ◌<◌, [], ◌∷◌, ◌++◌, some, ◌≡◌, refl, ◌∙◌, arith,
  Bytes, length, length-append, replicate, length-replicate, All, All-append, All-replicate,
}
use native.Mathlib.Nat.{pow-suc, one-le-pow}
use data_diode.Utf8.{from_utf8_ascii}
use data_diode.Decimal.{digits, display, zero_padded, scan, parse, parse_utf8}

abbrev IsDigit : ℕ → Type 0
IsDigit c = (b'0' ≤ c) × (c ≤ b'9')

tenth : (n f : ℕ) → n < 10 ^ suc f → n / 10 < 10 ^ f
tenth n f h = let e = pow-suc 10 f in omega (arith, e)

digits-IsDigit : (f n : ℕ) (out : Bytes) → All IsDigit out → All IsDigit (digits f n out)
unfolding digits
digits-IsDigit zero n out h = h
digits-IsDigit (suc f) n out h =
    ground (arith, digits-IsDigit f (n / 10) ((b'0' + n % 10) ∷ out) (omega arith, h))

scan-digits :
    (max f n : ℕ) (out : Bytes)
    → n < 10 ^ f
    → n ≤ max
    → scan max (digits f n out) 0 ≡ scan max out n
unfolding digits scan
scan-digits max zero n out h fits = ground arith
scan-digits max (suc f) n out h fits =
    ground (arith, tenth n f h, scan-digits max f (n / 10) ((b'0' + n % 10) ∷ out))

length-digits-le :
    (f k n : ℕ) (out : Bytes) → n < 10 ^ suc k → length (digits f n out) ≤ suc k + length out
unfolding digits
length-digits-le zero k n out h = omega arith
length-digits-le (suc f) zero n out h = ground arith
length-digits-le (suc f) (suc k) n out h =
    ground (arith, tenth n (suc k) h, length-digits-le f k (n / 10) ((b'0' + n % 10) ∷ out))

le-length-digits : (f n : ℕ) (out : Bytes) → length out ≤ length (digits f n out)
unfolding digits
le-length-digits zero n out = omega arith
le-length-digits (suc f) n out = ground (arith, le-length-digits f (n / 10) ((b'0' + n % 10) ∷ out))

length-digits-ge :
    (f k n : ℕ) (out : Bytes) → k < f → 10 ^ k ≤ n → suc k + length out ≤ length (digits f n out)
unfolding digits
length-digits-ge zero k n out kf h = absurd (omega arith)
length-digits-ge (suc f) zero n out kf h =
    ground (arith, le-length-digits f (n / 10) ((b'0' + n % 10) ∷ out))
length-digits-ge (suc f) (suc k) n out kf h = ground (
  arith,
  pow-suc 10 k,
  one-le-pow k 10 (omega arith),
  length-digits-ge f k (n / 10) ((b'0' + n % 10) ∷ out),
)

length-digits-pos : (n : ℕ) → 0 < length (digits 20 n [])
unfolding digits
length-digits-pos n = ground (arith, le-length-digits 19 (n / 10) ((b'0' + n % 10) ∷ []))

pub display-IsDigit : (n : ℕ) → All IsDigit (display n)
unfolding display
display-IsDigit n = digits-IsDigit 20 n [] tt

scan-zeros : (max k : ℕ) (s : Bytes) → scan max (replicate k b'0' ++ s) 0 ≡ scan max s 0
unfolding scan
scan-zeros max zero s = refl
scan-zeros max (suc k) s = ground (arith, scan-zeros max k s)

IsDigit-parse : (max : ℕ) (s : Bytes) → All IsDigit s → 0 < length s → parse max s ≡ scan max s 0
unfolding parse
IsDigit-parse max [] h pos = absurd (omega arith)
IsDigit-parse max (c ∷ []) h pos = refl
IsDigit-parse max (c ∷ d ∷ s) h pos = ground arith

IsDigit-ascii : (s : Bytes) → All IsDigit s → All (λ c. c < 0x80) s
IsDigit-ascii [] h = tt
IsDigit-ascii (c ∷ s) (hc, hs) = (omega arith, IsDigit-ascii s hs)

pub zero_padded-IsDigit : (w n : ℕ) → All IsDigit (zero_padded w n)
unfolding zero_padded
zero_padded-IsDigit w n =
    All-append IsDigit (replicate (w - length (display n)) b'0') (display n)
      (All-replicate IsDigit _ b'0' (omega arith)) (display-IsDigit n)

pub length-zero_padded-ge : (w n : ℕ) → w ≤ length (zero_padded w n)
unfolding zero_padded
length-zero_padded-ge w n =
    rw (length-append (replicate (w - length (display n)) b'0') (display n), length-replicate)
      (omega arith)

-- A number below `10 ^ w` takes `w` bytes.
pub length-zero_padded : (w n : ℕ) → 0 < w → n < 10 ^ w → length (zero_padded w n) ≡ w
unfolding zero_padded
length-zero_padded zero n pos h = absurd (omega arith)
length-zero_padded (suc w) n pos h =
    rw (length-append (replicate (suc w - length (display n)) b'0') (display n), length-replicate)
      (let e : length (display n) ≤ suc w =
          unfold display in omega (arith, length-digits-le 20 w n [] h) in
        omega arith)

-- What was printed is read back, at every width and at every type that holds the number.
pub parse_utf8-zero_padded :
    (max w n : ℕ) → 0 < w → n < 10 ^ 20 → n ≤ max → parse_utf8 max (zero_padded w n) ≡ some n
unfolding parse_utf8
parse_utf8-zero_padded max w n pos h fits =
    rw (from_utf8_ascii (zero_padded w n) (IsDigit-ascii _ (zero_padded-IsDigit w n))) (
      IsDigit-parse max _ (zero_padded-IsDigit w n) (omega (arith, length-zero_padded-ge w n))
      ∙ unfold zero_padded in
        scan-zeros max (w - length (display n)) (display n)
        ∙ unfold display in scan-digits max 20 n [] h fits ∙ unfold scan in refl)

pub length-display : (n : ℕ) → n < 10 → length (display n) ≡ 1
unfolding display
length-display n h = ground arith

pub parse_utf8-display : (max n : ℕ) → n < 10 ^ 20 → n ≤ max → parse_utf8 max (display n) ≡ some n
unfolding parse_utf8
parse_utf8-display max n h fits =
    rw (from_utf8_ascii (display n) (IsDigit-ascii _ (display-IsDigit n))) (
      IsDigit-parse max _ (display-IsDigit n) (unfold display in omega (arith, length-digits-pos n))
      ∙ unfold display in scan-digits max 20 n [] h fits ∙ unfold scan in refl)
