-- ===== src/Utf8.antt =====
-- What the source uses of the standard library's UTF-8 decoding: `std::str::from_utf8` and
-- `String::from_utf8_lossy`. A text is the list of its bytes. An ill-formed stretch is cut as the
-- standard library cuts it, at the first byte that cannot continue the character that was begun.
use data_diode.Prelude.{
  ℕ, ◌-◌, ◌<◌, Bool, true, false, ◌&&◌, List, [], ◌∷◌, ◌++◌, append_assoc, append-nil, inl, inr,
  Option, none, some, ◌≡◌, refl, sym, ap, ◌∙◌, arith, Bytes, All, if◌then◌else◌, ◌==◌, leb, ltb,
  Bool-cases,
}

pub data Piece : Type 0 where
  valid : Bytes → Piece
  invalid : Bytes → Piece

-- `within p lo hi more`: the character begun by `p` wants a byte in `lo..=hi`, and `more` in all.
pub data Scan : Type 0 where
  start : Scan
  within : Bytes → ℕ → ℕ → ℕ → Scan

-- The range of the second byte and the number of bytes to come, by the first byte.
lead : ℕ → Option (ℕ × ℕ × ℕ)
lead b =
    if ltb b 0xC2
    then none
    else if leb b 0xDF
    then some (0x80, 0xBF, 1)
    else if b == 0xE0
    then some (0xA0, 0xBF, 2)
    else if b == 0xED
    then some (0x80, 0x9F, 2)
    else if leb b 0xEF
    then some (0x80, 0xBF, 2)
    else if b == 0xF0
    then some (0x90, 0xBF, 3)
    else if leb b 0xF3
    then some (0x80, 0xBF, 3)
    else if b == 0xF4
    then some (0x80, 0x8F, 3)
    else none

begin : ℕ → List Piece × Scan
begin b = if ltb b 0x80 then (valid (b ∷ []) ∷ [], start) else elim (lead b) [
  | none ↦ (invalid (b ∷ []) ∷ [], start)
  | some (lo, hi, more) ↦ ([], within (b ∷ []) lo hi more)
]

step : Scan → ℕ → List Piece × Scan
step start b = begin b
step (within p lo hi more) b =
    if leb lo b && leb b hi
    then (if more == 1
        then (valid (p ++ b ∷ []) ∷ [], start)
        else ([], within (p ++ b ∷ []) 0x80 0xBF (more - 1)))
    else (invalid p ∷ (begin b).0, (begin b).1)

pieces : Scan → Bytes → List Piece
pieces start [] = []
pieces (within p lo hi more) [] = invalid p ∷ []
pieces s (b ∷ bs) = (step s b).0 ++ pieces (step s b).1 bs

all_valid : List Piece → Bool
all_valid [] = true
all_valid (valid s ∷ ps) = all_valid ps
all_valid (invalid s ∷ ps) = false

unfoldable pub from_utf8 : Bytes → Option Bytes
unfolding all_valid pieces step begin lead
from_utf8 s = if all_valid (pieces start s) then some s else none

-- Each ill-formed stretch becomes U+FFFD, which is EF BF BD.
replace : List Piece → Bytes
replace [] = []
replace (valid s ∷ ps) = s ++ replace ps
replace (invalid s ∷ ps) = 0xEF ∷ 0xBF ∷ 0xBD ∷ replace ps

unfoldable pub from_utf8_lossy : Bytes → Bytes
unfolding replace pieces step begin lead
from_utf8_lossy s = replace (pieces start s)

-- The bytes that the pieces were cut from.
raw : List Piece → Bytes
raw [] = []
raw (valid s ∷ ps) = s ++ raw ps
raw (invalid s ∷ ps) = s ++ raw ps

raw-append : (ps qs : List Piece) → raw (ps ++ qs) ≡ raw ps ++ raw qs
unfolding raw
raw-append [] qs = refl
raw-append (valid s ∷ ps) qs = ap (λ t. s ++ t) (raw-append ps qs) ∙ sym (append_assoc s _ _)
raw-append (invalid s ∷ ps) qs = ap (λ t. s ++ t) (raw-append ps qs) ∙ sym (append_assoc s _ _)

pending : Scan → Bytes
pending start = []
pending (within p lo hi more) = p

raw-begin : (b : ℕ) → raw (begin b).0 ++ pending (begin b).1 ≡ b ∷ []
unfolding raw begin pending
raw-begin b = ground arith

raw-step : (s : Scan) (b : ℕ) → raw (step s b).0 ++ pending (step s b).1 ≡ pending s ++ b ∷ []
unfolding raw step pending
raw-step start b = raw-begin b
raw-step (within p lo hi more) b = ground (
  arith,
  append-nil (p ++ b ∷ []),
  append_assoc p (raw (begin b).0) (pending (begin b).1),
  raw-begin b,
)

raw-pieces : (s : Scan) (bs : Bytes) → raw (pieces s bs) ≡ pending s ++ bs
unfolding pieces
raw-pieces start [] = unfold raw pending in refl
raw-pieces (within p lo hi more) [] = unfold raw pending in refl
raw-pieces s (b ∷ bs) =
    raw-append (step s b).0 _
    ∙ ap (λ t. raw (step s b).0 ++ t) (raw-pieces (step s b).1 bs)
    ∙ sym (append_assoc (raw (step s b).0) _ bs)
    ∙ ap (λ t. t ++ bs) (raw-step s b)
    ∙ append_assoc (pending s) (b ∷ []) bs

replace_of_valid : (ps : List Piece) → all_valid ps ≡ true → replace ps ≡ raw ps
unfolding replace raw all_valid
replace_of_valid [] h = refl
replace_of_valid (valid s ∷ ps) h = ap (λ t. s ++ t) (replace_of_valid ps h)
replace_of_valid (invalid s ∷ ps) h = cc

-- A well-formed text is decoded to itself, by the strict and by the lossy decoder.
pub from_utf8-eq-some : (s t : Bytes) → from_utf8 s ≡ some t → (t ≡ s) × (from_utf8_lossy s ≡ s)
unfolding pending
from_utf8-eq-some s t h = elim (Bool-cases (all_valid (pieces start s))) [
  | inl e ↦ (
    unfold from_utf8 in ground arith,
    unfold from_utf8_lossy in replace_of_valid (pieces start s) e ∙ raw-pieces start s,
  )
  | inr e ↦ unfold from_utf8 in ground arith
]

ascii_pieces : (s : Bytes) → All (λ c. c < 0x80) s → all_valid (pieces start s) ≡ true
unfolding pieces step begin all_valid
ascii_pieces [] h = refl
ascii_pieces (b ∷ s) (hb, hs) = ground (arith, ascii_pieces s hs)

pub from_utf8_ascii : (s : Bytes) → All (λ c. c < 0x80) s → from_utf8 s ≡ some s
from_utf8_ascii s h = unfold from_utf8 in rw (ascii_pieces s h)
