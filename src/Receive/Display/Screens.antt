-- ===== src/Receive/Display/Screens.antt =====
-- The screens that `Display::update` of diode_receive/src/main.rs writes to the port.
use data_diode.Prelude.{
  ℕ, ◌+◌, ◌-◌, ◌*◌, ◌≤◌, List, [], ◌∷◌, ◌++◌, append_assoc, append-nil, ◌≡◌, refl, sym, ap, ◌∙◌,
  arith, Bytes, length, length-append, take, length-replicate, length-take, All, All-append,
}
use data_diode.Receive.Display.{Display, min_interval, spaces, fit_16}

pub length-fit_16 : (s : Bytes) → length (fit_16 s) ≡ 16
unfolding fit_16
length-fit_16 s = omega (
  arith,
  length-append (take 16 s) (spaces (16 - length (take 16 s))),
  length-take 16 s,
  length-replicate {A = ℕ} (16 - length (take 16 s)) b' ',
)

-- The writes of screens of two lines.
abbrev pub screens_of : List (Bytes × Bytes) → List Bytes
screens_of [] = []
screens_of (screen ∷ screens) =
    (b'\r' ∷ []) ∷ screen.0 ∷ (b'\n' ∷ []) ∷ screen.1 ∷ screens_of screens

screens_of-append :
    (screens more : List (Bytes × Bytes))
    → screens_of (screens ++ more) ≡ screens_of screens ++ screens_of more
screens_of-append [] more = refl
screens_of-append (screen ∷ screens) more =
    ap (λ ws. (b'\r' ∷ []) ∷ screen.0 ∷ (b'\n' ∷ []) ∷ screen.1 ∷ ws)
      (screens_of-append screens more)

abbrev pub IsFull : Bytes × Bytes → Type 0
IsFull screen = (length screen.0 ≡ 16) × (length screen.1 ≡ 16)

-- Whole screens were added, and all but so many of them an interval after the one before.
abbrev pub IsFed : ℕ → Display → Display → Type 0
IsFed forced d d' =
    (screens : List (Bytes × Bytes)) × (d'.port ≡ d.port ++ screens_of screens)
    × All IsFull screens
    × (length screens * min_interval + d.last_update ≤ d'.last_update + forced * min_interval)

pub nothing-IsFed : (forced : ℕ) (d : Display) → IsFed forced d d
nothing-IsFed forced d = ([], sym (append-nil d.port), tt, omega arith)

pub then-IsFed : (j k : ℕ) (d e f : Display) → IsFed j d e → IsFed k e f → IsFed (j + k) d f
then-IsFed j k d e f (screens, port, full, rate) (screens', port', full', rate') = (
  screens ++ screens',
  port'
      ∙ ap (λ ws. ws ++ screens_of screens') port
      ∙ append_assoc d.port (screens_of screens) (screens_of screens')
      ∙ ap (λ ws. d.port ++ ws) (sym (screens_of-append screens screens')),
  All-append IsFull screens screens' full full',
  omega (arith, length-append screens screens'),
)
