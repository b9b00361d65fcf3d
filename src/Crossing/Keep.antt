-- ===== src/Crossing/Keep.antt =====
-- A link that loses packets: a mask says of each packet, in order, whether it arrives.
use data_diode.Prelude.{
  ℕ, zero, suc, ◌+◌, ◌≤◌, Bool, true, false, List, [], ◌∷◌, ◌++◌, map, ◌≡◌, refl, ap, arith, length,
  take, drop, replicate, All,
}

-- How many packets a mask lets through.
abbrev pub kept : List Bool → ℕ
kept [] = 0
kept (true ∷ mask) = suc (kept mask)
kept (false ∷ mask) = kept mask

pub kept-le : (mask : List Bool) → kept mask ≤ length mask
kept-le [] = omega arith
kept-le (true ∷ mask) = omega (arith, kept-le mask)
kept-le (false ∷ mask) = omega (arith, kept-le mask)

-- A mask in two parts.
pub kept-take-drop :
    (n : ℕ) (mask : List Bool) → kept mask ≡ kept (take n mask) + kept (drop n mask)
kept-take-drop zero mask = omega arith
kept-take-drop (suc n) [] = refl
kept-take-drop (suc n) (true ∷ mask) = omega (arith, kept-take-drop n mask)
kept-take-drop (suc n) (false ∷ mask) = omega (arith, kept-take-drop n mask)

module _ {ℓ} {A : Type ℓ} where
  -- What arrives; nothing arrives behind the end of the mask.
  abbrev pub keep : List Bool → List A → List A
  keep [] xs = []
  keep (b ∷ mask) [] = []
  keep (true ∷ mask) (x ∷ xs) = x ∷ keep mask xs
  keep (false ∷ mask) (x ∷ xs) = keep mask xs

  pub keep-nil : (mask : List Bool) → keep mask [] ≡ []
  keep-nil [] = refl
  keep-nil (b ∷ mask) = refl

  pub keep-append :
      (mask more : List Bool) (xs ys : List A)
      → length mask ≡ length xs
      → keep (mask ++ more) (xs ++ ys) ≡ keep mask xs ++ keep more ys
  keep-append [] more [] ys e = refl
  keep-append [] more (x ∷ xs) ys e = absurd (omega arith)
  keep-append (b ∷ mask) more [] ys e = absurd (omega arith)
  keep-append (true ∷ mask) more (x ∷ xs) ys e =
      ap (◌∷◌ x) (keep-append mask more xs ys (omega arith))
  keep-append (false ∷ mask) more (x ∷ xs) ys e = keep-append mask more xs ys (omega arith)

  pub keep_parts :
      (mask : List Bool) (xs ys : List A)
      → keep mask (xs ++ ys) ≡ keep (take (length xs) mask) xs ++ keep (drop (length xs) mask) ys
  keep_parts mask [] ys = refl
  keep_parts [] (x ∷ xs) ys = refl
  keep_parts (true ∷ mask) (x ∷ xs) ys = ap (◌∷◌ x) (keep_parts mask xs ys)
  keep_parts (false ∷ mask) (x ∷ xs) ys = keep_parts mask xs ys

  pub keep-replicate :
      (mask : List Bool) (x : A) → keep mask (replicate (length mask) x) ≡ replicate (kept mask) x
  keep-replicate [] x = refl
  keep-replicate (true ∷ mask) x = ap (◌∷◌ x) (keep-replicate mask x)
  keep-replicate (false ∷ mask) x = keep-replicate mask x

  pub All-keep {κ} :
      (P : A → Type κ) (mask : List Bool) (xs : List A) → All P xs → All P (keep mask xs)
  All-keep P [] xs h = tt
  All-keep P (b ∷ mask) [] h = tt
  All-keep P (true ∷ mask) (x ∷ xs) (p, h) = (p, All-keep P mask xs h)
  All-keep P (false ∷ mask) (x ∷ xs) (p, h) = All-keep P mask xs h

pub keep-map {ℓ κ} :
    {A : Type ℓ} {B : Type κ} (f : A → B) (mask : List Bool) (xs : List A)
    → keep mask (map f xs) ≡ map f (keep mask xs)
keep-map f [] xs = refl
keep-map f (b ∷ mask) [] = refl
keep-map f (true ∷ mask) (x ∷ xs) = ap (◌∷◌ (f x)) (keep-map f mask xs)
keep-map f (false ∷ mask) (x ∷ xs) = keep-map f mask xs
