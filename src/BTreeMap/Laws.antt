-- ===== src/BTreeMap/Laws.antt =====
-- Lookup after insertion, the key order, and how many keys fit into a range.
use data_diode.Prelude.{
  ℕ, suc, ◌+◌, ◌≤◌, ◌<◌, false, [], ◌∷◌, inl, inr, none, some, ◌≡◌, refl, subst, arith, length,
  if◌then◌else◌, ◌==◌, ==-cases, OnSome,
}
use data_diode.BTreeMap.{BTreeMap, get, contains_key, insert}

-- The keys ascend strictly and lie in `lo..hi`.
abbrev pub Ascends {ℓ} : {V : Type ℓ} → ℕ → ℕ → BTreeMap V → Type 0
Ascends lo hi [] = Unit
Ascends lo hi ((k, v) ∷ m) = (lo ≤ k) × (k < hi) × Ascends (suc k) hi m

module _ {ℓ} {V : Type ℓ} where
  pub get-insert :
      (k j : ℕ) (v : V) (m : BTreeMap V)
      → get j (insert k v m) ≡ (if k == j then some v else get j m)
  unfolding get insert
  get-insert k j v [] = refl
  get-insert k j v ((i, w) ∷ m) = ground (arith, get-insert k j v m)

  pub Ascends-le : (lo lo' hi : ℕ) (m : BTreeMap V) → lo' ≤ lo → Ascends lo hi m → Ascends lo' hi m
  Ascends-le lo lo' hi [] le a = tt
  Ascends-le lo lo' hi ((k, v) ∷ m) le a = (omega arith, a.1, a.2)

  pub insert-Ascends :
      (k : ℕ) (v : V) (lo hi : ℕ) (m : BTreeMap V)
      → lo ≤ k
      → k < hi
      → Ascends lo hi m
      → Ascends lo hi (insert k v m)
  unfolding insert
  insert-Ascends k v lo hi [] hlo hhi a = (hlo, hhi, tt)
  insert-Ascends k v lo hi ((j, w) ∷ m) hlo hhi a = ground (arith, insert-Ascends k v (suc j) hi m)

  -- At most one key for each number of the range.
  pub length-le_of_Ascends :
      (lo hi : ℕ) (m : BTreeMap V) → lo ≤ hi → Ascends lo hi m → lo + length m ≤ hi
  length-le_of_Ascends lo hi [] le a = omega arith
  length-le_of_Ascends lo hi ((k, v) ∷ m) le a =
      omega (arith, length-le_of_Ascends (suc k) hi m a.1 a.2)

  pub length-insert :
      (k : ℕ) (v : V) (m : BTreeMap V)
      → contains_key k m ≡ false
      → length (insert k v m) ≡ suc (length m)
  unfolding insert contains_key
  length-insert k v [] h = refl
  length-insert k v ((j, w) ∷ m) h = ground (arith, length-insert k v m)

  -- In a map whose keys ascend within `lo..hi`, a key of the range that has no value leaves room.
  pub length-lt_of_missing :
      (lo hi k : ℕ) (m : BTreeMap V)
      → Ascends lo hi m
      → lo ≤ k
      → k < hi
      → get k m ≡ none
      → lo + length m < hi
  unfolding get
  length-lt_of_missing lo hi k [] a hlo hhi h = omega arith
  length-lt_of_missing lo hi k ((j, v) ∷ m) a hlo hhi h =
      ground (arith, length-le_of_Ascends (suc j) hi m, length-lt_of_missing (suc j) hi k m)

-- `P` holds of every entry.
abbrev pub Each {ℓ} : {V : Type ℓ} → (ℕ → V → Type 0) → BTreeMap V → Type 0
Each P [] = Unit
Each P ((k, v) ∷ m) = P k v × Each P m

OnSome-get_of_Each {ℓ} :
    {V : Type ℓ} (P : ℕ → V → Type 0) (k : ℕ) (m : BTreeMap V) → Each P m → OnSome (P k) (get k m)
unfolding get
OnSome-get_of_Each P k [] e = tt
OnSome-get_of_Each P k ((j, v) ∷ m) (p, ps) = elim (==-cases j k) [
  | inl (e, t) ↦ rw t (subst (λ i. P i v) e p)
  | inr (e, t) ↦ rw t (OnSome-get_of_Each P k m ps)
]

pub get-Each {ℓ} :
    {V : Type ℓ} (P : ℕ → V → Type 0) (k : ℕ) (v : V) (m : BTreeMap V)
    → Each P m
    → get k m ≡ some v
    → P k v
get-Each P k v m e h = subst (OnSome (P k)) h (OnSome-get_of_Each P k m e)

pub Each-map {ℓ} :
    {V : Type ℓ} {P Q : ℕ → V → Type 0} (m : BTreeMap V)
    → ((k : ℕ) (v : V) → P k v → Q k v)
    → Each P m
    → Each Q m
Each-map [] h e = tt
Each-map ((k, v) ∷ m) h (p, ps) = (h k v p, Each-map m h ps)

pub contains_key_above {ℓ} :
    {V : Type ℓ} (lo hi k : ℕ) (m : BTreeMap V)
    → Ascends lo hi m
    → hi ≤ k
    → contains_key k m ≡ false
unfolding contains_key
contains_key_above lo hi k [] a le = refl
contains_key_above lo hi k ((j, v) ∷ m) a le = ground (arith, contains_key_above (suc j) hi k m)

pub Ascends-more {ℓ} :
    {V : Type ℓ} (lo hi hi' : ℕ) (m : BTreeMap V) → hi ≤ hi' → Ascends lo hi m → Ascends lo hi' m
Ascends-more lo hi hi' [] le a = tt
Ascends-more lo hi hi' ((k, v) ∷ m) le (above, below, a) =
    (above, omega arith, Ascends-more (suc k) hi hi' m le a)
