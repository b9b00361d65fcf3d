-- ===== src/SafePath/Inside.antt =====
-- Where a safe path leads: what the receiver joins onto its output directory stays below it.
use data_diode.Prelude.{
  ℕ, ◌≤◌, true, false, List, [], ◌∷◌, ◌++◌, append_assoc, append-nil, ◌≢◌, ◌⊎◌, inl, inr, ◌≡◌, refl,
  sym, ap, ◌∙◌, arith, Bytes, length, All, if◌then◌else◌, beq_bytes, Bool-cases,
}
use data_diode.SafePath.{
  Component, root_dir, slash, starts_with_byte, split, piece, body, front, components, all_normal,
  is_safe_rel_path, needs_separator, join,
}
use data_diode.SafePath.Split.{split-slash, body-append, split-onto_last, all_normal-onto_last}

-- The file that a path names: `.` in front means nothing to the file system.
unfoldable pub resolve : Bytes → List Component
resolve path =
    if starts_with_byte slash path then root_dir ∷ body (split path) else body (split path)

-- The file is named by normal components below the directory.
abbrev pub IsInside : Bytes → List Component → Type 0
IsInside dir file =
    (names : List Component) × (file ≡ resolve dir ++ names) × (all_normal names ≡ true)

-- A path that leads nowhere but downwards.
pub record Descends (path : Bytes) : Type 0 where
  pub relative : starts_with_byte slash path ≡ false
  pub downwards : all_normal (body (split path)) ≡ true

all_normal-front : (ps : List Bytes) → all_normal (front ps) ≡ true → all_normal (body ps) ≡ true
unfolding front all_normal
all_normal-front [] h = unfold body in refl
all_normal-front (p ∷ ps) h = ground arith

pub is_safe_rel_path-Descends : (path : Bytes) → is_safe_rel_path path ≡ true → Descends path
unfolding is_safe_rel_path components
is_safe_rel_path-Descends [] h = cc
is_safe_rel_path-Descends (c ∷ s) h = record {
  relative = ground arith;
  downwards = ground (arith, all_normal-front (split (c ∷ s)));
}

-- A suffix without a slash, as `.partial` and `.failed` are, leads to a sibling.
pub append-Descends :
    (path suffix : Bytes)
    → Descends path
    → path ≢ []
    → All (λ c. c ≢ slash) suffix
    → 3 ≤ length suffix
    → Descends (path ++ suffix)
append-Descends [] suffix d ne h long = absurd (ne refl)
append-Descends (c ∷ s) suffix d ne h long = record {
  relative = d.relative;
  downwards =
      rw (split-onto_last (c ∷ s) suffix h)
        (all_normal-onto_last (split (c ∷ s)) suffix long d.downwards);
}

-- `resolve` without its root.
below : Bytes → List Component
below path = body (split path)

below-slash : (s t : Bytes) → below (s ++ slash ∷ t) ≡ below s ++ below t
unfolding below
below-slash s t = rw (split-slash s t) (body-append (split s) (split t))

-- A directory that ends with a slash.
pub ends_with_slash :
    (c : ℕ) (s : Bytes) → needs_separator (c ∷ s) ≡ false → (r : Bytes) × (c ∷ s ≡ r ++ slash ∷ [])
unfolding needs_separator
ends_with_slash c [] h = ([], ground arith)
ends_with_slash c (d ∷ s) h = let (r, e) = ends_with_slash d s h in (c ∷ r, ap (◌∷◌ c) e)

below-nil : below [] ≡ []
unfolding below split body piece beq_bytes
below-nil = refl

below-append :
    (c : ℕ) (dir path : Bytes)
    → needs_separator (c ∷ dir) ≡ false
    → below (c ∷ dir ++ path) ≡ below (c ∷ dir) ++ below path
below-append c dir path h =
    let (r, e) = ends_with_slash c dir h in
    ap (λ d. below (d ++ path)) e
    ∙ ap below (append_assoc r (slash ∷ []) path)
    ∙ below-slash r path
    ∙ ap (λ d. d ++ below path)
        (sym (append-nil (below r))
          ∙ ap (λ d. below r ++ d) (sym below-nil)
          ∙ sym (below-slash r [])
          ∙ ap below (sym e))

module _ (dir path : Bytes) (relative : starts_with_byte slash path ≡ false) where
  join_cases :
      ((needs_separator dir ≡ true) × (join dir path ≡ dir ++ slash ∷ path))
      ⊎ ((needs_separator dir ≡ false) × (join dir path ≡ dir ++ path))
  unfolding join
  join_cases = elim (Bool-cases (needs_separator dir)) [
    | inl e ↦ inl (e, rw (relative, e))
    | inr e ↦ inr (e, rw (relative, e))
  ]

  below-join : below (join dir path) ≡ below dir ++ below path
  below-join = elim join_cases [
    | inl (e, j) ↦ rw j (below-slash dir path)
    | inr (e, j) ↦ rw j (without_separator dir e)
  ]
    where
      without_separator :
          (dir : Bytes)
          → needs_separator dir ≡ false
          → below (dir ++ path) ≡ below dir ++ below path
      without_separator [] e = rw below-nil
      without_separator (c ∷ dir) e = below-append c dir path e

  root-join : starts_with_byte slash (join dir path) ≡ starts_with_byte slash dir
  root-join = elim join_cases [
    | inl (e, j) ↦ rw j (with_separator dir e)
    | inr (e, j) ↦ rw j (without_separator dir)
  ]
    where
      with_separator :
          (dir : Bytes)
          → needs_separator dir ≡ true
          → starts_with_byte slash (dir ++ slash ∷ path) ≡ starts_with_byte slash dir
      with_separator [] e = unfold needs_separator in cc
      with_separator (c ∷ dir) e = refl

      without_separator :
          (dir : Bytes) → starts_with_byte slash (dir ++ path) ≡ starts_with_byte slash dir
      without_separator [] = relative
      without_separator (c ∷ dir) = refl

  joined_file : resolve (join dir path) ≡ resolve dir ++ below path
  unfolding resolve below
  joined_file = rw root-join (elim (Bool-cases (starts_with_byte slash dir)) [
    | inl e ↦ rw e (ap (◌∷◌ root_dir) below-join)
    | inr e ↦ rw e below-join
  ])

-- The file that a joined path names.
pub resolve-join :
    (dir path : Bytes)
    → starts_with_byte slash path ≡ false
    → resolve (join dir path) ≡ resolve dir ++ body (split path)
unfolding below
resolve-join dir path relative = joined_file dir path relative

-- What descends stays inside, whatever the output directory is.
pub join-IsInside : (dir path : Bytes) → Descends path → IsInside dir (resolve (join dir path))
unfolding below
join-IsInside dir path d = (body (split path), joined_file dir path d.relative, d.downwards)
