-- ===== src/SafePath/Prefix/Names.antt =====
-- The path of an entry that was found below a directory, by the pieces between its slashes.
use data_diode.Prelude.{
  ℕ, Bool, true, false, List, [], ◌∷◌, ◌++◌, append_assoc, append-nil, ◌≢◌, inl, inr, ◌≡◌, refl,
  sym, ap, ◌∙◌, subst, arith, Bytes, All, ◌==◌, beq_bytes, beq_bytes_sound, Bool-cases,
}
use data_diode.SafePath.{
  Component, root_dir, cur_dir, normal, slash, starts_with_byte, split, piece, body, front,
  components, needs_separator, join,
}
use data_diode.SafePath.Inside.{ends_with_slash}
use data_diode.SafePath.Split.{split-slash, split-no_slash, split-ne-nil}
use data_diode.SafePath.Prefix.{Part, body_parts, front_part, front_parts, parts}

-- A name that a directory can hold.
pub record IsEntryName (name : Bytes) : Type 0 where
  pub some_byte : name ≢ []
  pub no_slash : All (λ c. c ≢ slash) name
  pub not_dot : name ≢ b'.' ∷ []
  pub not_dot_dot : name ≢ b'.' ∷ b'.' ∷ []

-- The components that the parts stand for.
abbrev pub contribs : List Part → List Component
contribs [] = []
contribs ((p, ds) ∷ ps) = ds ++ contribs ps

contribs-append : (ps qs : List Part) → contribs (ps ++ qs) ≡ contribs ps ++ contribs qs
contribs-append [] qs = refl
contribs-append ((p, ds) ∷ ps) qs =
    ap (λ r. ds ++ r) (contribs-append ps qs) ∙ sym (append_assoc ds (contribs ps) (contribs qs))

contribs-body_parts : (ps : List Bytes) → contribs (body_parts ps) ≡ body ps
unfolding body
contribs-body_parts [] = refl
contribs-body_parts (p ∷ ps) = ap (λ r. piece p ++ r) (contribs-body_parts ps)

contribs-front_parts : (ps : List Bytes) → contribs (front_parts false ps) ≡ front ps
unfolding front body
contribs-front_parts [] = refl
contribs-front_parts (p ∷ ps) = elim (Bool-cases (beq_bytes p (b'.' ∷ []))) [
  | inl e ↦ rw e (ap (◌∷◌ cur_dir) (contribs-body_parts ps))
  | inr e ↦ rw e (ap (λ r. piece p ++ r) (contribs-body_parts ps))
]

pub contribs-parts : (path : Bytes) → contribs (parts path) ≡ components path
unfolding parts components
contribs-parts [] = contribs-front_parts (split [])
contribs-parts (c ∷ s) = elim (Bool-cases (c == slash)) [
  | inl e ↦ rw e (
      unfold split in
      rw e (unfold body piece beq_bytes in ap (◌∷◌ root_dir) (contribs-body_parts (split s))))
  | inr e ↦ rw e (contribs-front_parts (split (c ∷ s)))
]

body_parts-append : (ps qs : List Bytes) → body_parts (ps ++ qs) ≡ body_parts ps ++ body_parts qs
body_parts-append [] qs = refl
body_parts-append (p ∷ ps) qs = ap (◌∷◌ (p, piece p)) (body_parts-append ps qs)

front_parts-append :
    (b : Bool) (ps qs : List Bytes)
    → ps ≢ []
    → front_parts b (ps ++ qs) ≡ front_parts b ps ++ body_parts qs
front_parts-append b [] qs h = absurd (h refl)
front_parts-append b (p ∷ ps) qs h = ap (◌∷◌ (front_part b p)) (body_parts-append ps qs)

-- A piece behind a slash is a part more.
parts-slash :
    (c : ℕ) (s m : Bytes)
    → All (λ b. b ≢ slash) m
    → parts (c ∷ s ++ slash ∷ m) ≡ parts (c ∷ s) ++ (m, piece m) ∷ []
unfolding parts
parts-slash c s m h =
    ap (front_parts (c == slash))
      (split-slash (c ∷ s) m ∙ ap (λ r. split (c ∷ s) ++ r) (split-no_slash m h))
    ∙ front_parts-append (c == slash) (split (c ∷ s)) (m ∷ []) (split-ne-nil (c ∷ s))

pub differs : (s t : Bytes) → s ≢ t → beq_bytes s t ≡ false
differs s t ne = elim (Bool-cases (beq_bytes s t)) [
  | inl e ↦ absurd (ne (beq_bytes_sound s t e))
  | inr e ↦ e
]

piece_name : (name : Bytes) → IsEntryName name → piece name ≡ normal name ∷ []
unfolding piece
piece_name name h =
    rw (differs name [] h.some_byte, differs name _ h.not_dot, differs name _ h.not_dot_dot) refl

-- The part that a name makes.
unfoldable pub piece_part : Bytes → Part
piece_part name = (name, normal name ∷ [])

entry_name-relative : (name : Bytes) → IsEntryName name → starts_with_byte slash name ≡ false
entry_name-relative [] h = refl
entry_name-relative (c ∷ s) h = let (first, later) = h.no_slash in ground arith

needs_separator-append :
    (s m : Bytes) → m ≢ [] → All (λ c. c ≢ slash) m → needs_separator (s ++ m) ≡ true
unfolding needs_separator
needs_separator-append [] [] ne h = absurd (ne refl)
needs_separator-append [] (c ∷ []) ne h = ground arith
needs_separator-append [] (c ∷ d ∷ m) ne h = needs_separator-append [] (d ∷ m) (λ e. cc) h.1
needs_separator-append (c ∷ []) [] ne h = absurd (ne refl)
needs_separator-append (c ∷ []) (d ∷ m) ne h = needs_separator-append [] (d ∷ m) ne h
needs_separator-append (c ∷ d ∷ s) m ne h = needs_separator-append (d ∷ s) m ne h

-- The path of an entry, by its parts.
abbrev pub EntryParts : List Part → Bytes → Bytes → Type 0
EntryParts ps name path = (parts path ≡ ps ++ piece_part name ∷ []) × (needs_separator path ≡ true)

module _ (name : Bytes) (valid : IsEntryName name) where
  after_slash-EntryParts :
      (c : ℕ) (s : Bytes) → EntryParts (parts (c ∷ s)) name (c ∷ s ++ slash ∷ name)
  unfolding piece_part
  after_slash-EntryParts c s = (
    parts-slash c s name valid.no_slash
        ∙ ap (λ ds. parts (c ∷ s) ++ (name, ds) ∷ []) (piece_name name valid),
    ap needs_separator (sym (append_assoc (c ∷ s) (slash ∷ []) name))
        ∙ needs_separator-append (c ∷ s ++ slash ∷ []) name valid.some_byte valid.no_slash,
  )

  -- An entry of a directory whose path asks for a separator.
  pub join-EntryParts :
      (dir : Bytes) → needs_separator dir ≡ true → EntryParts (parts dir) name (join dir name)
  unfolding join needs_separator
  join-EntryParts [] sep = cc
  join-EntryParts (c ∷ s) sep =
      let relative = entry_name-relative name valid in
      rw (join, relative, sep) (after_slash-EntryParts c s)

  abbrev pub Entry : Bytes → Bytes → Type 0
  Entry dir path =
      (ps : List Part) × (contribs ps ≡ components dir)
      × (parts path ≡ ps ++ piece_part name ∷ [])
      × (needs_separator path ≡ true)

  alone-Entry : Entry [] name
  unfolding parts piece_part components split front body
  alone-Entry =
      let relative = entry_name-relative name valid in
      (
        [],
        (unfold piece beq_bytes in refl),
        rw
            (
              relative,
              split-no_slash name valid.no_slash,
              differs name _ valid.not_dot,
              piece_name name valid,
            )
            refl,
        needs_separator-append [] name valid.some_byte valid.no_slash,
      )

  trailing-Entry : (r : Bytes) → Entry (r ++ slash ∷ []) ((r ++ slash ∷ []) ++ name)
  unfolding piece beq_bytes
  trailing-Entry [] = (
    ([], root_dir ∷ []) ∷ [],
    (unfold components body split piece beq_bytes in refl),
    (unfold parts piece_part split in
        rw (split-no_slash name valid.no_slash, piece_name name valid) refl),
    needs_separator-append (slash ∷ []) name valid.some_byte valid.no_slash,
  )
  trailing-Entry (c ∷ s) =
      let (at, sep) = after_slash-EntryParts c s in
      let same = sym (append_assoc (c ∷ s) (slash ∷ []) name) in
      (
        parts (c ∷ s),
        sym (append-nil (contribs (parts (c ∷ s))))
            ∙ sym (contribs-append (parts (c ∷ s)) (([], []) ∷ []))
            ∙ ap contribs (sym (parts-slash c s [] tt))
            ∙ contribs-parts (c ∷ s ++ slash ∷ []),
        ap parts (sym same) ∙ at,
        ap needs_separator (sym same) ∙ sep,
      )

  -- An entry of any directory: its path consists of the parts of the directory and its name.
  pub first-Entry : (dir : Bytes) → Entry dir (join dir name)
  unfolding join
  first-Entry dir = elim (Bool-cases (needs_separator dir)) [
    | inl e ↦ let (at, sep) = join-EntryParts dir e in (parts dir, contribs-parts dir, at, sep)
    | inr e ↦ rw (entry_name-relative name valid, e) (without_separator dir e)
  ]
    where
      without_separator : (dir : Bytes) → needs_separator dir ≡ false → Entry dir (dir ++ name)
      without_separator [] e = alone-Entry
      without_separator (c ∷ s) e =
          let (r, same) = ends_with_slash c s e in
          subst (λ d. Entry d (d ++ name)) (sym same) (trailing-Entry r)
