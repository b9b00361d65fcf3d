-- ===== src/SafePath/Split.antt =====
-- How the pieces of a path behave when something is put behind it.
use data_diode.Prelude.{
  ℕ, ◌≤◌, true, false, ◌&&◌, List, [], ◌∷◌, ◌++◌, append_assoc, ◌≢◌, inl, inr, ◌≡◌, refl, sym, ap,
  arith, Bytes, length, length-append, All, ◌==◌, beq_bytes, beq_bytes_sound, Bool-cases,
}
use data_diode.SafePath.{
  Component, prefix, root_dir, cur_dir, parent_dir, normal, slash, onto_first, split, piece, body,
  all_normal,
}

onto_first-ne-nil : (c : ℕ) (ps : List Bytes) → onto_first c ps ≢ []
onto_first-ne-nil c [] e = cc
onto_first-ne-nil c (p ∷ ps) e = cc

pub split-ne-nil : (s : Bytes) → split s ≢ []
unfolding split
split-ne-nil [] e = cc
split-ne-nil (c ∷ s) e = ground (arith, onto_first-ne-nil c (split s))

onto_first-append :
    (c : ℕ) (ps qs : List Bytes) → ps ≢ [] → onto_first c (ps ++ qs) ≡ onto_first c ps ++ qs
onto_first-append c [] qs h = absurd (h refl)
onto_first-append c (p ∷ ps) qs h = refl

-- A slash between two paths cuts there.
pub split-slash : (s t : Bytes) → split (s ++ slash ∷ t) ≡ split s ++ split t
unfolding split
split-slash [] t = refl
split-slash (c ∷ s) t = elim (Bool-cases (c == slash)) [
  | inl e ↦ rw e (ap (◌∷◌ []) (split-slash s t))
  | inr e ↦ rw e (rw (split-slash s t) (onto_first-append c (split s) (split t) (split-ne-nil s)))
]

pub body-append : (ps qs : List Bytes) → body (ps ++ qs) ≡ body ps ++ body qs
unfolding body
body-append [] qs = refl
body-append (p ∷ ps) qs = rw (body-append ps qs) (sym (append_assoc (piece p) (body ps) (body qs)))

-- Puts bytes behind the last piece.
abbrev pub onto_last : List Bytes → Bytes → List Bytes
onto_last [] t = []
onto_last (p ∷ []) t = (p ++ t) ∷ []
onto_last (p ∷ q ∷ ps) t = p ∷ onto_last (q ∷ ps) t

onto_first-onto_last :
    (c : ℕ) (ps : List Bytes) (t : Bytes)
    → ps ≢ []
    → onto_first c (onto_last ps t) ≡ onto_last (onto_first c ps) t
onto_first-onto_last c [] t h = absurd (h refl)
onto_first-onto_last c (p ∷ []) t h = refl
onto_first-onto_last c (p ∷ q ∷ ps) t h = refl

cons-onto_last :
    (p : Bytes) (ps : List Bytes) (t : Bytes) → ps ≢ [] → p ∷ onto_last ps t ≡ onto_last (p ∷ ps) t
cons-onto_last p [] t h = absurd (h refl)
cons-onto_last p (q ∷ ps) t h = refl

pub split-no_slash : (t : Bytes) → All (λ c. c ≢ slash) t → split t ≡ t ∷ []
unfolding split
split-no_slash [] h = refl
split-no_slash (c ∷ t) (hc, ht) = rw (split-no_slash t ht) (ground arith)

-- Bytes without a slash lengthen the last piece.
pub split-onto_last :
    (s t : Bytes) → All (λ c. c ≢ slash) t → split (s ++ t) ≡ onto_last (split s) t
unfolding split
split-onto_last [] t h = split-no_slash t h
split-onto_last (c ∷ s) t h = elim (Bool-cases (c == slash)) [
  | inl e ↦ rw e (rw (split-onto_last s t h) (cons-onto_last [] (split s) t (split-ne-nil s)))
  | inr e ↦ rw e (rw (split-onto_last s t h) (onto_first-onto_last c (split s) t (split-ne-nil s)))
]

beq_bytes-length : (s t : Bytes) → length s ≢ length t → beq_bytes s t ≡ false
beq_bytes-length s t h = elim (Bool-cases (beq_bytes s t)) [
  | inl e ↦ absurd (h (ap length (beq_bytes_sound s t e)))
  | inr e ↦ e
]

pub piece_long : (p : Bytes) → 3 ≤ length p → piece p ≡ normal p ∷ []
unfolding piece
piece_long p h = rw (
  beq_bytes-length p [] (omega arith),
  beq_bytes-length p (b'.' ∷ []) (omega arith),
  beq_bytes-length p (b'.' ∷ b'.' ∷ []) (omega arith),
)

pub all_normal-append :
    (cs ds : List Component) → all_normal (cs ++ ds) ≡ (all_normal cs && all_normal ds)
unfolding all_normal
all_normal-append [] ds = refl
all_normal-append (normal name ∷ cs) ds = all_normal-append cs ds
all_normal-append (prefix name ∷ cs) ds = refl
all_normal-append (root_dir ∷ cs) ds = refl
all_normal-append (cur_dir ∷ cs) ds = refl
all_normal-append (parent_dir ∷ cs) ds = refl

all_normal-body_cons :
    (p : Bytes) (ps : List Bytes)
    → all_normal (body (p ∷ ps)) ≡ (all_normal (piece p) && all_normal (body ps))
unfolding body
all_normal-body_cons p ps = all_normal-append (piece p) (body ps)

pub all_normal-onto_last :
    (ps : List Bytes) (t : Bytes)
    → 3 ≤ length t
    → all_normal (body ps) ≡ true
    → all_normal (body (onto_last ps t)) ≡ true
all_normal-onto_last [] t h n = n
all_normal-onto_last (p ∷ []) t h n =
    unfold body in
    rw (piece_long (p ++ t) (omega (arith, length-append p t))) (unfold all_normal in refl)
all_normal-onto_last (p ∷ q ∷ ps) t h n =
    rw (all_normal-body_cons p (onto_last (q ∷ ps) t))
      (ground (arith, all_normal-body_cons p (q ∷ ps), all_normal-onto_last (q ∷ ps) t h))
