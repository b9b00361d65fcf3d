-- ===== src/SafePath/Pieces.antt =====
-- `is_safe_rel_path` in terms of what stands between the slashes.
use data_diode.Prelude.{
  Bool, true, false, not, ◌&&◌, List, [], ◌∷◌, ◌++◌, inl, inr, ◌≡◌, refl, sym, ap, ◌∙◌, subst,
  Bytes, ◌==◌, beq_bytes, beq_bytes_sound, Bool-cases,
}
use data_diode.SafePath.{
  Component, split, piece, body, front, components, all_normal, is_safe_rel_path, slash,
}

abbrev dot : Bytes
dot = b'.' ∷ []

abbrev dot_dot : Bytes
dot_dot = b'.' ∷ b'.' ∷ []

abbrev pub no_parent : List Bytes → Bool
no_parent [] = true
no_parent (p ∷ ps) = not (beq_bytes p dot_dot) && no_parent ps

abbrev pub no_dot_first : List Bytes → Bool
no_dot_first [] = true
no_dot_first (p ∷ ps) = not (beq_bytes p dot)

-- Neither a slash nor a backslash in front, no `.` as the first piece, no `..` as any piece.
abbrev pub has_safe_pieces : Bytes → Bool
has_safe_pieces [] = false
has_safe_pieces (c ∷ s) =
    not (c == slash)
    && (not (c == b'\\') && (no_dot_first (split (c ∷ s)) && no_parent (split (c ∷ s))))

all_normal-piece :
    (p : Bytes) (cs : List Component)
    → all_normal (piece p ++ cs) ≡ (not (beq_bytes p dot_dot) && all_normal cs)
unfolding all_normal piece beq_bytes
all_normal-piece p cs =
    let Holds : Bytes → Type 0 =
      λ q. all_normal (piece q ++ cs) ≡ (not (beq_bytes q dot_dot) && all_normal cs) in
    elim (Bool-cases (beq_bytes p [])) [
      | inl e ↦ subst Holds (sym (beq_bytes_sound p [] e)) refl
      | inr e1 ↦ elim (Bool-cases (beq_bytes p dot)) [
        | inl e ↦ subst Holds (sym (beq_bytes_sound p dot e)) refl
        | inr e2 ↦ elim (Bool-cases (beq_bytes p dot_dot)) [
          | inl e ↦ subst Holds (sym (beq_bytes_sound p dot_dot e)) refl
          | inr e3 ↦ rw (piece, e1, e2, e3) refl
        ]
      ]
    ]

all_normal-body : (ps : List Bytes) → all_normal (body ps) ≡ no_parent ps
unfolding body all_normal
all_normal-body [] = refl
all_normal-body (p ∷ ps) =
    all_normal-piece p (body ps) ∙ ap (λ b. not (beq_bytes p dot_dot) && b) (all_normal-body ps)

all_normal-front : (ps : List Bytes) → all_normal (front ps) ≡ (no_dot_first ps && no_parent ps)
unfolding front all_normal
all_normal-front [] = refl
all_normal-front (p ∷ ps) = elim (Bool-cases (beq_bytes p dot)) [
  | inl e ↦ rw e refl
  | inr e ↦ rw e (all_normal-body (p ∷ ps))
]

-- `is_safe_rel_path` accepts exactly the paths that are not empty, start with neither a slash nor a
-- backslash, and have, among the pieces between the slashes, no `..` anywhere and no `.` in front;
-- a `.` behind the first piece is accepted.
pub is_safe_rel_path-has_safe_pieces : (path : Bytes) → is_safe_rel_path path ≡ has_safe_pieces path
unfolding is_safe_rel_path components
is_safe_rel_path-has_safe_pieces [] = refl
is_safe_rel_path-has_safe_pieces (c ∷ s) = elim (Bool-cases (c == slash)) [
  | inl e ↦ rw e refl
  | inr e ↦ rw e (elim (Bool-cases (c == b'\\')) [
    | inl t ↦ rw t refl
    | inr t ↦ rw t (all_normal-front (split (c ∷ s)))
  ])
]
