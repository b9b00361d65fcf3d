-- ===== src/SafePath/Sibling.antt =====
-- A path with a suffix such as `.failed` names another file.
use data_diode.Prelude.{
  ℕ, ◌+◌, ◌≤◌, ◌<◌, false, List, [], ◌∷◌, ◌++◌, ◌≢◌, ◌≡◌, refl, sym, ap, ◌∙◌, arith, Bytes, length,
  length-append, All,
}
use data_diode.SafePath.{
  Component, prefix, root_dir, cur_dir, parent_dir, normal, slash, starts_with_byte, split, piece,
  body, join,
}
use data_diode.SafePath.Split.{onto_last, piece_long, split-ne-nil, split-onto_last}
use data_diode.SafePath.Inside.{resolve, resolve-join}

-- The bytes of the names.
abbrev weight : List Component → ℕ
weight [] = 0
weight (normal name ∷ cs) = length name + weight cs
weight (prefix name ∷ cs) = weight cs
weight (root_dir ∷ cs) = weight cs
weight (cur_dir ∷ cs) = weight cs
weight (parent_dir ∷ cs) = weight cs

weight-append : (cs ds : List Component) → weight (cs ++ ds) ≡ weight cs + weight ds
weight-append [] ds = omega arith
weight-append (normal name ∷ cs) ds = omega (arith, weight-append cs ds)
weight-append (prefix name ∷ cs) ds = weight-append cs ds
weight-append (root_dir ∷ cs) ds = weight-append cs ds
weight-append (cur_dir ∷ cs) ds = weight-append cs ds
weight-append (parent_dir ∷ cs) ds = weight-append cs ds

weight-piece : (p : Bytes) → weight (piece p) ≤ length p
unfolding piece
weight-piece p = ground arith

weight-body_cons :
    (p : Bytes) (ps : List Bytes) → weight (body (p ∷ ps)) ≡ weight (piece p) + weight (body ps)
unfolding body
weight-body_cons p ps = weight-append (piece p) (body ps)

weight-body_nil : weight (body []) ≡ 0
unfolding body
weight-body_nil = refl

weight-onto_last :
    (ps : List Bytes) (t : Bytes)
    → ps ≢ []
    → 3 ≤ length t
    → weight (body ps) < weight (body (onto_last ps t))
weight-onto_last [] t ne long = absurd (ne refl)
weight-onto_last (p ∷ []) t ne long =
    let whole = piece_long (p ++ t) (omega (arith, length-append p t)) in
    omega (
      arith,
      weight-body_nil,
      weight-body_cons p [],
      weight-body_cons (p ++ t) [],
      ap weight whole,
      length-append p t,
      weight-piece p,
    )
weight-onto_last (p ∷ q ∷ ps) t ne long = omega (
  arith,
  weight-body_cons p (q ∷ ps),
  weight-body_cons p (onto_last (q ∷ ps) t),
  weight-onto_last (q ∷ ps) t (λ e. cc) long,
)

-- The names differ, whatever the directory is.
pub resolve-suffix-ne :
    (dir path suffix : Bytes)
    → starts_with_byte slash path ≡ false
    → path ≢ []
    → All (λ c. c ≢ slash) suffix
    → 3 ≤ length suffix
    → resolve (join dir (path ++ suffix)) ≢ resolve (join dir path)
resolve-suffix-ne dir [] suffix relative ne h long e = ne refl
resolve-suffix-ne dir (c ∷ s) suffix relative ne h long e =
    let path = c ∷ s in
    let same : resolve dir ++ body (onto_last (split path) suffix)
        ≡ resolve dir ++ body (split path) =
      ap (λ ps. resolve dir ++ body ps) (sym (split-onto_last path suffix h))
      ∙ sym (resolve-join dir (path ++ suffix) relative)
      ∙ e
      ∙ resolve-join dir path relative in
    omega (
      arith,
      ap weight same,
      weight-append (resolve dir) (body (onto_last (split path) suffix)),
      weight-append (resolve dir) (body (split path)),
      weight-onto_last (split path) suffix (split-ne-nil path) long,
    )
