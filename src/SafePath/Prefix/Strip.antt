-- ===== src/SafePath/Prefix/Strip.antt =====
-- What `strip_prefix` leaves of the path of a file that was found below a directory.
use data_diode.Prelude.{
  ◌≤◌, Bool, true, false, List, [], ◌∷◌, ◌++◌, append_assoc, append-nil, some, ◌≡◌, refl, sym, ap,
  ◌∙◌, subst, arith, Bytes, length, All,
}
use data_diode.SafePath.{Component, slash, starts_with_byte, split, piece, needs_separator, join}
use data_diode.SafePath.Prefix.{
  Part, body_parts, front_part, front_parts, parts, strip, trim_left, trim_right, rejoin,
  strip_prefix,
}
use data_diode.SafePath.Prefix.Names.{
  IsEntryName, contribs, piece_part, first-Entry, join-EntryParts,
}
use data_diode.FileSystem.Frame.{beq_component_refl}

name_parts : List Bytes → List Part
unfolding piece_part
name_parts [] = []
name_parts (n ∷ ns) = piece_part n ∷ name_parts ns

-- The path of the file that the names lead to from a directory.
abbrev pub path_of : Bytes → List Bytes → Bytes
path_of dir [] = dir
path_of dir (name ∷ names) = path_of (join dir name) names

-- The path that the names make by themselves.
abbrev pub join_names : List Bytes → Bytes
join_names [] = []
join_names (name ∷ []) = name
join_names (name ∷ n ∷ names) = name ++ slash ∷ join_names (n ∷ names)

-- A part stands for one component at most.
abbrev AtMostOne : List Part → Type 0
AtMostOne ps = All (λ part. length part.1 ≤ 1) ps

piece_short : (p : Bytes) → length (piece p) ≤ 1
unfolding piece
piece_short p = ground arith

body_parts-AtMostOne : (ps : List Bytes) → AtMostOne (body_parts ps)
body_parts-AtMostOne [] = tt
body_parts-AtMostOne (p ∷ ps) = (piece_short p, body_parts-AtMostOne ps)

parts-AtMostOne : (path : Bytes) → AtMostOne (parts path)
unfolding parts
parts-AtMostOne path = go (starts_with_byte slash path) (split path)
  where
    front_short : (b : Bool) (p : Bytes) → length (front_part b p).1 ≤ 1
    front_short true p = omega arith
    front_short false p = ground (arith, piece_short p)

    go : (b : Bool) (ps : List Bytes) → AtMostOne (front_parts b ps)
    go b [] = tt
    go b (p ∷ ps) = (front_short b p, body_parts-AtMostOne ps)

AtMostOne-append : (ps qs : List Part) → AtMostOne (ps ++ qs) → AtMostOne ps
AtMostOne-append [] qs h = tt
AtMostOne-append (p ∷ ps) qs (a, h) = (a, AtMostOne-append ps qs h)

-- Parts without a component are trimmed.
trim_left-no_component :
    (ps rest : List Part) → contribs ps ≡ [] → trim_left (ps ++ rest) ≡ trim_left rest
unfolding trim_left
trim_left-no_component [] rest e = refl
trim_left-no_component ((p, []) ∷ ps) rest e = trim_left-no_component ps rest e
trim_left-no_component ((p, d ∷ ds) ∷ ps) rest e = cc

-- Something is left of the parts, and what was trimmed is the rest.
abbrev Leaves : List Component → List Part → List Part → Type 0
Leaves cs all rest =
    (left : List Part) × (strip cs all ≡ some left) × (trim_left left ≡ trim_left rest)

skip_part :
    (p : Bytes) (ps rest : List Part) (cs : List Component)
    → contribs ps ≡ cs
    → Leaves cs (ps ++ rest) rest
    → Leaves cs ((p, []) ∷ ps ++ rest) rest
unfolding strip
skip_part p ps rest [] e h =
    ((p, []) ∷ ps ++ rest, refl, trim_left-no_component ((p, []) ∷ ps) rest e)
skip_part p ps rest (c ∷ cs) e h = h

strip-Leaves : (ps rest : List Part) → AtMostOne ps → Leaves (contribs ps) (ps ++ rest) rest
unfolding strip
strip-Leaves [] rest h = (rest, refl, refl)
strip-Leaves ((p, []) ∷ ps) rest (a, h) =
    skip_part p ps rest (contribs ps) refl (strip-Leaves ps rest h)
strip-Leaves ((p, d ∷ []) ∷ ps) rest (a, h) = rw (beq_component_refl d) (strip-Leaves ps rest h)
strip-Leaves ((p, d ∷ e ∷ ds) ∷ ps) rest (a, h) = absurd (omega arith)

trim_right-name_parts : (names : List Bytes) → trim_right (name_parts names) ≡ name_parts names
unfolding name_parts trim_right piece_part
trim_right-name_parts [] = refl
trim_right-name_parts (n ∷ []) = refl
trim_right-name_parts (n ∷ m ∷ names) = rw (trim_right-name_parts (m ∷ names)) refl

rejoin-name_parts : (names : List Bytes) → rejoin (name_parts names) ≡ join_names names
unfolding name_parts rejoin piece_part
rejoin-name_parts [] = refl
rejoin-name_parts (n ∷ []) = refl
rejoin-name_parts (n ∷ m ∷ names) = ap (λ r. n ++ slash ∷ r) (rejoin-name_parts (m ∷ names))

-- The parts of a path that names are joined to.
parts-path_of :
    (names : List Bytes) (dir : Bytes)
    → needs_separator dir ≡ true
    → All IsEntryName names
    → parts (path_of dir names) ≡ parts dir ++ name_parts names
unfolding name_parts
parts-path_of [] dir sep h = sym (append-nil (parts dir))
parts-path_of (n ∷ names) dir sep (valid, h) =
    let (at, sep') = join-EntryParts n valid dir sep in
    parts-path_of names (join dir n) sep' h
    ∙ ap (λ ps. ps ++ name_parts names) at
    ∙ append_assoc (parts dir) (piece_part n ∷ []) (name_parts names)

-- What was found below a directory is, without the directory, the names joined by slashes.
pub strip_prefix-path_of :
    (dir name : Bytes) (names : List Bytes)
    → All IsEntryName (name ∷ names)
    → strip_prefix dir (path_of dir (name ∷ names)) ≡ some (join_names (name ∷ names))
unfolding strip_prefix
strip_prefix-path_of dir name names (valid, h) =
    let (ps, same, at, sep) = first-Entry name valid dir in
    let all = name_parts (name ∷ names) in
    let whole : parts (path_of dir (name ∷ names)) ≡ ps ++ all =
      parts-path_of names (join dir name) sep h
      ∙ ap (λ r. r ++ name_parts names) at
      ∙ unfold name_parts in append_assoc ps (piece_part name ∷ []) (name_parts names) in
    let short : AtMostOne (ps ++ all) =
      subst AtMostOne whole (parts-AtMostOne (path_of dir (name ∷ names))) in
    let (left, e, t) = strip-Leaves ps all (AtMostOne-append ps all short) in
    let trimmed : trim_left left ≡ all = t ∙ unfold name_parts trim_left piece_part in refl in
    rw (sym same, whole, e)
      (ap (λ r. some (rejoin (trim_right r))) trimmed
        ∙ ap some
            (ap rejoin (trim_right-name_parts (name ∷ names)) ∙ rejoin-name_parts (name ∷ names)))
