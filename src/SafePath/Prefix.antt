-- ===== src/SafePath/Prefix.antt =====
-- `Path::strip_prefix` of the standard library: the components of the base are taken off the front,
-- and what is left is a part of the path as it was written.
pub mod Names
pub mod Strip
use data_diode.Prelude.{
  Bool, true, false, List, [], ◌∷◌, ◌++◌, Option, none, some, Bytes, if◌then◌else◌, beq_bytes,
}
use data_diode.SafePath.{
  Component, prefix, root_dir, cur_dir, parent_dir, normal, slash, starts_with_byte, split, piece,
  components,
}
use data_diode.FileSystem.{beq_component}

-- A piece between slashes with the components that it stands for, one or none.
abbrev pub Part : Type 0
Part = Bytes × List Component

abbrev pub body_parts : List Bytes → List Part
body_parts [] = []
body_parts (p ∷ ps) = (p, piece p) ∷ body_parts ps

-- In front, the piece before a slash is the root, and `.` is a component.
abbrev pub front_part : Bool → Bytes → Part
front_part true p = (p, root_dir ∷ [])
front_part false p = (p, if beq_bytes p (b'.' ∷ []) then cur_dir ∷ [] else piece p)

abbrev pub front_parts : Bool → List Bytes → List Part
front_parts absolute [] = []
front_parts absolute (p ∷ ps) = front_part absolute p ∷ body_parts ps

unfoldable pub parts : Bytes → List Part
parts path = front_parts (starts_with_byte slash path) (split path)

-- Takes components off; pieces that stand for none are skipped.
unfoldable pub strip : List Component → List Part → Option (List Part)
strip [] ps = some ps
strip (c ∷ cs) [] = none
strip (c ∷ cs) ((p, []) ∷ ps) = strip (c ∷ cs) ps
strip (c ∷ cs) ((p, d ∷ ds) ∷ ps) =
    let rest = strip cs ps in if beq_component c d then rest else none

-- `as_path`: pieces without a component are left out at both ends.
unfoldable pub trim_left : List Part → List Part
trim_left [] = []
trim_left ((p, []) ∷ ps) = trim_left ps
trim_left ((p, d ∷ ds) ∷ ps) = (p, d ∷ ds) ∷ ps

abbrev onto_trimmed : Part → List Part → List Part
onto_trimmed (p, []) [] = []
onto_trimmed (p, d ∷ ds) [] = (p, d ∷ ds) ∷ []
onto_trimmed part (q ∷ qs) = part ∷ q ∷ qs

unfoldable pub trim_right : List Part → List Part
trim_right [] = []
trim_right (part ∷ ps) = onto_trimmed part (trim_right ps)

unfoldable pub rejoin : List Part → Bytes
rejoin [] = []
rejoin ((p, ds) ∷ []) = p
rejoin ((p, ds) ∷ q ∷ ps) = p ++ slash ∷ rejoin (q ∷ ps)

abbrev as_path : Option (List Part) → Option Bytes
as_path none = none
as_path (some ps) = some (rejoin (trim_right (trim_left ps)))

unfoldable pub strip_prefix : Bytes → Bytes → Option Bytes
strip_prefix base path = as_path (strip (components base) (parts path))
