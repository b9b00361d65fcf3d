-- ===== src/SafePath.antt =====
-- `is_safe_rel_path` of diode_common/src/proto.rs, and what it uses of the standard library:
-- `Path::components` and `Path::join` as they work on Unix, where a path is a byte string.
pub mod Split
pub mod Inside
pub mod Pieces
pub mod Prefix
pub mod Sibling
use data_diode.Prelude.{
  ℕ, Bool, true, false, not, List, [], ◌∷◌, ◌++◌, Bytes, if◌then◌else◌, ◌==◌, beq_bytes,
}

-- `Component` of the standard library. No path has a prefix on Unix.
pub data Component : Type 0 where
  prefix : Bytes → Component
  root_dir : Component
  cur_dir : Component
  parent_dir : Component
  normal : Bytes → Component

abbrev pub slash : ℕ
slash = b'/'

abbrev pub starts_with_byte : ℕ → Bytes → Bool
starts_with_byte b [] = false
starts_with_byte b (c ∷ s) = c == b

-- Puts a byte in front of the first piece.
abbrev pub onto_first : ℕ → List Bytes → List Bytes
onto_first c [] = (c ∷ []) ∷ []
onto_first c (p ∷ ps) = (c ∷ p) ∷ ps

-- The pieces between the slashes.
unfoldable pub split : Bytes → List Bytes
split [] = [] ∷ []
split (c ∷ s) = if c == slash then [] ∷ split s else onto_first c (split s)

-- A piece behind the first: empty ones and `.` are skipped.
unfoldable pub piece : Bytes → List Component
piece p =
    if beq_bytes p []
    then []
    else if beq_bytes p (b'.' ∷ [])
    then []
    else if beq_bytes p (b'.' ∷ b'.' ∷ [])
    then parent_dir ∷ []
    else normal p ∷ []

unfoldable pub body : List Bytes → List Component
body [] = []
body (p ∷ ps) = piece p ++ body ps

-- Without a root, a `.` in front is a component of its own.
unfoldable pub front : List Bytes → List Component
front [] = []
front (p ∷ ps) = if beq_bytes p (b'.' ∷ []) then cur_dir ∷ body ps else body (p ∷ ps)

-- `Path::new(path).components()`.
unfoldable pub components : Bytes → List Component
components path =
    if starts_with_byte slash path then root_dir ∷ body (split path) else front (split path)

-- The loop of `is_safe_rel_path`: every component is `Normal`.
unfoldable pub all_normal : List Component → Bool
all_normal [] = true
all_normal (parent_dir ∷ cs) = false
all_normal (cur_dir ∷ cs) = false
all_normal (root_dir ∷ cs) = false
all_normal (normal name ∷ cs) = all_normal cs
all_normal (prefix name ∷ cs) = false

unfoldable pub is_safe_rel_path : Bytes → Bool
is_safe_rel_path [] = false
is_safe_rel_path (c ∷ s) =
    if c == slash then false else if c == b'\\' then false else all_normal (components (c ∷ s))

-- A separator is put behind a directory that is not empty and does not end with one.
unfoldable pub needs_separator : Bytes → Bool
needs_separator [] = false
needs_separator (c ∷ []) = not (c == slash)
needs_separator (c ∷ d ∷ s) = needs_separator (d ∷ s)

-- `dir.join(path)`: an absolute path replaces the directory.
unfoldable pub join : Bytes → Bytes → Bytes
join dir path =
    if starts_with_byte slash path
    then path
    else if needs_separator dir
    then dir ++ slash ∷ path
    else dir ++ path
