-- ===== src/FileSystem.antt =====
-- What the programs use of `std::fs`: regular files by path, open handles with a position, and
-- operations that the system may refuse. The state says beforehand which attempts will be refused,
-- so a statement about all states is a statement about every pattern of failures.
pub mod Frame
use data_diode.Prelude.{
  ℕ, ◌+◌, ◌-◌, Bool, true, false, ◌&&◌, List, [], ◌∷◌, ◌++◌, Option, none, some, Bytes, length,
  take, drop, replicate, if◌then◌else◌, beq_bytes,
}
use data_diode.SafePath.{Component, prefix, root_dir, cur_dir, parent_dir, normal}
use data_diode.SafePath.Inside.{resolve}

-- A file is named by the components of its path: `a//b` and `a/./b` are one file.
abbrev pub FileName : Type 0
FileName = List Component

-- `refused n`: the call returns an error; a write may have written `n` bytes before.
pub data Attempt : Type 0 where
  granted : Attempt
  refused : ℕ → Attempt

pub record FileSystem : Type 0 where
  pub files : List (FileName × Bytes)
  pub attempts : List Attempt

-- `File`: an open file and the position of the next write.
pub record File : Type 0 where
  pub name : FileName
  pub position : ℕ

unfoldable pub beq_component : Component → Component → Bool
beq_component (prefix a) (prefix b) = beq_bytes a b
beq_component root_dir root_dir = true
beq_component cur_dir cur_dir = true
beq_component parent_dir parent_dir = true
beq_component (normal a) (normal b) = beq_bytes a b
beq_component _ _ = false

unfoldable pub beq_name : FileName → FileName → Bool
unfolding beq_component
beq_name [] [] = true
beq_name (a ∷ s) (b ∷ t) = beq_component a b && beq_name s t
beq_name _ _ = false

unfoldable pub lookup : FileName → List (FileName × Bytes) → Option Bytes
lookup k [] = none
lookup k ((j, v) ∷ m) = if beq_name j k then some v else lookup k m

unfoldable pub put : FileName → Bytes → List (FileName × Bytes) → List (FileName × Bytes)
put k v [] = (k, v) ∷ []
put k v ((j, w) ∷ m) = if beq_name j k then (k, v) ∷ m else (j, w) ∷ put k v m

unfoldable pub erase : FileName → List (FileName × Bytes) → List (FileName × Bytes)
erase k [] = []
erase k ((j, w) ∷ m) = let rest = erase k m in if beq_name j k then rest else (j, w) ∷ rest

-- The answer to the next attempt; when none is foretold it is granted.
unfoldable pub attempt : FileSystem → Attempt × FileSystem
attempt s = elim s.attempts [ [] ↦ (granted, s) | a ∷ rest ↦ (a, record s { attempts = rest }) ]

-- Operations return whether they succeeded, or the open file, and the new state.
unfoldable pub remove_file : Bytes → FileSystem → Bool × FileSystem
unfolding attempt
remove_file path s =
    let (a, t) = attempt s in
    elim a [
      | refused _ ↦ (false, t)
      | granted ↦ elim (lookup (resolve path) t.files) [
        | none ↦ (false, t)
        | some _ ↦ (true, record t { files = erase (resolve path) t.files })
      ]
    ]

-- Directories are not kept in the state: making them changes no file.
unfoldable pub create_dir_all : FileSystem → Bool × FileSystem
unfolding attempt
create_dir_all s = let (a, t) = attempt s in elim a [ refused _ ↦ (false, t) | granted ↦ (true, t) ]

-- `OpenOptions::new().create(true).write(true).truncate(true).open(path)`.
unfoldable pub open_truncate : Bytes → FileSystem → Option File × FileSystem
unfolding attempt
open_truncate path s =
    let (a, t) = attempt s in
    elim a [
      | refused _ ↦ (none, t)
      | granted ↦ (
        some (record { name = resolve path; position = 0 }),
        record t { files = put (resolve path) [] t.files },
      )
    ]

-- `OpenOptions::new().create(true).write(true).open(path)`: an old file keeps its contents.
unfoldable pub open_create : Bytes → FileSystem → Option File × FileSystem
unfolding attempt
open_create path s =
    let (a, t) = attempt s in
    elim a [
      | refused _ ↦ (none, t)
      | granted ↦ (
        some (record { name = resolve path; position = 0 }),
        elim (lookup (resolve path) t.files) [
          | none ↦ record t { files = put (resolve path) [] t.files }
          | some _ ↦ t
        ],
      )
    ]

abbrev pub contents : FileName → List (FileName × Bytes) → Bytes
contents k m = elim (lookup k m) [ none ↦ [] | some v ↦ v ]

-- Cut to `n` bytes, or filled up with zeros.
abbrev pub resize : ℕ → Bytes → Bytes
resize n v = take n v ++ replicate (n - length v) 0

unfoldable pub set_len : File → ℕ → FileSystem → Bool × FileSystem
unfolding attempt
set_len f n s =
    let (a, t) = attempt s in
    elim a [
      | refused _ ↦ (false, t)
      | granted ↦
          (true, record t { files = put f.name (resize n (contents f.name t.files)) t.files })
    ]

unfoldable pub seek : File → ℕ → FileSystem → Option File × FileSystem
unfolding attempt
seek f offset s =
    let (a, t) = attempt s in
    elim a [ refused _ ↦ (none, t) | granted ↦ (some (record f { position = offset }), t) ]

-- The contents after `bytes` were written at `position`; a gap before it reads as zeros.
unfoldable pub overwrite : ℕ → Bytes → Bytes → Bytes
overwrite position bytes v = resize position v ++ (bytes ++ drop (position + length bytes) v)

unfoldable pub write_bytes : File → Bytes → FileSystem → FileSystem
unfolding overwrite
write_bytes f bytes s = record s {
  files = put f.name (overwrite f.position bytes (contents f.name s.files)) s.files;
}

unfoldable pub write_as : Attempt → File → Bytes → FileSystem → Bool × File × FileSystem
unfolding write_bytes
write_as (refused n) f bytes s =
    let part = take n bytes in
    (false, record f { position = f.position + length part }, write_bytes f part s)
write_as granted f bytes s =
    (true, record f { position = f.position + length bytes }, write_bytes f bytes s)

-- `write_all`: whether all was written, the file with its new position, and the state.
unfoldable pub write_all : File → Bytes → FileSystem → Bool × File × FileSystem
unfolding attempt write_as
write_all f bytes s = write_as (attempt s).0 f bytes (attempt s).1

unfoldable pub rename : Bytes → Bytes → FileSystem → Bool × FileSystem
unfolding attempt
rename from to s =
    let (a, t) = attempt s in
    elim a [
      | refused _ ↦ (false, t)
      | granted ↦ elim (lookup (resolve from) t.files) [
        | none ↦ (false, t)
        | some v ↦ (true, record t { files = put (resolve to) v (erase (resolve from) t.files) })
      ]
    ]

unfoldable pub exists : Bytes → FileSystem → Bool
exists path s = elim (lookup (resolve path) s.files) [ none ↦ false | some _ ↦ true ]
