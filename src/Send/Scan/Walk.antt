-- ===== src/Send/Scan/Walk.antt =====
-- What `walk_files` finds.
use data_diode.Prelude.{
  Bool, true, false, List, [], ◌∷◌, ◌++◌, ◌≢◌, Option, none, some, ◌≡◌, refl, Bytes, All,
  All-append,
}
use mathlib.Core.List.{Memᴰ}
use data_diode.SafePath.{join}
use data_diode.SafePath.Prefix.Strip.{path_of}
use data_diode.Send.Scan.{
  FileAnswers, Node, directory, unreadable_directory, regular_file, other, Entries, end_of_dir,
  bad_entry, entry, Found, skip_link, visit, walk_entries, walk_files,
}

mutual
  -- The names lead to a regular file through directories that can be read, and no entry on the way
  -- is known to be a symbolic link.
  pub data InNode : List Bytes → FileAnswers → Node → Type 0 where
    itself : {answers : FileAnswers} → InNode [] answers (regular_file answers)
    inside :
        {names : List Bytes} {answers : FileAnswers} {entries : Entries}
        → InEntries names answers entries
        → InNode names answers (directory entries)

  pub data InEntries : List Bytes → FileAnswers → Entries → Type 0 where
    entered :
        {name : Bytes} {link : Option Bool} {names : List Bytes} {answers : FileAnswers}
        {node : Node} {entries : Entries}
        → link ≢ some true
        → InNode names answers node
        → InEntries (name ∷ names) answers (entry name link node entries)
    later :
        {name : Bytes} {link : Option Bool} {names : List Bytes} {answers : FileAnswers}
        {node : Node} {entries : Entries}
        → InEntries names answers entries
        → InEntries names answers (entry name link node entries)
    behind_error :
        {names : List Bytes} {answers : FileAnswers} {entries : Entries}
        → InEntries names answers entries
        → InEntries names answers (bad_entry entries)

-- A found file is one that names lead to from there.
abbrev AtNode : Bytes → Node → Found → Type 0
AtNode path node found =
    (names : List Bytes) × InNode names found.answers node × (found.path ≡ path_of path names)

abbrev AtEntries : Bytes → Entries → Found → Type 0
AtEntries dir entries found =
    (names : List Bytes) × InEntries names found.answers entries × (found.path ≡ path_of dir names)

pub All-map {ℓ κ μ} :
    {A : Type ℓ} {P : A → Type κ} {Q : A → Type μ} (xs : List A)
    → ((x : A) → P x → Q x)
    → All P xs
    → All Q xs
All-map [] f h = tt
All-map (x ∷ xs) f (a, h) = (f x a, All-map xs f h)

skip_link-AtEntries :
    (dir name : Bytes) (link : Option Bool) (node : Node) (entries : Entries) (found : List Found)
    → All (AtNode (join dir name) node) found
    → All (AtEntries dir (entry name link node entries)) (skip_link link found)
skip_link-AtEntries dir name (some true) node entries found h = tt
skip_link-AtEntries dir name (some false) node entries found h =
    All-map found (λ f (names, at, same). (name ∷ names, entered (λ e. cc) at, same)) h
skip_link-AtEntries dir name none node entries found h =
    All-map found (λ f (names, at, same). (name ∷ names, entered (λ e. cc) at, same)) h

mutual
  unfolding visit walk_entries

  visit-AtNode : (path : Bytes) (node : Node) → All (AtNode path node) (visit path node)
  visit-AtNode path (directory entries) =
      All-map (walk_entries path entries) (λ f (names, at, same). (names, inside at, same))
        (walk_entries-AtEntries path entries)
  visit-AtNode path unreadable_directory = tt
  visit-AtNode path (regular_file answers) = (([], itself, refl), tt)
  visit-AtNode path other = tt

  walk_entries-AtEntries :
      (dir : Bytes) (entries : Entries) → All (AtEntries dir entries) (walk_entries dir entries)
  walk_entries-AtEntries dir end_of_dir = tt
  walk_entries-AtEntries dir (bad_entry entries) =
      All-map (walk_entries dir entries) (λ f (names, at, same). (names, behind_error at, same))
        (walk_entries-AtEntries dir entries)
  walk_entries-AtEntries dir (entry name link node entries) =
      All-append (AtEntries dir (entry name link node entries))
        (skip_link link (visit (join dir name) node)) (walk_entries dir entries)
        (skip_link-AtEntries dir name link node entries (visit (join dir name) node)
          (visit-AtNode (join dir name) node))
        (All-map (walk_entries dir entries) (λ f (names, at, same). (names, later at, same))
          (walk_entries-AtEntries dir entries))

pub Memᴰ_front {ℓ} : {A : Type ℓ} {x : A} (xs ys : List A) → Memᴰ x xs → Memᴰ x (xs ++ ys)
Memᴰ_front [] ys m = elim m [ ]
Memᴰ_front (x ∷ xs) ys (Memᴰ.head e) = Memᴰ.head e
Memᴰ_front (x ∷ xs) ys (Memᴰ.tail m) = Memᴰ.tail (Memᴰ_front xs ys m)

pub Memᴰ_behind {ℓ} : {A : Type ℓ} {x : A} (xs ys : List A) → Memᴰ x ys → Memᴰ x (xs ++ ys)
Memᴰ_behind [] ys m = m
Memᴰ_behind (x ∷ xs) ys m = Memᴰ.tail (Memᴰ_behind xs ys m)

Memᴰ-skip_link :
    {f : Found} (link : Option Bool) (found : List Found)
    → link ≢ some true
    → Memᴰ f found
    → Memᴰ f (skip_link link found)
Memᴰ-skip_link (some true) found ne m = absurd (ne refl)
Memᴰ-skip_link (some false) found ne m = m
Memᴰ-skip_link none found ne m = m

mutual
  unfolding visit walk_entries

  InNode-visit :
      {names : List Bytes} {answers : FileAnswers} {node : Node} (path : Bytes)
      → InNode names answers node
      → Memᴰ (record { path = path_of path names; answers = answers }) (visit path node)
  InNode-visit path itself = Memᴰ.head refl
  InNode-visit path (inside at) = InEntries-walk_entries path at

  InEntries-walk_entries :
      {names : List Bytes} {answers : FileAnswers} {entries : Entries} (dir : Bytes)
      → InEntries names answers entries
      → Memᴰ (record { path = path_of dir names; answers = answers }) (walk_entries dir entries)
  InEntries-walk_entries dir
        (entered {name = name} {link = link} {node = node} {entries = entries} ne at) =
      Memᴰ_front (skip_link link (visit (join dir name) node)) (walk_entries dir entries)
        (Memᴰ-skip_link link (visit (join dir name) node) ne (InNode-visit (join dir name) at))
  InEntries-walk_entries dir
        (later {name = name} {link = link} {node = node} {entries = entries} at) =
      Memᴰ_behind (skip_link link (visit (join dir name) node)) (walk_entries dir entries)
        (InEntries-walk_entries dir at)
  InEntries-walk_entries dir (behind_error at) = InEntries-walk_entries dir at

-- A file below the source directory.
abbrev pub IsBelow : Bytes → Node → Found → Type 0
IsBelow dir tree found =
    (name : Bytes) × (names : List Bytes) × InNode (name ∷ names) found.answers tree
    × (found.path ≡ path_of dir (name ∷ names))

entries_of :
    {names : List Bytes} {answers : FileAnswers} {entries : Entries}
    → InNode names answers (directory entries)
    → InEntries names answers entries
entries_of (inside at) = at

no_names : {answers : FileAnswers} {entries : Entries} → ¬ InEntries [] answers entries
no_names (later at) = no_names at
no_names (behind_error at) = no_names at

AtEntries-IsBelow :
    (dir : Bytes) (entries : Entries) (f : Found)
    → AtEntries dir entries f
    → IsBelow dir (directory entries) f
AtEntries-IsBelow dir entries f ([], at, same) = absurd (no_names at)
AtEntries-IsBelow dir entries f (name ∷ names, at, same) = (name, names, inside at, same)

-- `walk_files` finds exactly the regular files that names lead to from the source directory through
-- readable directories without a known symbolic link: each path it gives is the directory with
-- such names joined to it, and each such file is among them.
pub walk_files-IsBelow :
    (dir : Bytes) (tree : Node)
    → All (IsBelow dir tree) (walk_files dir tree)
      × ((name : Bytes) (names : List Bytes) (answers : FileAnswers)
          → InNode (name ∷ names) answers tree
          → Memᴰ
              (record { path = path_of dir (name ∷ names); answers = answers })
              (walk_files dir tree))
unfolding walk_files
walk_files-IsBelow dir (directory entries) = (
  All-map (walk_entries dir entries) (AtEntries-IsBelow dir entries)
      (walk_entries-AtEntries dir entries),
  λ name names answers at. InEntries-walk_entries dir (entries_of at),
)
walk_files-IsBelow dir unreadable_directory = (tt, λ name names answers at. elim at [ ])
walk_files-IsBelow dir (regular_file answers) = (tt, λ name names answers' at. elim at [ ])
walk_files-IsBelow dir other = (tt, λ name names answers at. elim at [ ])
