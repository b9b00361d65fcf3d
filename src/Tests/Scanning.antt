-- ===== src/Tests/Scanning.antt =====
-- A scan of a small source directory.
use data_diode.Prelude.{true, false, List, [], ◌∷◌, some, ◌≡◌, refl, arith, Bytes, All}
use mathlib.Core.List.{Memᴰ}
use data_diode.Utf8.{from_utf8, from_utf8_ascii}
use data_diode.SafePath.{is_safe_rel_path, join, needs_separator}
use data_diode.SafePath.Pieces.{is_safe_rel_path-has_safe_pieces}
use data_diode.SafePath.Prefix.Names.{IsEntryName}
use data_diode.SafePath.Prefix.Strip.{path_of}
use data_diode.Send.Link.{Link}
use data_diode.Send.Scan.{
  FileAnswers, Node, directory, regular_file, end_of_dir, bad_entry, entry, visit, walk_entries,
  walk_files, is_file_stable, send_files,
}
use data_diode.Send.Scan.Walk.{
  InNode, itself, inside, entered, later, behind_error, IsBelow, walk_files-IsBelow,
}
use data_diode.Send.Scan.Accepted.{HasEntryNames, IsSentFrom, send_files-IsSentFrom}
use data_diode.Send.Scan.Attempted.{IsAttempted, send_files-IsAttempted}
use data_diode.Tests.Samples.{codes, length_hash}
use data_diode.Tests.Sending.{copier, cfg}

abbrev hello : FileAnswers
hello = record {
  len_before = some 5;
  len_after = some 5;
  source = record {
    filesize = some 5;
    opened = some (record { rest = codes "hello"; steps = [] });
    removable = true;
  };
}

abbrev subdirectory : Node
subdirectory = directory (entry (codes "b") (some false) (regular_file hello) end_of_dir)

-- A link to a file, an error, and a directory with a file.
abbrev source_tree : Node
source_tree = directory (
    entry (codes "link") (some true) (regular_file hello)
      (bad_entry (entry (codes "sub") (some false) subdirectory end_of_dir)))

abbrev idle_link : Link
idle_link = record { packets = []; answers = []; backoffs = []; deadline = 0 }

one_found :
    walk_files (codes "out") source_tree ≡ record { path = codes "out/sub/b"; answers = hello } ∷ []
unfolding walk_files walk_entries visit join needs_separator
one_found = refl

sub_name : IsEntryName (codes "sub")
sub_name = record {
  some_byte = λ e. cc;
  no_slash = ground arith;
  not_dot = λ e. cc;
  not_dot_dot = λ e. cc;
}

b_name : IsEntryName (codes "b")
b_name = record {
  some_byte = λ e. cc;
  no_slash = ground arith;
  not_dot = λ e. cc;
  not_dot_dot = λ e. cc;
}

b_at : InNode (codes "sub" ∷ codes "b" ∷ []) hello source_tree
b_at = inside (later (behind_error (entered (λ e. cc) (inside (entered (λ e. cc) itself)))))

walk_files-IsBelow_example :
    All (IsBelow (codes "out") source_tree) (walk_files (codes "out") source_tree)
    × ((name : Bytes) (names : List Bytes) (answers : FileAnswers)
        → InNode (name ∷ names) answers source_tree
        → Memᴰ
            (record { path = path_of (codes "out") (name ∷ names); answers = answers })
            (walk_files (codes "out") source_tree))
walk_files-IsBelow_example = walk_files-IsBelow (codes "out") source_tree

file_names :
    (names : List Bytes) (a : FileAnswers)
    → InNode names a (regular_file hello)
    → All IsEntryName names
file_names names a itself = tt

sub_names :
    (names : List Bytes) (a : FileAnswers) → InNode names a subdirectory → All IsEntryName names
sub_names names a (inside (entered ne at)) = (b_name, file_names _ a at)
sub_names names a (inside (later at)) = elim at [ ]

tree_names : HasEntryNames source_tree
tree_names names a (inside (entered ne at)) = absurd (ne refl)
tree_names names a (inside (later (behind_error (entered ne at)))) = (sub_name, sub_names _ a at)
tree_names names a (inside (later (behind_error (later at)))) = elim at [ ]

send_files-IsSentFrom_example :
    All
      (λ o. IsSentFrom source_tree o.rel_path)
      (send_files length_hash copier cfg (codes "out") source_tree idle_link).0
send_files-IsSentFrom_example =
    send_files-IsSentFrom length_hash copier cfg (codes "out") source_tree idle_link tree_names

b_path : from_utf8 (codes "sub/b") ≡ some (codes "sub/b")
b_path = from_utf8_ascii (codes "sub/b") (ground arith)

send_files-IsAttempted_example :
    IsAttempted length_hash copier cfg
      (codes "sub/b")
      hello
      (send_files length_hash copier cfg (codes "out") source_tree idle_link).0
send_files-IsAttempted_example =
    send_files-IsAttempted length_hash copier cfg (codes "out") (codes "sub") (codes "b" ∷ []) hello
      source_tree idle_link (sub_name, (b_name, tt)) b_at (unfold is_file_stable in refl) b_path

-- A name that a directory can hold and that the receiver refuses.
backslash_refused : is_safe_rel_path (codes "\\b") ≡ false
backslash_refused = is_safe_rel_path-has_safe_pieces (codes "\\b")
