-- ===== src/Send/Scan/Accepted.antt =====
-- The paths that `send_files` puts on the wire, and what the receiver's `is_safe_rel_path` says of
-- them.
use data_diode.Prelude.{
  Bool, true, false, not, ◌&&◌, List, [], ◌∷◌, ◌++◌, ◌≢◌, inl, inr, some, ◌≡◌, refl, sym, ap, ◌∙◌,
  subst, arith, Bytes, All, All-append, ◌>>=◌, ◌==◌, Bool-cases, Option-cases,
}
use data_diode.Utf8.{from_utf8, from_utf8-eq-some}
use data_diode.SafePath.{slash, starts_with_byte, split, is_safe_rel_path}
use data_diode.SafePath.Split.{split-slash, split-no_slash}
use data_diode.SafePath.Pieces.{no_parent, has_safe_pieces, is_safe_rel_path-has_safe_pieces}
use data_diode.SafePath.Prefix.{strip_prefix}
use data_diode.SafePath.Prefix.Names.{IsEntryName, differs}
use data_diode.SafePath.Prefix.Strip.{join_names, strip_prefix-path_of}
use data_diode.Send.Link.{Link, SendCfg}
use data_diode.Send.Parity.{ReedSolomonEncoder}
use data_diode.Send.Scan.{
  FileAnswers, Node, Found, walk_files, is_file_stable, rel_path_str, send_named, send_file,
  send_found, send_files,
}
use data_diode.Send.Scan.Walk.{InNode, IsBelow, walk_files-IsBelow}

split-join_names :
    (name : Bytes) (names : List Bytes)
    → All IsEntryName (name ∷ names)
    → split (join_names (name ∷ names)) ≡ name ∷ names
split-join_names name [] (h, hs) = split-no_slash name h.no_slash
split-join_names name (n ∷ names) (h, hs) =
    split-slash name (join_names (n ∷ names))
    ∙ ap (λ ps. ps ++ split (join_names (n ∷ names))) (split-no_slash name h.no_slash)
    ∙ ap (◌∷◌ name) (split-join_names n names hs)

no_parent-names : (names : List Bytes) → All IsEntryName names → no_parent names ≡ true
no_parent-names [] h = refl
no_parent-names (n ∷ names) (h, hs) = rw (differs n _ h.not_dot_dot) (no_parent-names names hs)

-- A path with these pieces is refused for a backslash in front only.
safe_pieces-backslash :
    (path name : Bytes) (names : List Bytes)
    → All IsEntryName (name ∷ names)
    → path ≢ []
    → starts_with_byte slash path ≡ false
    → split path ≡ name ∷ names
    → has_safe_pieces path ≡ not (starts_with_byte b'\\' path)
safe_pieces-backslash [] name names h ne rel e = absurd (ne refl)
safe_pieces-backslash (c ∷ s) name names (h, hs) ne rel e =
    rw (rel, e, differs name _ h.not_dot, differs name _ h.not_dot_dot, no_parent-names names hs)
      (both (c == b'\\'))
  where
    both : (b : Bool) → (not b && true) ≡ not b
    both true = refl
    both false = refl

join_names-accepted :
    (name : Bytes) (names : List Bytes)
    → All IsEntryName (name ∷ names)
    → is_safe_rel_path (join_names (name ∷ names))
      ≡ not (starts_with_byte b'\\' (join_names (name ∷ names)))
join_names-accepted name names h =
    is_safe_rel_path-has_safe_pieces (join_names (name ∷ names))
    ∙ safe_pieces-backslash (join_names (name ∷ names)) name names h (not_empty name names h.0)
        (relative name names h.0) (split-join_names name names h)
  where
    not_empty :
        (name : Bytes) (names : List Bytes) → IsEntryName name → join_names (name ∷ names) ≢ []
    not_empty [] names h e = h.some_byte refl
    not_empty (c ∷ s) [] h e = cc
    not_empty (c ∷ s) (n ∷ names) h e = cc

    relative :
        (name : Bytes) (names : List Bytes)
        → IsEntryName name
        → starts_with_byte slash (join_names (name ∷ names)) ≡ false
    relative [] names h = absurd (h.some_byte refl)
    relative (c ∷ s) [] h = let (first, later) = h.no_slash in ground arith
    relative (c ∷ s) (n ∷ names) h = let (first, later) = h.no_slash in ground arith

-- What a directory scan promises of the names below it.
abbrev pub HasEntryNames : Node → Type 0
HasEntryNames tree =
    (names : List Bytes) (answers : FileAnswers) → InNode names answers tree → All IsEntryName names

-- A file of the tree was sent with this path.
pub record IsSentFrom (tree : Node) (rel_path : Bytes) : Type 0 where
  pub name : Bytes
  pub names : List Bytes
  pub answers : FileAnswers
  pub found : InNode (name ∷ names) answers tree
  pub stable : is_file_stable answers ≡ true
  pub joined : rel_path ≡ join_names (name ∷ names)
  pub accepted : is_safe_rel_path rel_path ≡ not (starts_with_byte b'\\' rel_path)

rel_path_str-IsBelow :
    (dir : Bytes) (tree : Node) (found : Found) (rel_path : Bytes)
    → HasEntryNames tree
    → IsBelow dir tree found
    → is_file_stable found.answers ≡ true
    → rel_path_str dir found ≡ some rel_path
    → IsSentFrom tree rel_path
unfolding rel_path_str
rel_path_str-IsBelow dir tree found rel_path valid (name, names, at, same) stable e =
    let h = valid (name ∷ names) found.answers at in
    let stripped : strip_prefix dir found.path ≡ some (join_names (name ∷ names)) =
      ap (strip_prefix dir) same ∙ strip_prefix-path_of dir name names h in
    let decoded : from_utf8 (join_names (name ∷ names)) ≡ some rel_path =
      sym (ap (λ o. o >>= from_utf8) stripped) ∙ e in
    let (joined, lossy) = from_utf8-eq-some (join_names (name ∷ names)) rel_path decoded in
    record {
      name = name;
      names = names;
      answers = found.answers;
      found = at;
      stable = stable;
      joined = joined;
      accepted =
          subst (λ p. is_safe_rel_path p ≡ not (starts_with_byte b'\\' p)) (sym joined)
            (join_names-accepted name names h);
    }

module _ (md5 : Bytes → Bytes) (enc : ReedSolomonEncoder) (cfg : SendCfg) where
  send_file-IsSentFrom :
      (dir : Bytes) (tree : Node) (found : Found) (link : Link)
      → HasEntryNames tree
      → IsBelow dir tree found
      → All
          (λ o. IsSentFrom tree o.rel_path)
          (send_file md5 enc cfg (rel_path_str dir found) found.answers link).0
  unfolding send_file send_named
  send_file-IsSentFrom dir tree found link valid below =
      elim (Option-cases (rel_path_str dir found)) [
        | inr e ↦ rw e tt
        | inl (rel_path, e) ↦ rw e (elim (Bool-cases (is_file_stable found.answers)) [
          | inr t ↦ rw t tt
          | inl t ↦ rw t (rel_path_str-IsBelow dir tree found rel_path valid below t e, tt)
        ])
      ]

  send_found-IsSentFrom :
      (dir : Bytes) (tree : Node) (files : List Found) (link : Link)
      → HasEntryNames tree
      → All (IsBelow dir tree) files
      → All (λ o. IsSentFrom tree o.rel_path) (send_found md5 enc cfg dir files link).0
  unfolding send_found
  send_found-IsSentFrom dir tree [] link valid below = tt
  send_found-IsSentFrom dir tree (found ∷ files) link valid (b, below) =
      let sent = send_file md5 enc cfg (rel_path_str dir found) found.answers link in
      All-append (λ o. IsSentFrom tree o.rel_path) sent.0
        (send_found md5 enc cfg dir files sent.1).0
        (send_file-IsSentFrom dir tree found link valid b)
        (send_found-IsSentFrom dir tree files sent.1 valid below)

  -- Every path that `send_files` sends is that of a stable regular file of the scanned tree, which
  -- is reached without a known symbolic link: its names from the source directory on, joined by
  -- slashes, whatever form the path of the source directory has. The receiver accepts the path
  -- exactly when it does not begin with a backslash. The names are those that a directory can
  -- hold: not empty, without a slash, neither `.` nor `..`.
  pub send_files-IsSentFrom :
      (source_dir : Bytes) (tree : Node) (link : Link)
      → HasEntryNames tree
      → All (λ o. IsSentFrom tree o.rel_path) (send_files md5 enc cfg source_dir tree link).0
  unfolding send_files
  send_files-IsSentFrom source_dir tree link valid =
      send_found-IsSentFrom source_dir tree (walk_files source_dir tree) link valid
        (walk_files-IsBelow source_dir tree).0
