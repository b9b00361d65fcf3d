-- ===== src/Send/Scan/Attempted.antt =====
-- Which files `send_files` sends.
use data_diode.Prelude.{
  true, List, [], ◌∷◌, some, ◌≡◌, refl, sym, ap, ◌∙◌, subst, Bytes, All, ◌>>=◌,
}
use mathlib.Core.List.{Memᴰ}
use data_diode.Utf8.{from_utf8}
use data_diode.SafePath.Prefix.Names.{IsEntryName}
use data_diode.SafePath.Prefix.Strip.{path_of, join_names, strip_prefix-path_of}
use data_diode.Send.Link.{Link, SendCfg}
use data_diode.Send.Parity.{ReedSolomonEncoder}
use data_diode.Send.File.{send_file_chunks}
use data_diode.Send.Scan.{
  FileAnswers, Node, Found, walk_files, is_file_stable, rel_path_str, Outcome, send_named,
  send_file, send_found, send_files,
}
use data_diode.Send.Scan.Walk.{InNode, walk_files-IsBelow, Memᴰ_front, Memᴰ_behind}

module _ (md5 : Bytes → Bytes) (enc : ReedSolomonEncoder) (cfg : SendCfg) where
  abbrev outcome_of : Bytes → FileAnswers → Link → Outcome
  outcome_of rel_path answers link =
      let sent = send_file_chunks md5 enc cfg rel_path answers.source link in
      record { rel_path = rel_path; succeeded = sent.succeeded; removed = sent.removed }

  -- What `send_file_chunks` did with this file and this path on some link is among the outcomes.
  abbrev pub IsAttempted : Bytes → FileAnswers → List Outcome → Type 0
  IsAttempted rel_path answers outcomes =
      (link : Link) × Memᴰ (outcome_of rel_path answers link) outcomes

  send_found-IsAttempted :
      (dir rel_path : Bytes) (files : List Found) (found : Found) (link : Link)
      → Memᴰ found files
      → rel_path_str dir found ≡ some rel_path
      → is_file_stable found.answers ≡ true
      → IsAttempted rel_path found.answers (send_found md5 enc cfg dir files link).0
  unfolding send_found send_file send_named
  send_found-IsAttempted dir rel_path [] found link m e stable = elim m [ ]
  send_found-IsAttempted dir rel_path (f ∷ files) found link (Memᴰ.head same) e stable =
      let sent = send_file md5 enc cfg (rel_path_str dir f) f.answers link in
      let now : sent.0 ≡ outcome_of rel_path found.answers link ∷ [] =
        rw (sym same, e, stable) refl in
      (
        link,
        Memᴰ_front sent.0 (send_found md5 enc cfg dir files sent.1).0
            (subst (Memᴰ (outcome_of rel_path found.answers link)) (sym now) (Memᴰ.head refl)),
      )
  send_found-IsAttempted dir rel_path (f ∷ files) found link (Memᴰ.tail m) e stable =
      let sent = send_file md5 enc cfg (rel_path_str dir f) f.answers link in
      let (link', at) = send_found-IsAttempted dir rel_path files found sent.1 m e stable in
      (link', Memᴰ_behind sent.0 (send_found md5 enc cfg dir files sent.1).0 at)

  -- Every stable regular file that names lead to from the source directory, through readable
  -- directories and no known symbolic link, is given to `send_file_chunks` in the same scan, with
  -- its names joined by slashes as its path, if this path is well-formed UTF-8; errors of the files
  -- before it do not keep it back. The names are those that a directory can hold.
  pub send_files-IsAttempted :
      (source_dir name : Bytes) (names : List Bytes) (answers : FileAnswers) (tree : Node)
      (link : Link)
      → All IsEntryName (name ∷ names)
      → InNode (name ∷ names) answers tree
      → is_file_stable answers ≡ true
      → from_utf8 (join_names (name ∷ names)) ≡ some (join_names (name ∷ names))
      → IsAttempted
          (join_names (name ∷ names))
          answers
          (send_files md5 enc cfg source_dir tree link).0
  unfolding send_files rel_path_str
  send_files-IsAttempted source_dir name names answers tree link valid at stable utf8 =
      send_found-IsAttempted source_dir (join_names (name ∷ names)) (walk_files source_dir tree)
        (record { path = path_of source_dir (name ∷ names); answers = answers }) link
        ((walk_files-IsBelow source_dir tree).1 name names answers at)
        (ap (λ o. o >>= from_utf8) (strip_prefix-path_of source_dir name names valid) ∙ utf8) stable
