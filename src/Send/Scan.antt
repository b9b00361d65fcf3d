-- ===== src/Send/Scan.antt =====
-- The scan of the source directory in diode_send/src/main.rs: `walk_files`, `is_file_stable` and
-- `send_files`. What the calls on a name answer is kept in a tree.
pub mod Walk
pub mod Accepted
pub mod Attempted
use data_diode.Prelude.{
  ℕ, Bool, true, false, List, [], ◌∷◌, ◌++◌, Option, none, some, Bytes, ◌>>=◌, if◌then◌else◌, ◌==◌,
}
use data_diode.SafePath.{join}
use data_diode.SafePath.Prefix.{strip_prefix}
use data_diode.Utf8.{from_utf8}
use data_diode.Send.Link.{Link, SendCfg}
use data_diode.Send.Parity.{ReedSolomonEncoder}
use data_diode.Send.File.{SourceFile, Sent, send_file_chunks}

-- The lengths that `is_file_stable` reads, before and after its pause, and what the calls of
-- `send_file_chunks` answer.
pub record FileAnswers : Type 0 where
  pub len_before : Option ℕ
  pub len_after : Option ℕ
  pub source : SourceFile

mutual
  -- What is_dir, is_file and read_dir say of a path; they follow links.
  pub data Node : Type 0 where
    directory : Entries → Node
    unreadable_directory : Node
    regular_file : FileAnswers → Node
    other : Node

  -- The entries of a directory in the order that `read_dir` gives them: an error, or a name, whether
  -- `symlink_metadata` says that it is a link (`none` for an error), and what it leads to.
  pub data Entries : Type 0 where
    end_of_dir : Entries
    bad_entry : Entries → Entries
    entry : Bytes → Option Bool → Node → Entries → Entries

-- A path and what the calls on it will answer.
pub record Found : Type 0 where
  pub path : Bytes
  pub answers : FileAnswers

abbrev pub skip_link : Option Bool → List Found → List Found
skip_link (some true) found = []
skip_link (some false) found = found
skip_link none found = found

-- `visit` is the end of the loop's body: `walk_files` on a directory, `push` of a file.
unfoldable mutual
  pub visit : Bytes → Node → List Found
  visit path (directory entries) = walk_entries path entries
  visit path unreadable_directory = []
  visit path (regular_file answers) = record { path = path; answers = answers } ∷ []
  visit path other = []

  pub walk_entries : Bytes → Entries → List Found
  walk_entries dir end_of_dir = []
  walk_entries dir (bad_entry entries) = walk_entries dir entries
  walk_entries dir (entry name link node entries) =
      skip_link link (visit (join dir name) node) ++ walk_entries dir entries

-- `read_dir` fails on what is no directory.
unfoldable pub walk_files : Bytes → Node → List Found
walk_files dir (directory entries) = walk_entries dir entries
walk_files dir unreadable_directory = []
walk_files dir (regular_file answers) = []
walk_files dir other = []

unfoldable pub is_file_stable : FileAnswers → Bool
is_file_stable answers = elim answers.len_before [
  | none ↦ false
  | some initial ↦ elim answers.len_after [ none ↦ false | some len ↦ len == initial ]
]

-- The path that a file is sent with, of a name in UTF-8.
unfoldable pub rel_path_str : Bytes → Found → Option Bytes
rel_path_str source_dir found = strip_prefix source_dir found.path >>= from_utf8

-- What became of a file: its path on the wire, and what `send_file_chunks` did.
pub record Outcome : Type 0 where
  pub rel_path : Bytes
  pub succeeded : Bool
  pub removed : Bool

module _ (md5 : Bytes → Bytes) (enc : ReedSolomonEncoder) (cfg : SendCfg) where
  unfoldable pub send_named : Bytes → FileAnswers → Link → List Outcome × Link
  send_named rel_path answers link =
      let sent = send_file_chunks md5 enc cfg rel_path answers.source link in
      (
        record { rel_path = rel_path; succeeded = sent.succeeded; removed = sent.removed } ∷ [],
        sent.link,
      )

  -- A round for a file whose path has this form. An error is only logged.
  unfoldable pub send_file : Option Bytes → FileAnswers → Link → List Outcome × Link
  send_file none answers link = ([], link)
  send_file (some rel_path) answers link =
      if is_file_stable answers then send_named rel_path answers link else ([], link)

  unfoldable pub send_found : Bytes → List Found → Link → List Outcome × Link
  send_found source_dir [] link = ([], link)
  send_found source_dir (found ∷ files) link =
      let (outcome, link1) = send_file (rel_path_str source_dir found) found.answers link in
      let (outcomes, link2) = send_found source_dir files link1 in (outcome ++ outcomes, link2)

  unfoldable pub send_files : Bytes → Node → Link → List Outcome × Link
  send_files source_dir tree link = send_found source_dir (walk_files source_dir tree) link
