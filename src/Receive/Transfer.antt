-- ===== src/Receive/Transfer.antt =====
-- The life of one transfer in diode_receive/src/main.rs: `reset_transfer`, `mark_failure`,
-- `partial_path`, `open_output_file`, `new_file` and `finish_file`.
pub mod Confinement
pub mod Bounds
pub mod Counting
use data_diode.Prelude.{
  ℕ, Bool, true, false, not, ◌||◌, [], ◌∷◌, ◌++◌, Option, none, some, Bytes, if◌then◌else◌, ◌==◌,
  ltb, beq_bytes,
}
use data_diode.SafePath.{is_safe_rel_path, join}
use data_diode.FileSystem.{
  FileSystem, File, remove_file, create_dir_all, open_truncate, open_create, set_len, rename,
  exists,
}
use data_diode.Receive.State.{ReceiveState, Stats, Receiver, new_state, wrapping_add}
use data_diode.Receive.Finalize.{ReedSolomon, Result, ok, err, finalize_current_batch}

-- ".partial" and ".failed".
abbrev pub partial_suffix : Bytes
partial_suffix = b'.' ∷ b'p' ∷ b'a' ∷ b'r' ∷ b't' ∷ b'i' ∷ b'a' ∷ b'l' ∷ []

abbrev pub failed_suffix : Bytes
failed_suffix = b'.' ∷ b'f' ∷ b'a' ∷ b'i' ∷ b'l' ∷ b'e' ∷ b'd' ∷ []

abbrev pub count_failed : Stats → Stats
count_failed stats = record stats { files_failed = wrapping_add stats.files_failed 1 }

abbrev pub count_transferred : Stats → Stats
count_transferred stats = record stats {
  files_transferred = wrapping_add stats.files_transferred 1;
}

unfoldable pub reset_transfer : ReceiveState → Stats → Bool → ReceiveState × Stats
reset_transfer state stats success = elim state.file_path [
  | none ↦ (new_state, stats)
  | some _ ↦ (new_state, if success then count_transferred stats else count_failed stats)
]

unfoldable pub partial_path : Bytes → Bytes → Bytes
partial_path output_dir rel_path = join output_dir (rel_path ++ partial_suffix)

unfoldable pub failed_path : Bytes → Bytes → Bytes
failed_path output_dir rel_path = join output_dir (rel_path ++ failed_suffix)

-- The results of these calls are ignored.
unfoldable pub mark_failure : Bytes → Bytes → FileSystem → FileSystem
mark_failure output_dir rel_path fs =
    let fs = (remove_file (join output_dir rel_path) fs).1 in
    let fs = (create_dir_all fs).1 in (open_create (failed_path output_dir rel_path) fs).1

-- Each step of `open_output_file` ends it with an error, or hands over to the next.
unfoldable pub size_output : ℕ → Option File × FileSystem → Option File × FileSystem
size_output file_size (none, fs) = (none, fs)
size_output file_size (some f, fs) =
    let (sized, fs') = set_len f file_size fs in
    if ltb 0 file_size then (if sized then some f else none, fs') else (some f, fs)

unfoldable pub open_output_file : Bytes → Bytes → ℕ → FileSystem → Option File × FileSystem
open_output_file output_dir rel_path file_size fs =
    let (made, fs') = create_dir_all fs in
    if not made
    then (none, fs')
    else size_output file_size (open_truncate (partial_path output_dir rel_path) fs')

unfoldable pub contains_byte : ℕ → Bytes → Bool
contains_byte b [] = false
contains_byte b (c ∷ s) = (c == b) || contains_byte b s

-- The counters and the state after a transfer was given up, by `reset_transfer(.., false)`.
unfoldable pub give_up : Receiver → FileSystem → Receiver
give_up r fs =
    let (state, stats) = reset_transfer r.state r.stats false in
    record r { state = state; stats = stats; fs = fs }

-- What `new_file` does first with the path of the transfer that is under way.
unfoldable pub abandon : Bytes → Option Bytes → Receiver → Receiver
abandon output_dir none r = r
abandon output_dir (some prev) r =
    let fs = (remove_file (partial_path output_dir prev) r.fs).1 in
    give_up (record r { state = record r.state { output = none } })
      (mark_failure output_dir prev fs)

-- A START whose path is refused.
unfoldable pub reject : Receiver → Receiver
reject r = give_up (record r { stats = count_failed r.stats }) r.fs

-- What a START packet says of the transfer.
pub record Announcement : Type 0 where
  pub path : Bytes
  pub size : ℕ
  pub path_hash : Bytes
  pub parity_per_batch : ℕ

unfoldable pub begin : Bytes → Announcement → Receiver → Option File × FileSystem → Receiver
begin output_dir a r (none, fs) = record r {
  stats = count_failed r.stats;
  fs = mark_failure output_dir a.path fs;
}
begin output_dir a r (some file, fs) = record r {
  state = record r.state {
    file_path = some a.path;
    path_hash = some a.path_hash;
    file_size = a.size;
    parity_per_batch = a.parity_per_batch;
    current_batch = 0;
    output = some file;
  };
  fs = fs;
}

-- Removes what earlier transfers of the path left.
unfoldable pub remove_stale : Bytes → Bytes → FileSystem → FileSystem
remove_stale output_dir path fs =
    let fs1 = (remove_file (join output_dir path) fs).1 in
    let fs2 = (remove_file (partial_path output_dir path) fs1).1 in
    (remove_file (failed_path output_dir path) fs2).1

unfoldable pub open_transfer : Bytes → Announcement → Receiver → Receiver
open_transfer output_dir a r =
    begin output_dir a r
      (open_output_file output_dir a.path a.size (remove_stale output_dir a.path r.fs))

-- A repeated START of the transfer that is under way.
abbrev pub is_current : Option Bytes → Bytes → Bool
is_current none path = false
is_current (some p) path = beq_bytes p path

unfoldable pub new_file : Bytes → Receiver → Announcement → Receiver
new_file output_dir r a =
    let r' = abandon output_dir r.state.file_path r in
    if is_current r.state.file_path a.path
    then r
    else if not (is_safe_rel_path a.path)
    then reject r'
    else if contains_byte 0 a.path
    then reject r'
    else open_transfer output_dir a r'

-- The failure paths of `finish_file`: the partial file goes, the marker comes.
unfoldable pub fail_transfer : Bytes → Bytes → Receiver → Receiver
fail_transfer output_dir rel_path r =
    give_up r
      (mark_failure output_dir rel_path (remove_file (partial_path output_dir rel_path) r.fs).1)

-- The end of a transfer that succeeded: a marker of an earlier failure goes.
unfoldable pub succeed : Bytes → Bytes → Receiver → Receiver
succeed output_dir rel_path r =
    let (state, stats) = reset_transfer r.state r.stats true in
    record r {
      state = state;
      stats = stats;
      fs =
          if exists (failed_path output_dir rel_path) r.fs
          then (remove_file (failed_path output_dir rel_path) r.fs).1
          else r.fs;
    }

-- From the rename on. The SHA-256 digest of the finished file only goes to the log.
unfoldable pub publish : Bytes → Bytes → Receiver → Receiver
publish output_dir rel_path r =
    let (renamed, fs) = rename (partial_path output_dir rel_path) (join output_dir rel_path) r.fs in
    if not renamed
    then fail_transfer output_dir rel_path (record r { fs = fs })
    else succeed output_dir rel_path (record r { fs = fs })

-- The state after the last batch was written, or could not be.
unfoldable pub after_last : Receiver → Result (Unit {0}) × ReceiveState × FileSystem → Receiver
after_last r (err e, state, fs) = record r { state = record state { failed = true }; fs = fs }
after_last r (ok _, state, fs) = record r { state = state; fs = fs }

-- From `state.output.take()` on.
unfoldable pub close : Bytes → Bytes → Receiver → Receiver
close output_dir rel_path r =
    let closed = record r { state = record r.state { output = none } } in
    if r.state.failed
    then fail_transfer output_dir rel_path closed
    else publish output_dir rel_path closed

module _ (rs : ReedSolomon) (output_dir : Bytes) where
  -- The last batch is written unless the transfer has failed before.
  unfoldable pub finalize_last : Receiver → Receiver
  finalize_last r =
      if r.state.failed then r else after_last r (finalize_current_batch rs r.state r.fs)

  unfoldable pub finish : Option Bytes → Receiver → Receiver
  finish none r = r
  finish (some rel_path) r = close output_dir rel_path (finalize_last r)

  unfoldable pub finish_file : Receiver → Receiver
  finish_file r = finish r.state.file_path r
