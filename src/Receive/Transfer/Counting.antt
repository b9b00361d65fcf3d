-- ===== src/Receive/Transfer/Counting.antt =====
-- How the handlers of START and END packets count transfers.
use data_diode.Prelude.{
  ℕ, ◌+◌, ◌^◌, ◌<◌, Bool, true, false, not, inl, inr, Option, none, some, ◌≡◌, refl, ap, ◌∙◌, arith,
  Bytes, Option-cases, both_branches,
}
use data_diode.SafePath.{is_safe_rel_path, join}
use data_diode.FileSystem.{FileSystem, File, remove_file, rename}
use data_diode.Receive.State.{ReceiveState, Stats, Receiver}
use data_diode.Receive.Buffer.Bounds.{IsSound}
use data_diode.Receive.Finalize.{ReedSolomon, Result, ok, err, finalize_current_batch}
use data_diode.Receive.Finalize.Bounds.{Settles, finalize-Settles}
use data_diode.Receive.Transfer.{
  reset_transfer, partial_path, mark_failure, open_output_file, give_up, abandon, reject,
  Announcement, begin, remove_stale, open_transfer, contains_byte, is_current, new_file,
  count_failed, fail_transfer, succeed, publish, after_last, close, finalize_last, finish,
  finish_file,
}
use data_diode.Receive.Transfer.Bounds.{abandon_state, give_up_state, succeed_state}

-- The transfers that have ended.
abbrev pub ended : Stats → ℕ
ended stats = stats.files_transferred + stats.files_failed

abbrev pub under_way : Option Bytes → ℕ
under_way none = 0
under_way (some p) = 1

-- The transfers that have ended, and the one that is under way.
abbrev pub tally : Receiver → ℕ
tally r = ended r.stats + under_way r.state.file_path

-- A transfer that ends is counted, as one or the other.
reset_transfer-ended :
    (state : ReceiveState) (stats : Stats) (success : Bool)
    → ended stats + under_way state.file_path < 2 ^ 64
    → ended (reset_transfer state stats success).1 ≡ ended stats + under_way state.file_path
unfolding reset_transfer
reset_transfer-ended state stats true room = elim (Option-cases state.file_path) [
  | inl (p, e) ↦ let one = ap under_way e in rw (reset_transfer, e) (omega arith)
  | inr e ↦ rw (reset_transfer, e) (omega arith)
]
reset_transfer-ended state stats false room = elim (Option-cases state.file_path) [
  | inl (p, e) ↦ let one = ap under_way e in rw (reset_transfer, e) (omega arith)
  | inr e ↦ rw (reset_transfer, e) (omega arith)
]

give_up-tally : (r : Receiver) (fs : FileSystem) → tally r < 2 ^ 64 → tally (give_up r fs) ≡ tally r
unfolding give_up
give_up-tally r fs room =
    let over = ap (λ s. under_way s.file_path) (give_up_state r fs) in
    omega (arith, over, reset_transfer-ended r.state r.stats false room)

module _ (dir : Bytes) where
  abandon-tally :
      (o : Option Bytes) (r : Receiver) → tally r < 2 ^ 64 → tally (abandon dir o r) ≡ tally r
  unfolding abandon
  abandon-tally none r room = refl
  abandon-tally (some prev) r room =
      give_up-tally (record r { state = record r.state { output = none } })
        (mark_failure dir prev (remove_file (partial_path dir prev) r.fs).1) room

  begin-tally :
      (a : Announcement) (r : Receiver) (o : Option File × FileSystem)
      → r.state.file_path ≡ none
      → tally r + 1 < 2 ^ 64
      → tally (begin dir a r o) ≡ tally r + 1
  unfolding begin
  begin-tally a r (none, fs) idle room = omega arith
  begin-tally a r (some f, fs) idle room = let zero_now = ap under_way idle in omega arith

  reject-tally : (r : Receiver) → tally r + 1 < 2 ^ 64 → tally (reject r) ≡ tally r + 1
  unfolding reject
  reject-tally r room =
      give_up-tally (record r { stats = count_failed r.stats }) r.fs (omega arith) ∙ omega arith

  -- A START of another file is one more transfer, whether it is refused or not.
  pub new_file-tally :
      (r : Receiver) (a : Announcement)
      → IsSound r.state
      → is_current r.state.file_path a.path ≡ false
      → tally r + 1 < 2 ^ 64
      → tally (new_file dir r a) ≡ tally r + 1
  unfolding new_file open_transfer
  new_file-tally r a v other room =
      let q = abandon dir r.state.file_path r in
      let free = ap (λ s. s.file_path) (abandon_state dir r.state.file_path r v.idle) in
      let same = abandon-tally r.state.file_path r (omega arith) in
      let Q = λ (s : Receiver). tally s ≡ tally r + 1 in
      let rejected : Q (reject q) = reject-tally q (omega arith) ∙ omega arith in
      rw other (
        both_branches Q (not (is_safe_rel_path a.path)) rejected (
          both_branches Q (contains_byte 0 a.path) rejected (
            begin-tally a q (open_output_file dir a.path a.size (remove_stale dir a.path q.fs)) free
              (omega arith)
            ∙ omega arith)))

  -- A repeated START changes nothing.
  pub new_file-repeated :
      (r : Receiver) (a : Announcement)
      → is_current r.state.file_path a.path ≡ true
      → new_file dir r a ≡ r
  unfolding new_file
  new_file-repeated r a same = rw same refl

  fail_transfer-tally :
      (path : Bytes) (r : Receiver) → tally r < 2 ^ 64 → tally (fail_transfer dir path r) ≡ tally r
  unfolding fail_transfer
  fail_transfer-tally path r room =
      give_up-tally r (mark_failure dir path (remove_file (partial_path dir path) r.fs).1) room

  succeed-tally :
      (path : Bytes) (r : Receiver) → tally r < 2 ^ 64 → tally (succeed dir path r) ≡ tally r
  unfolding succeed
  succeed-tally path r room =
      let over = ap (λ s. under_way s.file_path) (succeed_state dir path r) in
      omega (arith, over, reset_transfer-ended r.state r.stats true room)

  publish-tally :
      (path : Bytes) (r : Receiver) → tally r < 2 ^ 64 → tally (publish dir path r) ≡ tally r
  unfolding publish
  publish-tally path r room =
      let moved = rename (partial_path dir path) (join dir path) r.fs in
      let q = record r { fs = moved.1 } in
      both_branches (λ (s : Receiver). tally s ≡ tally r) (not moved.0)
        (fail_transfer-tally path q room) (succeed-tally path q room)

  close-tally :
      (path : Bytes) (r : Receiver) → tally r < 2 ^ 64 → tally (close dir path r) ≡ tally r
  unfolding close
  close-tally path r room =
      let closed = record r { state = record r.state { output = none } } in
      both_branches (λ (s : Receiver). tally s ≡ tally r) r.state.failed
        (fail_transfer-tally path closed room) (publish-tally path closed room)

  after_last-tally :
      (r : Receiver) (w : Result (Unit {0}) × ReceiveState × FileSystem)
      → Settles r.state w
      → tally (after_last r w) ≡ tally r
  unfolding after_last
  after_last-tally r (err e, state, fs) s = ap (λ t. ended r.stats + under_way t.file_path) s
  after_last-tally r (ok _, state, fs) s = ap (λ t. ended r.stats + under_way t.file_path) s

  module _ (rs : ReedSolomon) where
    finalize_last-tally : (r : Receiver) → tally (finalize_last rs dir r) ≡ tally r
    unfolding finalize_last
    finalize_last-tally r =
        both_branches (λ (s : Receiver). tally s ≡ tally r) r.state.failed refl
          (after_last-tally r (finalize_current_batch rs r.state r.fs)
            (finalize-Settles rs r.state r.fs))

    finish-tally :
        (o : Option Bytes) (r : Receiver) → tally r < 2 ^ 64 → tally (finish rs dir o r) ≡ tally r
    unfolding finish
    finish-tally none r room = refl
    finish-tally (some path) r room =
        let same = finalize_last-tally r in
        close-tally path (finalize_last rs dir r) (omega arith) ∙ same

    -- An END packet moves the transfer from those under way to those that have ended.
    pub finish_file-tally :
        (r : Receiver) → tally r < 2 ^ 64 → tally (finish_file rs dir r) ≡ tally r
    unfolding finish_file
    finish_file-tally r room = finish-tally r.state.file_path r room
