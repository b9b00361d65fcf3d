-- ===== src/Receive/Transfer/Bounds.antt =====
-- The handlers of START and END packets begin with empty buffers and leave none behind.
use data_diode.Prelude.{
  Bool, true, false, not, inl, inr, Option, none, some, ◌≡◌, refl, arith, Bytes, Option-cases,
  both_branches,
}
use data_diode.SafePath.{is_safe_rel_path, join}
use data_diode.FileSystem.{FileSystem, File, remove_file, rename}
use data_diode.Receive.State.{ReceiveState, Receiver, new_state}
use data_diode.Receive.Buffer.Bounds.{IsSound}
use data_diode.Receive.Finalize.{ReedSolomon}
use data_diode.Receive.Transfer.{
  reset_transfer, partial_path, mark_failure, open_output_file, give_up, abandon, reject,
  Announcement, begin, remove_stale, open_transfer, contains_byte, is_current, new_file,
  fail_transfer, succeed, publish, close, finalize_last, finish, finish_file, count_failed,
}

-- The fresh state is sound.
pub new_state-IsSound : (state : ReceiveState) → state ≡ new_state → IsSound state
new_state-IsSound state e = rw e (record {
  in_batch = tt;
  in_parity = tt;
  chunk_sizes = tt;
  shard_sizes = tt;
  counted = omega arith;
  idle = λ _. refl;
})

reset_transfer_state : (r : Receiver) (b : Bool) → (reset_transfer r.state r.stats b).0 ≡ new_state
unfolding reset_transfer
reset_transfer_state r b = elim (Option-cases r.state.file_path) [
  | inl (p, e) ↦ rw e
  | inr e ↦ rw e
]

pub give_up_state : (r : Receiver) (fs : FileSystem) → (give_up r fs).state ≡ new_state
unfolding give_up
give_up_state r fs = reset_transfer_state r false

module _ (dir : Bytes) where
  pub abandon_state :
      (prev : Option Bytes) (r : Receiver)
      → (prev ≡ none → r.state ≡ new_state)
      → (abandon dir prev r).state ≡ new_state
  unfolding abandon
  abandon_state none r idle = idle refl
  abandon_state (some prev) r idle =
      give_up_state (record r { state = record r.state { output = none } })
        (mark_failure dir prev (remove_file (partial_path dir prev) r.fs).1)

  begin-IsSound :
      (a : Announcement) (r : Receiver) (o : Option File × FileSystem)
      → r.state ≡ new_state
      → IsSound (begin dir a r o).state
  unfolding begin
  begin-IsSound a r (none, fs) e = new_state-IsSound r.state e
  begin-IsSound a r (some f, fs) e = rw e (record {
    in_batch = tt;
    in_parity = tt;
    chunk_sizes = tt;
    shard_sizes = tt;
    counted = omega arith;
    idle = λ n. cc;
  })

  pub new_file-IsSound :
      (r : Receiver) (a : Announcement) → IsSound r.state → IsSound (new_file dir r a).state
  unfolding new_file reject open_transfer
  new_file-IsSound r a v =
      let q = abandon dir r.state.file_path r in
      let fresh = abandon_state r.state.file_path r v.idle in
      let Q = λ (s : Receiver). IsSound s.state in
      let counted = record q { stats = count_failed q.stats } in
      let rejected = new_state-IsSound (reject q).state (give_up_state counted q.fs) in
      both_branches Q (is_current r.state.file_path a.path) v (
        both_branches Q (not (is_safe_rel_path a.path)) rejected (
          both_branches Q (contains_byte 0 a.path) rejected (
            begin-IsSound a q (open_output_file dir a.path a.size (remove_stale dir a.path q.fs))
              fresh)))

  fail_transfer_state : (path : Bytes) (r : Receiver) → (fail_transfer dir path r).state ≡ new_state
  unfolding fail_transfer
  fail_transfer_state path r =
      give_up_state r (mark_failure dir path (remove_file (partial_path dir path) r.fs).1)

  pub succeed_state : (path : Bytes) (r : Receiver) → (succeed dir path r).state ≡ new_state
  unfolding succeed
  succeed_state path r = reset_transfer_state r true

  publish_state : (path : Bytes) (r : Receiver) → (publish dir path r).state ≡ new_state
  unfolding publish
  publish_state path r =
      let moved = rename (partial_path dir path) (join dir path) r.fs in
      let q = record r { fs = moved.1 } in
      both_branches (λ (s : Receiver). s.state ≡ new_state) (not moved.0)
        (fail_transfer_state path q) (succeed_state path q)

  -- The end of a transfer leaves the fresh state, whether it succeeded or not.
  pub close_state : (path : Bytes) (r : Receiver) → (close dir path r).state ≡ new_state
  unfolding close
  close_state path r =
      let closed = record r { state = record r.state { output = none } } in
      both_branches (λ (s : Receiver). s.state ≡ new_state) r.state.failed
        (fail_transfer_state path closed) (publish_state path closed)

  module _ (rs : ReedSolomon) where
    finish-IsSound :
        (path : Option Bytes) (r : Receiver)
        → IsSound r.state
        → IsSound (finish rs dir path r).state
    unfolding finish
    finish-IsSound none r v = v
    finish-IsSound (some path) r v =
        let q = finalize_last rs dir r in
        new_state-IsSound (close dir path q).state (close_state path q)

    pub finish_file-IsSound :
        (r : Receiver) → IsSound r.state → IsSound (finish_file rs dir r).state
    unfolding finish_file
    finish_file-IsSound r v = finish-IsSound r.state.file_path r v
