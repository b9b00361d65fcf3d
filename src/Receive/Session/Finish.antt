-- ===== src/Receive/Session/Finish.antt =====
-- The END packet of a file whose batches have all arrived.
use data_diode.Prelude.{
  ℕ, ◌+◌, ◌≤◌, Bool, true, false, not, [], ◌≢◌, inl, inr, none, some, ◌≡◌, refl, sym, ap, ◌∙◌,
  subst, arith, Bytes, length, take, take_all, take-take, if◌then◌else◌, ◌==◌, ==-cases,
  if_of_false, both_branches,
}
use data_diode.SafePath.{is_safe_rel_path, join}
use data_diode.SafePath.Inside.{resolve, is_safe_rel_path-Descends}
use data_diode.SafePath.Sibling.{resolve-suffix-ne}
use data_diode.FileSystem.{FileName, FileSystem, lookup, put, erase, rename, exists}
use data_diode.FileSystem.Frame.{lookup-put_self, remove_file-SameOutside}
use data_diode.Receive.State.{ReceiveState, Stats, Receiver, new_state}
use data_diode.Receive.Chunk.{total_chunks, batch_start, batch_data_size}
use data_diode.Receive.Finalize.{ReedSolomon, Result, ok, err, finalize_current_batch}
use data_diode.Receive.Finalize.Contents.{chunk_begin, attempt_calm}
use data_diode.Receive.Finalize.Bounds.{Settles, finalize-Settles}
use data_diode.Receive.Finalize.Batch.{Output, BatchWritten}
use data_diode.Receive.Transfer.{
  partial_path, failed_path, failed_suffix, count_transferred, fail_transfer, reset_transfer,
  succeed, publish, close, after_last, finalize_last, finish, finish_file,
}
use data_diode.Receive.Session.{Upload, chunk_count, Session}
use data_diode.Receive.Session.Gather.{IsFit, batch_start_early}
use data_diode.Receive.Session.Step.{RestoresBatches, finalize-BatchWritten}
use data_diode.Receive.Session.Run.{IsLast}

not_safe : is_safe_rel_path [] ≢ true
unfolding is_safe_rel_path
not_safe e = cc

-- The file is whole where it was received, and nothing is refused.
pub record IsWhole (c : Bytes) (path : Bytes) (name : FileName) (r : Receiver) : Type 0 where
  pub found : lookup name r.fs.files ≡ some c
  pub calm : r.fs.attempts ≡ []
  pub going : r.state.failed ≡ false
  pub active : r.state.file_path ≡ some path

-- The file is where it belongs, the receiver is idle, and the transfer is counted.
pub record IsDelivered (c : Bytes) (target : FileName) (before : Stats) (r : Receiver)
    : Type 0 where
  pub found : lookup target r.fs.files ≡ some c
  pub idle : r.state ≡ new_state
  pub counted : r.stats ≡ count_transferred before

rename_calm :
    (from to c : Bytes) (fs : FileSystem)
    → fs.attempts ≡ []
    → lookup (resolve from) fs.files ≡ some c
    → rename from to fs
      ≡ (true, record fs { files = put (resolve to) c (erase (resolve from) fs.files) })
unfolding rename
rename_calm from to c fs calm found = simp (rename, attempt_calm fs calm, found)

reset_success :
    {path : Bytes} (state : ReceiveState) (stats : Stats)
    → state.file_path ≡ some path
    → ((reset_transfer state stats true).0 ≡ new_state)
      × ((reset_transfer state stats true).1 ≡ count_transferred stats)
unfolding reset_transfer
reset_success state stats active = rw (reset_transfer, active) (refl, refl)

-- So long as the file is, and with its first `goal` chunks.
pub record Agrees (c : Bytes) (goal : ℕ) (bytes : Bytes) : Type 0 where
  pub same_length : length bytes ≡ length c
  pub same : take (chunk_begin c goal) bytes ≡ take (chunk_begin c goal) c

Output-Agrees :
    (c : Bytes) (name : FileName) (goal n : ℕ) (fs : FileSystem)
    → (o : Output c name n fs) → goal ≤ n
    → Agrees c goal o.bytes
Output-Agrees c name goal n fs o h =
    let j = chunk_begin c goal in
    let k = chunk_begin c n in
    let le : j ≤ k = omega arith in
    record {
      same_length = o.same_length;
      same = sym (take-take j k o.bytes le) ∙ ap (take j) o.agrees ∙ take-take j k c le;
    }

-- What agrees on all the chunks is the whole file.
pub Agrees-whole : (c bytes : Bytes) → Agrees c (total_chunks (length c)) bytes → bytes ≡ c
unfolding total_chunks
Agrees-whole c bytes a =
    let whole : chunk_begin c (total_chunks (length c)) ≡ length c = omega arith in
    let same : take (length c) bytes ≡ take (length c) c =
      subst (λ k. take k bytes ≡ take k c) whole a.same in
    sym (take_all bytes (length c) (omega (arith, a.same_length)))
    ∙ same
    ∙ take_all c (length c) (omega arith)

module _ (rs : ReedSolomon) (u : Upload) (fit : IsFit u) (dir : Bytes) (enabled : Bool)
    (law : RestoresBatches rs u fit) (goal : ℕ) (within : goal ≤ chunk_count u) where
  open u use {contents, path, name}

  -- The last batch ends the file.
  last-BatchWritten :
      (r : Receiver)
      → IsLast rs u fit dir enabled goal r
      → (n : ℕ) × (goal ≤ n) × BatchWritten contents name n (finalize_current_batch rs r.state r.fs)
  unfolding finalize_current_batch
  last-BatchWritten r l =
      let b = l.batch in
      let v = l.session in
      let (start, size) = batch_start_early b (length contents) fit.small v.early in
      elim (==-cases (batch_data_size b (length contents)) 0) [
        | inl (z, t) ↦
            let nothing : (batch_data_size r.state.current_batch r.state.file_size == 0) ≡ true =
              rw (v.current, v.sized) t in
            (batch_start b, omega (arith, l.last), rw nothing (v.output, v.file, v.opened, v.named))
        | inr (p, t) ↦ (
          batch_start b + batch_data_size b (length contents),
          omega (arith, l.last),
          finalize-BatchWritten rs u fit b r v l.enough law (omega arith),
        )
      ]

  after_last-IsWhole :
      (r : Receiver) (b n : ℕ)
      → Session u b r
      → goal ≤ n
      → (w : Result (Unit {0}) × ReceiveState × FileSystem) → Settles r.state w
      → BatchWritten contents name n w
      → (bytes : Bytes) × Agrees contents goal bytes
        × IsWhole bytes path name (after_last r w)
        × ((after_last r w).stats ≡ r.stats)
  unfolding after_last
  after_last-IsWhole r b n v all (err e, state, fs) s written = elim written [ ]
  after_last-IsWhole r b n v all (ok _, state, fs) s (output, file, opened, named) = (
    output.bytes,
    Output-Agrees contents name goal n fs output all,
    record {
      found = output.found;
      calm = output.calm;
      going = ap (λ t. t.failed) s ∙ v.going;
      active = ap (λ t. t.file_path) s ∙ v.active;
    },
    refl,
  )

  finalize_last-IsWhole :
      (r : Receiver)
      → IsLast rs u fit dir enabled goal r
      → (bytes : Bytes) × Agrees contents goal bytes
        × IsWhole bytes path name (finalize_last rs dir r)
        × ((finalize_last rs dir r).stats ≡ r.stats)
  unfolding finalize_last
  finalize_last-IsWhole r l =
      let (n, all, written) = last-BatchWritten r l in
      subst
        (λ q.
          (bytes : Bytes) × Agrees contents goal bytes
          × IsWhole bytes path name q
          × (q.stats ≡ r.stats))
        (sym (if_of_false r.state.failed _ _ l.session.going))
        (after_last-IsWhole r l.batch n l.session all (finalize_current_batch rs r.state r.fs)
          (finalize-Settles rs r.state r.fs) written)

  module _ (safe : is_safe_rel_path path ≡ true) where
    failed-ne : resolve (failed_path dir path) ≢ resolve (join dir path)
    unfolding failed_path
    failed-ne =
        resolve-suffix-ne dir path failed_suffix (is_safe_rel_path-Descends path safe).relative
          (λ e. not_safe (ap is_safe_rel_path (sym e) ∙ safe)) (ground arith) (omega arith)

    module _ (bytes : Bytes) where
      -- A marker of an earlier failure is another file.
      succeed-IsDelivered :
          (r : Receiver)
          → lookup (resolve (join dir path)) r.fs.files ≡ some bytes
          → r.state.file_path ≡ some path
          → IsDelivered bytes (resolve (join dir path)) r.stats (succeed dir path r)
      unfolding succeed
      succeed-IsDelivered r found active =
          let marker = resolve (failed_path dir path) in
          let kept =
            remove_file-SameOutside (λ k. k ≡ marker) (failed_path dir path) r.fs refl
              (resolve (join dir path)) (λ e. failed-ne (sym e)) in
          let (idle, counted) = reset_success r.state r.stats active in
          record {
            found =
                both_branches
                  (λ (fs : FileSystem). lookup (resolve (join dir path)) fs.files ≡ some bytes)
                  (exists (failed_path dir path) r.fs) (kept ∙ found) found;
            idle = idle;
            counted = counted;
          }

      close-IsDelivered :
          (r : Receiver)
          → name ≡ resolve (partial_path dir path)
          → IsWhole bytes path name r
          → IsDelivered bytes (resolve (join dir path)) r.stats (close dir path r)
      unfolding close publish
      close-IsDelivered r placed w =
          let target = resolve (join dir path) in
          let fs' = record r.fs {
            files = put target bytes (erase (resolve (partial_path dir path)) r.fs.files);
          } in
          let renamed : rename (partial_path dir path) (join dir path) r.fs ≡ (true, fs') =
            rename_calm (partial_path dir path) (join dir path) bytes r.fs w.calm
              (subst (λ n. lookup n r.fs.files ≡ some bytes) placed w.found) in
          subst (IsDelivered bytes target r.stats) (sym (if_of_false r.state.failed _ _ w.going)) (
            subst
              (λ (x : Bool × FileSystem). IsDelivered bytes target r.stats (
                if not x.0
                then fail_transfer dir path
                    (record r { state = record r.state { output = none }; fs = x.1 })
                else succeed dir path
                    (record r { state = record r.state { output = none }; fs = x.1 })))
              (sym renamed)
              (succeed-IsDelivered (record r { state = record r.state { output = none }; fs = fs' })
                (lookup-put_self target bytes (erase (resolve (partial_path dir path)) r.fs.files))
                w.active))

    pub finish_file-IsDelivered :
        (r : Receiver)
        → name ≡ resolve (partial_path dir path)
        → IsLast rs u fit dir enabled goal r
        → (bytes : Bytes) × Agrees contents goal bytes
          × IsDelivered bytes (resolve (join dir path)) r.stats (finish_file rs dir r)
    unfolding finish_file finish
    finish_file-IsDelivered r placed l =
        let (bytes, agrees, w, same) = finalize_last-IsWhole r l in
        (
          bytes,
          agrees,
          subst (λ o. IsDelivered bytes (resolve (join dir path)) r.stats (finish rs dir o r))
              (sym l.session.active)
              (subst
                (λ stats.
                  IsDelivered bytes (resolve (join dir path)) stats
                    (close dir path (finalize_last rs dir r)))
                same (close-IsDelivered bytes (finalize_last rs dir r) placed w)),
        )
