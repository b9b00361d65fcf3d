-- ===== src/Receive/Transfer/Confinement.antt =====
-- The handlers of START and END packets touch the files of the paths they work on and no other.
pub mod Directory
use data_diode.Prelude.{
  ℕ, true, not, inl, inr, Option, none, some, ◌≡◌, Bytes, ltb, Bool-cases, Option-cases,
  both_branches, OnSome,
}
use data_diode.SafePath.{is_safe_rel_path, join}
use data_diode.SafePath.Inside.{
  resolve, IsInside, Descends, is_safe_rel_path-Descends, append-Descends, join-IsInside,
}
use data_diode.FileSystem.{
  FileName, FileSystem, File, remove_file, create_dir_all, open_truncate, open_create, set_len,
  rename, exists,
}
use data_diode.FileSystem.Frame.{
  SameOutside, SameOutside-refl, SameOutside-trans, remove_file-SameOutside,
  create_dir_all-SameOutside, open_truncate-SameOutside, open_create-SameOutside,
  set_len-SameOutside, rename-SameOutside, open_truncate_name,
}
use data_diode.Receive.State.{ReceiveState, Receiver}
use data_diode.Receive.Finalize.{ReedSolomon, Result, ok, err, finalize_current_batch}
use data_diode.Receive.Finalize.Frame.{Keeps, finalize-Keeps}
use data_diode.Receive.Transfer.{
  partial_suffix, failed_suffix, count_failed, reset_transfer, partial_path, failed_path,
  mark_failure, size_output, open_output_file, give_up, abandon, reject, Announcement, begin,
  remove_stale, open_transfer, contains_byte, is_current, new_file, fail_transfer, succeed, publish,
  after_last, close, finalize_last, finish, finish_file,
}

-- Names of files, and paths whose three files have such names.
pub record Territory (dir : Bytes) : Type 1 where
  pub Inside : FileName → Type 0
  pub Takes : Bytes → Type 0
  pub target : (path : Bytes) → Takes path → Inside (resolve (join dir path))
  pub partial : (path : Bytes) → Takes path → Inside (resolve (partial_path dir path))
  pub failed : (path : Bytes) → Takes path → Inside (resolve (failed_path dir path))

module _ (dir : Bytes) (land : Territory dir) where
  -- The transfer has a path and an output file of the territory.
  pub record Confined (state : ReceiveState) : Type 0 where
    pub path : OnSome land.Takes state.file_path
    pub output : OnSome (λ f. land.Inside f.name) state.output

  abbrev Same : FileSystem → FileSystem → Type 0
  Same s t = SameOutside land.Inside s t

  -- Nothing outside the territory has changed, and the state is still confined.
  pub record Stays (r r' : Receiver) : Type 0 where
    pub same : SameOutside land.Inside r.fs r'.fs
    pub confined : Confined r'.state

  module _ (path : Bytes) (a : land.Takes path) where
    mark_failure-Same : (fs : FileSystem) → Same fs (mark_failure dir path fs)
    unfolding mark_failure
    mark_failure-Same fs =
        let s1 = (remove_file (join dir path) fs).1 in
        let s2 = (create_dir_all s1).1 in
        let s3 = (open_create (failed_path dir path) s2).1 in
        SameOutside-trans land.Inside fs s1 s3
          (remove_file-SameOutside land.Inside (join dir path) fs (land.target path a))
          (SameOutside-trans land.Inside s1 s2 s3 (create_dir_all-SameOutside land.Inside s1)
            (open_create-SameOutside land.Inside (failed_path dir path) s2 (land.failed path a)))

    remove_stale-Same : (fs : FileSystem) → Same fs (remove_stale dir path fs)
    unfolding remove_stale
    remove_stale-Same fs =
        let s1 = (remove_file (join dir path) fs).1 in
        let s2 = (remove_file (partial_path dir path) s1).1 in
        let s3 = (remove_file (failed_path dir path) s2).1 in
        SameOutside-trans land.Inside fs s1 s3
          (remove_file-SameOutside land.Inside (join dir path) fs (land.target path a))
          (SameOutside-trans land.Inside s1 s2 s3
            (remove_file-SameOutside land.Inside (partial_path dir path) s1 (land.partial path a))
            (remove_file-SameOutside land.Inside (failed_path dir path) s2 (land.failed path a)))

  -- Where an attempt to open a file leads.
  abbrev Opens : FileSystem → Option File × FileSystem → Type 0
  Opens fs o = Same fs o.1 × OnSome (λ f. land.Inside f.name) o.0

  size_output-Opens :
      (size : ℕ) (fs : FileSystem) (o : Option File × FileSystem)
      → Opens fs o
      → Opens fs (size_output size o)
  unfolding size_output
  size_output-Opens size fs (none, t) h = h
  size_output-Opens size fs (some f, t) (same, named) =
      let u = (set_len f size t).1 in
      both_branches (Opens fs) (ltb 0 size)
        (
          SameOutside-trans land.Inside fs t u same
              (set_len-SameOutside land.Inside f size t named),
          both_branches (OnSome (λ g. land.Inside g.name)) (set_len f size t).0 named tt,
        )
        (same, named)

  open_truncate-OnSome :
      (p : Bytes) (fs : FileSystem)
      → land.Inside (resolve p)
      → OnSome (λ f. land.Inside f.name) (open_truncate p fs).0
  open_truncate-OnSome p fs i = elim (Option-cases (open_truncate p fs).0) [
    | inl (f, e) ↦ rw e (rw (open_truncate_name p fs e) i)
    | inr e ↦ rw e tt
  ]

  open_output_file-Opens :
      (path : Bytes) (a : land.Takes path) (size : ℕ) (fs : FileSystem)
      → Opens fs (open_output_file dir path size fs)
  unfolding open_output_file
  open_output_file-Opens path a size fs =
      let t = (create_dir_all fs).1 in
      let p = partial_path dir path in
      let made = create_dir_all-SameOutside land.Inside fs in
      both_branches (Opens fs) (not (create_dir_all fs).0) (made, tt)
        (size_output-Opens size fs (open_truncate p t) (
          SameOutside-trans land.Inside fs t (open_truncate p t).1 made
              (open_truncate-SameOutside land.Inside p t (land.partial path a)),
          open_truncate-OnSome p t (land.partial path a),
        ))

  -- Giving a transfer up leaves the empty state.
  give_up-Stays :
      (r : Receiver) (fs : FileSystem) (s : FileSystem)
      → Same s fs
      → let g = give_up r fs in Same s g.fs × Confined g.state
  unfolding give_up reset_transfer
  give_up-Stays r fs s same = elim (Option-cases r.state.file_path) [
    | inl (p, e) ↦ (same, rw e (record { path = tt; output = tt }))
    | inr e ↦ (same, rw e (record { path = tt; output = tt }))
  ]

  to_Stays : (r r' : Receiver) → Same r.fs r'.fs × Confined r'.state → Stays r r'
  to_Stays r r' h = record { same = h.0; confined = h.1 }

  Stays-after : (q r s : Receiver) → Same q.fs r.fs → Stays r s → Stays q s
  Stays-after q r s a b = record {
    same = SameOutside-trans land.Inside q.fs r.fs s.fs a b.same;
    confined = b.confined;
  }

  pub Stays-trans : (q r s : Receiver) → Stays q r → Stays r s → Stays q s
  Stays-trans q r s a b = Stays-after q r s a.same b

  abandon-Stays :
      (prev : Option Bytes) (r : Receiver)
      → OnSome land.Takes prev
      → Confined r.state
      → Stays r (abandon dir prev r)
  unfolding abandon
  abandon-Stays none r a c = record { same = SameOutside-refl land.Inside r.fs; confined = c }
  abandon-Stays (some prev) r a c =
      let t = (remove_file (partial_path dir prev) r.fs).1 in
      let closed = record r { state = record r.state { output = none } } in
      to_Stays r (give_up closed (mark_failure dir prev t)) (
        give_up-Stays closed (mark_failure dir prev t) r.fs (
          SameOutside-trans land.Inside r.fs t (mark_failure dir prev t)
            (remove_file-SameOutside land.Inside (partial_path dir prev) r.fs (land.partial prev a))
            (mark_failure-Same prev a t)))

  reject-Stays : (r : Receiver) → Stays r (reject r)
  unfolding reject
  reject-Stays r =
      let counted = record r { stats = count_failed r.stats } in
      to_Stays r (give_up counted r.fs)
        (give_up-Stays counted r.fs r.fs (SameOutside-refl land.Inside r.fs))

  begin-Stays :
      (a : Announcement) (r : Receiver) (o : Option File × FileSystem)
      → land.Takes a.path
      → Confined r.state
      → Opens r.fs o
      → Stays r (begin dir a r o)
  unfolding begin
  begin-Stays a r (none, fs) adm c (same, named) = record {
    same =
        SameOutside-trans land.Inside r.fs fs (mark_failure dir a.path fs) same
          (mark_failure-Same a.path adm fs);
    confined = record { path = c.path; output = c.output };
  }
  begin-Stays a r (some f, fs) adm c (same, named) = record {
    same = same;
    confined = record { path = adm; output = named };
  }

  open_transfer-Stays :
      (a : Announcement) (r : Receiver)
      → land.Takes a.path
      → Confined r.state
      → Stays r (open_transfer dir a r)
  unfolding open_transfer
  open_transfer-Stays a r adm c =
      let t = remove_stale dir a.path r.fs in
      let o = open_output_file dir a.path a.size t in
      let (same, named) = open_output_file-Opens a.path adm a.size t in
      begin-Stays a r o adm c
        (SameOutside-trans land.Inside r.fs t o.1 (remove_stale-Same a.path adm r.fs) same, named)

  pub new_file-Stays :
      (r : Receiver) (a : Announcement)
      → (is_safe_rel_path a.path ≡ true → land.Takes a.path)
      → Confined r.state
      → Stays r (new_file dir r a)
  unfolding new_file
  new_file-Stays r a takes c =
      let q = abandon dir r.state.file_path r in
      let left = abandon-Stays r.state.file_path r c.path c in
      let rejected = Stays-trans r q (reject q) left (reject-Stays q) in
      both_branches (Stays r) (is_current r.state.file_path a.path)
        (record { same = SameOutside-refl land.Inside r.fs; confined = c })
        (elim (Bool-cases (is_safe_rel_path a.path)) [
          | inr e ↦ rw e rejected
          | inl e ↦ rw e (
              both_branches (Stays r) (contains_byte 0 a.path) rejected (
                Stays-trans r q (open_transfer dir a q) left
                  (open_transfer-Stays a q (takes e) left.confined)))
        ])

  fail_transfer-Stays :
      (path : Bytes) (r : Receiver) → land.Takes path → Stays r (fail_transfer dir path r)
  unfolding fail_transfer
  fail_transfer-Stays path r a =
      let t = (remove_file (partial_path dir path) r.fs).1 in
      to_Stays r (give_up r (mark_failure dir path t)) (
        give_up-Stays r (mark_failure dir path t) r.fs (
          SameOutside-trans land.Inside r.fs t (mark_failure dir path t)
            (remove_file-SameOutside land.Inside (partial_path dir path) r.fs (land.partial path a))
            (mark_failure-Same path a t)))

  succeed-Stays : (path : Bytes) (r : Receiver) → land.Takes path → Stays r (succeed dir path r)
  unfolding succeed reset_transfer
  succeed-Stays path r a =
      let removed =
        remove_file-SameOutside land.Inside (failed_path dir path) r.fs (land.failed path a) in
      record {
        same =
            both_branches (Same r.fs) (exists (failed_path dir path) r.fs) removed
              (SameOutside-refl land.Inside r.fs);
        confined = elim (Option-cases r.state.file_path) [
          | inl (p, e) ↦ rw e (record { path = tt; output = tt })
          | inr e ↦ rw e (record { path = tt; output = tt })
        ];
      }

  publish-Stays : (path : Bytes) (r : Receiver) → land.Takes path → Stays r (publish dir path r)
  unfolding publish
  publish-Stays path r a =
      let moved = rename (partial_path dir path) (join dir path) r.fs in
      let q = record r { fs = moved.1 } in
      let same =
        rename-SameOutside land.Inside (partial_path dir path) (join dir path) r.fs
          (land.partial path a) (land.target path a) in
      both_branches (Stays r) (not moved.0)
        (Stays-after r q (fail_transfer dir path q) same (fail_transfer-Stays path q a))
        (Stays-after r q (succeed dir path q) same (succeed-Stays path q a))

  close-Stays : (path : Bytes) (r : Receiver) → land.Takes path → Stays r (close dir path r)
  unfolding close
  close-Stays path r a =
      let closed = record r { state = record r.state { output = none } } in
      Stays-after r closed (close dir path r) (SameOutside-refl land.Inside r.fs) (
        both_branches (Stays closed) r.state.failed (fail_transfer-Stays path closed a)
          (publish-Stays path closed a))

  after_last-Stays :
      (r : Receiver) (w : Result (Unit {0}) × ReceiveState × FileSystem)
      → Confined r.state
      → Keeps land.Inside r.state r.fs w.1 w.2
      → Stays r (after_last r w)
  unfolding after_last
  after_last-Stays r (err e, state, fs) c k = record {
    same = k.same;
    confined = record { path = rw k.same_path c.path; output = k.named };
  }
  after_last-Stays r (ok _, state, fs) c k = record {
    same = k.same;
    confined = record { path = rw k.same_path c.path; output = k.named };
  }

  module _ (rs : ReedSolomon) where
    finalize_last-Stays : (r : Receiver) → Confined r.state → Stays r (finalize_last rs dir r)
    unfolding finalize_last
    finalize_last-Stays r c =
        both_branches (Stays r) r.state.failed
          (record { same = SameOutside-refl land.Inside r.fs; confined = c })
          (after_last-Stays r (finalize_current_batch rs r.state r.fs) c
            (finalize-Keeps land.Inside rs r.state r.fs c.output))

    finish-Stays :
        (path : Option Bytes) (r : Receiver)
        → OnSome land.Takes path
        → Confined r.state
        → Stays r (finish rs dir path r)
    unfolding finish
    finish-Stays none r a c = record { same = SameOutside-refl land.Inside r.fs; confined = c }
    finish-Stays (some path) r a c =
        let q = finalize_last rs dir r in
        Stays-trans r q (close dir path q) (finalize_last-Stays r c) (close-Stays path q a)

    pub finish_file-Stays : (r : Receiver) → Confined r.state → Stays r (finish_file rs dir r)
    unfolding finish_file
    finish_file-Stays r c = finish-Stays r.state.file_path r c.path c
