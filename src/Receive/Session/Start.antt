-- ===== src/Receive/Session/Start.antt =====
-- The START packet of a file at an idle receiver.
use data_diode.Prelude.{
  ℕ, ◌-◌, Bool, true, false, List, [], inl, inr, Option, none, some, ◌≡◌, refl, sym, ap, ◌∙◌, subst,
  arith, Bytes, length, length-append, take, replicate, length-replicate, length-take, ltb,
  Bool-cases, Option-cases,
}
use data_diode.SafePath.{is_safe_rel_path, join}
use data_diode.SafePath.Inside.{resolve}
use data_diode.FileSystem.{
  FileName, FileSystem, File, lookup, put, attempt, remove_file, create_dir_all, open_truncate,
  open_create, set_len, resize, contents,
}
use data_diode.FileSystem.Frame.{lookup-put_self}
use data_diode.Proto.{batch_parity_chunks}
use data_diode.Receive.Packet.{Packet}
use data_diode.Receive.State.{ReceiveState, Stats, Receiver, new_state}
use data_diode.Receive.Chunk.{batch_start}
use data_diode.Receive.Buffer.Bounds.{IsSound}
use data_diode.Receive.Finalize.Contents.{chunk_begin, attempt_calm}
use data_diode.Receive.Finalize.Batch.{Output}
use data_diode.Receive.Transfer.{
  Announcement, partial_path, failed_path, size_output, open_output_file, begin, remove_stale,
  open_transfer, new_file, abandon, contains_byte, is_current, give_up, mark_failure,
  reset_transfer,
}
use data_diode.Receive.Session.{Upload, buffers, Session}

-- A receiver between two transfers.
abbrev pub idle : Stats → FileSystem → List Packet → Receiver
idle stats fs queue = record { state = new_state; stats = stats; fs = fs; udp_queue = queue }

remove_file_calm :
    (path : Bytes) (fs : FileSystem) → fs.attempts ≡ [] → (remove_file path fs).1.attempts ≡ []
unfolding remove_file attempt
remove_file_calm path fs calm = ground arith

remove_stale_calm :
    (dir path : Bytes) (fs : FileSystem)
    → fs.attempts ≡ []
    → (remove_stale dir path fs).attempts ≡ []
unfolding remove_stale
remove_stale_calm dir path fs calm =
    remove_file_calm _ _ (remove_file_calm _ _ (remove_file_calm _ fs calm))

create_dir_all_calm : (fs : FileSystem) → fs.attempts ≡ [] → create_dir_all fs ≡ (true, fs)
unfolding create_dir_all
create_dir_all_calm fs calm = simp (create_dir_all, attempt_calm fs calm)

open_create_calm :
    (path : Bytes) (fs : FileSystem) → fs.attempts ≡ [] → (open_create path fs).1.attempts ≡ []
unfolding open_create attempt
open_create_calm path fs calm = ground arith

mark_failure_calm :
    (dir path : Bytes) (fs : FileSystem)
    → fs.attempts ≡ []
    → (mark_failure dir path fs).attempts ≡ []
unfolding mark_failure
mark_failure_calm dir path fs calm =
    let removed = remove_file_calm (join dir path) fs calm in
    let made = create_dir_all_calm (remove_file (join dir path) fs).1 removed in
    open_create_calm (failed_path dir path) (create_dir_all (remove_file (join dir path) fs).1).1
      (ap (λ (w : Bool × FileSystem). w.1.attempts) made ∙ removed)

reset_transfer-new_state :
    (state : ReceiveState) (stats : Stats) (success : Bool)
    → (reset_transfer state stats success).0 ≡ new_state
unfolding reset_transfer
reset_transfer-new_state state stats success = elim (Option-cases state.file_path) [
  | inl (p, e) ↦ rw (reset_transfer, e) refl
  | inr e ↦ rw (reset_transfer, e) refl
]

-- After the transfer that is under way was given up, the receiver is between two transfers.
abandon_calm :
    (dir : Bytes) (r : Receiver) (o : Option Bytes)
    → IsSound r.state
    → r.state.file_path ≡ o
    → r.fs.attempts ≡ []
    → ((abandon dir o r).state ≡ new_state) × ((abandon dir o r).fs.attempts ≡ [])
unfolding abandon give_up
abandon_calm dir r none v e calm = (v.idle e, calm)
abandon_calm dir r (some prev) v e calm = (
  reset_transfer-new_state (record r.state { output = none }) r.stats false,
  mark_failure_calm dir prev (remove_file (partial_path dir prev) r.fs).1
      (remove_file_calm (partial_path dir prev) r.fs calm),
)

open_truncate_calm :
    (path : Bytes) (fs : FileSystem)
    → fs.attempts ≡ []
    → open_truncate path fs ≡ (
      some (record { name = resolve path; position = 0 }),
      record fs { files = put (resolve path) [] fs.files },
    )
unfolding open_truncate
open_truncate_calm path fs calm = simp (open_truncate, attempt_calm fs calm)

set_len_calm :
    (f : File) (n : ℕ) (fs : FileSystem)
    → fs.attempts ≡ []
    → set_len f n fs
      ≡ (true, record fs { files = put f.name (resize n (contents f.name fs.files)) fs.files })
unfolding set_len
set_len_calm f n fs calm = simp (set_len, attempt_calm fs calm)

-- An open file of the right length, with nothing written yet.
abbrev Opened : Bytes → FileName → Option File × FileSystem → Type 0
Opened c name (none, fs) = ⊥
Opened c name (some file, fs) = (file.name ≡ name) × Output c name 0 fs

length-resize_nil : (n : ℕ) → length (resize n []) ≡ n
length-resize_nil n = omega (
  arith,
  length-append (take {A = ℕ} n []) (replicate {A = ℕ} (n - 0) 0),
  length-take {A = ℕ} n [],
  length-replicate {A = ℕ} (n - 0) 0,
)

nothing_yet : (c bytes : Bytes) → take (chunk_begin c 0) bytes ≡ take (chunk_begin c 0) c
nothing_yet c bytes =
    let none_of_it : 0 ≡ chunk_begin c 0 = omega arith in
    subst (λ k. take k bytes ≡ take k c) none_of_it refl

size_output-Opened :
    (c : Bytes) (file : File) (fs : FileSystem)
    → lookup file.name fs.files ≡ some []
    → fs.attempts ≡ []
    → Opened c file.name (size_output (length c) (some file, fs))
unfolding size_output
size_output-Opened c file fs found calm = elim (Bool-cases (ltb 0 (length c))) [
  | inl e ↦
      let sized = resize (length c) [] in
      let same : contents file.name fs.files ≡ [] = rw (contents, found) refl in
      rw (e, set_len_calm file (length c) fs calm, same)
        (
          refl,
          record {
            bytes = sized;
            found = lookup-put_self file.name sized fs.files;
            same_length = length-resize_nil (length c);
            agrees = nothing_yet c sized;
            calm = calm;
          },
        )
  | inr e ↦ rw e (
    refl,
    record {
      bytes = [];
      found = found;
      same_length = ground arith;
      agrees = nothing_yet c [];
      calm = calm;
    },
  )
]

open_output_file-Opened :
    (dir path c : Bytes) (fs : FileSystem)
    → fs.attempts ≡ []
    → Opened c (resolve (partial_path dir path)) (open_output_file dir path (length c) fs)
unfolding open_output_file
open_output_file-Opened dir path c fs calm =
    let name = resolve (partial_path dir path) in
    simp (create_dir_all_calm fs calm, open_truncate_calm (partial_path dir path) fs calm)
      (size_output-Opened c (record { name = name; position = 0 })
        (record fs { files = put name [] fs.files }) (lookup-put_self name [] fs.files) calm)

module _ (u : Upload) (dir : Bytes) where
  open u use {path_hash, path, name}

  -- What the START packet says.
  abbrev pub announced : Announcement
  announced = record {
    path = path;
    size = length u.contents;
    path_hash = path_hash;
    parity_per_batch = batch_parity_chunks;
  }

  begin-Session :
      (stats : Stats) (fs : FileSystem) (queue : List Packet) (o : Option File × FileSystem)
      → Opened u.contents name o
      → let r = begin dir announced (idle stats fs queue) o in
        Session u 0 r × (buffers r ≡ ([], []))
  unfolding begin batch_start
  begin-Session stats fs queue (none, fs') h = elim h [ ]
  begin-Session stats fs queue (some file, fs') (named, output) = (
    record {
      sound = record {
        in_batch = tt;
        in_parity = tt;
        chunk_sizes = tt;
        shard_sizes = tt;
        counted = refl;
        idle = λ n. cc;
      };
      active = refl;
      hashed = refl;
      sized = refl;
      with_parity = refl;
      current = refl;
      going = refl;
      early = omega arith;
      in_batch = tt;
      genuine = tt;
      genuine_parity = tt;
      file = file;
      opened = refl;
      named = named;
      output = output;
    },
    refl,
  )

  -- A receiver that is not receiving this file opens it, and gives up what it is receiving.
  pub new_file-Session :
      (r : Receiver)
      → IsSound r.state
      → is_current r.state.file_path path ≡ false
      → r.fs.attempts ≡ []
      → name ≡ resolve (partial_path dir path)
      → is_safe_rel_path path ≡ true
      → contains_byte 0 path ≡ false
      → let r' = new_file dir r announced in Session u 0 r' × (buffers r' ≡ ([], []))
  unfolding new_file open_transfer
  new_file-Session r v other calm placed safe no_nul =
      let q = abandon dir r.state.file_path r in
      let (free, quiet) = abandon_calm dir r r.state.file_path v refl calm in
      let opened : Opened u.contents name
          (open_output_file dir path (length u.contents) (remove_stale dir path q.fs)) =
        rw placed (
          open_output_file-Opened dir path u.contents (remove_stale dir path q.fs)
            (remove_stale_calm dir path q.fs quiet)) in
      rw (other, safe, no_nul)
        (subst
          (λ (s : Receiver).
            let r' =
              begin dir announced s
                (open_output_file dir path (length u.contents) (remove_stale dir path q.fs)) in
            Session u 0 r' × (buffers r' ≡ ([], [])))
          (sym (ap (λ state. record q { state = state }) free))
          (begin-Session q.stats q.fs q.udp_queue
            (open_output_file dir path (length u.contents) (remove_stale dir path q.fs)) opened))
