-- ===== src/Receive/Session/Whole.antt =====
-- A whole transfer at the receiver, from the first START to the last END.
use data_diode.Prelude.{
  ℕ, zero, suc, ◌≤◌, min, Bool, true, false, List, [], ◌∷◌, ◌++◌, some, ◌≡◌, refl, sym, ap, ◌∙◌,
  subst, arith, Bytes, length, replicate, beq_bytes_refl,
}
use data_diode.SafePath.{is_safe_rel_path, join}
use data_diode.SafePath.Inside.{resolve}
use data_diode.FileSystem.{lookup}
use data_diode.Utf8.{from_utf8, from_utf8-eq-some}
use data_diode.Proto.{
  batch_parity_chunks, pkg_type_start, pkg_type_end, empty_hash, encode_parity_field,
}
use data_diode.Proto.Header.{decode-encode_parity_field}
use data_diode.Receive.Packet.{Packet}
use data_diode.Receive.State.{Receiver, new_state}
use data_diode.Receive.Buffer.Bounds.{IsSound}
use data_diode.Receive.Finalize.{ReedSolomon}
use data_diode.Receive.Transfer.{partial_path, new_file, contains_byte, is_current}
use data_diode.Receive.Worker.{is_active, announcement, handle_start, dispatch}
use data_diode.Receive.Session.{Upload, chunk_count, Piece, buffers, Session}
use data_diode.Receive.Session.Gather.{IsFit}
use data_diode.Receive.Session.Step.{RestoresBatches}
use data_diode.Receive.Session.Run.{
  dispatch_all, dispatch_all-append, batch_packets, AreComplete, IsLast, dispatch_all-IsLast,
}
use data_diode.Receive.Session.Start.{announced, new_file-Session}
use data_diode.Receive.Session.Finish.{Agrees, Agrees-whole, finish_file-IsDelivered}

-- The path is one that the receiver takes, and the output file is the one it opens for it.
pub record IsPlaced (u : Upload) (dir : Bytes) : Type 0 where
  pub placed : u.name ≡ resolve (partial_path dir u.path)
  pub safe : is_safe_rel_path u.path ≡ true
  pub no_nul : contains_byte 0 u.path ≡ false
  pub text : from_utf8 u.path ≡ some u.path

-- The receiver is in a sound state, is not receiving the file of this path, and no call of the file
-- system will be refused.
pub record IsReady (path : Bytes) (r : Receiver) : Type 0 where
  pub sound : IsSound r.state
  pub other : is_current r.state.file_path path ≡ false
  pub calm : r.fs.attempts ≡ []

module _ (rs : ReedSolomon) (u : Upload) (fit : IsFit u) (dir : Bytes) (enabled : Bool)
    (law : RestoresBatches rs u fit) (p : IsPlaced u dir) where
  open u use {md5, contents, path_hash, path, name}

  abbrev pub start_of_file : Packet
  start_of_file = record {
    pkg_type = pkg_type_start;
    count = length contents;
    path_hash = path_hash;
    data_hash = encode_parity_field batch_parity_chunks;
    content = path;
  }

  abbrev pub end_of_file : ℕ → Packet
  end_of_file count = record {
    pkg_type = pkg_type_end;
    count = count;
    path_hash = empty_hash;
    data_hash = empty_hash;
    content = path;
  }

  announcement_lem : announcement start_of_file ≡ announced u dir
  announcement_lem =
      let lossy = (from_utf8-eq-some path path p.text).1 in
      rw (lossy, (decode-encode_parity_field 100 (omega arith)).0) refl

  started-Session :
      (r : Receiver)
      → IsReady path r
      → let r' = dispatch md5 rs dir enabled r start_of_file in
        Session u 0 r' × (buffers r' ≡ ([], []))
  unfolding dispatch handle_start
  started-Session r h =
      subst (λ a. let r' = new_file dir r a in Session u 0 r' × (buffers r' ≡ ([], [])))
        (sym announcement_lem)
        (new_file-Session u dir r h.sound h.other h.calm p.placed p.safe p.no_nul)

  -- A START packet of the transfer that is under way changes nothing.
  start_ignored :
      (r : Receiver)
      → r.state.file_path ≡ some path
      → dispatch md5 rs dir enabled r start_of_file ≡ r
  unfolding dispatch handle_start new_file
  start_ignored r active =
      let same : is_current r.state.file_path path ≡ true =
        ap (λ o. is_current o path) active ∙ beq_bytes_refl path in
      ap (new_file dir r) announcement_lem ∙ rw same refl

  repeated_start :
      (n : ℕ) (r : Receiver)
      → r.state.file_path ≡ some path
      → dispatch_all rs u fit dir enabled r (replicate n start_of_file) ≡ r
  unfolding dispatch_all
  repeated_start zero r active = refl
  repeated_start (suc n) r active =
      ap (λ q. dispatch_all rs u fit dir enabled q (replicate n start_of_file))
        (start_ignored r active)
      ∙ repeated_start n r active

  -- An END packet without a transfer changes nothing.
  end_ignored :
      (count : ℕ) (r : Receiver)
      → r.state ≡ new_state
      → dispatch md5 rs dir enabled r (end_of_file count) ≡ r
  unfolding dispatch
  end_ignored count r over =
      let off : is_active r.state.file_path ≡ false = ap (λ t. is_active t.file_path) over in
      rw off refl

  repeated_end :
      (n count : ℕ) (r : Receiver)
      → r.state ≡ new_state
      → dispatch_all rs u fit dir enabled r (replicate n (end_of_file count)) ≡ r
  unfolding dispatch_all
  repeated_end zero count r over = refl
  repeated_end (suc n) count r over =
      ap (λ q. dispatch_all rs u fit dir enabled q (replicate n (end_of_file count)))
        (end_ignored count r over)
      ∙ repeated_end n count r over

  -- The packets of the transfer: START packets, what arrives of each batch, END packets.
  abbrev pub arriving : ℕ → List (List Piece) → ℕ → ℕ → List Packet
  arriving starts batches ends count =
      start_of_file
      ∷ (replicate starts start_of_file
          ++ (batch_packets rs u fit dir enabled 0 batches
              ++ (end_of_file count ∷ replicate ends (end_of_file count))))

  module _ (goal : ℕ) (within : goal ≤ chunk_count u) where
    -- A file is at the target, so long as the file that was sent and with its first `goal` chunks, and
    -- the receiver is ready for the next transfer.
    abbrev pub IsPublished : Receiver → Type 0
    IsPublished r =
        (bytes : Bytes) × Agrees contents goal bytes
        × (lookup (resolve (join dir path)) r.fs.files ≡ some bytes)
        × (r.state ≡ new_state)

    end-IsPublished :
        (count : ℕ) (r : Receiver)
        → IsLast rs u fit dir enabled goal r
        → IsPublished (dispatch md5 rs dir enabled r (end_of_file count))
    unfolding dispatch
    end-IsPublished count r l =
        let on = ap is_active l.session.active in
        let (bytes, agrees, done) =
          finish_file-IsDelivered rs u fit dir enabled law goal within p.safe r p.placed l in
        rw on (bytes, agrees, done.found, done.idle)

    ends-IsPublished :
        (ends count : ℕ) (r : Receiver)
        → IsLast rs u fit dir enabled goal r
        → IsPublished (
            dispatch_all rs u fit dir enabled r
              (end_of_file count ∷ replicate ends (end_of_file count)))
    unfolding dispatch_all
    ends-IsPublished ends count r l =
        let (bytes, agrees, found, over) = end-IsPublished count r l in
        subst IsPublished
          (sym (repeated_end ends count (dispatch md5 rs dir enabled r (end_of_file count)) over))
          (bytes, agrees, found, over)

    pub dispatch_all-IsPublished :
        (r : Receiver) (starts ends count : ℕ) (batches : List (List Piece))
        → IsReady path r
        → min 1 (chunk_count u) ≤ goal
        → AreComplete rs u fit dir enabled goal 0 batches
        → IsPublished (dispatch_all rs u fit dir enabled r (arriving starts batches ends count))
    unfolding dispatch_all
    dispatch_all-IsPublished r starts ends count batches ready least complete =
        let run = dispatch_all rs u fit dir enabled in
        let r0 = dispatch md5 rs dir enabled r start_of_file in
        let middle = batch_packets rs u fit dir enabled 0 batches in
        let last = end_of_file count ∷ replicate ends (end_of_file count) in
        let (session, empty) = started-Session r ready in
        let over : run r0 (replicate starts start_of_file ++ (middle ++ last))
            ≡ run (run r0 middle) last =
          dispatch_all-append rs u fit dir enabled (replicate starts start_of_file) (middle ++ last)
            r0
          ∙ ap (λ q. run q (middle ++ last)) (repeated_start starts r0 session.active)
          ∙ dispatch_all-append rs u fit dir enabled middle last r0 in
        subst IsPublished (sym over) (
          ends-IsPublished ends count (run r0 middle) (
            dispatch_all-IsLast rs u fit dir enabled goal batches r0 session empty law least
              complete))

  -- The file is there, and the receiver is ready for the next transfer.
  abbrev pub IsReceived : Receiver → Type 0
  IsReceived r =
      (lookup (resolve (join dir path)) r.fs.files ≡ some contents) × (r.state ≡ new_state)

  pub IsPublished-IsReceived :
      (r : Receiver) → IsPublished (chunk_count u) (omega arith) r → IsReceived r
  IsPublished-IsReceived r (bytes, agrees, found, over) =
      (found ∙ ap some (Agrees-whole contents bytes agrees), over)
