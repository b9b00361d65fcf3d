-- ===== src/Receive/Worker/Confinement.antt =====
-- Whatever datagrams arrive, and however often the lock is poisoned, the worker thread changes no
-- file outside the output directory.
use data_diode.Prelude.{
  ℕ, ◌%◌, Bool, true, false, not, ◌&&◌, List, [], ◌∷◌, inl, inr, Option, none, some, ◌≡◌, arith,
  Bytes, ◌==◌, ltb, ==-cases, Option-cases, both_branches,
}
use data_diode.SafePath.{is_safe_rel_path}
use data_diode.SafePath.Inside.{IsInside}
use data_diode.FileSystem.{FileName, FileSystem, lookup}
use data_diode.FileSystem.Frame.{SameOutside-refl, remove_file-SameOutside}
use data_diode.Proto.{
  pkg_type_start, pkg_type_data, pkg_type_end, pkg_type_parity, pkg_type_udp, batch_parity_chunks,
}
use data_diode.Receive.Packet.{Packet, decode_packet}
use data_diode.Receive.State.{ReceiveState, Stats, Receiver}
use data_diode.Receive.Chunk.{is_chunk_valid, batch_for_data, batch_for_parity}
use data_diode.Receive.Buffer.{buffer_data, buffer_parity}
use data_diode.Receive.Finalize.{ReedSolomon}
use data_diode.Receive.Finalize.Frame.{advance-Keeps}
use data_diode.Receive.Transfer.{partial_path}
use data_diode.Receive.Transfer.Confinement.{
  Territory, Confined, Stays, Stays-trans, new_file-Stays, finish_file-Stays,
}
use data_diode.Receive.Transfer.Confinement.Directory.{output_territory, safe-Admitted}
use data_diode.Receive.Worker.{
  is_active, recover, announcement, handle_start, handle_udp, advance_if_later, handle_data,
  handle_parity, dispatch, receive_packet, receive, receive_all, init,
}

buffer_data_keeps :
    (state : ReceiveState) (stats : Stats) (packet : Packet)
    → ((buffer_data state stats packet).0.file_path ≡ state.file_path)
      × ((buffer_data state stats packet).0.output ≡ state.output)
unfolding buffer_data
buffer_data_keeps state stats packet = ground arith

buffer_parity_keeps :
    (state : ReceiveState) (packet : Packet) (idx : ℕ)
    → ((buffer_parity state packet idx).file_path ≡ state.file_path)
      × ((buffer_parity state packet idx).output ≡ state.output)
unfolding buffer_parity
buffer_parity_keeps state packet idx = ground arith

module _ (dir : Bytes) (land : Territory dir) where
  Stays-refl : (r : Receiver) → Confined dir land r.state → Stays dir land r r
  Stays-refl r c = record { same = SameOutside-refl land.Inside r.fs; confined = c }

  recover-Stays : (r : Receiver) → Confined dir land r.state → Stays dir land r (recover dir r)
  unfolding recover
  recover-Stays r c = elim (Option-cases r.state.file_path) [
    | inl (p, e) ↦ rw e (record {
      same =
          remove_file-SameOutside land.Inside (partial_path dir p) r.fs
            (land.partial p (rw e at c.path));
      confined = record { path = tt; output = tt };
    })
    | inr e ↦ rw e (record {
      same = SameOutside-refl land.Inside r.fs;
      confined = record { path = tt; output = tt };
    })
  ]

  handle_udp-Stays :
      (enabled : Bool) (r : Receiver) (packet : Packet)
      → Confined dir land r.state
      → Stays dir land r (handle_udp enabled r packet)
  unfolding handle_udp
  handle_udp-Stays enabled r packet c =
      both_branches (Stays dir land r) enabled
        (record { same = SameOutside-refl land.Inside r.fs; confined = c }) (Stays-refl r c)

  -- A new state with the same path and output file is as confined as the old one.
  same_transfer :
      (r : Receiver) (state : ReceiveState) (stats : Stats)
      → Confined dir land r.state
      → (state.file_path ≡ r.state.file_path) × (state.output ≡ r.state.output)
      → Stays dir land r (record r { state = state; stats = stats })
  same_transfer r state stats c (p, o) = record {
    same = SameOutside-refl land.Inside r.fs;
    confined = record { path = rw p c.path; output = rw o c.output };
  }

  module _ (md5 : Bytes → Bytes) (rs : ReedSolomon) where
    advance_if_later-Stays :
        (r : Receiver) (batch : ℕ)
        → Confined dir land r.state
        → Stays dir land r (advance_if_later md5 rs r batch)
    unfolding advance_if_later
    advance_if_later-Stays r batch c =
        let k = advance-Keeps land.Inside rs r.state batch r.fs c.output in
        both_branches (Stays dir land r) (ltb r.state.current_batch batch)
          (record {
            same = k.same;
            confined = record { path = rw k.same_path c.path; output = k.named };
          })
          (Stays-refl r c)

    handle_data-Stays :
        (r : Receiver) (packet : Packet)
        → Confined dir land r.state
        → Stays dir land r (handle_data md5 rs r packet)
    unfolding handle_data
    handle_data-Stays r packet c =
        let batch = batch_for_data packet.count in
        let q = advance_if_later md5 rs r batch in
        let moved = advance_if_later-Stays r batch c in
        let b = buffer_data q.state q.stats packet in
        both_branches (Stays dir land r)
          (not (not r.state.failed && is_chunk_valid md5 packet r.state pkg_type_data))
          (Stays-refl r c)
          (both_branches (Stays dir land r) (not q.state.failed && batch == q.state.current_batch)
            (Stays-trans dir land r q (record q { state = b.0; stats = b.1 }) moved
              (same_transfer q b.0 b.1 moved.confined (buffer_data_keeps q.state q.stats packet)))
            moved)

    handle_parity-Stays :
        (r : Receiver) (packet : Packet)
        → Confined dir land r.state
        → Stays dir land r (handle_parity md5 rs r packet)
    unfolding handle_parity
    handle_parity-Stays r packet c =
        let batch = batch_for_parity packet.count in
        let q = advance_if_later md5 rs r batch in
        let moved = advance_if_later-Stays r batch c in
        let b = buffer_parity q.state packet (packet.count % batch_parity_chunks) in
        both_branches (Stays dir land r)
          (not (not r.state.failed && is_chunk_valid md5 packet r.state pkg_type_parity))
          (Stays-refl r c)
          (both_branches (Stays dir land r) (not q.state.failed && batch == q.state.current_batch)
            (Stays-trans dir land r q (record q { state = b }) moved
              (same_transfer q b q.stats moved.confined
                (buffer_parity_keeps q.state packet (packet.count % batch_parity_chunks))))
            moved)

    module _ (enabled : Bool) where
      -- A path that a packet announces, if it is accepted, belongs to the territory.
      abbrev pub TakesStart : Packet → Type 0
      TakesStart packet =
          packet.pkg_type ≡ pkg_type_start
          → is_safe_rel_path (announcement packet).path ≡ true
          → land.Takes (announcement packet).path

      abbrev pub TakesAny : Option Packet → Type 0
      TakesAny none = Unit
      TakesAny (some packet) = TakesStart packet

      abbrev pub TakesAll : List (Bool × Bytes) → Type 0
      TakesAll [] = Unit
      TakesAll ((poisoned, raw) ∷ raws) = TakesAny (decode_packet raw) × TakesAll raws

      dispatch-Stays :
          (r : Receiver) (packet : Packet)
          → TakesStart packet
          → Confined dir land r.state
          → Stays dir land r (dispatch md5 rs dir enabled r packet)
      unfolding dispatch handle_start
      dispatch-Stays r packet takes c =
          let active = is_active r.state.file_path in
          let others =
            both_branches (Stays dir land r) ((packet.pkg_type == pkg_type_data) && active)
              (handle_data-Stays r packet c)
              (both_branches (Stays dir land r) ((packet.pkg_type == pkg_type_parity) && active)
                (handle_parity-Stays r packet c)
                (both_branches (Stays dir land r) ((packet.pkg_type == pkg_type_end) && active)
                  (finish_file-Stays dir land rs r c)
                  (both_branches (Stays dir land r) (packet.pkg_type == pkg_type_udp)
                    (handle_udp-Stays enabled r packet c) (Stays-refl r c)))) in
          elim (==-cases packet.pkg_type pkg_type_start) [
            | inl (e, t) ↦ rw t (new_file-Stays dir land r (announcement packet) (takes e) c)
            | inr (e, t) ↦ rw t others
          ]

      receive_packet-Stays :
          (p : Option Packet) (poisoned : Bool) (r : Receiver)
          → TakesAny p
          → Confined dir land r.state
          → Stays dir land r (receive_packet md5 rs dir enabled p poisoned r)
      unfolding receive_packet
      receive_packet-Stays none poisoned r takes c = Stays-refl r c
      receive_packet-Stays (some packet) true r takes c =
          let q = recover dir r in
          let s = recover-Stays r c in
          Stays-trans dir land r q (dispatch md5 rs dir enabled q packet) s
            (dispatch-Stays q packet takes s.confined)
      receive_packet-Stays (some packet) false r takes c = dispatch-Stays r packet takes c

      pub receive_all-Stays :
          (raws : List (Bool × Bytes)) (r : Receiver)
          → TakesAll raws
          → Confined dir land r.state
          → Stays dir land r (receive_all md5 rs dir enabled r raws)
      unfolding receive_all receive
      receive_all-Stays [] r takes c = Stays-refl r c
      receive_all-Stays ((poisoned, raw) ∷ raws) r (takes, later) c =
          let q = receive_packet md5 rs dir enabled (decode_packet raw) poisoned r in
          let s = receive_packet-Stays (decode_packet raw) poisoned r takes c in
          Stays-trans dir land r q (receive_all md5 rs dir enabled q raws) s
            (receive_all-Stays raws q later s.confined)

output_territory-TakesAny :
    (md5 : Bytes → Bytes) (rs : ReedSolomon) (dir : Bytes) (enabled : Bool) (o : Option Packet)
    → TakesAny dir (output_territory dir) md5 rs enabled o
output_territory-TakesAny md5 rs dir enabled none = tt
output_territory-TakesAny md5 rs dir enabled (some packet) =
    λ start safe. safe-Admitted (announcement packet).path safe

output_territory-TakesAll :
    (md5 : Bytes → Bytes) (rs : ReedSolomon) (dir : Bytes) (enabled : Bool)
    (raws : List (Bool × Bytes))
    → TakesAll dir (output_territory dir) md5 rs enabled raws
output_territory-TakesAll md5 rs dir enabled [] = tt
output_territory-TakesAll md5 rs dir enabled ((poisoned, raw) ∷ raws) = (
  output_territory-TakesAny md5 rs dir enabled (decode_packet raw),
  output_territory-TakesAll md5 rs dir enabled raws,
)

-- From its start on, the receiver leaves every file as it was that does not lie below the output
-- directory: whatever the output directory is, whatever datagrams arrive, whatever the
-- Reed-Solomon decoder and the hash answer, whichever calls of the file system are refused, and
-- whenever the state lock is found poisoned.
pub receive_all_confined :
    (md5 : Bytes → Bytes) (rs : ReedSolomon) (output_dir : Bytes) (udp_forwarding_enabled : Bool)
    (fs : FileSystem) (raws : List (Bool × Bytes)) (name : FileName)
    → ¬ IsInside output_dir name
    → lookup name (receive_all md5 rs output_dir udp_forwarding_enabled (init fs) raws).fs.files
      ≡ lookup name fs.files
unfolding init
receive_all_confined md5 rs output_dir udp_forwarding_enabled fs raws =
    (receive_all-Stays output_dir (output_territory output_dir) md5 rs udp_forwarding_enabled raws
      (init fs) (output_territory-TakesAll md5 rs output_dir udp_forwarding_enabled raws)
      (record { path = tt; output = tt })).same
