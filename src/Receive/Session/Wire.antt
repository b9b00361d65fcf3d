-- ===== src/Receive/Session/Wire.antt =====
-- A whole transfer at the receiver, from datagrams to the file.
use data_diode.Prelude.{
  ℕ, ◌+◌, ◌^◌, ◌≤◌, ◌<◌, min, Bool, false, List, [], ◌∷◌, ◌++◌, ◌≡◌, refl, sym, ap, ◌∙◌, subst,
  arith, Bytes, length, replicate, All, All-append, All-replicate,
}
use data_diode.Proto.{encode_packet, md5_hex}
use data_diode.Proto.Header.{decode-encode_parity_field}
use data_diode.Receive.Packet.{Packet}
use data_diode.Receive.Packet.RoundTrip.{decode_packet-encode_packet}
use data_diode.Receive.State.{Receiver}
use data_diode.Receive.Chunk.{total_chunks}
use data_diode.Receive.Finalize.{ReedSolomon}
use data_diode.Receive.Worker.{dispatch, receive_packet, receive, receive_all}
use data_diode.Receive.Session.{Upload, chunk_count, Piece, chunk, shard, packet_of, IsPiece}
use data_diode.Receive.Session.Gather.{IsFit}
use data_diode.Receive.Session.Step.{RestoresBatches}
use data_diode.Receive.Session.Run.{dispatch_all, packets_of, batch_packets, AreComplete}
use data_diode.Receive.Session.Whole.{
  IsPlaced, IsReady, start_of_file, end_of_file, arriving, IsPublished, dispatch_all-IsPublished,
  IsReceived, IsPublished-IsReceived,
}

-- The datagram of a packet.
abbrev pub wire : Packet → Bytes
wire packet =
    encode_packet packet.pkg_type packet.count packet.path_hash packet.data_hash packet.content

-- The fields fit their places in the header.
abbrev pub FitsHeader : Packet → Type 0
FitsHeader packet =
    (packet.pkg_type < 10)
    × (packet.count < 10 ^ 10)
    × (length packet.path_hash ≡ 32)
    × (length packet.data_hash ≡ 32)

-- Each with no lock found poisoned.
abbrev pub datagrams : List Packet → List (Bool × Bytes)
datagrams [] = []
datagrams (packet ∷ packets) = (false, wire packet) ∷ datagrams packets

module _ (rs : ReedSolomon) (u : Upload) (fit : IsFit u) (dir : Bytes) (enabled : Bool) where
  open u use {md5, contents, path_hash, path}

  receive_all-dispatch_all :
      (packets : List Packet) (r : Receiver)
      → All FitsHeader packets
      → receive_all md5 rs dir enabled r (datagrams packets)
        ≡ dispatch_all rs u fit dir enabled r packets
  unfolding receive_all receive receive_packet dispatch_all
  receive_all-dispatch_all [] r h = refl
  receive_all-dispatch_all (packet ∷ packets) r ((type, count, hash, digest), h) =
      ap
        (λ o.
          receive_all md5 rs dir enabled (receive_packet md5 rs dir enabled o false r)
            (datagrams packets))
        (decode_packet-encode_packet packet.pkg_type packet.count packet.path_hash packet.data_hash
          packet.content type count hash digest)
      ∙ receive_all-dispatch_all packets (dispatch md5 rs dir enabled r packet) h

  module _ (hashed : length path_hash ≡ 32)
      (digests : (s : Bytes) → length (md5_hex md5 s) ≡ 32) where
    packet_of-FitsHeader :
        (b : ℕ) (piece : Piece) → IsPiece u b piece → FitsHeader (packet_of u b piece)
    unfolding total_chunks
    packet_of-FitsHeader b (chunk i) h =
        (omega arith, omega (arith, fit.small, h.1), hashed, digests _)
    packet_of-FitsHeader b (shard j) h =
        (omega arith, omega (arith, fit.small, h.0, h.1), hashed, digests _)

    packets_of-FitsHeader :
        (b : ℕ) (pieces : List Piece)
        → All (IsPiece u b) pieces
        → All FitsHeader (packets_of rs u fit dir enabled b pieces)
    packets_of-FitsHeader b [] h = tt
    packets_of-FitsHeader b (piece ∷ pieces) (h, later) =
        (packet_of-FitsHeader b piece h, packets_of-FitsHeader b pieces later)

    batch_packets-FitsHeader :
        (goal b : ℕ) (batches : List (List Piece))
        → AreComplete rs u fit dir enabled goal b batches
        → All FitsHeader (batch_packets rs u fit dir enabled b batches)
    batch_packets-FitsHeader goal b [] h = tt
    batch_packets-FitsHeader goal b (pieces ∷ batches) (early, all, several, h) =
        All-append FitsHeader (packets_of rs u fit dir enabled b pieces)
          (batch_packets rs u fit dir enabled (b + 1) batches) (packets_of-FitsHeader b pieces all)
          (batch_packets-FitsHeader goal (b + 1) batches h)

    module _ (law : RestoresBatches rs u fit) (p : IsPlaced u dir) where
      -- A receiver in a sound state, idle or receiving another file, gets START packets of the file, of
      -- each batch in turn as far as the one with chunk `goal - 1` enough packets, and END packets.
      -- Then a file is published at its path below the output directory and the receiver is idle
      -- again, whether batches behind `goal` arrived or not: the file is as long as the one that was
      -- sent and has its first `goal` chunks. One chunk at least is asked for if the file has any.
      -- This holds under the conditions on the file system, the locks, the Reed-Solomon code, the
      -- size of the file, the hashes and the path that `receive_all-IsReceived` names.
      pub receive_all-IsPublished :
          (goal : ℕ) (within : goal ≤ chunk_count u) (r : Receiver) (starts ends count : ℕ)
          (batches : List (List Piece))
          → IsReady path r
          → min 1 (chunk_count u) ≤ goal
          → count < 10 ^ 10
          → AreComplete rs u fit dir enabled goal 0 batches
          → IsPublished rs u fit dir enabled law p goal within (
              receive_all md5 rs dir enabled r
                (datagrams (arriving rs u fit dir enabled law p starts batches ends count)))
      receive_all-IsPublished goal within r starts ends count batches ready least few complete =
          let start = start_of_file rs u fit dir enabled law p in
          let end = end_of_file rs u fit dir enabled law p count in
          let middle = batch_packets rs u fit dir enabled 0 batches in
          let start_fits : FitsHeader start =
            (omega arith, fit.small, hashed, (decode-encode_parity_field 100 (omega arith)).1) in
          let end_fits : FitsHeader end = (omega arith, few, refl, refl) in
          let fits : All FitsHeader
              (arriving rs u fit dir enabled law p starts batches ends count) =
            (
              start_fits,
              All-append FitsHeader (replicate starts start) (middle ++ end ∷ replicate ends end)
                  (All-replicate FitsHeader starts start start_fits)
                  (All-append FitsHeader middle (end ∷ replicate ends end)
                    (batch_packets-FitsHeader goal 0 batches complete)
                    (end_fits, All-replicate FitsHeader ends end end_fits)),
            ) in
          subst (IsPublished rs u fit dir enabled law p goal within)
            (sym (
              receive_all-dispatch_all
                (arriving rs u fit dir enabled law p starts batches ends count) r fits))
            (dispatch_all-IsPublished rs u fit dir enabled law p goal within r starts ends count
              batches ready least complete)

      -- A receiver in a sound state, idle or receiving another file, gets a START packet of the file, repeated as often as may be, of each batch
      -- in turn some of its data and parity packets, in any order and repeated at will but as many
      -- different ones as it has data packets, and an END packet, repeated at will. Then the file
      -- is at its path below the output directory, byte for byte, and the receiver is idle again,
      -- ready for the next. This holds when no file system call is refused, no lock is found
      -- poisoned, the Reed-Solomon code keeps its promise for the sizes of these batches and makes
      -- shards of 960 bytes, the file is shorter than 10^10 bytes, the hashes have 32 bytes, and the
      -- path is well-formed UTF-8, safe and without a NUL byte.
      pub receive_all-IsReceived :
          (r : Receiver) (starts ends count : ℕ) (batches : List (List Piece))
          → IsReady path r
          → count < 10 ^ 10
          → AreComplete rs u fit dir enabled (chunk_count u) 0 batches
          → IsReceived rs u fit dir enabled law p (
              receive_all md5 rs dir enabled r
                (datagrams (arriving rs u fit dir enabled law p starts batches ends count)))
      receive_all-IsReceived r starts ends count batches ready few complete =
          IsPublished-IsReceived rs u fit dir enabled law p
            (receive_all md5 rs dir enabled r
              (datagrams (arriving rs u fit dir enabled law p starts batches ends count)))
            (receive_all-IsPublished (chunk_count u) (omega arith) r starts ends count batches ready
              (omega arith) few complete)
