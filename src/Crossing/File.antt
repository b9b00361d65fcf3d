-- ===== src/Crossing/File.antt =====
-- A file from the sender's disk to the receiver's, over a link that loses packets.
use data_diode.Prelude.{
  ℕ, zero, suc, ◌-◌, ◌*◌, ◌<◌, Bool, false, List, [], ◌∷◌, ◌++◌, map, map-append, some, ◌≡◌, refl,
  sym, ap, ◌∙◌, subst, arith, Bytes, length, replicate,
}
use data_diode.Proto.{batch_data_chunks, md5_hex}
use data_diode.Receive.Packet.{Packet}
use data_diode.Receive.State.{Receiver}
use data_diode.Receive.Chunk.{total_chunks}
use data_diode.Receive.Finalize.{ReedSolomon}
use data_diode.Receive.Finalize.Contents.{nth_chunk}
use data_diode.Receive.Worker.{receive_all}
use data_diode.Receive.Session.{Upload, chunk_count}
use data_diode.Receive.Session.Gather.{IsFit}
use data_diode.Receive.Session.Step.{RestoresBatches}
use data_diode.Receive.Session.Run.{batch_packets}
use data_diode.Receive.Session.Whole.{
  IsPlaced, IsReady, start_of_file, end_of_file, arriving, IsReceived,
}
use data_diode.Receive.Session.Wire.{wire, datagrams, receive_all-IsReceived}
use data_diode.Send.{chunks}
use data_diode.Send.Link.{Link, SendCfg, control_resend}
use data_diode.Send.Link.Calm.{NeverRefused}
use data_diode.Send.Reader.{Reader, ReadStep}
use data_diode.Send.Reader.Exact.{NoFailure}
use data_diode.Send.Parity.{ReedSolomonEncoder}
use data_diode.Send.File.{SourceFile, send_file_chunks}
use data_diode.Send.File.Packets.{
  groups_within, batches_from, start_packet, end_packet, file_packets,
}
use data_diode.Send.File.Complete.{send_file_chunks-file_packets}
use data_diode.Crossing.Keep.{kept, keep, keep-append, keep-replicate}
use data_diode.Crossing.Cut.{tabulate, length-tabulate, tabulate_at, chunks-tabulate}
use data_diode.Crossing.Pieces.{EncodesBatches}
use data_diode.Crossing.Batches.{joined, KeepsBatches, kept_pieces, keep-batches}
use data_diode.Crossing.Arrival.{kept_pieces-AreComplete}

-- Which packets of a file arrive: of the START packets, of each batch, and of the END packets.
pub record Arrivals : Type 0 where
  pub starts : List Bool
  pub batches : List (List Bool)
  pub ends : List Bool

abbrev pub mask_of : Arrivals → List Bool
mask_of a = a.starts ++ joined a.batches a.ends

-- The datagrams as the worker takes them, with no lock found poisoned.
abbrev pub arrived : List Bytes → List (Bool × Bytes)
arrived raws = map (λ raw. (false, raw)) raws

datagrams-arrived : (packets : List Packet) → datagrams packets ≡ arrived (map wire packets)
datagrams-arrived [] = refl
datagrams-arrived (packet ∷ packets) = ap (◌∷◌ (false, wire packet)) (datagrams-arrived packets)

map-replicate {ℓ κ} :
    {A : Type ℓ} {B : Type κ} (f : A → B) (n : ℕ) (x : A)
    → map f (replicate n x) ≡ replicate n (f x)
map-replicate f zero x = refl
map-replicate f (suc n) x = ap (◌∷◌ (f x)) (map-replicate f n x)

-- A repeated packet that arrives at least once.
keep_repeated :
    (mask : List Bool) (n : ℕ) (x : Bytes)
    → length mask ≡ n
    → 0 < kept mask
    → keep mask (replicate n x) ≡ x ∷ replicate (kept mask - 1) x
keep_repeated mask n x same some_left =
    let one_more : kept mask ≡ suc (kept mask - 1) = omega arith in
    ap (λ m. keep mask (replicate m x)) (sym same)
    ∙ keep-replicate mask x
    ∙ ap (λ m. replicate m x) one_more

module _ (rs : ReedSolomon) (u : Upload) (fit : IsFit u) (dir : Bytes) (enabled : Bool)
    (enc : ReedSolomonEncoder) (encodes : EncodesBatches u fit enc) (law : RestoresBatches rs u fit)
    (p : IsPlaced u dir) where
  open u use {md5, contents, path_hash, path}

  -- One START packet at least, one END packet at least, and of each batch as many packets as it has
  -- data packets.
  pub record IsEnough (a : Arrivals) : Type 0 where
    pub three_starts : length a.starts ≡ control_resend
    pub a_start : 0 < kept a.starts
    pub enough : KeepsBatches rs u fit dir enabled enc encodes 0 a.batches
    pub three_ends : length a.ends ≡ control_resend
    pub an_end : 0 < kept a.ends

  abbrev start_raw : Bytes
  start_raw = wire (start_of_file rs u fit dir enabled law p)

  abbrev end_raw : Bytes
  end_raw = wire (end_of_file rs u fit dir enabled law p (chunk_count u))

  abbrev packets_at : Bytes → ℕ → List Bytes → List Bytes
  packets_at hash count cs =
      replicate control_resend (start_packet path hash (length contents))
      ++ (batches_from md5 hash enc 0 (groups_within count cs)
          ++ replicate control_resend (end_packet path count))

  -- The packets of the file in the receiver's terms.
  file_packets-wire :
      path_hash ≡ md5_hex md5 path
      → file_packets md5 enc path (length contents) contents
        ≡ replicate control_resend start_raw
          ++ (batches_from md5 path_hash enc 0 (
                groups_within (chunk_count u) (
                  tabulate
                    (0 * batch_data_chunks)
                    (chunk_count u - 0 * batch_data_chunks)
                    (nth_chunk contents)))
              ++ replicate control_resend end_raw)
  unfolding file_packets
  file_packets-wire hashed =
      let left =
        tabulate (0 * batch_data_chunks) (chunk_count u - 0 * batch_data_chunks)
          (nth_chunk contents) in
      let cut : chunks contents ≡ left =
        chunks-tabulate contents
        ∙ tabulate_at (nth_chunk contents) 0 (0 * batch_data_chunks) (chunk_count u)
            (chunk_count u - 0 * batch_data_chunks) refl (omega arith) in
      let counted : length left ≡ chunk_count u =
        length-tabulate (nth_chunk contents) (0 * batch_data_chunks)
          (chunk_count u - 0 * batch_data_chunks)
        ∙ omega arith in
      ap (λ hash. packets_at hash (length (chunks contents)) (chunks contents)) (sym hashed)
      ∙ ap (λ cs. packets_at path_hash (length cs) cs) cut
      ∙ ap (λ n. packets_at path_hash n left) counted

  -- What arrives of the file.
  keep-file_packets :
      (a : Arrivals)
      → IsEnough a
      → path_hash ≡ md5_hex md5 path
      → arrived (keep (mask_of a) (file_packets md5 enc path (length contents) contents))
        ≡ datagrams (
            arriving rs u fit dir enabled law p
              (kept a.starts - 1)
              (kept_pieces rs u fit dir enabled enc encodes 0 a.batches)
              (kept a.ends - 1)
              (chunk_count u))
  keep-file_packets a h hashed =
      let start = start_of_file rs u fit dir enabled law p in
      let end = end_of_file rs u fit dir enabled law p (chunk_count u) in
      let left =
        tabulate (0 * batch_data_chunks) (chunk_count u - 0 * batch_data_chunks)
          (nth_chunk contents) in
      let batches = batches_from md5 path_hash enc 0 (groups_within (chunk_count u) left) in
      let ends = replicate control_resend end_raw in
      let pieces = kept_pieces rs u fit dir enabled enc encodes 0 a.batches in
      let inner = batch_packets rs u fit dir enabled 0 pieces in
      let (s, e) : ℕ × ℕ = (kept a.starts - 1, kept a.ends - 1) in
      let all : keep (mask_of a) (file_packets md5 enc path (length contents) contents)
          ≡ (start_raw ∷ replicate s start_raw)
            ++ (map wire inner ++ (end_raw ∷ replicate e end_raw)) =
        ap (keep (mask_of a)) (file_packets-wire hashed)
        ∙ keep-append a.starts (joined a.batches a.ends) (replicate control_resend start_raw)
            (batches ++ ends) h.three_starts
        ∙ ap (λ xs. xs ++ keep (joined a.batches a.ends) (batches ++ ends))
            (keep_repeated a.starts control_resend start_raw h.three_starts h.a_start)
        ∙ ap (λ xs. (start_raw ∷ replicate s start_raw) ++ xs)
            (keep-batches rs u fit dir enabled enc encodes a.batches 0 (chunk_count u) a.ends ends
                (omega arith) h.enough
              ∙ ap (λ xs. map wire inner ++ xs)
                  (keep_repeated a.ends control_resend end_raw h.three_ends h.an_end)) in
      let wired : map wire (arriving rs u fit dir enabled law p s pieces e (chunk_count u))
          ≡ (start_raw ∷ replicate s start_raw)
            ++ (map wire inner ++ (end_raw ∷ replicate e end_raw)) =
        map-append wire (start ∷ replicate s start) (inner ++ (end ∷ replicate e end))
        ∙ ap (λ xs. (start_raw ∷ xs) ++ map wire (inner ++ (end ∷ replicate e end)))
            (map-replicate wire s start)
        ∙ ap (λ xs. (start_raw ∷ replicate s start_raw) ++ xs)
            (map-append wire inner (end ∷ replicate e end)
              ∙ ap (λ xs. map wire inner ++ (end_raw ∷ xs)) (map-replicate wire e end)) in
      ap arrived (all ∙ sym wired)
      ∙ sym (datagrams-arrived (arriving rs u fit dir enabled law p s pieces e (chunk_count u)))

  module _ (hashed : path_hash ≡ md5_hex md5 path)
      (digests : (s : Bytes) → length (md5_hex md5 s) ≡ 32) where
    -- A file crosses the link to a receiver in a sound state that is idle or receiving another
    -- file. The sender sends it with `send_file_chunks`, and of its packets there arrive, in
    -- order, one of the three START packets at least, of each batch as many packets as it has data
    -- packets, whichever they are, and one of the three END packets at least. Then the file is at
    -- its path below the receiver's output directory, byte for byte, and the receiver is idle
    -- again; at the sender the file is removed if it can be. This holds when the sender's metadata
    -- and open calls work, no read of it fails and no send is refused (reads may be short or
    -- interrupted, and buffers full), its link was empty, no file system call of the receiver is
    -- refused and no lock is found poisoned, the Reed-Solomon encoder and decoder agree for the
    -- sizes of these batches and make shards of 960 bytes, the file is shorter than 10^10 bytes,
    -- hashes have 32 bytes, and the path is well-formed UTF-8, safe and without a NUL byte.
    pub send_file_chunks-receive_all :
        (cfg : SendCfg) (steps : List ReadStep) (removable : Bool) (link : Link) (r : Receiver)
        (a : Arrivals)
        → NoFailure steps
        → NeverRefused link.answers
        → link.packets ≡ []
        → IsReady path r
        → IsEnough a
        → let file : SourceFile = record {
          filesize = some (length contents);
          opened = some (record { rest = contents; steps = steps });
          removable = removable;
        } in
          let sent = send_file_chunks md5 enc cfg path file link in
          (sent.removed ≡ removable)
          × IsReceived rs u fit dir enabled law p
              (receive_all md5 rs dir enabled r (arrived (keep (mask_of a) sent.link.packets)))
    unfolding total_chunks
    send_file_chunks-receive_all cfg steps removable link r a ok calm empty ready h =
        let reader : Reader = record { rest = contents; steps = steps } in
        let (succeeded, removed, packets) =
          send_file_chunks-file_packets md5 enc cfg path (length contents) reader removable link
            (omega (arith, fit.small)) ok calm in
        let on_link =
          packets
          ∙ ap (λ before. before ++ file_packets md5 enc path (length contents) contents) empty in
        (
          removed,
          subst
              (λ raws.
                IsReceived rs u fit dir enabled law p (receive_all md5 rs dir enabled r raws))
              (sym (
                ap (λ raws. arrived (keep (mask_of a) raws)) on_link
                ∙ keep-file_packets a h hashed))
              (receive_all-IsReceived rs u fit dir enabled (ap length hashed ∙ digests path) digests
                law p r (kept a.starts - 1) (kept a.ends - 1) (chunk_count u)
                (kept_pieces rs u fit dir enabled enc encodes 0 a.batches) ready
                (omega (arith, fit.small))
                (kept_pieces-AreComplete u fit rs dir enabled enc encodes a.batches 0 h.enough)),
        )
