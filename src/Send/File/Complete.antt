-- ===== src/Send/File/Complete.antt =====
-- `send_file_chunks` as a whole, from the START packets to the removal of the file.
use data_diode.Prelude.{
  ℕ, zero, suc, ◌+◌, ◌^◌, ◌≤◌, ◌<◌, Bool, true, false, List, [], ◌∷◌, ◌++◌, append_assoc, ◌⊎◌, inl,
  inr, Option, some, ◌≡◌, refl, ap, ◌∙◌, subst, arith, Bytes, length, take, drop, replicate,
  length-drop,
}
use data_diode.Proto.{batch_parity_chunks, md5_hex}
use data_diode.Send.{chunks_within, chunks}
use data_diode.Send.Link.{Link, SendCfg, control_resend, send_start_packet, send_end_packet}
use data_diode.Send.Link.Calm.{NeverRefused, HasPackets, send_to_blocking-Delivered}
use data_diode.Send.Reader.{Reader}
use data_diode.Send.Reader.Exact.{NoFailure, read_chunk-IsRead}
use data_diode.Send.Parity.{ReedSolomonEncoder}
use data_diode.Send.File.{
  SourceFile, Sent, send_contents, conclude_file, end_file, after_start, send_file_chunks,
}
use data_diode.Send.File.Packets.{
  groups_within, parity_packet, batches_from, start_packet, end_packet, file_packets,
}
use data_diode.Send.File.Regime.{Outcome, Regime, Completed, control-Outcome}
use data_diode.Send.File.Emission.{emit, send_chunks-Completed}
use data_diode.Send.File.Emission.Groups.{emit-batches_from}

-- More rounds than bytes cut the same chunks.
chunks_within_enough :
    (m n : ℕ) (s : Bytes) → length s ≤ m → length s ≤ n → chunks_within m s ≡ chunks_within n s
unfolding chunks_within
chunks_within_enough zero zero [] hm hn = refl
chunks_within_enough zero (suc n) [] hm hn = refl
chunks_within_enough (suc m) zero [] hm hn = refl
chunks_within_enough (suc m) (suc n) [] hm hn = refl
chunks_within_enough zero n (b ∷ s) hm hn = absurd (omega arith)
chunks_within_enough (suc m) zero (b ∷ s) hm hn = absurd (omega arith)
chunks_within_enough (suc m) (suc n) (b ∷ s) hm hn = ap (◌∷◌ (take 940 (b ∷ s))) (
    chunks_within_enough m n (drop 940 (b ∷ s)) (omega (arith, length-drop 940 (b ∷ s)))
      (omega (arith, length-drop 940 (b ∷ s))))

module _ (md5 : Bytes → Bytes) (enc : ReedSolomonEncoder) (cfg : SendCfg) (rel_path : Bytes)
    (regime : Regime md5 cfg (md5_hex md5 rel_path)) where
  open regime use {Has, Readable, MayFail}

  -- The whole went well, and these packets are to be on the link; or it failed, and the file is
  -- still there.
  abbrev pub SentAs : Bool → List Bytes → Sent → Type 0
  SentAs removable packets sent =
      ((sent.succeeded ≡ removable) × (sent.removed ≡ removable) × Has packets sent.link)
      ⊎ ((sent.succeeded ≡ false) × (sent.removed ≡ false) × MayFail)

  send_contents-Completed :
      (reader : Reader) (link : Link) (before : List Bytes)
      → length reader.rest < 2 ^ 63
      → Readable reader.steps
      → Has before link
      → let cs = chunks reader.rest in
        Completed regime
          (length cs)
          (before ++ batches_from md5 (md5_hex md5 rel_path) enc 0 (groups_within (length cs) cs))
          (send_contents md5 enc cfg (md5_hex md5 rel_path) reader link)
  unfolding send_contents chunks
  send_contents-Completed reader link before small ok h =
      let c = reader.rest in
      let hash = md5_hex md5 rel_path in
      let same : chunks_within (length c + 1) c ≡ chunks_within (length c) c =
        chunks_within_enough (length c + 1) (length c) c (omega arith) (omega arith) in
      let cs = chunks_within (length c) c in
      let w = send_contents md5 enc cfg hash reader link in
      let done =
        send_chunks-Completed md5 enc cfg hash regime (length c + 1)
          (record { count = 0; batch_idx = 0; batch_payloads = []; reader = reader }) c link before
          refl (omega arith) ok (omega arith) (omega arith) h in
      let all : emit md5 enc hash 0 0 [] (chunks_within (length c + 1) c)
          ≡ batches_from md5 hash enc 0 (groups_within (length cs) cs) =
        ap (emit md5 enc hash 0 0 []) same
        ∙ emit-batches_from md5 enc hash (length cs) 0 cs (omega arith) in
      let counted : 0 + length (chunks_within (length c + 1) c) ≡ length cs =
        omega (arith, ap length same) in
      subst
        (λ n.
          Completed regime n (before ++ batches_from md5 hash enc 0 (groups_within (length cs) cs))
            w)
        counted
        (subst
          (λ packets.
            Completed regime (0 + length (chunks_within (length c + 1) c)) (before ++ packets) w)
          all done)

  conclude_file-SentAs :
      (w : Bool × Link) (removable : Bool) (packets : List Bytes)
      → Outcome (Has packets) MayFail w
      → SentAs removable packets (conclude_file removable w)
  unfolding conclude_file
  conclude_file-SentAs (true, link) removable packets (inl (ok, h)) = inl (refl, refl, h)
  conclude_file-SentAs (true, link) removable packets (inr (ok, may)) = cc
  conclude_file-SentAs (false, link) removable packets (inl (ok, h)) = cc
  conclude_file-SentAs (false, link) removable packets (inr (ok, may)) = inr (refl, refl, may)

  end_file-SentAs :
      (w : Bool × ℕ × Link) (removable : Bool) (count : ℕ) (before : List Bytes)
      → Completed regime count before w
      → SentAs removable
          (before ++ replicate control_resend (end_packet rel_path count))
          (end_file md5 enc cfg rel_path removable w)
  unfolding end_file send_end_packet
  end_file-SentAs (false, counted, link) removable count before (inl (ok, same, h)) = cc
  end_file-SentAs (false, counted, link) removable count before (inr (ok, may)) =
      inr (refl, refl, may)
  end_file-SentAs (true, counted, link) removable count before (inr (ok, may)) = cc
  end_file-SentAs (true, counted, link) removable count before (inl (ok, same, h)) =
      conclude_file-SentAs (send_end_packet cfg rel_path counted link) removable
        (before ++ replicate control_resend (end_packet rel_path count))
        (rw same (control-Outcome regime (end_packet rel_path count) link before h))

  after_start-SentAs :
      (w : Bool × Link) (filesize : Option ℕ) (reader : Reader) (removable : Bool)
      (before : List Bytes)
      → length reader.rest < 2 ^ 63
      → Readable reader.steps
      → Outcome (Has before) MayFail w
      → let cs = chunks reader.rest in
        SentAs removable
          ((before ++ batches_from md5 (md5_hex md5 rel_path) enc 0 (groups_within (length cs) cs))
            ++ replicate control_resend (end_packet rel_path (length cs)))
          (after_start md5 enc cfg rel_path
            (record { filesize = filesize; opened = some reader; removable = removable })
            w)
  unfolding after_start
  after_start-SentAs (false, link) filesize reader removable before small ok (inl (started, h)) = cc
  after_start-SentAs (false, link) filesize reader removable before small ok (inr (started, may)) =
      inr (refl, refl, may)
  after_start-SentAs (true, link) filesize reader removable before small ok (inr (started, may)) =
      cc
  after_start-SentAs (true, link) filesize reader removable before small ok (inl (started, h)) =
      let cs = chunks reader.rest in
      end_file-SentAs (send_contents md5 enc cfg (md5_hex md5 rel_path) reader link) removable
        (length cs)
        (before ++ batches_from md5 (md5_hex md5 rel_path) enc 0 (groups_within (length cs) cs))
        (send_contents-Completed reader link before small ok h)

  pub send_file_chunks-SentAs :
      (filesize : ℕ) (reader : Reader) (removable : Bool) (link : Link) (before : List Bytes)
      → length reader.rest < 2 ^ 63
      → Readable reader.steps
      → Has before link
      → let file : SourceFile = record {
        filesize = some filesize;
        opened = some reader;
        removable = removable;
      } in
        SentAs removable
          (before ++ file_packets md5 enc rel_path filesize reader.rest)
          (send_file_chunks md5 enc cfg rel_path file link)
  unfolding send_file_chunks file_packets send_start_packet
  send_file_chunks-SentAs filesize reader removable link before small ok h =
      let hash = md5_hex md5 rel_path in
      let cs = chunks reader.rest in
      let starts = replicate control_resend (start_packet rel_path hash filesize) in
      let batches = batches_from md5 hash enc 0 (groups_within (length cs) cs) in
      let ends = replicate control_resend (end_packet rel_path (length cs)) in
      let done =
        after_start-SentAs (send_start_packet cfg filesize rel_path hash batch_parity_chunks link)
          (some filesize) reader removable (before ++ starts) small ok
          (control-Outcome regime (start_packet rel_path hash filesize) link before h) in
      let same : ((before ++ starts) ++ batches) ++ ends ≡ before ++ (starts ++ (batches ++ ends)) =
        append_assoc (before ++ starts) batches ends
        ∙ append_assoc before starts (batches ++ ends) in
      let file : SourceFile = record {
        filesize = some filesize;
        opened = some reader;
        removable = removable;
      } in
      subst (λ packets. SentAs removable packets (send_file_chunks md5 enc cfg rel_path file link))
        same done

-- Where no send is refused and no read fails, all the packets get onto the link.
abbrev calm_regime :
    (md5 : Bytes → Bytes) (cfg : SendCfg) (rel_path_hash : Bytes) → Regime md5 cfg rel_path_hash
calm_regime md5 cfg rel_path_hash = record {
  Has = HasPackets;
  Readable = NoFailure;
  MayFail = ⊥;
  send = λ packet link before h. inl (send_to_blocking-Delivered cfg packet link before h);
  parity = λ index shard link before h.
      (send_to_blocking-Delivered cfg (parity_packet md5 rel_path_hash index shard) link before
        h).1;
  read = λ reader room ok. inl (read_chunk-IsRead reader room ok);
}

module _ (md5 : Bytes → Bytes) (enc : ReedSolomonEncoder) (cfg : SendCfg) (rel_path : Bytes) where
  -- When the metadata and the open call work, no read fails and no send is refused, however short
  -- the reads are and however often they are interrupted or a buffer is full, `send_file_chunks`
  -- puts exactly the packets of the file on the link: three START packets, the data packets of each
  -- batch with its parity, and three END packets. Then the file is removed, and the result is `Ok`
  -- unless it cannot be removed.
  pub send_file_chunks-file_packets :
      (filesize : ℕ) (reader : Reader) (removable : Bool) (link : Link)
      → length reader.rest < 2 ^ 63
      → NoFailure reader.steps
      → NeverRefused link.answers
      → let file : SourceFile = record {
        filesize = some filesize;
        opened = some reader;
        removable = removable;
      } in
        let sent = send_file_chunks md5 enc cfg rel_path file link in
        (sent.succeeded ≡ removable)
        × (sent.removed ≡ removable)
        × (sent.link.packets ≡ link.packets ++ file_packets md5 enc rel_path filesize reader.rest)
  send_file_chunks-file_packets filesize reader removable link small ok calm =
      elim (send_file_chunks-SentAs md5 enc cfg rel_path
        (calm_regime md5 cfg (md5_hex md5 rel_path)) filesize reader removable link link.packets
        small ok (refl, calm)) [
          | inl (succeeded, removed, (packets, later)) ↦ (succeeded, removed, packets)
          | inr (failed, kept, none_may) ↦ elim none_may [ ]
        ]
