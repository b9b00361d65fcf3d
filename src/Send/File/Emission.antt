-- ===== src/Send/File/Emission.antt =====
-- `send_file_chunks` puts the packets of the file on the link.
pub mod Groups
use data_diode.Prelude.{
  ℕ, zero, suc, ◌+◌, ◌%◌, ◌^◌, ◌≤◌, ◌<◌, Bool, true, false, List, [], ◌∷◌, ◌++◌, append_assoc,
  append-nil, inl, inr, Option, none, some, ◌≡◌, refl, sym, ap, ◌∙◌, subst, arith, Bytes, length,
  length-append, take, drop, length-drop, if◌then◌else◌, ◌==◌, ==_of_positive, ==-cases, Bool-cases,
}
use data_diode.Proto.{chunk_size, batch_data_chunks, batch_parity_chunks, md5_hex}
use data_diode.Receive.State.{wrapping_add, wrapping_mul}
use data_diode.Send.{chunks_within}
use data_diode.Send.Link.{Link, SendCfg, send_to_blocking, send_data_packet}
use data_diode.Send.Reader.{Reader, read_chunk}
use data_diode.Send.Parity.{
  ReedSolomonEncoder, encode_batch, send_shards, send_encoded, send_parity_packets,
}
use data_diode.Send.File.{
  Progress, send_batch_parity, flush, push, after_data, send_chunk, send_chunks, finish_batches,
}
use data_diode.Send.File.Regime.{Outcome, ReadOutcome, Regime, Completed}
use data_diode.Send.File.Packets.{
  data_packet, parity_packet, parity_packets, shards_sent, parity_of_batch,
}

module _ (md5 : Bytes → Bytes) (enc : ReedSolomonEncoder) (rel_path_hash : Bytes) where
  -- What the loop still has to send, chunk by chunk.
  unfoldable pub emit : ℕ → ℕ → List Bytes → List Bytes → List Bytes
  emit count batch_idx payloads [] =
      if length payloads == 0 then [] else parity_of_batch md5 rel_path_hash enc batch_idx payloads
  emit count batch_idx payloads (c ∷ cs) =
      let payloads' = payloads ++ c ∷ [] in
      let full =
        parity_of_batch md5 rel_path_hash enc batch_idx payloads'
        ++ emit (count + 1) (batch_idx + 1) [] cs in
      let more = emit (count + 1) batch_idx payloads' cs in
      data_packet md5 rel_path_hash count c
      ∷ (if length payloads' == batch_data_chunks then full else more)

module _ (md5 : Bytes → Bytes) (enc : ReedSolomonEncoder) (cfg : SendCfg) (rel_path_hash : Bytes)
    (regime : Regime md5 cfg rel_path_hash) where
  open regime use {Has, Readable, MayFail}

  same_packets :
      (before after : List Bytes) (link : Link) → after ≡ before → Has before link → Has after link
  same_packets before after link e h = subst (λ b. Has b link) (sym e) h

  send_shards-Has :
      (index : ℕ) (shards : List Bytes) (link : Link) (before : List Bytes)
      → Has before link
      → Has
          (before ++ parity_packets md5 rel_path_hash index shards)
          (send_shards md5 cfg rel_path_hash index shards link)
  unfolding send_shards
  send_shards-Has index [] link before h =
      same_packets before (before ++ []) link (append-nil before) h
  send_shards-Has index (s ∷ shards) link before h =
      let packet = parity_packet md5 rel_path_hash index s in
      subst
        (λ b. Has b (
          send_shards md5 cfg rel_path_hash (wrapping_add index 1) shards
            (send_to_blocking cfg packet link).1))
        (append_assoc before (packet ∷ [])
          (parity_packets md5 rel_path_hash (wrapping_add index 1) shards))
        (send_shards-Has (wrapping_add index 1) shards (send_to_blocking cfg packet link).1
          (before ++ packet ∷ []) (regime.parity index s link before h))

  send_encoded-Has :
      (encoded : Option (List Bytes)) (base : ℕ) (link : Link) (before : List Bytes)
      → Has before link
      → Has
          (before
            ++ parity_packets md5 rel_path_hash base
                (elim encoded [ none ↦ [] | some shards ↦ shards ]))
          (send_encoded md5 cfg encoded rel_path_hash base link).1
  unfolding send_encoded
  send_encoded-Has none base link before h =
      same_packets before (before ++ []) link (append-nil before) h
  send_encoded-Has (some shards) base link before h = send_shards-Has base shards link before h

  send_batch_parity-Has :
      (p : Progress) (link : Link) (before : List Bytes)
      → 0 < length p.batch_payloads
      → Has before link
      → Has
          (before ++ parity_of_batch md5 rel_path_hash enc p.batch_idx p.batch_payloads)
          (send_batch_parity md5 enc cfg rel_path_hash p link)
  unfolding send_batch_parity send_parity_packets
  send_batch_parity-Has p link before some_payload h =
      let on : (length p.batch_payloads == 0) ≡ false =
        ==_of_positive (length p.batch_payloads) some_payload in
      rw (send_batch_parity, send_parity_packets, on)
        (send_encoded-Has (encode_batch enc p.batch_payloads batch_parity_chunks)
          (wrapping_mul p.batch_idx batch_parity_chunks) link before h)

  finish_batches-Completed :
      (p : Progress) (link : Link) (before : List Bytes)
      → Has before link
      → Completed regime p.count
          (before ++ emit md5 enc rel_path_hash p.count p.batch_idx p.batch_payloads [])
          (finish_batches md5 enc cfg rel_path_hash (true, p, link))
  unfolding finish_batches emit
  finish_batches-Completed p link before h = elim (==-cases (length p.batch_payloads) 0) [
    | inl (z, t) ↦
        rw t (inl (refl, refl, same_packets before (before ++ []) link (append-nil before) h))
    | inr (z, t) ↦ rw t (inl (refl, refl, send_batch_parity-Has p link before (omega arith) h))
  ]

  -- A full batch is flushed, and then the loop goes on.
  flush-Completed :
      (p : Progress) (link : Link) (before : List Bytes) (count : ℕ) (cs : List Bytes)
      (next : Progress × Link → Bool × ℕ × Link)
      → 0 < length p.batch_payloads
      → p.batch_idx + 1 < 2 ^ 64
      → Has before link
      → ((batch_idx : ℕ) (payloads : List Bytes) (link' : Link) (before' : List Bytes)
          → Has before' link'
          → batch_idx ≤ p.batch_idx + 1
          → Completed regime count
              (before' ++ emit md5 enc rel_path_hash p.count batch_idx payloads cs)
              (next (record p { batch_idx = batch_idx; batch_payloads = payloads }, link')))
      → Completed regime count
          (before
            ++ (if length p.batch_payloads == batch_data_chunks
                then parity_of_batch md5 rel_path_hash enc p.batch_idx p.batch_payloads
                  ++ emit md5 enc rel_path_hash p.count (p.batch_idx + 1) [] cs
                else emit md5 enc rel_path_hash p.count p.batch_idx p.batch_payloads cs))
          (next (flush md5 enc cfg rel_path_hash p link))
  unfolding flush
  flush-Completed p link before count cs next some_payload few h go =
      elim (Bool-cases (length p.batch_payloads == batch_data_chunks)) [
        | inl t ↦
            let no_wrap : (p.batch_idx + 1) % 2 ^ 64 ≡ p.batch_idx + 1 = omega arith in
            let parity = parity_of_batch md5 rel_path_hash enc p.batch_idx p.batch_payloads in
            rw
              (
                t,
                no_wrap,
                sym (
                    append_assoc before parity
                      (emit md5 enc rel_path_hash p.count (p.batch_idx + 1) [] cs)),
              )
              (go (p.batch_idx + 1) [] (send_batch_parity md5 enc cfg rel_path_hash p link)
                (before ++ parity) (send_batch_parity-Has p link before some_payload h)
                (omega arith))
        | inr t ↦ rw t (go p.batch_idx p.batch_payloads link before h (omega arith))
      ]

  -- The rest of a round whose chunk was sent.
  after_data-Completed :
      (w : Bool × Link) (chunk : Bytes) (p : Progress) (before : List Bytes) (count : ℕ)
      (cs : List Bytes) (next : Progress × Link → Bool × Progress × Link)
      → p.count + 1 < 2 ^ 64
      → p.batch_idx + 1 < 2 ^ 64
      → Outcome (Has (before ++ data_packet md5 rel_path_hash p.count chunk ∷ [])) MayFail w
      → ((p' : Progress) (link' : Link) (before' : List Bytes)
          → Has before' link'
          → p'.count ≡ p.count + 1
          → p'.batch_idx ≤ p.batch_idx + 1
          → p'.reader ≡ p.reader
          → Completed regime count
              (before' ++ emit md5 enc rel_path_hash p'.count p'.batch_idx p'.batch_payloads cs)
              (finish_batches md5 enc cfg rel_path_hash (next (p', link'))))
      → Completed regime count
          (before ++ emit md5 enc rel_path_hash p.count p.batch_idx p.batch_payloads (chunk ∷ cs))
          (finish_batches md5 enc cfg rel_path_hash
            (after_data md5 enc cfg rel_path_hash w chunk p next))
  unfolding after_data emit finish_batches
  after_data-Completed (false, link) chunk p before count cs next few few_batches (inl (ok, h)) go =
      cc
  after_data-Completed (false, link) chunk p before count cs next few few_batches (inr (ok, may))
        go =
      inr (refl, may)
  after_data-Completed (true, link) chunk p before count cs next few few_batches (inr (ok, may))
        go =
      cc
  after_data-Completed (true, link) chunk p before count cs next few few_batches (inl (ok, h)) go =
      let packet = data_packet md5 rel_path_hash p.count chunk in
      let no_wrap : (p.count + 1) % 2 ^ 64 ≡ p.count + 1 = omega arith in
      let payloads' = p.batch_payloads ++ chunk ∷ [] in
      let p' : Progress = record p { batch_payloads = payloads'; count = p.count + 1 } in
      let after : List Bytes =
        if length payloads' == batch_data_chunks
        then parity_of_batch md5 rel_path_hash enc p.batch_idx payloads'
          ++ emit md5 enc rel_path_hash (p.count + 1) (p.batch_idx + 1) [] cs
        else emit md5 enc rel_path_hash (p.count + 1) p.batch_idx payloads' cs in
      rw (no_wrap, sym (append_assoc before (packet ∷ []) after))
        (flush-Completed p' link (before ++ packet ∷ []) count cs
          (λ q. finish_batches md5 enc cfg rel_path_hash (next q))
          (omega (arith, length-append p.batch_payloads (chunk ∷ []))) few_batches h
          (λ batch_idx payloads link' before' h' le.
            go (record p' { batch_idx = batch_idx; batch_payloads = payloads }) link' before' h'
              refl le refl))

  recount :
      (count count' : ℕ) (packets : List Bytes) (w : Bool × ℕ × Link)
      → count ≡ count'
      → Completed regime count packets w
      → Completed regime count' packets w
  recount count count' packets w e h = subst (λ n. Completed regime n packets w) e h

  -- A round with what `read_chunk` gave of the `rest` of the file.
  send_chunk-Completed :
      (rounds : ℕ) (p : Progress) (rest : Bytes) (link : Link) (before : List Bytes)
      (w : Option Bytes × Reader) (next : Progress × Link → Bool × Progress × Link)
      → ReadOutcome Readable MayFail rest chunk_size w
      → p.count + 1 < 2 ^ 64
      → p.batch_idx + 1 < 2 ^ 64
      → Has before link
      → ((p' : Progress) (link' : Link) (before' : List Bytes)
          → 0 < length rest
          → Has before' link'
          → p'.count ≡ p.count + 1
          → p'.batch_idx ≤ p.batch_idx + 1
          → p'.reader ≡ w.1
          → w.1.rest ≡ drop chunk_size rest
          → Readable w.1.steps
          → let cs = chunks_within rounds (drop chunk_size rest) in
            Completed regime
              (p'.count + length cs)
              (before' ++ emit md5 enc rel_path_hash p'.count p'.batch_idx p'.batch_payloads cs)
              (finish_batches md5 enc cfg rel_path_hash (next (p', link'))))
      → let cs = chunks_within (suc rounds) rest in
        Completed regime
          (p.count + length cs)
          (before ++ emit md5 enc rel_path_hash p.count p.batch_idx p.batch_payloads cs)
          (finish_batches md5 enc cfg rel_path_hash
            (send_chunk md5 enc cfg rel_path_hash w.0 (record p { reader = w.1 }) link next))
  unfolding send_chunk chunks_within send_data_packet finish_batches
  send_chunk-Completed rounds p rest link before w next (inr (e, may)) few few_batches h go =
      rw e (inr (refl, may))
  send_chunk-Completed rounds p [] link before w next (inl (e, d, n)) few few_batches h go = rw e (
      recount p.count (p.count + 0)
        (before ++ emit md5 enc rel_path_hash p.count p.batch_idx p.batch_payloads [])
        (finish_batches md5 enc cfg rel_path_hash (true, record p { reader = w.1 }, link))
        (omega arith) (finish_batches-Completed (record p { reader = w.1 }) link before h))
  send_chunk-Completed rounds p (b ∷ s) link before w next (inl (e, d, n)) few few_batches h go =
      let chunk = take chunk_size (b ∷ s) in
      let cs = chunks_within rounds (drop chunk_size (b ∷ s)) in
      rw e (
        after_data-Completed (send_data_packet cfg md5 rel_path_hash chunk p.count link) chunk
          (record p { reader = w.1 }) before (p.count + length (chunk ∷ cs)) cs next few few_batches
          (regime.send (data_packet md5 rel_path_hash p.count chunk) link before h)
          (λ p' link' before' h' counted batch same.
            recount (p'.count + length cs) (p.count + length (chunk ∷ cs))
              (before' ++ emit md5 enc rel_path_hash p'.count p'.batch_idx p'.batch_payloads cs)
              (finish_batches md5 enc cfg rel_path_hash (next (p', link'))) (omega arith)
              (go p' link' before' (omega arith) h' counted batch same d n)))

  -- The whole loop.
  pub send_chunks-Completed :
      (rounds : ℕ) (p : Progress) (rest : Bytes) (link : Link) (before : List Bytes)
      → p.reader.rest ≡ rest
      → length rest < rounds
      → Readable p.reader.steps
      → p.count + rounds < 2 ^ 64
      → p.batch_idx + rounds < 2 ^ 64
      → Has before link
      → Completed regime
          (p.count + length (chunks_within rounds rest))
          (before
            ++ emit md5 enc rel_path_hash p.count p.batch_idx p.batch_payloads
                (chunks_within rounds rest))
          (finish_batches md5 enc cfg rel_path_hash
            (send_chunks md5 enc cfg rel_path_hash rounds (p, link)))
  unfolding send_chunks
  send_chunks-Completed zero p rest link before at enough ok few few_batches h =
      absurd (omega arith)
  send_chunks-Completed (suc rounds) p rest link before at enough ok few few_batches h =
      let w = read_chunk p.reader chunk_size in
      let read : ReadOutcome Readable MayFail rest chunk_size w =
        subst (λ r. ReadOutcome Readable MayFail r chunk_size w) at
          (regime.read p.reader chunk_size ok) in
      send_chunk-Completed rounds p rest link before w
        (send_chunks md5 enc cfg rel_path_hash rounds) read (omega arith) (omega arith) h
        (λ p' link' before' some_bytes h' counted batch same left readable.
          send_chunks-Completed rounds p' (drop chunk_size rest) link' before'
            (ap (λ r. r.rest) same ∙ left) (omega (arith, length-drop chunk_size rest))
            (subst (λ r. Readable r.steps) (sym same) readable) (omega arith) (omega arith) h')
