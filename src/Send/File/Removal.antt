-- ===== src/Send/File/Removal.antt =====
-- `send_file_chunks` when sends are refused and reads fail: when the file is removed.
use data_diode.Prelude.{
  ℕ, ◌*◌, ◌^◌, ◌<◌, min, Bool, true, false, List, [], ◌∷◌, ◌++◌, append_assoc, append-nil, ◌⊎◌, inl,
  inr, some, ◌≡◌, refl, sym, ap, ◌∙◌, subst, Bytes, length,
}
use data_diode.Proto.{md5_hex}
use data_diode.Send.Link.{
  Answer, accepted, busy, refused, Link, SendCfg, enobufs_initial_backoff, accept, send_loop,
  send_to_blocking,
}
use data_diode.Send.Reader.{Reader, read_chunk}
use data_diode.Send.Reader.Failing.{read_chunk-IsReadOr}
use data_diode.Send.Parity.{ReedSolomonEncoder}
use data_diode.Send.File.{SourceFile, send_file_chunks}
use data_diode.Send.File.Packets.{parity_packet, file_packets}
use data_diode.Send.File.Regime.{Outcome, ReadOutcome, Regime}
use data_diode.Send.File.Complete.{send_file_chunks-SentAs}

-- The second list with some packets missing, all of them with the property `P`.
pub data Thinned (P : Bytes → Type 0) : List Bytes → List Bytes → Type 0 where
  none_left : Thinned P [] []
  one_kept :
      (raw : Bytes) {sent all : List Bytes}
      → Thinned P sent all
      → Thinned P (raw ∷ sent) (raw ∷ all)
  one_missing :
      (raw : Bytes) {sent all : List Bytes}
      → P raw
      → Thinned P sent all
      → Thinned P sent (raw ∷ all)

pub Thinned-append :
    (P : Bytes → Type 0) (sent all sent' all' : List Bytes)
    → Thinned P sent all
    → Thinned P sent' all'
    → Thinned P (sent ++ sent') (all ++ all')
Thinned-append P [] [] sent' all' none_left h = h
Thinned-append P (_ ∷ sent) (_ ∷ all) sent' all' (one_kept raw t) h =
    one_kept raw (Thinned-append P sent all sent' all' t h)
Thinned-append P (_ ∷ sent) [] sent' all' t h = elim t [ ]
Thinned-append P sent (_ ∷ all) sent' all' (one_missing raw p t) h =
    one_missing raw p (Thinned-append P sent all sent' all' t h)

-- What a send puts on the link, by its result.
abbrev pub SendOutcome : Bytes → List Bytes → Bool × Link → Type 0
SendOutcome packet before (ok, link) =
    ((ok ≡ true) × (link.packets ≡ before ++ packet ∷ []))
    ⊎ ((ok ≡ false) × (link.packets ≡ before))

send_loop-SendOutcome :
    (cfg : SendCfg) (packet : Bytes) (backoff : ℕ) (answers : List Answer) (link : Link)
    → SendOutcome packet link.packets (send_loop cfg packet backoff answers link)
unfolding send_loop accept
send_loop-SendOutcome cfg packet backoff [] link = inl (refl, refl)
send_loop-SendOutcome cfg packet backoff (refused ∷ answers) link = inr (refl, refl)
send_loop-SendOutcome cfg packet backoff (accepted now_ns is ∷ answers) link = inl (refl, refl)
send_loop-SendOutcome cfg packet backoff (busy ∷ answers) link =
    send_loop-SendOutcome cfg packet (min (backoff * 2) cfg.max_backoff) answers
      (record link { backoffs = link.backoffs ++ backoff ∷ [] })

pub send_to_blocking-SendOutcome :
    (cfg : SendCfg) (packet : Bytes) (link : Link)
    → SendOutcome packet link.packets (send_to_blocking cfg packet link)
unfolding send_to_blocking
send_to_blocking-SendOutcome cfg packet link =
    send_loop-SendOutcome cfg packet enobufs_initial_backoff link.answers link

module _ (md5 : Bytes → Bytes) (rel_path_hash : Bytes) where
  abbrev pub IsParity : Bytes → Type 0
  IsParity raw = (index : ℕ) × (shard : Bytes) × (raw ≡ parity_packet md5 rel_path_hash index shard)

  -- Behind `base` the link has these packets, but for parity packets that are missing.
  abbrev pub HasBut : List Bytes → List Bytes → Link → Type 0
  HasBut base packets link =
      (sent : List Bytes) × Thinned IsParity sent packets × (link.packets ≡ base ++ sent)

  put-HasBut :
      (base before : List Bytes) (packet : Bytes) (link link' : Link)
      → HasBut base before link
      → link'.packets ≡ link.packets ++ packet ∷ []
      → HasBut base (before ++ packet ∷ []) link'
  put-HasBut base before packet link link' (sent, t, e) put = (
    sent ++ packet ∷ [],
    Thinned-append IsParity sent before (packet ∷ []) (packet ∷ []) t (one_kept packet none_left),
    put ∙ ap (λ ps. ps ++ packet ∷ []) e ∙ append_assoc base sent (packet ∷ []),
  )

  send-HasBut :
      (base before : List Bytes) (packet : Bytes) (link : Link) (w : Bool × Link)
      → HasBut base before link
      → SendOutcome packet link.packets w
      → Outcome (HasBut base (before ++ packet ∷ [])) Unit w
  send-HasBut base before packet link w h (inl (ok, put)) =
      inl (ok, put-HasBut base before packet link w.1 h put)
  send-HasBut base before packet link w h (inr (ok, same)) = inr (ok, tt)

  parity-HasBut :
      (base before : List Bytes) (index : ℕ) (shard : Bytes) (link : Link) (w : Bool × Link)
      → HasBut base before link
      → SendOutcome (parity_packet md5 rel_path_hash index shard) link.packets w
      → HasBut base (before ++ parity_packet md5 rel_path_hash index shard ∷ []) w.1
  parity-HasBut base before index shard link w h (inl (ok, put)) =
      put-HasBut base before (parity_packet md5 rel_path_hash index shard) link w.1 h put
  parity-HasBut base before index shard link w (sent, t, e) (inr (ok, same)) =
      let packet = parity_packet md5 rel_path_hash index shard in
      (
        sent,
        subst (λ ps. Thinned IsParity ps (before ++ packet ∷ [])) (append-nil sent)
            (Thinned-append IsParity sent before [] (packet ∷ []) t
              (one_missing packet (index, shard, refl) none_left)),
        same ∙ e,
      )

  read_anything :
      (reader : Reader) (room : ℕ)
      → ReadOutcome (λ steps. Unit) Unit reader.rest room (read_chunk reader room)
  read_anything reader room = elim (read_chunk-IsReadOr reader room) [
    | inl (e, d) ↦ inl (e, d, tt)
    | inr failed ↦ inr (failed, tt)
  ]

  -- Whatever the calls answer.
  abbrev any_regime : (cfg : SendCfg) → List Bytes → Regime md5 cfg rel_path_hash
  any_regime cfg base = record {
    Has = HasBut base;
    Readable = λ steps. Unit;
    MayFail = Unit;
    send = λ packet link before h.
        send-HasBut base before packet link (send_to_blocking cfg packet link) h
          (send_to_blocking-SendOutcome cfg packet link);
    parity = λ index shard link before h.
        let packet = parity_packet md5 rel_path_hash index shard in
        parity-HasBut base before index shard link (send_to_blocking cfg packet link) h
          (send_to_blocking-SendOutcome cfg packet link);
    read = λ reader room readable. read_anything reader room;
  }

-- Whatever the sends and the reads answer, `send_file_chunks` does one of two things with a file
-- whose metadata and open calls work. Either it gets to the end: the START, DATA and END packets of
-- the whole file are on the link, in order and none of them missing, with all, some or none of the
-- parity packets between them, and then the file is removed and the result is `Ok`, unless
-- `remove_file` fails. Or the result is an error and the file is not removed.
pub send_file_chunks-Thinned :
    (md5 : Bytes → Bytes) (enc : ReedSolomonEncoder) (cfg : SendCfg) (rel_path : Bytes)
    (filesize : ℕ) (reader : Reader) (removable : Bool) (link : Link)
    → length reader.rest < 2 ^ 63
    → let file : SourceFile = record {
      filesize = some filesize;
      opened = some reader;
      removable = removable;
    } in
      let result = send_file_chunks md5 enc cfg rel_path file link in
      ((result.succeeded ≡ removable)
        × (result.removed ≡ removable)
        × (sent : List Bytes) × Thinned
            (IsParity md5 (md5_hex md5 rel_path))
            sent
            (file_packets md5 enc rel_path filesize reader.rest)
        × (result.link.packets ≡ link.packets ++ sent))
      ⊎ ((result.succeeded ≡ false) × (result.removed ≡ false))
send_file_chunks-Thinned md5 enc cfg rel_path filesize reader removable link small =
    elim (send_file_chunks-SentAs md5 enc cfg rel_path
      (any_regime md5 (md5_hex md5 rel_path) cfg link.packets) filesize reader removable link []
      small tt ([], none_left, sym (append-nil link.packets))) [
        | inl (succeeded, removed, (sent, thinned, e)) ↦ inl (succeeded, removed, sent, thinned, e)
        | inr (failed, kept, may) ↦ inr (failed, kept)
      ]
