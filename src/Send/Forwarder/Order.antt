-- ===== src/Send/Forwarder/Order.antt =====
-- What the forwarder puts on the link, with and without refusals.
use data_diode.Prelude.{
  ℕ, ◌*◌, ◌≤◌, min, Bool, true, List, [], ◌∷◌, ◌++◌, map, append_assoc, append-nil, none, ◌≡◌, refl,
  sym, ap, ◌∙◌, subst, Bytes, length,
}
use data_diode.Forward.{UdpForwardState, forward_all}
use data_diode.Proto.{udp_max_forward_bytes}
use data_diode.Receive.State.{Receiver}
use data_diode.Receive.Finalize.{ReedSolomon}
use data_diode.Receive.Worker.{receive_all}
use data_diode.Send.{forward_datagram}
use data_diode.Send.Delivery.{stamp, forward_datagram-forward_all}
use data_diode.Send.Link.{
  Link, Answer, accepted, busy, refused, SendCfg, accept, send_loop, send_to_blocking,
  enobufs_initial_backoff,
}
use data_diode.Send.Link.Calm.{NeverRefused, HasPackets, send_to_blocking-Delivered}
use data_diode.Send.Forwarder.{send_each, forward_queue}

-- The packets of all the datagrams, in order.
abbrev pub queue_packets : (Bytes → Bytes) → List (ℕ × Bytes) → List Bytes
queue_packets md5 [] = []
queue_packets md5 ((now, data_read) ∷ queue) =
    forward_datagram md5 now data_read ++ queue_packets md5 queue

-- The packets that get through, in order, when the link answers their sends one after another: a
-- full buffer makes the same packet be sent again, and a refused packet is lost.
abbrev pub through : List Answer → List Bytes → List Bytes
through [] packets = packets
through (answer ∷ answers) [] = []
through (accepted now_ns is ∷ answers) (packet ∷ packets) = packet ∷ through answers packets
through (busy ∷ answers) (packet ∷ packets) = through answers (packet ∷ packets)
through (refused ∷ answers) (packet ∷ packets) = through answers packets

through-nil : (answers : List Answer) → through answers [] ≡ []
through-nil [] = refl
through-nil (answer ∷ answers) = refl

-- What is on the link after the packets that are still to be sent.
abbrev after : Link → List Bytes → List Bytes
after link packets = link.packets ++ through link.answers packets

module _ (cfg : SendCfg) where
  send_loop-through :
      (packet : Bytes) (packets : List Bytes) (backoff : ℕ) (answers : List Answer) (link : Link)
      → after (send_loop cfg packet backoff answers link).1 packets
        ≡ link.packets ++ through answers (packet ∷ packets)
  unfolding send_loop accept
  send_loop-through packet packets backoff [] link = append_assoc link.packets (packet ∷ []) packets
  send_loop-through packet packets backoff (accepted now_ns is ∷ answers) link =
      append_assoc link.packets (packet ∷ []) (through answers packets)
  send_loop-through packet packets backoff (refused ∷ answers) link = refl
  send_loop-through packet packets backoff (busy ∷ answers) link =
      send_loop-through packet packets (min (backoff * 2) cfg.max_backoff) answers
        (record link { backoffs = link.backoffs ++ backoff ∷ [] })

  send_each-through :
      (packets more : List Bytes) (link : Link)
      → after (send_each cfg packets link) more ≡ after link (packets ++ more)
  unfolding send_each send_to_blocking
  send_each-through [] more link = refl
  send_each-through (packet ∷ packets) more link =
      send_each-through packets more (send_to_blocking cfg packet link).1
      ∙ send_loop-through packet (packets ++ more) enobufs_initial_backoff link.answers link

  queue-through :
      (md5 : Bytes → Bytes) (queue : List (ℕ × Bytes)) (link : Link)
      → after (forward_queue cfg md5 queue link) [] ≡ after link (queue_packets md5 queue)
  unfolding forward_queue
  queue-through md5 [] link = refl
  queue-through md5 ((now, data_read) ∷ queue) link =
      let packets = forward_datagram md5 now data_read in
      queue-through md5 queue (send_each cfg packets link)
      ∙ send_each-through packets (queue_packets md5 queue) link

  -- Whatever the sends answer, the forwarder puts on the link, behind what is there, exactly the
  -- packets of all the datagrams in order, each once, without those whose send was refused: a
  -- packet that meets a full buffer is sent again until it is accepted or refused.
  pub forward_queue-through :
      (md5 : Bytes → Bytes) (queue : List (ℕ × Bytes)) (link : Link)
      → (forward_queue cfg md5 queue link).packets
        ≡ link.packets ++ through link.answers (queue_packets md5 queue)
  forward_queue-through md5 queue link =
      let link' = forward_queue cfg md5 queue link in
      sym
        (ap (λ sent. link'.packets ++ sent) (through-nil link'.answers) ∙ append-nil link'.packets)
      ∙ queue-through md5 queue link

  send_each-HasPackets :
      (packets : List Bytes) (link : Link) (before : List Bytes)
      → HasPackets before link
      → HasPackets (before ++ packets) (send_each cfg packets link)
  unfolding send_each
  send_each-HasPackets [] link before (e, h) = (e ∙ sym (append-nil before), h)
  send_each-HasPackets (packet ∷ packets) link before h =
      let (ok, sent) = send_to_blocking-Delivered cfg packet link before h in
      let link' = (send_to_blocking cfg packet link).1 in
      subst (λ b. HasPackets b (send_each cfg packets link'))
        (append_assoc before (packet ∷ []) packets)
        (send_each-HasPackets packets link' (before ++ packet ∷ []) sent)

  module _ (md5 : Bytes → Bytes) (digest : (s : Bytes) → length (md5 s) ≡ 16) where
    -- A datagram of 1 byte to 4 MiB that is taken out of the sender's channel, when no send is
    -- refused, however often a buffer is full, and the packets arrive in order at a receiver that
    -- forwards and whose queue is empty, is sent on byte for byte twice by a forwarder that has no
    -- flow. The link was empty, and MD5 digests have 16 bytes.
    pub forward_queue-forward_all :
        (rs : ReedSolomon) (output_dir : Bytes) (now : ℕ) (data_read : Bytes) (link : Link)
        (arrived : List (Bool × Bytes)) (r : Receiver) (clock : ℕ → ℕ) (fwd : UdpForwardState)
        → 1 ≤ length data_read
        → length data_read ≤ udp_max_forward_bytes
        → link.packets ≡ []
        → NeverRefused link.answers
        → map (λ a. a.1) arrived ≡ (forward_queue cfg md5 ((now, data_read) ∷ []) link).packets
        → r.udp_queue ≡ []
        → fwd.current_id ≡ none
        → let queue = (receive_all md5 rs output_dir true r arrived).udp_queue in
          (forward_all fwd (stamp clock queue)).0 ≡ data_read ∷ data_read ∷ []
    unfolding forward_queue
    forward_queue-forward_all rs output_dir now data_read link arrived r clock fwd some_bytes fits
          no_packets calm arrives empty idle =
        let packets = forward_datagram md5 now data_read in
        let (sent, later) = send_each-HasPackets packets link [] (no_packets, calm) in
        forward_datagram-forward_all md5 digest rs output_dir now data_read arrived r clock fwd
          some_bytes fits (arrives ∙ sent) empty idle
