-- ===== src/Receive/Worker/Queue.antt =====
-- What the worker thread hands to the thread of the UDP forwarder.
use data_diode.Prelude.{
  ℕ, Bool, true, false, List, [], ◌∷◌, ◌++◌, map, append_assoc, append-nil, inl, inr, none, some,
  ◌≡◌, refl, sym, ap, ◌∙◌, Bytes, All, Option-cases,
}
use data_diode.Proto.{pkg_type_udp}
use data_diode.Receive.Packet.{Packet, decode_packet}
use data_diode.Receive.State.{Receiver}
use data_diode.Receive.Finalize.{ReedSolomon}
use data_diode.Receive.Worker.{recover, handle_udp, dispatch, receive_packet, receive, receive_all}

-- The packets among the datagrams.
unfoldable pub decode_all : List Bytes → List Packet
decode_all [] = []
decode_all (raw ∷ raws) =
    let rest = decode_all raws in
    elim (decode_packet raw) [ none ↦ rest | some packet ↦ packet ∷ rest ]

pub decode_all-step :
    (raw : Bytes) (raws : List Bytes) (packet : Packet)
    → decode_packet raw ≡ some packet
    → decode_all (raw ∷ raws) ≡ packet ∷ decode_all raws
unfolding decode_all
decode_all-step raw raws packet h = rw (decode_all, h) refl

abbrev pub udp_packet : ℕ → Bytes → Bytes → Bytes → Packet
udp_packet count path_hash data_hash content = record {
  pkg_type = pkg_type_udp;
  count = count;
  path_hash = path_hash;
  data_hash = data_hash;
  content = content;
}

-- A datagram that is a packet of the UDP type.
abbrev pub IsUdp : Bytes → Type 0
IsUdp raw =
    (count : ℕ) × (path_hash : Bytes) × (data_hash : Bytes) × (content : Bytes) × (decode_packet raw
      ≡ some (udp_packet count path_hash data_hash content))

recover-udp_queue :
    (output_dir : Bytes) (r : Receiver) → (recover output_dir r).udp_queue ≡ r.udp_queue
unfolding recover
recover-udp_queue output_dir r = elim (Option-cases r.state.file_path) [
  | inl (p, e) ↦ rw (recover, e) refl
  | inr e ↦ rw (recover, e) refl
]

module _ (md5 : Bytes → Bytes) (rs : ReedSolomon) (output_dir : Bytes) where
  receive_packet-udp_queue :
      (r : Receiver) (poisoned : Bool) (count : ℕ) (path_hash data_hash content : Bytes)
      → let packet = udp_packet count path_hash data_hash content in
        (receive_packet md5 rs output_dir true (some packet) poisoned r).udp_queue
        ≡ r.udp_queue ++ packet ∷ []
  unfolding receive_packet dispatch handle_udp
  receive_packet-udp_queue r true count path_hash data_hash content =
      rw (recover-udp_queue output_dir r) refl
  receive_packet-udp_queue r false count path_hash data_hash content = refl

  -- With forwarding on, UDP packets are queued in the order in which they arrive.
  pub receive_all-udp_queue :
      (arrived : List (Bool × Bytes)) (r : Receiver)
      → All IsUdp (map (λ a. a.1) arrived)
      → (receive_all md5 rs output_dir true r arrived).udp_queue
        ≡ r.udp_queue ++ decode_all (map (λ a. a.1) arrived)
  unfolding receive_all receive decode_all
  receive_all-udp_queue [] r all = sym (append-nil r.udp_queue)
  receive_all-udp_queue ((poisoned, raw) ∷ arrived) r
        ((count, path_hash, data_hash, content, e), all) =
      let packet = udp_packet count path_hash data_hash content in
      let later = decode_all (map (λ a. a.1) arrived) in
      let queued : (receive_packet md5 rs output_dir true (decode_packet raw) poisoned r).udp_queue
          ≡ r.udp_queue ++ packet ∷ [] =
        rw e (receive_packet-udp_queue r poisoned count path_hash data_hash content) in
      receive_all-udp_queue arrived (receive md5 rs output_dir true r poisoned raw) all
      ∙ ap (λ q. q ++ later) queued
      ∙ append_assoc r.udp_queue (packet ∷ []) later
      ∙ ap (λ q. r.udp_queue ++ q) (sym (decode_all-step raw (map (λ a. a.1) arrived) packet e))
