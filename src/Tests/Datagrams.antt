-- ===== src/Tests/Datagrams.antt =====
-- A UDP datagram through the diode.
use data_diode.Prelude.{
  ◌%◌, true, List, [], ◌∷◌, map, ◌≡◌, refl, ap, arith, Bytes, length, replicate, length-replicate,
}
use data_diode.Forward.{new_forward_state, forward_all}
use data_diode.Send.{forward_datagram, chunks, chunks_within}
use data_diode.Send.Delivery.{stamp, forward_datagram-forward_all}
use data_diode.Send.Link.{Link, accepted, busy, refused}
use data_diode.Send.Forwarder.{datagram, recv_error, listen, forward_queue}
use data_diode.Send.Forwarder.Order.{
  queue_packets, through, forward_queue-through, forward_queue-forward_all,
}
use data_diode.Tests.Sending.{cfg}
use data_diode.Receive.Worker.{init, receive_all}
use data_diode.Tests.Samples.{codes, length_hash, mirror, out_dir, disk, clean}

map-clean : (raws : List Bytes) → map (λ a. a.1) (clean raws) ≡ raws
map-clean [] = refl
map-clean (raw ∷ raws) = ap (◌∷◌ raw) (map-clean raws)

-- 941 bytes make a full chunk and a chunk of one byte.
two_chunks : map length (chunks (replicate 941 7)) ≡ 940 ∷ 1 ∷ []
unfolding chunks chunks_within
two_chunks = refl

forward_datagram-forward_all_example :
    let arrived = clean (forward_datagram length_hash 7 (codes "hello")) in
    let queue = (receive_all length_hash mirror out_dir true (init disk) arrived).udp_queue in
    (forward_all (new_forward_state 0) (stamp (λ i. i) queue)).0
    ≡ codes "hello" ∷ codes "hello" ∷ []
unfolding init
forward_datagram-forward_all_example =
    forward_datagram-forward_all length_hash (λ s. length-replicate 16 (length s % 256)) mirror
      out_dir 7 (codes "hello") (clean (forward_datagram length_hash 7 (codes "hello"))) (init disk)
      (λ i. i) (new_forward_state 0) (omega arith) (omega arith)
      (map-clean (forward_datagram length_hash 7 (codes "hello"))) refl refl

-- The channel is closed after two datagrams.
two_heard :
    listen 2 (datagram (codes "a") ∷ recv_error ∷ datagram (codes "b") ∷ datagram (codes "c") ∷ [])
    ≡ codes "a" ∷ codes "b" ∷ []
unfolding listen
two_heard = refl

-- The buffer is full once, and a later packet is refused.
abbrev crowded : Link
crowded = record {
  packets = [];
  answers = busy ∷ accepted 0 [] ∷ refused ∷ [];
  backoffs = [];
  deadline = 0;
}

forward_queue-through_example :
    (forward_queue cfg length_hash ((7, codes "hello") ∷ (9, codes "x") ∷ []) crowded).packets
    ≡ through crowded.answers (queue_packets length_hash ((7, codes "hello") ∷ (9, codes "x") ∷ []))
forward_queue-through_example =
    forward_queue-through cfg length_hash ((7, codes "hello") ∷ (9, codes "x") ∷ []) crowded

abbrev slow_link : Link
slow_link = record {
  packets = [];
  answers = busy ∷ accepted 0 [] ∷ busy ∷ [];
  backoffs = [];
  deadline = 0;
}

forward_queue-forward_all_example :
    let sent = (forward_queue cfg length_hash ((7, codes "hello") ∷ []) slow_link).packets in
    let queue = (receive_all length_hash mirror out_dir true (init disk) (clean sent)).udp_queue in
    (forward_all (new_forward_state 0) (stamp (λ i. i) queue)).0
    ≡ codes "hello" ∷ codes "hello" ∷ []
unfolding init
forward_queue-forward_all_example =
    let sent = (forward_queue cfg length_hash ((7, codes "hello") ∷ []) slow_link).packets in
    forward_queue-forward_all cfg length_hash (λ s. length-replicate 16 (length s % 256)) mirror
      out_dir 7 (codes "hello") slow_link (clean sent) (init disk) (λ i. i) (new_forward_state 0)
      (omega arith) (omega arith) refl tt (map-clean sent) refl refl
