-- ===== src/Send/Forwarder.antt =====
-- The two threads of `spawn_udp_forwarder` of diode_send/src/main.rs, and the listener thread of
-- diode_receive/src/main.rs, which is the same loop as the first.
pub mod Order
use data_diode.Prelude.{ℕ, zero, suc, List, [], ◌∷◌, Bytes}
use data_diode.Send.{forward_datagram}
use data_diode.Send.Link.{Link, SendCfg, send_to_blocking}

-- What `recv_from` answers; an error goes to the log.
pub data Recv : Type 0 where
  datagram : Bytes → Recv
  recv_error : Recv

-- The datagrams that the listener puts into the channel, which is closed after `room` of them.
unfoldable pub listen : ℕ → List Recv → List Bytes
listen room [] = []
listen room (recv_error ∷ answers) = listen room answers
listen zero (datagram data_read ∷ answers) = []
listen (suc room) (datagram data_read ∷ answers) = data_read ∷ listen room answers

module _ (cfg : SendCfg) where
  -- The sends of one datagram; an error goes to the log, and the next packet follows.
  unfoldable pub send_each : List Bytes → Link → Link
  send_each [] link = link
  send_each (packet ∷ packets) link = send_each packets (send_to_blocking cfg packet link).1

  -- The loop over the channel, by the time at which each datagram is taken out.
  unfoldable pub forward_queue : (Bytes → Bytes) → List (ℕ × Bytes) → Link → Link
  forward_queue md5 [] link = link
  forward_queue md5 ((now, data_read) ∷ queue) link =
      forward_queue md5 queue (send_each (forward_datagram md5 now data_read) link)
