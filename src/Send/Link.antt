-- ===== src/Send/Link.antt =====
-- The link of diode_send/src/main.rs: `send_to_blocking`, `send_with_retry`, and the packets of a
-- file. A send either works, or the kernel's buffer is full, or it fails for another reason.
pub mod Calm
pub mod Backoff
use data_diode.Prelude.{ℕ, zero, suc, ◌*◌, min, Bool, true, false, List, [], ◌∷◌, ◌++◌, Bytes}
use Prim.Native.Nat.{max}
use data_diode.Proto.{
  pkg_type_start, pkg_type_data, pkg_type_end, empty_hash, encode_packet, encode_packet_into,
  encode_parity_field, md5_hex,
}
use data_diode.Send.Pacer.{Interference, wait}

-- What `send_to` answers: ENOBUFS or WouldBlock is `busy`. After a packet was accepted the pacer
-- reads the clock and claims its slot.
pub data Answer : Type 0 where
  accepted : ℕ → List Interference → Answer
  busy refused : Answer

-- The packets that are on the link, what the calls to come are answered (all are accepted when the
-- list has ended), the pauses made for a full buffer, in milliseconds, and the pacer's deadline.
pub record Link : Type 0 where
  pub packets : List Bytes
  pub answers : List Answer
  pub backoffs : List ℕ
  pub deadline : ℕ

-- `SendCfg`: a packet's time in nanoseconds, 0 without pacing, and the longest pause.
pub record SendCfg : Type 0 where
  pub interval_nanos : ℕ
  pub max_backoff : ℕ

abbrev pub enobufs_initial_backoff : ℕ
enobufs_initial_backoff = 1

abbrev pub control_resend : ℕ
control_resend = 3

-- A step of sending, which tells whether it was `Ok`; `?` ends the steps after one that was not.
abbrev pub Sending : Type 0
Sending = Link → Bool × Link

unfoldable pub then_send : Bool × Link → Sending → Bool × Link
then_send (false, link) next = (false, link)
then_send (true, link) next = next link

module _ (cfg : SendCfg) where
  unfoldable pub accept : Bytes → ℕ → List Interference → Link → Link
  accept packet now_ns is link = record link {
    packets = link.packets ++ packet ∷ [];
    deadline = (wait cfg.interval_nanos now_ns link.deadline is).1;
  }

  -- The loop, by the answers to come; an unlimited row of `busy` is one that does not end.
  unfoldable pub send_loop : Bytes → ℕ → List Answer → Sending
  send_loop packet backoff [] link = (true, accept packet 0 [] (record link { answers = [] }))
  send_loop packet backoff (accepted now_ns is ∷ answers) link =
      (true, accept packet now_ns is (record link { answers = answers }))
  send_loop packet backoff (refused ∷ answers) link = (false, record link { answers = answers })
  send_loop packet backoff (busy ∷ answers) link =
      send_loop packet (min (backoff * 2) cfg.max_backoff) answers
        (record link { backoffs = link.backoffs ++ backoff ∷ [] })

  unfoldable pub send_to_blocking : Bytes → Sending
  send_to_blocking packet link = send_loop packet enobufs_initial_backoff link.answers link

  unfoldable pub send_times : ℕ → Bytes → Sending
  send_times zero packet link = (true, link)
  send_times (suc n) packet link = then_send (send_to_blocking packet link) (send_times n packet)

  unfoldable pub send_with_retry : Bytes → ℕ → Sending
  send_with_retry packet times link = send_times (max times 1) packet link

  unfoldable pub send_start_packet : ℕ → Bytes → Bytes → ℕ → Sending
  send_start_packet filesize rel_path rel_path_hash parity_count =
      send_with_retry
        (encode_packet pkg_type_start filesize rel_path_hash (encode_parity_field parity_count)
          rel_path)
        control_resend

  -- `send_end_packet` up to `remove_file`.
  unfoldable pub send_end_packet : Bytes → ℕ → Sending
  send_end_packet rel_path count =
      send_with_retry (encode_packet pkg_type_end count empty_hash empty_hash rel_path)
        control_resend

  unfoldable pub send_data_packet : (Bytes → Bytes) → Bytes → Bytes → ℕ → Sending
  send_data_packet md5 rel_path_hash chunk count =
      send_to_blocking
        (encode_packet_into [] pkg_type_data count rel_path_hash (md5_hex md5 chunk) chunk)
