-- ===== src/Send/Flow.antt =====
-- The receiver's forwarder on the fragments of one datagram, in order.
use data_diode.Prelude.{
  ℕ, ◌+◌, ◌-◌, ◌%◌, ◌^◌, ◌≤◌, ◌<◌, true, ◌++◌, inl, inr, none, some, ◌≡◌, refl, arith, Bytes,
  length, take, ==_of_positive, ==_refl, ==-cases, beq_bytes_refl,
}
use data_diode.Decimal.{max_u64, zero_padded}
use data_diode.Decimal.RoundTrip.{parse_utf8-zero_padded}
use data_diode.Proto.{pkg_type_udp, udp_max_forward_bytes}
use data_diode.Receive.Packet.{Packet}
use data_diode.Forward.{
  UdpForwardState, reset, forward_if_complete, is_busy, first_fragment_fits, start_flow,
  next_fragment_fits, continue_flow, forward_fragment, forward_packet,
}
use data_diode.Send.Chunks.{FitsChunk}

abbrev pub fragment : ℕ → ℕ → Bytes → Bytes → Packet
fragment size count pkg_id chunk = record {
  pkg_type = pkg_type_udp;
  count = count;
  path_hash = zero_padded 32 size;
  data_hash = pkg_id;
  content = chunk;
}

-- The forwarder on the packets of a flow.
module _ (pkg_id : Bytes) (size : ℕ) (small : size ≤ udp_max_forward_bytes) where
  -- The state of the flow after the fragment `count`, which came at the time `now`.
  abbrev pub flow : Bytes → ℕ → ℕ → UdpForwardState
  flow full_packet count now = record {
    current_id = some (take 8 pkg_id);
    full_packet = full_packet;
    previous_count = count;
    expected_size = size;
    last_activity = now;
  }

  next_fits :
      (chunk : Bytes) (room : ℕ)
      → FitsChunk chunk
      → length chunk ≤ room
      → next_fragment_fits chunk room ≡ true
  unfolding next_fragment_fits
  next_fits chunk room fits h = ground arith

  first_fits :
      (chunk : Bytes)
      → FitsChunk chunk
      → length chunk ≤ size
      → first_fragment_fits chunk size ≡ true
  unfolding first_fragment_fits
  first_fits chunk fits h = ground arith

  -- A later fragment of the flow is appended.
  pub next_fragment :
      (full_packet chunk : Bytes) (count then_ now : ℕ)
      → count < 10 ^ 10
      → FitsChunk chunk
      → length full_packet + length chunk ≤ size
      → forward_packet (flow full_packet count then_) (now, fragment size (count + 1) pkg_id chunk)
        ≡ forward_if_complete (flow (full_packet ++ chunk) (count + 1) now)
  unfolding forward_packet forward_fragment continue_flow
  next_fragment full_packet chunk count then_ now few fits room =
      let no_wrap : (count + 1) % 2 ^ 64 ≡ count + 1 = omega arith in
      rw
        (
          parse_utf8-zero_padded max_u64 32 size (omega arith) (omega arith) (omega arith),
          ==_of_positive (count + 1) (omega arith),
          beq_bytes_refl (take 8 pkg_id),
          no_wrap,
          ==_refl (count + 1),
          ==_refl size,
          next_fits chunk (size - length full_packet) fits (omega arith),
        )
        refl

  pub first_fragment :
      (fwd : UdpForwardState) (chunk : Bytes) (now : ℕ)
      → fwd.current_id ≡ none
      → FitsChunk chunk
      → length chunk ≤ size
      → forward_packet fwd (now, fragment size 0 pkg_id chunk)
        ≡ forward_if_complete (flow chunk 0 now)
  unfolding forward_packet forward_fragment start_flow is_busy
  first_fragment fwd chunk now idle fits room =
      rw
        (
          parse_utf8-zero_padded max_u64 32 size (omega arith) (omega arith) (omega arith),
          first_fits chunk fits room,
          idle,
        )
        refl

  pub complete :
      (full_packet : Bytes) (count now : ℕ)
      → length full_packet ≡ size
      → forward_if_complete (flow full_packet count now)
        ≡ (some full_packet, reset (flow full_packet count now))
  unfolding forward_if_complete
  complete full_packet count now h = rw (h, ==_refl size) refl

  pub incomplete :
      (full_packet : Bytes) (count now : ℕ)
      → length full_packet < size
      → forward_if_complete (flow full_packet count now) ≡ (none, flow full_packet count now)
  unfolding forward_if_complete
  incomplete full_packet count now h = elim (==-cases (length full_packet) size) [
    | inl (e, t) ↦ absurd (omega arith)
    | inr (e, t) ↦ rw t refl
  ]
