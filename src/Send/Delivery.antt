-- ===== src/Send/Delivery.antt =====
-- A UDP datagram on its way through the sender, the wire and the receiver's forwarder.
use data_diode.Prelude.{
  ℕ, suc, ◌+◌, ◌^◌, ◌≤◌, ◌<◌, Bool, true, List, [], ◌∷◌, ◌++◌, map, append_assoc, append-nil, none,
  some, ◌≡◌, refl, sym, ap, ◌∙◌, subst, arith, Bytes, length, length-append, All, All-append,
}
use data_diode.Decimal.{display, zero_padded}
use data_diode.Decimal.RoundTrip.{length-zero_padded}
use data_diode.Proto.{
  pkg_type_udp, udp_max_forward_bytes, encode_packet, encode_packet_into, md5_hex, length-hex,
}
use data_diode.Receive.Packet.{Packet, decode_packet}
use data_diode.Receive.Packet.RoundTrip.{decode_packet-encode_packet}
use data_diode.Forward.{UdpForwardState, reset, forward_if_complete, forward_packet, forward_all}
use data_diode.Send.Chunks.{
  joined, FitsChunk, joined-chunks_within, chunks_within-FitsChunk, length-chunks_within,
}
use data_diode.Send.Flow.{fragment, flow, next_fragment, first_fragment, complete, incomplete}
use data_diode.Receive.State.{Receiver}
use data_diode.Receive.Finalize.{ReedSolomon}
use data_diode.Receive.Worker.{receive_all}
use data_diode.Receive.Worker.Queue.{decode_all, decode_all-step, IsUdp, receive_all-udp_queue}
use data_diode.Send.{chunks_within, chunks, fragments_from, resend, forward_datagram}

-- The packets with the times at which the forwarder takes them from its queue.
abbrev pub stamp : (ℕ → ℕ) → List Packet → List (ℕ × Packet)
stamp clock [] = []
stamp clock (packet ∷ packets) = (clock 0, packet) ∷ stamp (λ i. clock (suc i)) packets

-- What the receiver's forwarder gets of the datagrams `raws`.
abbrev arrivals : (ℕ → ℕ) → List Bytes → List (ℕ × Packet)
arrivals clock raws = stamp clock (decode_all raws)

arrivals-step :
    (clock : ℕ → ℕ) (raw : Bytes) (more : List Bytes) (packet : Packet)
    → decode_packet raw ≡ some packet
    → arrivals clock (raw ∷ more) ≡ (clock 0, packet) ∷ arrivals (λ i. clock (suc i)) more
arrivals-step clock raw more packet h = ap (stamp clock) (decode_all-step raw more packet h)

module _ (pkg_id : Bytes) (size : ℕ) (small : size ≤ udp_max_forward_bytes)
    (width : length pkg_id ≡ 32) where
  decode_packet-fragment :
      (count : ℕ) (chunk : Bytes)
      → count < 10 ^ 10
      → decode_packet (encode_packet_into [] pkg_type_udp count (zero_padded 32 size) pkg_id chunk)
        ≡ some (fragment size count pkg_id chunk)
  decode_packet-fragment count chunk few =
      unfold encode_packet in
      decode_packet-encode_packet pkg_type_udp count (zero_padded 32 size) pkg_id chunk
        (omega arith) few (length-zero_padded 32 size (omega arith) (omega arith)) width

  arrivals-fragment :
      (clock : ℕ → ℕ) (count : ℕ) (chunk : Bytes) (more : List Bytes)
      → count < 10 ^ 10
      → arrivals clock
          (encode_packet_into [] pkg_type_udp count (zero_padded 32 size) pkg_id chunk ∷ more)
        ≡ (clock 0, fragment size count pkg_id chunk) ∷ arrivals (λ i. clock (suc i)) more
  arrivals-fragment clock count chunk more few =
      arrivals-step clock
        (encode_packet_into [] pkg_type_udp count (zero_padded 32 size) pkg_id chunk) more
        (fragment size count pkg_id chunk) (decode_packet-fragment count chunk few)

  fragments_from-IsUdp :
      (count : ℕ) (cs : List Bytes)
      → count + length cs < 10 ^ 10
      → All IsUdp (fragments_from count (zero_padded 32 size) pkg_id cs)
  unfolding fragments_from
  fragments_from-IsUdp count [] few = tt
  fragments_from-IsUdp count (c ∷ cs) few = (
    (count, zero_padded 32 size, pkg_id, c, decode_packet-fragment count c (omega arith)),
    fragments_from-IsUdp (count + 1) cs (omega arith),
  )

  -- The datagram is sent on, and the rest arrives at a forwarder without a flow.
  abbrev Delivers : Bytes → UdpForwardState → List (ℕ × Packet) → List Bytes → Type 0
  Delivers datagram fwd packets more =
      (clock : ℕ → ℕ) × (fwd' : UdpForwardState) × (fwd'.current_id ≡ none)
      × ((forward_all fwd packets).0 ≡ datagram ∷ (forward_all fwd' (arrivals clock more)).0)

  deliver_rest :
      (cs : List Bytes) (full_packet : Bytes) (count now : ℕ) (clock : ℕ → ℕ) (more : List Bytes)
      (fwd : UdpForwardState) (p : ℕ × Packet)
      → All FitsChunk cs
      → count + length cs < 10 ^ 10
      → length full_packet + length (joined cs) ≡ size
      → forward_packet fwd p ≡ forward_if_complete (flow pkg_id size small full_packet count now)
      → Delivers
          (full_packet ++ joined cs)
          fwd
          (p ∷ arrivals clock (fragments_from (count + 1) (zero_padded 32 size) pkg_id cs ++ more))
          more
  unfolding fragments_from forward_all reset
  deliver_rest [] full_packet count now clock more fwd p fits few whole step = (
    clock,
    reset (flow pkg_id size small full_packet count now),
    refl,
    rw (step, complete pkg_id size small full_packet count now (omega arith), append-nil) refl,
  )
  deliver_rest (c ∷ cs) full_packet count now clock more fwd p ((some_bytes, h), fits) few whole
        step =
      let tail : ℕ → ℕ = λ i. clock (suc i) in
      let (clock', fwd', idle, e) =
        deliver_rest cs (full_packet ++ c) (count + 1) (clock 0) tail more
          (flow pkg_id size small full_packet count now)
          (clock 0, fragment size (count + 1) pkg_id c) fits (omega arith)
          (omega (arith, length-append full_packet c, length-append c (joined cs)))
          (next_fragment pkg_id size small full_packet c count now (clock 0) (omega arith)
            (some_bytes, h) (omega (arith, length-append c (joined cs)))) in
      (
        clock',
        fwd',
        idle,
        rw
            (
              step,
              incomplete pkg_id size small full_packet count now
                  (omega (arith, length-append c (joined cs))),
              arrivals-fragment clock (count + 1) c
                  (fragments_from (count + 1 + 1) (zero_padded 32 size) pkg_id cs ++ more)
                  (omega arith),
              sym (append_assoc full_packet c (joined cs)),
            )
            e,
      )

  deliver_round :
      (cs : List Bytes) (clock : ℕ → ℕ) (more : List Bytes) (fwd : UdpForwardState)
      → All FitsChunk cs
      → length cs < 10 ^ 10
      → length (joined cs) ≡ size
      → 1 ≤ size
      → fwd.current_id ≡ none
      → Delivers
          (joined cs)
          fwd
          (arrivals clock (fragments_from 0 (zero_padded 32 size) pkg_id cs ++ more))
          more
  unfolding fragments_from
  deliver_round [] clock more fwd fits few whole some_bytes idle = absurd (omega arith)
  deliver_round (c ∷ cs) clock more fwd (fit, fits) few whole some_bytes idle =
      let tail : ℕ → ℕ = λ i. clock (suc i) in
      rw
        (arrivals-fragment clock 0 c
          (fragments_from (0 + 1) (zero_padded 32 size) pkg_id cs ++ more) (omega arith))
        (deliver_rest cs c 0 (clock 0) tail more fwd (clock 0, fragment size 0 pkg_id c) fits
          (omega arith) (omega (arith, length-append c (joined cs)))
          (first_fragment pkg_id size small fwd c (clock 0) idle fit
            (omega (arith, length-append c (joined cs)))))

module _ (md5 : Bytes → Bytes) (digest : (s : Bytes) → length (md5 s) ≡ 16) where
  length-md5_hex : (s : Bytes) → length (md5_hex md5 s) ≡ 32
  unfolding md5_hex
  length-md5_hex s = omega (arith, length-hex (md5 s), digest s)

  -- Both rounds of a datagram are packets that the receiver's worker queues.
  forward_datagram-IsUdp :
      (now : ℕ) (datagram : Bytes)
      → length datagram ≤ udp_max_forward_bytes
      → All IsUdp (forward_datagram md5 now datagram)
  unfolding forward_datagram resend chunks
  forward_datagram-IsUdp now datagram fits =
      let size = length datagram in
      let id = md5_hex md5 (display now) in
      let round = fragments_from 0 (zero_padded 32 size) id (chunks_within size datagram) in
      let all : All IsUdp round =
        fragments_from-IsUdp id size fits (length-md5_hex (display now)) 0
          (chunks_within size datagram) (omega (arith, length-chunks_within size datagram)) in
      All-append IsUdp round (round ++ []) all (All-append IsUdp round [] all tt)

  forward_datagram-arrivals :
      (now : ℕ) (datagram : Bytes) (clock : ℕ → ℕ) (fwd : UdpForwardState)
      → 1 ≤ length datagram
      → length datagram ≤ udp_max_forward_bytes
      → fwd.current_id ≡ none
      → (forward_all fwd (arrivals clock (forward_datagram md5 now datagram))).0
        ≡ datagram ∷ datagram ∷ []
  unfolding forward_datagram resend chunks forward_all decode_all
  forward_datagram-arrivals now datagram clock fwd some_bytes fits idle =
      let size = length datagram in
      let id = md5_hex md5 (display now) in
      let width : length id ≡ 32 = length-md5_hex (display now) in
      let cs = chunks_within size datagram in
      let same : joined cs ≡ datagram = joined-chunks_within size datagram (omega arith) in
      let few : length cs < 10 ^ 10 = omega (arith, length-chunks_within size datagram) in
      let all_fit : All FitsChunk cs = chunks_within-FitsChunk size datagram in
      let again = fragments_from 0 (zero_padded 32 size) id cs ++ [] in
      let (clock1, fwd1, idle1, e1) =
        deliver_round id size fits width cs clock again fwd all_fit few (ap length same) some_bytes
          idle in
      let (clock2, fwd2, idle2, e2) =
        deliver_round id size fits width cs clock1 [] fwd1 all_fit few (ap length same) some_bytes
          idle1 in
      e1 ∙ ap (λ rest. joined cs ∷ rest) e2 ∙ ap (λ d. d ∷ d ∷ []) same

  -- A datagram of 1 byte to 4 MiB that the sender cuts into packets and sends twice, all of which
  -- arrive in order at a receiver that forwards and whose queue is empty, is sent on byte for byte
  -- twice by a forwarder that has no flow, whatever the transfer under way and the clocks. MD5
  -- digests have 16 bytes.
  pub forward_datagram-forward_all :
      (rs : ReedSolomon) (output_dir : Bytes) (now : ℕ) (datagram : Bytes)
      (arrived : List (Bool × Bytes)) (r : Receiver) (clock : ℕ → ℕ) (fwd : UdpForwardState)
      → 1 ≤ length datagram
      → length datagram ≤ udp_max_forward_bytes
      → map (λ a. a.1) arrived ≡ forward_datagram md5 now datagram
      → r.udp_queue ≡ []
      → fwd.current_id ≡ none
      → let queue = (receive_all md5 rs output_dir true r arrived).udp_queue in
        (forward_all fwd (stamp clock queue)).0 ≡ datagram ∷ datagram ∷ []
  forward_datagram-forward_all rs output_dir now datagram arrived r clock fwd some_bytes fits
        sent_as empty idle =
      let all : All IsUdp (map (λ a. a.1) arrived) =
        subst (All IsUdp) (sym sent_as) (forward_datagram-IsUdp now datagram fits) in
      let queued : (receive_all md5 rs output_dir true r arrived).udp_queue
          ≡ decode_all (forward_datagram md5 now datagram) =
        receive_all-udp_queue md5 rs output_dir arrived r all ∙ rw (empty, sent_as) refl in
      ap (λ q. (forward_all fwd (stamp clock q)).0) queued
      ∙ forward_datagram-arrivals now datagram clock fwd some_bytes fits idle
