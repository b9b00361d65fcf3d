-- ===== src/Forward.antt =====
-- The UDP forwarder of diode_receive/src/main.rs: `UdpForwardState` and the loop of
-- `forward_udp_packets`, which puts the fragments of a datagram together again. Time is a number
-- of nanoseconds that each packet arrives with; the sends are collected in a list.
pub mod Bounds
use data_diode.Prelude.{
  ℕ, ◌+◌, ◌-◌, ◌*◌, ◌%◌, ◌^◌, Bool, false, not, ◌&&◌, ◌||◌, List, [], ◌∷◌, ◌++◌, Option, none, some,
  Bytes, length, take, if◌then◌else◌, ◌==◌, ltb, beq_bytes,
}
use data_diode.Decimal.{max_u64, parse_utf8}
use data_diode.Proto.{chunk_size, udp_max_forward_bytes}
use data_diode.Receive.Packet.{Packet}

abbrev pub udp_flow_timeout : ℕ
udp_flow_timeout = 2 * 1_000_000_000

pub record UdpForwardState : Type 0 where
  pub current_id : Option Bytes
  pub full_packet : Bytes
  pub previous_count : ℕ
  pub expected_size : ℕ
  pub last_activity : ℕ

abbrev pub new_forward_state : ℕ → UdpForwardState
new_forward_state now = record {
  current_id = none;
  full_packet = [];
  previous_count = 0;
  expected_size = 0;
  last_activity = now;
}

unfoldable pub reset : UdpForwardState → UdpForwardState
reset fwd = record fwd {
  current_id = none;
  full_packet = [];
  previous_count = 0;
  expected_size = 0;
}

-- A datagram that was sent on, if one was, and the new state.
abbrev pub Forwarded : Type 0
Forwarded = Option Bytes × UdpForwardState

-- `forward`: the result of the send only goes to the log.
unfoldable pub forward_if_complete : UdpForwardState → Forwarded
forward_if_complete fwd =
    if length fwd.full_packet == fwd.expected_size
    then (some fwd.full_packet, reset fwd)
    else (none, fwd)

abbrev pub same_id : Option Bytes → Bytes → Bool
same_id none id = false
same_id (some current) id = beq_bytes current id

-- Whether a flow of another id is in flight and not stale, so that it must not be taken over.
unfoldable pub is_busy : UdpForwardState → Bytes → ℕ → Bool
is_busy fwd id now = elim fwd.current_id [
  | none ↦ false
  | some current ↦
      not (beq_bytes current id) && not (ltb udp_flow_timeout (now - fwd.last_activity))
]

-- The tests of a first fragment, `count == 0`.
unfoldable pub first_fragment_fits : Bytes → ℕ → Bool
first_fragment_fits content declared_size =
    not (declared_size == 0 || ltb udp_max_forward_bytes declared_size)
    && not (
        length content == 0
        || (ltb chunk_size (length content) || ltb declared_size (length content)))

unfoldable pub start_flow : UdpForwardState → ℕ → Bytes → ℕ → Bytes → Forwarded
start_flow fwd now id declared_size content =
    if not (first_fragment_fits content declared_size)
    then (none, fwd)
    else if is_busy fwd id now
    then (none, fwd)
    else forward_if_complete (record fwd {
      current_id = some id;
      full_packet = content;
      previous_count = 0;
      expected_size = declared_size;
      last_activity = now;
    })

-- The tests of a later fragment's payload.
unfoldable pub next_fragment_fits : Bytes → ℕ → Bool
next_fragment_fits content remaining =
    not (length content == 0 || (ltb chunk_size (length content) || ltb remaining (length content)))

unfoldable pub continue_flow : UdpForwardState → ℕ → Bytes → ℕ → ℕ → Bytes → Forwarded
continue_flow fwd now id declared_size count content =
    if not (same_id fwd.current_id id) || not (count == (fwd.previous_count + 1) % 2 ^ 64)
    then (none, fwd)
    else if not (declared_size == fwd.expected_size)
    then (none, fwd)
    else if not (next_fragment_fits content (fwd.expected_size - length fwd.full_packet))
    then (none, reset fwd)
    else forward_if_complete (record fwd {
      full_packet = fwd.full_packet ++ content;
      previous_count = count;
      last_activity = now;
    })

-- The rest of a round, by the size that the packet declares.
unfoldable pub forward_fragment : Option ℕ → UdpForwardState → ℕ → Packet → Forwarded
forward_fragment none fwd now packet = (none, fwd)
forward_fragment (some declared_size) fwd now packet =
    let id = take 8 packet.data_hash in
    if packet.count == 0
    then start_flow fwd now id declared_size packet.content
    else continue_flow fwd now id declared_size packet.count packet.content

-- One round of the loop, for a packet that arrives at the time `now`.
unfoldable pub forward_packet : UdpForwardState → ℕ × Packet → Forwarded
forward_packet fwd (now, packet) =
    forward_fragment (parse_utf8 max_u64 packet.path_hash) fwd now packet

abbrev pub sent : Option Bytes → List Bytes
sent none = []
sent (some datagram) = datagram ∷ []

-- The datagrams that are sent on, in order, and the last state.
unfoldable pub forward_all : UdpForwardState → List (ℕ × Packet) → List Bytes × UdpForwardState
forward_all fwd [] = ([], fwd)
forward_all fwd (p ∷ ps) =
    let (datagram, fwd') = forward_packet fwd p in
    let rest = forward_all fwd' ps in (sent datagram ++ rest.0, rest.1)
