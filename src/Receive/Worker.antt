-- ===== src/Receive/Worker.antt =====
-- The loop of the worker thread in `main` of diode_receive/src/main.rs: one datagram at a time is
-- decoded and handed to the handler of its type.
pub mod Confinement
pub mod Keeping
pub mod Bounds
pub mod Counting
pub mod Queue
use data_diode.Prelude.{
  ℕ, ◌%◌, Bool, true, false, not, ◌&&◌, List, [], ◌∷◌, ◌++◌, Option, none, some, Bytes, length,
  if◌then◌else◌, ◌==◌, ltb,
}
use data_diode.Decimal.{max_u64}
use data_diode.Utf8.{from_utf8_lossy}
use data_diode.Proto.{
  batch_parity_chunks, pkg_type_start, pkg_type_data, pkg_type_end, pkg_type_parity, pkg_type_udp,
  decode_parity_field,
}
use data_diode.FileSystem.{FileSystem, remove_file}
use data_diode.Receive.Packet.{Packet, decode_packet}
use data_diode.Receive.State.{ReceiveState, Stats, Receiver, new_state, new_stats, wrapping_add}
use data_diode.Receive.Chunk.{is_chunk_valid, batch_for_data, batch_for_parity}
use data_diode.Receive.Buffer.{buffer_data, buffer_parity}
use data_diode.Receive.Finalize.{ReedSolomon, advance_to_batch}
use data_diode.Receive.Transfer.{Announcement, partial_path, new_file, finish_file}

-- `state_guard.file_path.is_some()`.
abbrev pub is_active : Option Bytes → Bool
is_active none = false
is_active (some p) = true

-- The recovery of a poisoned state lock.
unfoldable pub recover : Bytes → Receiver → Receiver
recover output_dir r = elim r.state.file_path [
  | none ↦ record r { state = new_state }
  | some p ↦ record r { state = new_state; fs = (remove_file (partial_path output_dir p) r.fs).1 }
]

abbrev pub announcement : Packet → Announcement
announcement packet = record {
  path = from_utf8_lossy packet.content;
  size = packet.count;
  path_hash = packet.path_hash;
  parity_per_batch = elim (decode_parity_field packet.data_hash) [ none ↦ 0 | some n ↦ n ];
}

unfoldable pub handle_start : Bytes → Receiver → Packet → Receiver
handle_start output_dir r packet = new_file output_dir r (announcement packet)

unfoldable pub handle_udp : Bool → Receiver → Packet → Receiver
handle_udp udp_forwarding_enabled r packet =
    if udp_forwarding_enabled
    then record r {
      stats = record r.stats {
        total_transferred = wrapping_add r.stats.total_transferred (length packet.content);
      };
      udp_queue = r.udp_queue ++ packet ∷ [];
    }
    else r

module _ (md5 : Bytes → Bytes) (rs : ReedSolomon) where
  -- A later batch finishes the batches before it.
  unfoldable pub advance_if_later : Receiver → ℕ → Receiver
  advance_if_later r batch =
      let (state, fs) = advance_to_batch rs r.state batch r.fs in
      if ltb r.state.current_batch batch then record r { state = state; fs = fs } else r

  unfoldable pub handle_data : Receiver → Packet → Receiver
  handle_data r packet =
      let batch = batch_for_data packet.count in
      let r' = advance_if_later r batch in
      let (state, stats) = buffer_data r'.state r'.stats packet in
      if not (not r.state.failed && is_chunk_valid md5 packet r.state pkg_type_data)
      then r
      else if not r'.state.failed && batch == r'.state.current_batch
      then record r' { state = state; stats = stats }
      else r'

  unfoldable pub handle_parity : Receiver → Packet → Receiver
  handle_parity r packet =
      let batch = batch_for_parity packet.count in
      let r' = advance_if_later r batch in
      if not (not r.state.failed && is_chunk_valid md5 packet r.state pkg_type_parity)
      then r
      else if not r'.state.failed && batch == r'.state.current_batch
      then record r' { state = buffer_parity r'.state packet (packet.count % batch_parity_chunks) }
      else r'

  module _ (output_dir : Bytes) (udp_forwarding_enabled : Bool) where
    -- The `match` on the type of a packet; a type with a guard is ignored when no transfer runs.
    unfoldable pub dispatch : Receiver → Packet → Receiver
    dispatch r packet =
        let active = is_active r.state.file_path in
        if packet.pkg_type == pkg_type_start
        then handle_start output_dir r packet
        else if (packet.pkg_type == pkg_type_data) && active
        then handle_data r packet
        else if (packet.pkg_type == pkg_type_parity) && active
        then handle_parity r packet
        else if (packet.pkg_type == pkg_type_end) && active
        then finish_file rs output_dir r
        else if packet.pkg_type == pkg_type_udp
        then handle_udp udp_forwarding_enabled r packet
        else r

    -- One round of the loop. `poisoned` says that the state lock was found poisoned.
    unfoldable pub receive_packet : Option Packet → Bool → Receiver → Receiver
    receive_packet none poisoned r = r
    receive_packet (some packet) poisoned r =
        dispatch (if poisoned then recover output_dir r else r) packet

    unfoldable pub receive : Receiver → Bool → Bytes → Receiver
    receive r poisoned raw = receive_packet (decode_packet raw) poisoned r

    unfoldable pub receive_all : Receiver → List (Bool × Bytes) → Receiver
    receive_all r [] = r
    receive_all r ((poisoned, raw) ∷ raws) = receive_all (receive r poisoned raw) raws

unfoldable pub init : FileSystem → Receiver
init fs = record { state = new_state; stats = new_stats; fs = fs; udp_queue = [] }
