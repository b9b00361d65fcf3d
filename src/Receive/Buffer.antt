-- ===== src/Receive/Buffer.antt =====
-- `buffer_data` and `buffer_parity` of diode_receive/src/main.rs.
pub mod Bounds
use data_diode.Prelude.{ℕ, true, length, if◌then◌else◌, ltb}
use data_diode.BTreeMap.{contains_key, insert}
use data_diode.Receive.Packet.{Packet}
use data_diode.Receive.State.{ReceiveState, Stats, buffer_byte_limit, saturating_add}

unfoldable pub buffer_data : ReceiveState → Stats → Packet → ReceiveState × Stats
buffer_data state stats packet =
    if contains_key packet.count state.data_buffer
    then (state, stats)
    else if ltb buffer_byte_limit (saturating_add state.bytes_buffered (length packet.content))
    then (record state { failed = true }, stats)
    else (
      record state {
        bytes_buffered = saturating_add state.bytes_buffered (length packet.content);
        bytes_transferred = saturating_add state.bytes_transferred (length packet.content);
        data_buffer = insert packet.count packet.content state.data_buffer;
      },
      record stats {
        total_transferred = saturating_add stats.total_transferred (length packet.content);
      },
    )

unfoldable pub buffer_parity : ReceiveState → Packet → ℕ → ReceiveState
buffer_parity state packet idx_in_batch =
    if contains_key idx_in_batch state.parity_buffer
    then state
    else if ltb buffer_byte_limit (saturating_add state.bytes_buffered (length packet.content))
    then record state { failed = true }
    else record state {
      bytes_buffered = saturating_add state.bytes_buffered (length packet.content);
      parity_buffer = insert idx_in_batch packet.content state.parity_buffer;
    }
