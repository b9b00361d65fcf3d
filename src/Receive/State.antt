-- ===== src/Receive/State.antt =====
-- `ReceiveState` and `Stats` of diode_receive/src/main.rs, the limits of u64 counters, and what
-- the worker thread owns: both of these, the file system and the queue to the UDP forwarder.
use data_diode.Prelude.{ℕ, ◌+◌, ◌*◌, ◌%◌, ◌^◌, min, Bool, false, List, [], Option, none, Bytes}
use data_diode.Decimal.{max_u64}
use data_diode.BTreeMap.{BTreeMap}
use data_diode.FileSystem.{FileSystem, File}
use data_diode.Receive.Packet.{Packet}

abbrev pub buffer_byte_limit : ℕ
buffer_byte_limit = 8 * 1024 * 1024

abbrev pub saturating_add : ℕ → ℕ → ℕ
saturating_add a b = min (a + b) max_u64

-- `a + b` of a release build; a debug build panics instead of wrapping.
abbrev pub wrapping_add : ℕ → ℕ → ℕ
wrapping_add a b = (a + b) % 2 ^ 64

abbrev pub wrapping_mul : ℕ → ℕ → ℕ
wrapping_mul a b = a * b % 2 ^ 64

pub record ReceiveState : Type 0 where
  pub bytes_transferred : ℕ
  pub file_path : Option Bytes
  pub file_size : ℕ
  pub parity_per_batch : ℕ
  pub path_hash : Option Bytes
  pub current_batch : ℕ
  pub data_buffer : BTreeMap Bytes
  pub parity_buffer : BTreeMap Bytes
  pub bytes_buffered : ℕ
  pub failed : Bool
  pub output : Option File

abbrev pub new_state : ReceiveState
new_state = record {
  bytes_transferred = 0;
  file_path = none;
  file_size = 0;
  parity_per_batch = 0;
  path_hash = none;
  current_batch = 0;
  data_buffer = [];
  parity_buffer = [];
  bytes_buffered = 0;
  failed = false;
  output = none;
}

pub record Stats : Type 0 where
  pub files_transferred : ℕ
  pub files_failed : ℕ
  pub total_transferred : ℕ

abbrev pub new_stats : Stats
new_stats = record { files_transferred = 0; files_failed = 0; total_transferred = 0 }

pub record Receiver : Type 0 where
  pub state : ReceiveState
  pub stats : Stats
  pub fs : FileSystem
  pub udp_queue : List Packet
