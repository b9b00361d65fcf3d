-- ===== src/Receive/Display.antt =====
-- `Display` of diode_receive/src/main.rs, which shows the counters on an Arduino, and its place in the
-- worker loop. Time is a number of nanoseconds.
pub mod Screens
pub mod Feed
use data_diode.Prelude.{
  ℕ, ◌-◌, ◌*◌, ◌%◌, Bool, true, false, not, ◌&&◌, ◌||◌, List, [], ◌∷◌, ◌++◌, Option, none, some,
  Bytes, length, take, replicate, if◌then◌else◌, ◌==◌, ltb,
}
use data_diode.Decimal.{display}
use data_diode.Proto.{pkg_type_start, pkg_type_end}
use data_diode.Receive.Packet.{Packet, decode_packet}
use data_diode.Receive.State.{ReceiveState, Stats, Receiver}
use data_diode.Receive.Finalize.{ReedSolomon}
use data_diode.Receive.Worker.{is_active, receive_packet}

-- What floating point arithmetic gives: the megabytes of a number of bytes, printed with one
-- decimal, and how much of a file of the second size the first number is, in percent.
pub record Floats : Type 0 where
  pub megabytes : ℕ → Bytes
  pub percent : ℕ → ℕ → ℕ

-- What `write_all` was called with, whose result is ignored, and the time of the last update.
pub record Display : Type 0 where
  pub port : List Bytes
  pub last_update : ℕ

-- Which of the locks are poisoned in a round. `into_inner` leaves the lock of the state poisoned, as
-- the standard library documents, so that it is so at the end of a round that found it poisoned.
pub record Locks : Type 0 where
  pub state_poisoned : Bool
  pub stats_poisoned : Bool
  pub display_poisoned : Bool

-- `MIN_INTERVAL`.
abbrev pub min_interval : ℕ
min_interval = 250 * 1_000_000

abbrev pub spaces : ℕ → Bytes
spaces n = replicate n b' '

-- `Display::new` with a port that could be opened. The clock is past the first interval.
abbrev pub new_display : ℕ → Display
new_display now = record {
  port = (b'\r' ∷ spaces 16) ∷ (b'\n' ∷ spaces 16) ∷ [];
  last_update = now - min_interval;
}

-- `{:>w}`.
unfoldable pub pad_left : ℕ → Bytes → Bytes
pad_left w s = spaces (w - length s) ++ s

-- `{:<16.16}`.
unfoldable pub fit_16 : Bytes → Bytes
fit_16 s = take 16 s ++ spaces (16 - length (take 16 s))

module _ (floats : Floats) where
  open floats use {megabytes, percent}

  unfoldable pub progress : ReceiveState → Bytes
  progress state =
      let part =
        if state.file_size == 0 then 100 else percent state.bytes_transferred state.file_size in
      if is_active state.file_path
      then b' ' ∷ (pad_left 3 (display part) ++ b'%' ∷ [])
      else spaces 5

  unfoldable pub line1 : Stats → ReceiveState → Bytes
  line1 stats state = fit_16 (
      (if is_active state.file_path
        then b'R' ∷ b'x' ∷ spaces 3
        else b'W' ∷ b'a' ∷ b'i' ∷ b't' ∷ spaces 1)
      ++ (pad_left 3 (display stats.files_transferred)
          ++ (b'F' ∷ b' ' ∷ (pad_left 2 (display stats.files_failed) ++ b'E' ∷ []))))

  unfoldable pub line2 : Stats → ReceiveState → Bytes
  line2 stats state =
      fit_16 (pad_left 5 (megabytes stats.total_transferred) ++ (b'M' ∷ b'B' ∷ progress state))

  unfoldable pub update : ℕ → Stats → ReceiveState → Bool → Display → Display
  update now stats state force d =
      if not force && ltb (now - d.last_update) min_interval then d else record {
        port = d.port ++ ((b'\r' ∷ []) ∷ line1 stats state ∷ (b'\n' ∷ []) ∷ line2 stats state ∷ []);
        last_update = now;
      }

  -- A START or END packet.
  unfoldable pub is_forced : Packet → Bool
  is_forced packet = (packet.pkg_type == pkg_type_start) || (packet.pkg_type == pkg_type_end)

  -- What is done with the display, and whether the worker goes on: a poisoned lock of the display
  -- is passed over, and `unwrap` panics on a poisoned lock of the statistics or the state, before
  -- the update.
  unfoldable pub locked_update : ℕ → Locks → Bool → Receiver → Display → Display × Bool
  locked_update now locks force r d =
      if locks.display_poisoned
      then (d, true)
      else if locks.stats_poisoned || locks.state_poisoned
      then (d, false)
      else (update now r.stats r.state force d, true)

  -- The end of a round of the worker loop.
  unfoldable pub refresh : ℕ → Locks → Packet → Receiver → Display → Display × Bool
  refresh now locks packet r d =
      if is_forced packet || packet.count % 1000 == 0
      then locked_update now locks (is_forced packet) r d
      else (d, true)

  module _ (md5 : Bytes → Bytes) (rs : ReedSolomon) (output_dir : Bytes) (enabled : Bool) where
    unfoldable pub show_packet :
        Option Packet → ℕ → Locks → Receiver × Display → Receiver × Display × Bool
    show_packet none now locks (r, d) = (r, d, true)
    show_packet (some packet) now locks (r, d) =
        let r' = receive_packet md5 rs output_dir enabled (some packet) locks.state_poisoned r in
        let (d', goes_on) = refresh now locks packet r' d in (r', d', goes_on)

    -- The loop with the display, and whether the worker still runs after it. Each round has the
    -- time at which it ends.
    unfoldable pub show_all :
        Receiver × Display → List (ℕ × Locks × Bytes) → Receiver × Display × Bool
    show_all (r, d) [] = (r, d, true)
    show_all (r, d) ((now, locks, raw) ∷ raws) =
        let (r', d', goes_on) = show_packet (decode_packet raw) now locks (r, d) in
        let rest = show_all (r', d') raws in if goes_on then rest else (r', d', false)

  -- What the display shows before the worker starts.
  unfoldable pub start_display : ℕ → ℕ → Receiver → Display
  start_display opened now r = update now r.stats r.state true (new_display opened)
