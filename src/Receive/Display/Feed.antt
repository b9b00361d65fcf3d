-- ===== src/Receive/Display/Feed.antt =====
-- What the display is fed, and how fast.
use data_diode.Prelude.{
  ℕ, ◌+◌, ◌%◌, ◌≤◌, Bool, true, false, not, ◌&&◌, ◌||◌, List, [], ◌∷◌, Option, none, some, ◌≡◌,
  Bytes, if◌then◌else◌, ◌==◌,
}
use data_diode.Receive.Packet.{Packet, decode_packet}
use data_diode.Receive.Display.Screens.{IsFed}
use data_diode.Receive.Display.{Floats, Display, Locks, is_forced}

module _ (floats : Floats) where
  abbrev forced_count : Bool → ℕ
  forced_count true = 1
  forced_count false = 0

  -- A round of the loop: the time at which it ends, the locks and the datagram.
  abbrev pub Round : Type 0
  Round = ℕ × Locks × Bytes

  abbrev is_due : Packet → Bool
  is_due packet = is_forced floats packet || packet.count % 1000 == 0

  -- The lock of the display is free, and one that is unwrapped is poisoned.
  abbrev is_fatal : Locks → Bool
  is_fatal locks = not locks.display_poisoned && (locks.state_poisoned || locks.stats_poisoned)

  abbrev ends_by : Option Packet → Locks → Bool
  ends_by none locks = false
  ends_by (some packet) locks = is_due packet && is_fatal locks

  -- A packet that is due on the display comes while the locks are fatal.
  abbrev pub ends_worker : Round → Bool
  ends_worker (now, locks, raw) = ends_by (decode_packet raw) locks

  -- The rounds up to the first one that ends the worker.
  abbrev pub handled : List Round → List Round
  handled [] = []
  handled (round ∷ rounds) =
      let rest = handled rounds in round ∷ (if ends_worker round then [] else rest)

  abbrev pub any_ends : List Round → Bool
  any_ends [] = false
  any_ends (round ∷ rounds) = ends_worker round || any_ends rounds

  abbrev forced_by : Option Packet → ℕ
  forced_by none = 0
  forced_by (some packet) = forced_count (is_forced floats packet)

  -- How many of the datagrams are START or END packets.
  abbrev pub forced_in : List Round → ℕ
  forced_in [] = 0
  forced_in ((now, locks, raw) ∷ rounds) = forced_by (decode_packet raw) + forced_in rounds

  abbrev pub untimed : List Round → List (Bool × Bytes)
  untimed [] = []
  untimed ((now, locks, raw) ∷ rounds) = (locks.state_poisoned, raw) ∷ untimed rounds

  -- Times that do not go back.
  abbrev pub Ticks : ℕ → List Round → Type 0
  Ticks t [] = Unit
  Ticks t ((now, locks, raw) ∷ rounds) = (t ≤ now) × Ticks now rounds

  -- The display and the worker after the end of a round.
  abbrev IsRefreshed : ℕ → ℕ → Bool → Display → Display × Bool → Type 0
  IsRefreshed now forced ends d w = IsFed forced d w.0 × (w.0.last_update ≤ now) × (w.1 ≡ not ends)
