-- ===== src/Tests/Showing.antt =====
-- The display during a transfer of one chunk that a poisoned lock ends.
use data_diode.Prelude.{ℕ, ◌*◌, ◌/◌, true, false, List, [], ◌∷◌, some, ◌≡◌, refl, Bytes, length}
use data_diode.Decimal.{display}
use data_diode.Receive.Worker.{init}
use data_diode.Receive.Display.{Floats, Locks, fit_16, pad_left, line1, line2, progress}
use data_diode.Receive.Display.Feed.{any_ends, handled}
use data_diode.Tests.Samples.{codes, start_of, data_of, end_of, disk}

-- The megabytes are cut to a digit.
abbrev coarse : Floats
coarse = record { megabytes = λ n. codes "0.0"; percent = λ part whole. 100 * part / whole }

abbrev no_poison : Locks
no_poison = record { state_poisoned = false; stats_poisoned = false; display_poisoned = false }

-- The file has 5 bytes, and all of them are there after 100 ms. Then the lock of the state is found
-- poisoned, which ends the worker at the END packet.
abbrev timed : List (ℕ × Locks × Bytes)
timed =
    (1_000_000_000, no_poison, start_of (codes "a") 5)
    ∷ (1_100_000_000, no_poison, data_of (codes "a") 0 (codes "hello"))
    ∷ (1_200_000_000, record no_poison { state_poisoned = true }, end_of (codes "a"))
    ∷ (1_200_000_001, no_poison, start_of (codes "b") 5)
    ∷ []

three_handled : (any_ends coarse timed ≡ true) × (length (handled coarse timed) ≡ 3)
unfolding data_diode.Receive.Packet.decode_packet start_of data_diode.Decimal.parse_utf8
    data_diode.Utf8.from_utf8 data_diode.Receive.Display.is_forced data_of end_of
three_handled = (refl, refl)

-- A transfer that waits, and one that is half way.
waiting :
    line1 coarse
      (record { files_transferred = 7; files_failed = 1; total_transferred = 0 })
      (init disk).state
    ≡ codes "Wait   7F  1E   "
unfolding line1 fit_16 pad_left init display
waiting = refl

half_way :
    line2 coarse
      (record { files_transferred = 7; files_failed = 1; total_transferred = 0 })
      (record (init disk).state {
        file_path = some (codes "a");
        file_size = 4;
        bytes_transferred = 2;
      })
    ≡ codes "  0.0MB  50%    "
unfolding line2 progress fit_16 pad_left init display
half_way = refl
