-- ===== src/Logging.antt =====
-- `fmt_now` of diode_common/src/logging.rs. The clock's reading is a number of milliseconds since
-- 1970, 0 where the clock is before that, and its year fits an i32.
pub mod Calendar
pub mod Dual
use data_diode.Prelude.{ℕ, ◌+◌, ◌-◌, ◌*◌, ◌/◌, ◌%◌, ◌∷◌, ◌++◌, Bytes, if◌then◌else◌, leb, ltb}
use data_diode.Decimal.{zero_padded}

pub record Civil : Type 0 where
  pub year : ℕ
  pub month : ℕ
  pub day : ℕ

-- The day of the era of 400 years, which begins in March.
unfoldable pub year_of_era : ℕ → ℕ
year_of_era doe = (doe - doe / 1460 + doe / 36524 - doe / 146096) / 365

-- The month, from March on, and the day of the month, of a day of the year.
unfoldable pub month_and_day : ℕ → ℕ × ℕ
month_and_day doy =
    let mp = (5 * doy + 2) / 153 in
    ((if ltb mp 10 then mp + 3 else mp - 9), doy - (153 * mp + 2) / 5 + 1)

unfoldable pub civil_of : ℕ → Civil
civil_of days =
    let z = days + 719468 in
    let era = z / 146097 in
    let doe = z - era * 146097 in
    let yoe = year_of_era doe in
    let y = yoe + era * 400 in
    let doy = doe - (365 * yoe + yoe / 4 - yoe / 100) in
    let md = month_and_day doy in
    record { year = if leb md.0 2 then y + 1 else y; month = md.0; day = md.1 }

unfoldable pub fmt_now : ℕ → Bytes
fmt_now millis =
    let secs = millis / 1000 in
    let date = civil_of (secs / 86400) in
    zero_padded 4 date.year
    ++ (b'-' ∷ zero_padded 2 date.month
        ++ (b'-' ∷ zero_padded 2 date.day
            ++ (b' ' ∷ zero_padded 2 (secs / 3600 % 24)
                ++ (b':' ∷ zero_padded 2 (secs / 60 % 60)
                    ++ (b':' ∷ zero_padded 2 (secs % 60)
                        ++ (b',' ∷ zero_padded 3 (millis % 1000)))))))
