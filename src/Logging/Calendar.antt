-- ===== src/Logging/Calendar.antt =====
-- The date of `fmt_now` is that of the Gregorian calendar.
use data_diode.Prelude.{
  ℕ, zero, suc, ◌+◌, ◌-◌, ◌*◌, ◌/◌, ◌%◌, ◌≤◌, ◌<◌, Bool, false, not, ◌&&◌, ◌||◌, ◌⊎◌, inl, inr, ◌≡◌,
  refl, arith, if◌then◌else◌, ◌==◌, leb, ltb, ltb→lt, ltb→ge, leb_of_lt, ==-cases, Bool-cases,
}
use native.Mathlib.Numerals.{add-one}
use data_diode.Logging.{Civil, year_of_era, month_and_day, civil_of}

-- The calendar: leap years, the days of a month, and the days before a year and a month.
abbrev pub is_leap : ℕ → Bool
is_leap y = (y % 4 == 0) && (not (y % 100 == 0) || (y % 400 == 0))

abbrev pub days_in_month : ℕ → ℕ → ℕ
days_in_month y m =
    if m == 2
    then (if is_leap y then 29 else 28)
    else if (m == 4) || ((m == 6) || ((m == 9) || (m == 11)))
    then 30
    else 31

-- The days of the first `n` months.
abbrev pub month_days : ℕ → ℕ → ℕ
month_days y zero = 0
month_days y (suc n) = month_days y n + days_in_month y (suc n)

-- The days of the years before `y`, from year 0 on.
unfoldable pub year_days : ℕ → ℕ
year_days zero = 0
year_days (suc y) = year_days y + (if is_leap y then 366 else 365)

year_days_closed : (y : ℕ) → year_days y + (y + 99) / 100 ≡ 365 * y + (y + 3) / 4 + (y + 399) / 400
unfolding year_days
year_days_closed zero = refl
year_days_closed (suc y) = ground (arith, year_days_closed y)

-- A day of the year that begins in March, and where its month begins.
abbrev march_days : ℕ → ℕ
march_days mp = (153 * mp + 2) / 5

month_and_day_lem :
    (doy : ℕ)
    → doy ≤ 365
    → let mp = (5 * doy + 2) / 153 in
      (mp ≤ 11) × (march_days mp ≤ doy) × (doy < march_days (mp + 1))
month_and_day_lem doy h = (omega arith, omega arith, omega arith)

-- The days of an era before its year number `y`.
abbrev era_days : ℕ → ℕ
era_days y = 365 * y + y / 4 - y / 100

year_of_era-bounds :
    (doe : ℕ)
    → doe < 146097
    → (era_days (year_of_era doe) ≤ doe)
      × (year_of_era doe < 400)
      × ((doe < era_days (year_of_era doe + 1)) ⊎ ((doe ≡ 146096) × (year_of_era doe ≡ 399)))
unfolding year_of_era
year_of_era-bounds doe h = (
  omega arith,
  omega arith,
  elim (==-cases doe 146096) [ inl (e, t) ↦ inr (e, omega arith) | inr (e, t) ↦ inl (omega arith) ],
)

abbrev leap_day : ℕ → ℕ
leap_day y = if is_leap y then 1 else 0

-- From March to December: the days of the year before the month, and its length.
spring_months :
    (y mp : ℕ)
    → mp < 10
    → (month_days y (mp + 2) ≡ 59 + leap_day y + march_days mp)
      × (days_in_month y (mp + 3) + march_days mp ≡ march_days (mp + 1))
spring_months y zero h = (ground arith, refl)
spring_months y (suc zero) h = (ground arith, refl)
spring_months y (suc (suc zero)) h = (ground arith, refl)
spring_months y (suc (suc (suc zero))) h = (ground arith, refl)
spring_months y (suc (suc (suc (suc zero)))) h = (ground arith, refl)
spring_months y (suc (suc (suc (suc (suc zero))))) h = (ground arith, refl)
spring_months y (suc (suc (suc (suc (suc (suc zero)))))) h = (ground arith, refl)
spring_months y (suc (suc (suc (suc (suc (suc (suc zero))))))) h = (ground arith, refl)
spring_months y (suc (suc (suc (suc (suc (suc (suc (suc zero)))))))) h = (ground arith, refl)
spring_months y (suc (suc (suc (suc (suc (suc (suc (suc (suc zero))))))))) h = (ground arith, refl)
spring_months y (suc (suc (suc (suc (suc (suc (suc (suc (suc (suc n)))))))))) h =
    absurd (omega arith)

january : (y : ℕ) → (month_days y 0 ≡ 0) × (days_in_month y 1 ≡ 31) × (month_days y 1 ≡ 31)
january y = (refl, refl, refl)

february : (y : ℕ) → days_in_month y 2 ≡ 28 + leap_day y
february y = ground arith

year_days-suc : (y : ℕ) → year_days (y + 1) ≡ year_days y + 365 + leap_day y
year_days-suc y = rw add-one (unfold year_days in ground arith)

-- A date of the calendar, and the number of its day, where 0 is 1 January 1970.
pub record IsDate (days : ℕ) (date : Civil) : Type 0 where
  pub month_in : (1 ≤ date.month) × (date.month ≤ 12)
  pub day_in : (1 ≤ date.day) × (date.day ≤ days_in_month date.year date.month)
  pub number :
      year_days date.year + month_days date.year (date.month - 1) + (date.day - 1)
      ≡ days + year_days 1970

epoch : year_days 1970 ≡ 719528
epoch = omega (arith, year_days_closed 1970)

-- The date of the day `doy` of the year `y` that begins in March.
abbrev dated : ℕ → ℕ → Civil
dated y doy =
    let md = month_and_day doy in
    record { year = if leb md.0 2 then y + 1 else y; month = md.0; day = md.1 }

dated-IsDate :
    (days y doy : ℕ)
    → doy ≤ 364 + leap_day (y + 1)
    → 365 * y + y / 4 + y / 400 + doy + 60 ≡ days + 719528 + y / 100
    → IsDate days (dated y doy)
unfolding month_and_day
dated-IsDate days y doy small count =
    let mp = (5 * doy + 2) / 153 in
    let one : leap_day (y + 1) ≤ 1 = ground arith in
    let (d, e, f) = month_and_day_lem doy (omega arith) in
    elim (Bool-cases (ltb mp 10)) [
      | inl t ↦
          let lt = ltb→lt mp 10 t in
          let (g, h) = spring_months y mp lt in
          let late : leb (mp + 3) 2 ≡ false = leb_of_lt (mp + 3) 2 (omega arith) in
          let back : mp + 3 - 1 ≡ mp + 2 = omega arith in
          rw (t, late)
            (record {
              month_in = (omega arith, omega arith);
              day_in = (omega arith, omega arith);
              number = rw back (omega (arith, g, epoch, year_days-suc y, year_days_closed (y + 1)));
            })
      | inr t ↦ elim (==-cases mp 10) [
        | inl (ten, u) ↦ rw ten (record {
          month_in = (omega arith, omega arith);
          day_in = (omega arith, omega arith);
          number = omega (arith, epoch, year_days_closed (y + 1));
        })
        | inr (other, u) ↦
            let eleven : mp ≡ 11 = omega (arith, ltb→ge mp 10 t) in
            rw eleven (record {
              month_in = (omega arith, omega arith);
              day_in = (omega arith, omega (arith, february (y + 1)));
              number = omega (arith, epoch, year_days_closed (y + 1));
            })
      ]
    ]

-- A year that begins in March has 366 days when the next February has 29.
last_day :
    (yoe era doe : ℕ)
    → era_days yoe ≤ doe
    → yoe < 400
    → (doe < era_days (yoe + 1)) ⊎ ((doe ≡ 146096) × (yoe ≡ 399))
    → doe - era_days yoe ≤ 364 + leap_day (yoe + era * 400 + 1)
last_day yoe era doe a b c = ground arith

-- The date that `fmt_now` computes of a number of days since 1 January 1970 is a date of the
-- Gregorian calendar, with a month from 1 to 12 and a day that this month of that year has, and it is
-- the one with that number: the days of the years before it, of the months before it and of the
-- days before it in its month add up to it.
pub civil_of-IsDate : (days : ℕ) → IsDate days (civil_of days)
unfolding civil_of
civil_of-IsDate days =
    let z = days + 719468 in
    let era = z / 146097 in
    let doe = z - era * 146097 in
    let yoe = year_of_era doe in
    let (a, b, c) = year_of_era-bounds doe (omega arith) in
    dated-IsDate days (yoe + era * 400) (doe - era_days yoe) (last_day yoe era doe a b c)
      (omega arith)
