-- ===== src/Generators/Civil.antt =====
-- src/surface/generators.rs: the calendar.
use min_mcp.Prelude.{
  Bool, ◌==◌, ◌&&◌, ◌||◌, not, true, ◌∙◌, refl, ℕ, ◌+◌, ◌-◌, ◌*◌, ◌/◌, ◌%◌, ◌≤◌, ◌<◌, ◌≡◌, arith,
  ltb, leb, if◌then◌else◌,
}
use min_mcp.Generators.{CivilDate, date_in_year, civil_from_days}

-- The days before a date since the first of March of the year 0, as the calendar has it: 365 for a
-- year, a leap day every fourth year but not every hundredth, save every four hundredth, and the
-- lengths of the months from March on.
pub days_from_civil : CivilDate → ℕ
days_from_civil c =
    let y : ℕ = if leb c.month 2 then c.year - 1 else c.year in
    let mp : ℕ = if ltb 2 c.month then c.month - 3 else c.month + 9 in
    365 * y + y / 4 - y / 100 + y / 400 + (153 * mp + 2) / 5 + c.day - 1

is_leap : ℕ → Bool
is_leap y = y % 4 == 0 && not (y % 100 == 0) || y % 400 == 0

-- The length of a month in a year.
pub days_in_month : ℕ → ℕ → ℕ
unfolding is_leap
days_in_month y m =
    if m == 2
    then (if is_leap y then 29 else 28)
    else if m == 4 || m == 6 || m == 9 || m == 11
    then 30
    else 31

-- A date of the calendar.
pub record IsDate (c : CivilDate) : Type 0 where
  pub month_positive : 0 < c.month
  pub month_bound : c.month ≤ 12
  pub day_positive : 0 < c.day
  pub day_bound : c.day ≤ days_in_month c.year c.month

year_bounds :
    (doe yoe : ℕ)
    → doe < 146097
    → yoe ≡ (doe - doe / 1460 + doe / 36524 - doe / 146096) / 365
    → (365 * yoe + yoe / 4 - yoe / 100 ≤ doe)
      × (yoe < 400)
      × (doe - (365 * yoe + yoe / 4 - yoe / 100) < 366)
year_bounds doe yoe h e = omega arith

-- The day 365 is there only before the first of March of a leap year.
leap_day :
    (doe yoe : ℕ)
    → doe < 146097
    → yoe ≡ (doe - doe / 1460 + doe / 36524 - doe / 146096) / 365
    → doe ≡ 365 * yoe + yoe / 4 - yoe / 100 + 365
    → ((yoe + 1) % 4 ≡ 0) × (((yoe + 1) % 100 ≡ 0) → (yoe + 1) % 400 ≡ 0)
leap_day doe yoe h e d = (omega arith, λ c. omega (arith, c))

days_from_civil-date_in_year :
    (y doy : ℕ)
    → doy < 366
    → days_from_civil (date_in_year y doy) ≡ 365 * y + y / 4 - y / 100 + y / 400 + doy
unfolding days_from_civil date_in_year
days_from_civil-date_in_year y doy h = ground arith

date_in_year-IsDate :
    (y doy : ℕ) → doy < 366 → (doy ≡ 365 → is_leap (y + 1) ≡ true) → IsDate (date_in_year y doy)
unfolding date_in_year days_in_month
date_in_year-IsDate y doy h leap = record {
  month_positive = ground arith;
  month_bound = ground arith;
  day_positive = ground arith;
  day_bound = ground (arith, leap);
}

leap_year : (y : ℕ) → (y % 4 ≡ 0) → ((y % 100 ≡ 0) → y % 400 ≡ 0) → is_leap y ≡ true
unfolding is_leap
leap_year y a b = ground (arith, b)

module _ (z : ℕ) where
  abbrev era : ℕ
  era = z / 146097

  abbrev doe : ℕ
  doe = z - era * 146097

  abbrev yoe : ℕ
  yoe = (doe - doe / 1460 + doe / 36524 - doe / 146096) / 365

  -- Counting the days before the date of a day gives the day back, and the date is one of the calendar:
  -- a month from 1 to 12, a day of that month, and the 29th of February in leap years only.
  pub days_from_civil-civil_from_days :
      (days_from_civil (civil_from_days z) ≡ z) × IsDate (civil_from_days z)
  unfolding civil_from_days
  days_from_civil-civil_from_days =
      let b = year_bounds doe yoe (omega arith) refl in
      let doy : ℕ = doe - (365 * yoe + yoe / 4 - yoe / 100) in
      let there = days_from_civil-date_in_year (yoe + era * 400) doy b.2 in
      let sum : 365 * (yoe + era * 400)
            + (yoe + era * 400) / 4
            - (yoe + era * 400) / 100
            + (yoe + era * 400) / 400
            + doy
          ≡ z =
        omega (arith, b.0, b.1) in
      (
        there ∙ sum,
        date_in_year-IsDate (yoe + era * 400) doy b.2 (λ e.
            let l = leap_day doe yoe (omega arith) refl (omega (arith, b.0, e)) in
            leap_year (yoe + era * 400 + 1) (omega (arith, l.0))
              (λ c. omega (arith, l.1 (omega (arith, c))))),
      )
