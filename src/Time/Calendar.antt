-- ===== src/Time/Calendar.antt =====
-- The civil calendar of Go's `time` package: dates, ISO weeks and their text.
use backwyn.Prelude.{ℕ, ◌+◌, ◌-◌, ◌*◌, ◌/◌, ◌%◌, ◌≡◌, refl, ◌++◌, leb, ltb, if◌then◌else◌}
use backwyn.Prelude.Text.{Text, lit, pad2, pad4}

pub record Date : Type 0 where
  pub year : ℕ
  pub month : ℕ
  pub day : ℕ

-- The date of the day `d` after 0000-01-01, counted in years that begin in March.
unfoldable pub date_of_day : ℕ → Date
date_of_day d =
    let z = d + 146_037 in
    let doe = z % 146_097 in
    let yoe = (doe + doe / 36_524 - doe / 1_460 - doe / 146_096) / 365 in
    let doy = doe - (365 * yoe + yoe / 4 - yoe / 100) in
    let mp = (5 * doy + 2) / 153 in
    let m = if ltb mp 10 then mp + 3 else mp - 9 in
    record {
      year = yoe + 400 * (z / 146_097) + (if leb m 2 then 1 else 0) - 400;
      month = m;
      day = doy - (153 * mp + 2) / 5 + 1;
    }

-- The days from 0000-01-01 to the first of January of the year `y`.
unfoldable pub days_before_year : ℕ → ℕ
days_before_year y = 365 * y + (y + 3) / 4 + (y + 399) / 400 - (y + 99) / 100

abbrev pub day_number : ℕ → ℕ
day_number t = t / 86_400_000_000_000

-- `t.Format("2006-01-02")`
unfoldable pub format_day : ℕ → Text
unfolding date_of_day pad4 pad2
format_day t =
    let d = date_of_day (day_number t) in
    pad4 d.year ++ (lit "-" ++ (pad2 d.month ++ (lit "-" ++ pad2 d.day)))

-- `t.Format("2006-01")`
unfoldable pub format_month : ℕ → Text
unfolding date_of_day pad4 pad2
format_month t = let d = date_of_day (day_number t) in pad4 d.year ++ (lit "-" ++ pad2 d.month)

-- The Thursday of the week of day `d`; weeks begin on Monday, and 0000-01-01 was a Saturday.
unfoldable pub thursday : ℕ → ℕ
thursday d = d + 3 - (d + 5) % 7

-- `t.ISOWeek()`: the year of the week's Thursday, and the number of the week in it.
unfoldable pub iso_week : ℕ → ℕ × ℕ
unfolding thursday date_of_day days_before_year
iso_week t =
    let th = thursday (day_number t) in
    let y = (date_of_day th).year in (y, (th - days_before_year y) / 7 + 1)

-- 2026-07-15T12:00:00Z, a Wednesday in week 29.
abbrev july : ℕ
july = (days_before_year 2026 + 195) * 86_400_000_000_000 + 43_200_000_000_000

july_day : format_day july ≡ lit "2026-07-15"
unfolding format_day days_before_year lit
july_day = refl

july_week : iso_week july ≡ (2026, 29)
unfolding iso_week days_before_year
july_week = refl

-- 2021-01-01 belongs to the last week of 2020.
new_year_week : iso_week (days_before_year 2021 * 86_400_000_000_000) ≡ (2020, 53)
unfolding iso_week days_before_year
new_year_week = refl
