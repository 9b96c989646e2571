-- ===== src/Time/Stamp.antt =====
-- The layout "20060102T150405Z" of backup ids: `Format` and `time.Parse`.
use backwyn.Prelude.{
  ℕ, ◌+◌, ◌-◌, ◌*◌, ◌/◌, ◌%◌, ◌≡◌, refl, Bool, true, false, ◌&&◌, ◌||◌, not, Option, none, some, [],
  ◌∷◌, ◌++◌, leb, ltb, ◌==◌, if◌then◌else◌,
}
use backwyn.Prelude.Text.{Text, lit, pad2, pad4}
use backwyn.Time.Calendar.{date_of_day, days_before_year, day_number}

-- `t.Format("20060102T150405Z")`
unfoldable pub format_stamp : ℕ → Text
unfolding date_of_day pad4 pad2
format_stamp t =
    let d = date_of_day (day_number t) in
    let s = t / 1_000_000_000 % 86_400 in
    pad4 d.year
    ++ (pad2 d.month
        ++ (pad2 d.day
            ++ (lit "T"
                ++ (pad2 (s / 3_600) ++ (pad2 (s / 60 % 60) ++ (pad2 (s % 60) ++ lit "Z"))))))

abbrev is_digit : ℕ → Bool
is_digit c = leb 48 c && leb c 57

infixl 5 ◌>>=◌
abbrev ◌>>=◌ : {A B : Type 0} → Option A → (A → Option B) → Option B
◌>>=◌ o f = elim o [ none ↦ none | some a ↦ f a ]

-- Two digits. `Parse` would take one digit for the hour too, but then finds no minute.
get2 : Text → Option (ℕ × Text)
get2 (a ∷ b ∷ rest) =
    if is_digit a && is_digit b then some ((a - 48) * 10 + (b - 48), rest) else none
get2 _ = none

skip : ℕ → Text → Option Text
skip c [] = none
skip c (x ∷ rest) = if x == c then some rest else none

-- The digits behind a decimal point, in units of `scale`; from the tenth on they count nothing.
fraction : ℕ → Text → ℕ × Text
fraction scale [] = (0, [])
fraction scale (c ∷ rest) =
    let (n, tail) = fraction (scale / 10) rest in
    if is_digit c then ((c - 48) * scale + n, tail) else (0, c ∷ rest)

-- `Parse` takes a fraction of a second that the layout does not have.
fraction? : Text → ℕ × Text
unfolding fraction
fraction? (p ∷ c ∷ rest) =
    if (p == 46 || p == 44) && is_digit c
    then fraction 100_000_000 (c ∷ rest)
    else (0, p ∷ c ∷ rest)
fraction? s = (0, s)

abbrev is_leap : ℕ → Bool
is_leap y = y % 4 == 0 && (not (y % 100 == 0) || y % 400 == 0)

days_in : ℕ → ℕ → ℕ
days_in m y =
    if m == 2
    then if is_leap y then 29 else 28
    else if m == 4 || m == 6 || m == 9 || m == 11
    then 30
    else 31

-- The days of the year before the first of the month `m`.
days_before_month : ℕ → ℕ → ℕ
days_before_month m y =
    if leb m 2 then 31 * (m - 1) else (153 * (m - 3) + 2) / 5 + 59 + (if is_leap y then 1 else 0)

abbrev is_empty : Text → Bool
is_empty [] = true
is_empty (c ∷ s) = false

-- `time.Parse("20060102T150405Z", s)`
unfoldable pub parse_stamp : Text → Option ℕ
unfolding get2 skip fraction? days_in days_before_month days_before_year
parse_stamp s0 = do
  (y1, s1) ← get2 s0
  (y2, s2) ← get2 s1
  (m, s3) ← get2 s2
  (d, s4) ← get2 s3
  s5 ← skip b'T' s4
  (hour, s6) ← get2 s5
  (minute, s7) ← get2 s6
  (sec, s8) ← get2 s7
  let y = y1 * 100 + y2
  let (nanos, s9) = fraction? s8
  rest ← skip b'Z' s9
  let fits = ltb 0 m && leb m 12 && ltb hour 24 && ltb minute 60 && ltb sec 60
  let date_fits = ltb 0 d && leb d (days_in m y)
  let days = days_before_year y + days_before_month m y + (d - 1)
  if fits && date_fits && is_empty rest
      then some ((days * 86_400 + hour * 3_600 + minute * 60 + sec) * 1_000_000_000 + nanos)
      else none

-- The last second of February 2024, with a fraction that the layout does not have.
leap_second_stamp :
    parse_stamp (lit "20240229T235959.25Z")
    ≡ some (days_before_year 2024 * 86_400_000_000_000 + 5_183_999_250_000_000)
unfolding parse_stamp lit fraction days_before_year
leap_second_stamp = refl

no_such_day : parse_stamp (lit "20230229T000000Z") ≡ none
unfolding parse_stamp lit days_before_year
no_such_day = refl

stamp_round_trip :
    parse_stamp (format_stamp 63_950_000_000_000_000_000) ≡ some 63_950_000_000_000_000_000
unfolding parse_stamp format_stamp lit
stamp_round_trip = refl
