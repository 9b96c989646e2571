-- ===== src/Time.antt =====
-- Instants and durations of Go's `time` package, as far as the program uses them.
pub mod Calendar
pub mod Stamp
pub mod Duration
use backwyn.Prelude.{ℕ, ◌+◌, ◌-◌, ◌*◌, ◌^◌, Bool, ltb, ◌==◌, if◌then◌else◌}
use backwyn.Prelude.Int.{ℤ, pos, negsuc, sub_ℕ}

-- Nanoseconds since 0000-01-01T00:00:00Z, so that every year that RFC 3339 can write has one.
-- A location is only a way to print, and `UTC()` is the identity.
abbrev pub Time : Type 0
Time = ℕ

abbrev pub second : ℕ
second = 1_000_000_000

abbrev pub day : ℕ
day = 86_400 * second

-- The zero `time.Time`, 0001-01-01T00:00:00Z.
abbrev pub zero_time : Time
zero_time = 366 * day

-- `t.IsZero()`
abbrev pub is_zero : Time → Bool
is_zero t = t == zero_time

-- `t.After(u)`
abbrev pub after : Time → Time → Bool
after t u = ltb u t

abbrev pub max_duration : ℕ
max_duration = 2 ^ 63 - 1

-- `t.Sub(u)`, which saturates at the ends of `int64`.
unfoldable pub sub : Time → Time → ℤ
sub t u =
    if ltb max_duration (t - u)
    then pos max_duration
    else if ltb max_duration (u - t - 1)
    then negsuc max_duration
    else sub_ℕ t u
