-- ===== src/Time/Duration.antt =====
-- `Duration.String` and `Duration.Round` of Go's `time` package.
use backwyn.Prelude.{
  ℕ, zero, suc, ◌+◌, ◌-◌, ◌/◌, ◌%◌, ◌^◌, ◌≡◌, refl, Bool, false, not, ◌||◌, ◌∷◌, ◌++◌, ltb, leb,
  ◌==◌, if◌then◌else◌,
}
use backwyn.Prelude.Int.{ℤ, pos, negsuc}
use backwyn.Prelude.Text.{Text, lit, show_ℕ}

-- `fmtFrac`: the last `prec` digits of `v` behind a point, with no zeros at the end, and the rest.
fmt_frac : ℕ → ℕ → Bool → Text → Text × ℕ
fmt_frac zero v print acc = (if print then 46 ∷ acc else acc, v)
fmt_frac (suc prec) v print acc =
    let print' = print || not (v % 10 == 0) in
    fmt_frac prec (v / 10) print' (if print' then (v % 10 + 48) ∷ acc else acc)

with_unit : ℕ → ℕ → Text → Text
unfolding fmt_frac
with_unit prec u unit = let (frac, n) = fmt_frac prec u false unit in show_ℕ n ++ frac

-- The size of a duration in nanoseconds.
show_size : ℕ → Text
unfolding with_unit
show_size u =
    if u == 0
    then lit "0s"
    else if ltb u 1_000
    then with_unit 0 u (lit "ns")
    else if ltb u 1_000_000
    then with_unit 3 u (194 ∷ 181 ∷ lit "s")
    else if ltb u 1_000_000_000
    then with_unit 6 u (lit "ms")
    else (let (frac, secs) = fmt_frac 9 u false (lit "s") in
        let s = show_ℕ (secs % 60) ++ frac in
        let m = show_ℕ (secs / 60 % 60) ++ (lit "m" ++ s) in
        let h = show_ℕ (secs / 3_600) ++ (lit "h" ++ m) in
        if leb 3_600 secs then h else if leb 60 secs then m else s)

-- `Duration.String`
unfoldable pub show_duration : ℤ → Text
unfolding show_size
show_duration (pos n) = show_size n
show_duration (negsuc n) = 45 ∷ show_size (suc n)

-- The multiple of `m` nearest to `u`, halves up, and at most `top`.
round_size : ℕ → ℕ → ℕ → ℕ
round_size top m u =
    let r = u % m in if ltb (r + r) m then u - r else if leb (u + m - r) top then u + m - r else top

negate : ℕ → ℤ
negate zero = pos 0
negate (suc n) = negsuc n

-- `d.Round(m)`, for a positive `m`.
unfoldable pub round : ℤ → ℕ → ℤ
unfolding round_size negate
round (pos n) m = pos (round_size (2 ^ 63 - 1) m n)
round (negsuc n) m = negate (round_size (2 ^ 63) m (suc n))

show_31_hours : show_duration (pos 111_600_000_000_000) ≡ lit "31h0m0s"
unfolding show_duration show_ℕ lit
show_31_hours = refl

show_half_second : show_duration (negsuc 1_499_999_999) ≡ lit "-1.5s"
unfolding show_duration show_ℕ lit
show_half_second = refl

round_up : round (pos 1_500_000_000) 1_000_000_000 ≡ pos 2_000_000_000
unfolding round
round_up = refl
