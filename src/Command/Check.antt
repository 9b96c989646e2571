-- ===== src/Command/Check.antt =====
-- cmd/backwyn/main.go: `runCheck`.
pub mod ExitCode
use backwyn.Prelude.{Bool, true, false, Option, none, some, List, [], ◌∷◌, ◌++◌, Result, ok, err}
use backwyn.Prelude.Int.{ℤ, pos}
use backwyn.Prelude.Text.{Text, lit, show_ℤ}
use backwyn.Time.{Time}
use backwyn.Time.Duration.{show_duration, round}
use backwyn.Storage.{Backend}
use backwyn.Manifest.{Manifest}
use backwyn.Check as Check
use backwyn.Command.Flags.{Values, Flag, duration_flag, parse}
use backwyn.Command.Runtime.{
  System, Process, Outcome, success, failure, exits, print, print_err, warn_each, refuse_flags,
}

-- The variable of `runCheck`, and its default of 24 hours.
unfoldable pub check_flags : Values → List (Flag ℤ)
unfolding duration_flag
check_flags values = duration_flag values (lit "max-age") (λ d o. d) ∷ []

abbrev pub default_max_age : ℤ
default_max_age = pos 86_400_000_000_000

-- The first line of `runCheck`.
unfoldable pub last_verified_line : Option Manifest → ℤ → Text
unfolding show_duration round show_ℤ
last_verified_line none age = lit "last verified backup: NONE\n"
last_verified_line (some m) age =
    lit "last verified backup: "
    ++ (m.id
        ++ (lit " ("
            ++ (show_duration (round age 1_000_000_000)
                ++ (lit " old, " ++ (show_ℤ m.verification.table_count ++ lit " tables)\n")))))

module _ {S H : Type 0} where
  -- `runCheck` behind the warnings, by whether the report is healthy.
  unfoldable pub conclude : Bool → ℤ → List Text → Process S H → Outcome × Process S H
  unfolding show_duration warn_each
  conclude true max_age reasons p = (
    success,
    print (lit "OK: a verified backup exists within " ++ (show_duration max_age ++ lit "\n")) p,
  )
  conclude false max_age reasons p = (
    exits 3,
    warn_each (lit "  - ") reasons (
        print_err
          (lit "ALERT: backup coverage is not healthy (threshold "
            ++ (show_duration max_age ++ lit ")\n"))
          p),
  )

  -- `runCheck` behind `check.Run`
  unfoldable pub after_check :
      ℤ → Result Text Check.Report × S → Process S H → Outcome × Process S H
  unfolding conclude last_verified_line
  after_check max_age (err e, s) p = (failure e, record p { store = s })
  after_check max_age (ok rep, s) p = conclude rep.healthy max_age rep.reasons (
      warn_each (lit "WARNING: ") rep.warnings (
        print (last_verified_line rep.last_verified rep.last_verified_age)
          (record p { store = s })))

module _ {S H P : Type 0} (sys : System S H P) (b : Backend S) where
  -- `runCheck` behind `fs.Parse`
  unfoldable pub after_parse :
      Time → Result Text (ℤ × List Text) → Process S H → Outcome × Process S H
  unfolding after_check Check.run
  after_parse now (err e) p = refuse_flags sys.values (lit "check") e p
  after_parse now (ok (max_age, operands)) p =
      after_check max_age (Check.run b sys.json sys.sorter max_age now p.store) p

  -- `runCheck`
  unfoldable pub run_check : List Text → Time → Process S H → Outcome × Process S H
  unfolding after_parse parse check_flags
  run_check args now p =
      after_parse now (parse sys.values (check_flags sys.values) none args default_max_age) p
