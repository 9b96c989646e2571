-- ===== src/Command/Restore.antt =====
-- cmd/backwyn/main.go: `runRestore`.
pub mod Sides
use backwyn.Prelude.{
  ℕ, Bool, true, false, not, ◌||◌, ◌&&◌, ltb, Option, none, some, List, [], ◌∷◌, ◌++◌, Result, ok,
  err, length, if◌then◌else◌,
}
use backwyn.Prelude.Int.{ℤ, pos, ltb_ℤ, leb_ℤ}
use backwyn.Prelude.Text.{Text, lit, has_prefix, show_ℤ, text_eq}
use backwyn.Time.Duration.{show_duration, round}
use backwyn.Storage.{Backend}
use backwyn.Config.{Config}
use backwyn.Restore as Restore
use backwyn.Command.Flags.{Values, Flag, string_flag, bool_flag, parse}
use backwyn.Command.Runtime.{
  System, Process, Outcome, success, failure, print, print_err, refuse_flags, show_int64,
}

abbrev pub no_options : Restore.Options
no_options = record { target_dsn = []; to_file = []; force = false; allow_unverified = false }

unfoldable pub restore_flags : Values → List (Flag Restore.Options)
unfolding string_flag bool_flag
restore_flags values =
    string_flag values (lit "to") (λ v o. record o { target_dsn = v })
    ∷ string_flag values (lit "to-file") (λ v o. record o { to_file = v })
    ∷ bool_flag values (lit "force") (λ v o. record o { force = v })
    ∷ bool_flag values (lit "allow-unverified") (λ v o. record o { allow_unverified = v })
    ∷ []

-- The id in front of the flags, if any, and the arguments behind it.
unfoldable pub take_id : List Text → Text × List Text
unfolding has_prefix
take_id [] = ([], [])
take_id (a ∷ rest) = if not (has_prefix a (lit "-")) then (a, rest) else ([], a ∷ rest)

-- The id, from the one in front of the flags and the operands behind them.
unfoldable pub only_operand : Text → List Text → Text
only_operand id (x ∷ []) = x
only_operand id [] = id
only_operand id (x ∷ y ∷ xs) = id

unfoldable pub choose_id : Text → List Text → Option Text
unfolding only_operand text_eq
choose_id id operands =
    let id' = if text_eq id [] then only_operand id operands else id in
    if text_eq id' [] || ltb 1 (length operands) then none else some id'

abbrev pub restore_usage : Text
restore_usage =
    lit
      "usage: backwyn restore <backup-id> (-to <dsn> | -to-file <path>) [-force] [-allow-unverified]"

-- What the arguments of `restore` say: they are refused by the flags or the usage, or name a backup.
pub data RestoreArgs : Type 0 where
  bad_flags : Text → RestoreArgs
  bad_usage : RestoreArgs
  wanted : Text → Restore.Options → RestoreArgs

unfoldable pub after_flags : Text → Result Text (Restore.Options × List Text) → RestoreArgs
unfolding choose_id
after_flags id (err e) = bad_flags e
after_flags id (ok (o, operands)) = elim (choose_id id operands) [
  | none ↦ bad_usage
  | some id' ↦ wanted id' o
]

unfoldable pub restore_args : Values → List Text → RestoreArgs
unfolding after_flags take_id parse restore_flags
restore_args values args =
    let (id, rest) = take_id args in
    after_flags id (parse values (restore_flags values) none rest no_options)

module _ {S H : Type 0} where
  -- The end of `runRestore`, for a restore to a database.
  unfoldable pub report_tables : ℤ → Restore.Restored → Process S H → Process S H
  unfolding show_ℤ show_duration round
  report_tables took r p =
      let expected = r.manifest.verification.table_count in
      let p' =
        print
          (lit "RESTORED "
            ++ (r.manifest.id
                ++ (lit " into "
                    ++ (r.target_label
                        ++ (lit ": "
                            ++ (show_ℤ r.table_count
                                ++ (lit " tables in "
                                    ++ (show_duration (round took 1_000_000) ++ lit "\n"))))))))
          p in
      if ltb_ℤ (pos 0) expected
        && not (leb_ℤ expected r.table_count && leb_ℤ r.table_count expected)
      then print_err
          (lit "WARNING: expected "
            ++ (show_ℤ expected
                ++ (lit " tables from the verification record, found "
                    ++ (show_ℤ r.table_count ++ lit "\n"))))
          p'
      else p'

  -- The end of `runRestore`, for a restore to a file.
  unfoldable pub report_file : ℤ → Restore.Restored → Process S H → Process S H
  unfolding show_int64 show_duration round
  report_file took r p =
      print
        (lit "wrote "
          ++ (r.path
              ++ (lit " ("
                  ++ (show_int64 r.manifest.plaintext_size
                      ++ (lit " bytes, pg_dump custom format) in "
                          ++ (show_duration (round took 1_000_000)
                              ++ (lit "\nrestore it with: pg_restore --no-owner --dbname <dsn> "
                                  ++ (r.path ++ lit "\n"))))))))
        p

  -- `runRestore` behind `restore.Run`; `took` is the time that it took.
  unfoldable pub after_run :
      ℤ → Result Text Restore.Restored × (S × H) → Process S H → Outcome × Process S H
  unfolding report_tables report_file text_eq
  after_run took (err e, (s, h)) p = (failure e, record p { store = s; machine = h })
  after_run took (ok r, (s, h)) p =
      let p' = record p { store = s; machine = h } in
      (success, if not (text_eq r.path []) then report_file took r p' else report_tables took r p')

module _ {S H P : Type 0} (sys : System S H P) (b : Backend S) where
  -- `runRestore` behind its arguments.
  unfoldable pub after_args : Config → ℤ → RestoreArgs → Process S H → Outcome × Process S H
  unfolding after_run Restore.run
  after_args cfg took (bad_flags e) p = refuse_flags sys.values (lit "restore") e p
  after_args cfg took bad_usage p = (failure restore_usage, p)
  after_args cfg took (wanted id o) p =
      after_run took
        (Restore.run b sys.json sys.aead sys.sha256 sys.host sys.open_output sys.quote sys.urls cfg
          o id (p.store, p.machine))
        p

  -- `runRestore`
  unfoldable pub run_restore : Config → List Text → ℤ → Process S H → Outcome × Process S H
  unfolding after_args restore_args
  run_restore cfg args took p = after_args cfg took (restore_args sys.values args) p
