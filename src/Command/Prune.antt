-- ===== src/Command/Prune.antt =====
-- cmd/backwyn/main.go: `runPrune` and `retentionFlags`.
pub mod DryRun
use backwyn.Prelude.{
  ℕ, Bool, true, false, Option, none, some, List, [], ◌∷◌, ◌++◌, Result, ok, err, length,
  if◌then◌else◌,
}
use backwyn.Prelude.Int.{ℤ, pos}
use backwyn.Prelude.Text.{Text, lit, show_ℕ}
use backwyn.Time.{Time}
use backwyn.Storage.{Backend}
use backwyn.Manifest.{Manifest, Int64}
use backwyn.Artifact.Load.{load_all}
use backwyn.Retention.Policy.{Policy, Decision, Plan, remove, total_bytes}
use backwyn.Retention.Plan.{compute}
use backwyn.Retention.Apply.{apply}
use backwyn.Retention.Sweep.{sweep_orphans}
use backwyn.Command.Flags.{Values, Flag, int_flag, bool_flag, parse}
use backwyn.Command.Runtime.{
  System, Process, Outcome, success, failure, print, warn_each, refuse_flags, show_int64,
}

abbrev pub zero_policy : Policy
zero_policy = record {
  keep_last = pos 0;
  keep_daily = pos 0;
  keep_weekly = pos 0;
  keep_monthly = pos 0;
}

-- `retentionFlags`, for a set whose variables hold a policy.
unfoldable pub retention_flags : {O : Type 0} → Values → ((Policy → Policy) → O → O) → List (Flag O)
unfolding int_flag
retention_flags values on =
    int_flag values (lit "keep-last") (λ n. on (λ p. record p { keep_last = n }))
    ∷ int_flag values (lit "keep-daily") (λ n. on (λ p. record p { keep_daily = n }))
    ∷ int_flag values (lit "keep-weekly") (λ n. on (λ p. record p { keep_weekly = n }))
    ∷ int_flag values (lit "keep-monthly") (λ n. on (λ p. record p { keep_monthly = n }))
    ∷ []

-- The variables of `runPrune`.
pub record PruneFlags : Type 0 where
  pub policy : Policy
  pub dry_run : Bool
  pub sweep : Bool

abbrev pub prune_defaults : PruneFlags
prune_defaults = record { policy = zero_policy; dry_run = false; sweep = false }

unfoldable pub prune_flags : Values → List (Flag PruneFlags)
unfolding retention_flags bool_flag
prune_flags values =
    retention_flags values (λ f o. record o { policy = f o.policy })
    ++ bool_flag values (lit "dry-run") (λ b o. record o { dry_run = b })
      ∷ bool_flag values (lit "sweep-orphans") (λ b o. record o { sweep = b })
      ∷ []

module _ {S H P : Type 0} (sys : System S H P) (b : Backend S) where
  -- The line of a decision.
  unfoldable pub decision_line : Decision → Text
  decision_line d =
      let m = d.manifest in
      (if d.keep then lit "keep" else lit "DELETE")
      ++ (lit "\t"
          ++ (m.id
              ++ (lit "\t"
                  ++ (sys.rfc3339 m.created_at
                      ++ (lit "\t"
                          ++ ((if m.verification.verified then lit "yes" else lit "no")
                              ++ (lit "\t" ++ (d.reason ++ lit "\n"))))))))

  unfoldable pub decision_lines : List Decision → Text
  unfolding decision_line
  decision_lines [] = []
  decision_lines (d ∷ ds) = decision_line d ++ decision_lines ds

  -- The end of `runPrune`.
  unfoldable pub after_sweep : (ℕ × Int64 × Option Text) × S → Process S H → Outcome × Process S H
  after_sweep ((n, freed, some e), s) p = (failure e, record p { store = s })
  after_sweep ((n, freed, none), s) p = (
    success,
    print
        (lit "swept "
          ++ (show_ℕ n
              ++ (lit " orphaned artifact(s), freed " ++ (show_int64 freed ++ lit " bytes\n"))))
        (record p { store = s }),
  )

  -- `runPrune` behind `retention.Apply`; `now` is the time of the sweep.
  unfoldable pub after_apply :
      Plan → Bool → Time → (Int64 × Option Text) × S → Process S H → Outcome × Process S H
  unfolding after_sweep sweep_orphans
  after_apply plan sweep now ((freed, some e), s) p = (failure e, record p { store = s })
  after_apply plan sweep now ((freed, none), s) p =
      let p' =
        print
          (lit "\npruned "
            ++ (show_ℕ (length (remove plan))
                ++ (lit " backup(s), freed " ++ (show_int64 freed ++ lit " bytes\n"))))
          (record p { store = s }) in
      let swept = after_sweep (sweep_orphans b (pos 86_400_000_000_000) now s) p' in
      if sweep then swept else (success, p')

  -- `runPrune` behind the table, by its flag -dry-run.
  unfoldable pub carry_out : Bool → Bool → Time → Plan → Process S H → Outcome × Process S H
  unfolding after_apply apply
  carry_out true sweep now plan p = (
    success,
    print
        (lit "\ndry run: would delete "
          ++ (show_ℕ (length (remove plan))
              ++ (lit " backup(s), freeing " ++ (show_int64 (total_bytes plan) ++ lit " bytes\n"))))
        p,
  )
  carry_out false sweep now plan p = after_apply plan sweep now (apply b plan p.store) p

  -- `runPrune` behind `w.Flush`
  unfoldable pub after_table :
      PruneFlags → Time → Plan → Text × Option Text → Process S H → Outcome × Process S H
  unfolding carry_out
  after_table o now plan (text, some e) p = (failure e, print text p)
  after_table o now plan (text, none) p =
      carry_out o.dry_run o.sweep now plan
        (warn_each (lit "WARNING: ") plan.warnings (print text p))

  -- `runPrune` behind `artifact.LoadAll`
  unfoldable pub after_load_all :
      PruneFlags → Time → Result Text (List Manifest) × S → Process S H → Outcome × Process S H
  unfolding after_table decision_lines compute
  after_load_all o now (err e, s) p = (failure e, record p { store = s })
  after_load_all o now (ok ms, s) p =
      let plan = compute sys.sorter ms o.policy in
      after_table o now plan
        (sys.table (lit "ACTION\tID\tCREATED\tVERIFIED\tREASON\n" ++ decision_lines plan.decisions))
        (record p { store = s })

  -- `runPrune` behind `fs.Parse`
  unfoldable pub after_parse :
      Time → Result Text (PruneFlags × List Text) → Process S H → Outcome × Process S H
  unfolding after_load_all load_all
  after_parse now (err e) p = refuse_flags sys.values (lit "prune") e p
  after_parse now (ok (o, operands)) p = after_load_all o now (load_all b sys.json p.store) p

  -- `runPrune`
  unfoldable pub run_prune : List Text → Time → Process S H → Outcome × Process S H
  unfolding after_parse parse prune_flags
  run_prune args now p =
      after_parse now (parse sys.values (prune_flags sys.values) none args prune_defaults) p
