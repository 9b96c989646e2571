-- ===== src/Runner/Untouched.antt =====
-- internal/runner/runner.go: what does not touch the machine and the tracker.
use backwyn.Prelude.{
  ◌≡◌, refl, ◌∙◌, Bool, true, false, Option, none, some, List, [], ◌∷◌, Bool-cases, inl, inr,
  Result-cases, ℕ, arith,
}
use backwyn.Prelude.Text.{Text}
use backwyn.Time.{Time}
use backwyn.Manifest.{Manifest}
use backwyn.Artifact.Load.{load_all}
use backwyn.Check as Check
use backwyn.Retention.Policy.{is_zero}
use backwyn.Retention.Plan.{compute}
use backwyn.Retention.Apply.{apply}
use backwyn.Runner.Cycle.{
  emit, World, Times, Deps, after_apply, prune_loaded, prune, warn, after_report,
}

-- The machine and the tracker are as before.
abbrev pub Untouched : {S H : Type 0} → World S H → World S H → Type 0
Untouched w w' = (w'.machine ≡ w.machine) × (w'.tracker ≡ w.tracker)

module _ {S H : Type 0} (d : Deps S H) (times : Times) (now : Time) where
  after_apply-Untouched :
      (x : (ℕ × Option Text) × S) (w : World S H) → Untouched w (after_apply d times now x w)
  unfolding after_apply emit
  after_apply-Untouched ((freed, none), s) w = (refl, refl)
  after_apply-Untouched ((freed, some e), s) w = (refl, refl)

  prune_loaded-Untouched :
      (ms : List Manifest) (w : World S H) → Untouched w (prune_loaded d times now ms w)
  unfolding prune_loaded
  prune_loaded-Untouched ms w =
      let plan = compute d.sorter ms d.retention in
      let done = after_apply-Untouched (apply d.backend plan w.store) w in
      (ground (arith, done.0), ground (arith, done.1))

  prune-Untouched : (w : World S H) → Untouched w (prune d times now w)
  unfolding prune
  prune-Untouched w =
      let loaded = load_all d.backend d.json w.store in
      elim (Bool-cases (is_zero d.retention)) [
        | inl off ↦ rw off (refl, refl)
        | inr on ↦ elim (Result-cases loaded.0) [
          | inl (ms, fine) ↦
              rw (on, fine) (prune_loaded-Untouched ms (record w { store = loaded.1 }))
          | inr (e, failed) ↦ rw (on, failed) (refl, refl)
        ]
      ]

  warn-Untouched : (xs : List Text) (w : World S H) → Untouched w (warn d times now xs w)
  unfolding warn emit
  warn-Untouched [] w = (refl, refl)
  warn-Untouched (x ∷ xs) w = (refl, refl)

  pub after_report-Untouched :
      (healthy : Bool) (cycle_err : Option Text) (rep : Check.Report) (w : World S H)
      → Untouched w (after_report d times now healthy cycle_err rep w).1
  unfolding after_report emit
  after_report-Untouched false cycle_err rep w = (refl, refl)
  after_report-Untouched true (some c) rep w = (refl, refl)
  after_report-Untouched true none rep w =
      let pruned = prune-Untouched w in
      let warned = warn-Untouched rep.warnings (prune d times now w) in
      (warned.0 ∙ pruned.0, warned.1 ∙ pruned.1)
