-- ===== src/Runner/Pruning.antt =====
-- internal/runner/runner.go: when a cycle prunes, and what it means that it succeeds.
use backwyn.Prelude.{
  ◌≡◌, refl, ap, ◌∙◌, Bool, true, false, Option, none, some, List, Result, ok, err, arith,
}
use backwyn.Prelude.Text.{Text}
use backwyn.Time.{Time}
use backwyn.Storage.{IsStore}
use backwyn.Manifest.{Manifest}
use backwyn.Artifact.Load.{load_all}
use backwyn.Check as Check
use backwyn.Check.Healthy.{IsCovered, run-view, run-healthy_iff}
use backwyn.Retention.Plan.{IsSorter}
use backwyn.Runner.Cycle.{
  emit, World, Times, Deps, backup_and_verify, after_report, after_check, cycle,
}

module _ {S H : Type 0} (d : Deps S H) (times : Times) (now : Time) where
  after_report-store :
      (healthy : Bool) (cycle_err : Option Text) (rep : Check.Report) (w : World S H) (e : Text)
      → (after_report d times now healthy cycle_err rep w).0 ≡ some e
      → (after_report d times now healthy cycle_err rep w).1.store ≡ w.store
  unfolding after_report emit
  after_report-store false cycle_err rep w e h = refl
  after_report-store true (some c) rep w e h = refl
  after_report-store true none rep w e h = absurd (ground arith)

  after_check-store :
      (cycle_err : Option Text) (p : Result Text Check.Report × S) (w : World S H) (e : Text)
      → (after_check d times now cycle_err p w).0 ≡ some e
      → (after_check d times now cycle_err p w).1.store ≡ p.1
  unfolding after_check
  after_check-store cycle_err (err x, s) w e h = refl
  after_check-store cycle_err (ok rep, s) w e h = after_report-store rep.healthy cycle_err rep _ e h

  -- A cycle that returns an error has pruned nothing: each object of the store is what the backup and
  -- its verification left there.
  pub cycle_err-view :
      (view : S → Text → Option Text) (w : World S H) (e : Text) (i : Text)
      → IsStore d.backend view
      → (cycle d times now w).0 ≡ some e
      → view (cycle d times now w).1.store i ≡ view (backup_and_verify d times now w).1.store i
  unfolding cycle
  cycle_err-view view w e i st h =
      let (cycle_err, w') = backup_and_verify d times now w in
      ap (λ s. view s i)
        (after_check-store cycle_err (Check.run d.backend d.json d.sorter d.max_age now w'.store) w'
          e h)
      ∙ run-view d.backend d.json view d.sorter d.max_age now w'.store i st

  after_report-none :
      (healthy : Bool) (cycle_err : Option Text) (rep : Check.Report) (w : World S H)
      → (after_report d times now healthy cycle_err rep w).0 ≡ none
      → (healthy ≡ true) × (cycle_err ≡ none)
  unfolding after_report
  after_report-none false none rep w h = absurd (ground arith)
  after_report-none false (some c) rep w h = absurd (ground arith)
  after_report-none true (some c) rep w h = absurd (ground arith)
  after_report-none true none rep w h = (refl, refl)

  after_check-none :
      (cycle_err : Option Text) (p : Result Text Check.Report × S) (w : World S H)
      → (after_check d times now cycle_err p w).0 ≡ none
      → (rep : Check.Report) × (p.0 ≡ ok rep) × (rep.healthy ≡ true) × (cycle_err ≡ none)
  unfolding after_check
  after_check-none none (err x, s) w h = absurd (ground arith)
  after_check-none (some c) (err x, s) w h = absurd (ground arith)
  after_check-none cycle_err (ok rep, s) w h =
      let (healthy, clean) = after_report-none rep.healthy cycle_err rep _ h in
      (rep, refl, healthy, clean)

  -- If a cycle succeeds, its backup and verification did, and among the manifests that were in the
  -- store behind them is a verified one that is no older than the threshold.
  pub cycle-none-IsCovered :
      (w : World S H)
      → IsSorter d.sorter
      → (cycle d times now w).0 ≡ none
      → ((backup_and_verify d times now w).0 ≡ none)
        × ((ms : List Manifest) × ((load_all d.backend d.json
                (backup_and_verify d times now w).1.store).0
              ≡ ok ms)
            × IsCovered ms d.max_age now)
  unfolding cycle
  cycle-none-IsCovered w sorts h =
      let (cycle_err, w') = backup_and_verify d times now w in
      let (rep, checked, healthy, clean) =
        after_check-none cycle_err (Check.run d.backend d.json d.sorter d.max_age now w'.store) w'
          h in
      let (ms, loaded, iff, _) =
        run-healthy_iff d.backend d.json d.sorter d.max_age now w'.store rep sorts checked in
      (clean, (ms, loaded, iff.0 healthy))
