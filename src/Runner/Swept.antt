-- ===== src/Runner/Swept.antt =====
-- internal/runner/runner.go: what a cycle leaves of the temporary files.
use backwyn.Prelude.{◌≡◌, refl, ap, ◌∙◌, Bool, Option, Result, ok, err}
use backwyn.Prelude.Text.{Text}
use backwyn.Time.{Time}
use backwyn.Manifest.{Manifest}
use backwyn.Host.Temps.{IsHost, Same, Same-trans}
use backwyn.Backup as Backup
use backwyn.Backup.Swept.{temps-backup_run}
use backwyn.Verify as Verify
use backwyn.Verify.Swept.{temps-verify_run}
use backwyn.Check as Check
use backwyn.Runner.Untouched.{after_report-Untouched}
use backwyn.Runner.Cycle.{
  emit, World, Times, Deps, after_verify, after_backup, backup_and_verify, after_check, cycle,
}

module _ {S H : Type 0} (d : Deps S H) (times : Times) (now : Time) where
  after_check-machine :
      (cycle_err : Option Text) (x : Result Text Check.Report × S) (w : World S H)
      → (after_check d times now cycle_err x w).1.machine ≡ w.machine
  unfolding after_check
  after_check-machine cycle_err (err e, s) w = refl
  after_check-machine cycle_err (ok rep, s) w =
      (after_report-Untouched d times now rep.healthy cycle_err rep _).0

  module _ (temps : H → Text → Bool) (laws : IsHost d.host temps) where
    after_verify-Same :
        (m : Manifest) (x : Result Verify.Failure Manifest × (S × H)) (w : World S H)
        → Same temps x.1.1 (after_verify d times now m x w).1.machine
    unfolding after_verify emit
    after_verify-Same m (err f, (s, h)) w q = refl
    after_verify-Same m (ok m', (s, h)) w q = refl

    after_backup-Same :
        (x : Result Text Manifest × (S × H)) (w : World S H)
        → Same temps x.1.1 (after_backup d times now x w).1.machine
    unfolding after_backup emit
    after_backup-Same (err e, (s, h)) w = λ q. refl
    after_backup-Same (ok m, (s, h)) w =
        Same-trans temps
          (λ q.
            temps-verify_run temps d.host d.quote d.urls d.backend d.json d.aead d.sha256 d.cfg m.id
              now s h q laws)
          (after_verify-Same m _ _)

-- A cycle leaves no temporary file behind: neither the plain dump of its backup, nor that of the
-- verification, nor the list of its contents, whatever fails, on a machine that keeps the promises
-- of `os`. It takes away no other temporary file.
pub temps-cycle :
    {S H : Type 0} (d : Deps S H) (times : Times) (now : Time) (temps : H → Text → Bool)
    (w : World S H) (q : Text)
    → IsHost d.host temps
    → temps (cycle d times now w).1.machine q ≡ temps w.machine q
unfolding cycle backup_and_verify
temps-cycle d times now temps w q laws =
    let backed_up =
      Backup.run d.backend d.json d.aead d.random d.sha256 d.urls d.host d.cfg now
        (w.store, w.machine) in
    let (cycle_err, w') = backup_and_verify d times now w in
    ap (λ h. temps h q)
      (after_check-machine d times now cycle_err
        (Check.run d.backend d.json d.sorter d.max_age now w'.store) w')
    ∙ (after_backup-Same d times now temps laws backed_up w q
        ∙ temps-backup_run temps d.host d.backend d.json d.aead d.random d.sha256 d.urls d.cfg now
            w.store w.machine q laws)
