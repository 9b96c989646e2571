-- ===== src/Runner/Answered.antt =====
-- internal/runner/runner.go and status.go: what `/healthz` answers behind a cycle.
use mathlib.Core.Path.{subst}
use backwyn.Prelude.{
  ◌≡◌, ◌≢◌, ◌↔◌, refl, ap, ◌∙◌, Bool, true, Option, some, List, Result, ok, err, arith,
}
use backwyn.Prelude.Text.{Text}
use backwyn.Time.{Time, zero_time}
use backwyn.Manifest.{Manifest}
use backwyn.Artifact.Load.{load_all}
use backwyn.Backup as Backup
use backwyn.Verify as Verify
use backwyn.Check as Check
use backwyn.Check.Healthy.{IsCovered, run-healthy_iff}
use backwyn.Retention.Plan.{IsSorter}
use backwyn.Runner.Status.{Tracker, record_backup, record_check, healthz}
use backwyn.Runner.Untouched.{after_report-Untouched}
use backwyn.Runner.Cycle.{
  emit, int64, tracked, created, World, Times, Deps, after_verify, after_backup, backup_and_verify,
  after_check, cycle,
}

-- The world has a tracker whose answer is 200 exactly when `healthy` holds.
abbrev pub Answers : {S H : Type 0} → World S H → Type 0 → Type 0
Answers w P = (t : Tracker) × (w.tracker ≡ some t) × (((healthz t).code ≡ 200) ↔ P)

abbrev HasTracker : {S H : Type 0} → World S H → Type 0
HasTracker w = (t : Tracker) × (w.tracker ≡ some t)

module _ {S H : Type 0} (d : Deps S H) (times : Times) (now : Time) where
  after_verify-HasTracker :
      (m : Manifest) (x : Result Verify.Failure Manifest × (S × H)) (w : World S H)
      → HasTracker w
      → HasTracker (after_verify d times now m x w).1
  unfolding after_verify emit
  after_verify-HasTracker m (err f, (s, h)) w (t, e) = rw e (_, refl)
  after_verify-HasTracker m (ok m', (s, h)) w (t, e) = rw e (_, refl)

  after_backup-HasTracker :
      (x : Result Text Manifest × (S × H)) (w : World S H)
      → HasTracker w
      → HasTracker (after_backup d times now x w).1
  unfolding after_backup emit
  after_backup-HasTracker (err e, (s, h)) w (t, e') = rw e' (_, refl)
  after_backup-HasTracker (ok m, (s, h)) w (t, e') =
      let f = record_backup times.backup_at true (int64 m.encrypted_size) times.backup_took in
      let w' : World S H = record w { store = s; machine = h; tracker = tracked f w.tracker } in
      after_verify-HasTracker m
        (Verify.run d.host d.quote d.urls d.backend d.json d.aead d.sha256 d.cfg m.id now (s, h)) w'
        (f t, ap (tracked f) e')

  checked-code :
      (t : Tracker) (healthy : Bool) (v : Time)
      → times.check_at ≢ zero_time
      → ((healthz (record_check times.check_at healthy v t)).code ≡ 200) ↔ (healthy ≡ true)
  unfolding healthz record_check
  checked-code t healthy v timed = ground arith

  after_check-Answers :
      (cycle_err : Option Text) (x : Result Text Check.Report × S) (w : World S H)
      (rep : Check.Report)
      → x.0 ≡ ok rep
      → times.check_at ≢ zero_time
      → HasTracker w
      → Answers (after_check d times now cycle_err x w).1 (rep.healthy ≡ true)
  unfolding after_check
  after_check-Answers cycle_err (err e, s) w rep read timed has = absurd (ground arith)
  after_check-Answers cycle_err (ok rep', s) w rep read timed (t, e) =
      let same : rep'.healthy ≡ rep.healthy = ground arith in
      let f = record_check times.check_at rep'.healthy (created rep'.last_verified) in
      let w' : World S H = record w { store = s; tracker = tracked f w.tracker } in
      (
        f t,
        (after_report-Untouched d times now rep'.healthy cycle_err rep' w').1 ∙ ap (tracked f) e,
        subst (λ b. ((healthz (f t)).code ≡ 200) ↔ (b ≡ true)) same
            (checked-code t rep'.healthy (created rep'.last_verified) timed),
      )

-- After a cycle of a runner that has a tracker, whose check could read the manifests, `/healthz`
-- answers 200 exactly when one of the manifests that the check read is verified and no older than
-- the threshold, whatever became of the backup of the cycle, if the clock does not show the zero time
-- at the check.
pub cycle-Answers :
    {S H : Type 0} (d : Deps S H) (times : Times) (now : Time) (w : World S H) (t : Tracker)
    (rep : Check.Report)
    → IsSorter d.sorter
    → times.check_at ≢ zero_time
    → w.tracker ≡ some t
    → (Check.run d.backend d.json d.sorter d.max_age now
        (backup_and_verify d times now w).1.store).0
      ≡ ok rep
    → (ms : List Manifest) × ((load_all d.backend d.json
          (backup_and_verify d times now w).1.store).0
        ≡ ok ms)
      × Answers (cycle d times now w).1 (IsCovered ms d.max_age now)
unfolding cycle backup_and_verify
cycle-Answers d times now w t rep sorts timed has read =
    let backed_up =
      Backup.run d.backend d.json d.aead d.random d.sha256 d.urls d.host d.cfg now
        (w.store, w.machine) in
    let (cycle_err, w') = backup_and_verify d times now w in
    let checked = Check.run d.backend d.json d.sorter d.max_age now w'.store in
    let (t', e, iff) =
      after_check-Answers d times now cycle_err checked w' rep read timed
        (after_backup-HasTracker d times now backed_up w (t, has)) in
    let (ms, loaded, covered, _) =
      run-healthy_iff d.backend d.json d.sorter d.max_age now w'.store rep sorts read in
    (ms, loaded, (t', e, (λ c. covered.0 (iff.0 c), λ c. iff.1 (covered.1 c))))
