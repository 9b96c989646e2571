-- ===== src/Runner/Cycle.antt =====
-- internal/runner/runner.go: one cycle of backup, verification, check and pruning.
use backwyn.Prelude.{
  ℕ, ◌-◌, ◌^◌, ltb, Bool, true, false, Option, none, some, List, [], ◌∷◌, ◌++◌, Result, ok, err,
  if◌then◌else◌,
}
use backwyn.Prelude.Int.{ℤ, pos, negsuc}
use backwyn.Prelude.Text.{Text, lit, join}
use backwyn.Time.{Time, zero_time}
use backwyn.Storage.{Backend}
use backwyn.Alert.{Level, level_warn, level_error, Event}
use backwyn.Manifest.{Manifest, Json}
use backwyn.Config.{Config}
use backwyn.Pgtools.Dsn.{Urls}
use backwyn.Host.{Host}
use backwyn.Crypto.Cipher.{Aead, Random}
use backwyn.Artifact.Load.{load_all}
use backwyn.Backup as Backup
use backwyn.Verify as Verify
use backwyn.Check as Check
use backwyn.Retention.Policy.{Policy, is_zero, remove}
use backwyn.Retention.Plan.{Sorter, compute}
use backwyn.Retention.Apply.{apply}
use backwyn.Runner.Status.{Tracker, record_backup, record_verify, record_check}

-- What a cycle works on. `alerts` are the events handed to the alerter, in order; whether it
-- delivers them is only logged.
pub record World (S H : Type 0) : Type 0 where
  pub store : S
  pub machine : H
  pub tracker : Option Tracker
  pub alerts : List Event

-- What the clock shows at the calls of the tracker, and the time that the backup takes.
pub record Times : Type 0 where
  pub backup_at : Time
  pub backup_took : ℤ
  pub verify_at : Time
  pub check_at : Time

-- `Deps`, with what the operations take from outside the repository.
pub record Deps (S H : Type 0) : Type 0 where
  pub cfg : Config
  pub backend : Backend S
  pub host : Host H
  pub max_age : ℤ
  pub retention : Policy
  pub sorter : Sorter
  pub json : Json
  pub aead : Aead
  pub random : Random
  pub sha256 : Text → Text
  pub quote : Text → Text
  pub urls : Urls

-- The value of an `int64`.
abbrev pub int64 : ℕ → ℤ
int64 n = if ltb n (2 ^ 63) then pos n else negsuc (2 ^ 64 - n - 1)

-- `d.Tracker` is updated where there is one.
abbrev pub tracked : (Tracker → Tracker) → Option Tracker → Option Tracker
tracked f none = none
tracked f (some t) = some (f t)

-- The creation of the manifest, or the zero time without one.
abbrev pub created : Option Manifest → Time
created none = zero_time
created (some m) = m.created_at

module _ {S H : Type 0} (d : Deps S H) (times : Times) (now : Time) where
  -- `emit`
  unfoldable pub emit : Level → Text → Text → World S H → World S H
  emit level title detail w = record w {
    alerts = w.alerts ++ record { level = level; title = title; detail = detail; time = now } ∷ [];
  }

  -- `backupAndVerify` behind `verify.Run`
  unfoldable pub after_verify :
      Manifest → Result Verify.Failure Manifest × (S × H) → World S H → Option Text × World S H
  unfolding emit record_verify
  after_verify backed_up (err f, (s, h)) w = (
    some (lit "verify: " ++ f.error),
    emit level_error (lit "verify failed")
        (lit "backup " ++ (backed_up.id ++ (lit " did not restore: " ++ f.error)))
        (record w {
          store = s;
          machine = h;
          tracker = tracked (record_verify times.verify_at false (pos 0)) w.tracker;
        }),
  )
  after_verify backed_up (ok m, (s, h)) w = (
    none,
    record w {
      store = s;
      machine = h;
      tracker = tracked (record_verify times.verify_at true m.verification.table_count) w.tracker;
    },
  )

  -- `backupAndVerify` behind `backup.Run`
  unfoldable pub after_backup : Result Text Manifest × (S × H) → World S H → Option Text × World S H
  unfolding after_verify record_backup Verify.run
  after_backup (err e, (s, h)) w = (
    some (lit "backup: " ++ e),
    emit level_error (lit "backup failed") e (record w {
      store = s;
      machine = h;
      tracker = tracked (record_backup times.backup_at false (pos 0) times.backup_took) w.tracker;
    }),
  )
  after_backup (ok m, (s, h)) w =
      after_verify m
        (Verify.run d.host d.quote d.urls d.backend d.json d.aead d.sha256 d.cfg m.id now (s, h))
        (record w {
          store = s;
          machine = h;
          tracker =
              tracked
                (record_backup times.backup_at true (int64 m.encrypted_size) times.backup_took)
                w.tracker;
        })

  -- `backupAndVerify`
  unfoldable pub backup_and_verify : World S H → Option Text × World S H
  unfolding after_backup Backup.run
  backup_and_verify w =
      after_backup
        (Backup.run d.backend d.json d.aead d.random d.sha256 d.urls d.host d.cfg now
          (w.store, w.machine))
        w

  -- The end of `prune`.
  unfoldable pub after_apply : (ℕ × Option Text) × S → World S H → World S H
  unfolding emit
  after_apply ((freed, none), s) w = record w { store = s }
  after_apply ((freed, some e), s) w =
      emit level_warn (lit "prune failed") e (record w { store = s })

  -- `prune` with the manifests that it loaded.
  unfoldable pub prune_loaded : List Manifest → World S H → World S H
  unfolding after_apply compute remove apply
  prune_loaded ms w =
      let plan = compute d.sorter ms d.retention in
      elim (remove plan) [ [] ↦ w | m ∷ rest ↦ after_apply (apply d.backend plan w.store) w ]

  -- `prune`
  unfoldable pub prune : World S H → World S H
  unfolding prune_loaded load_all
  prune w =
      let (r, s) = load_all d.backend d.json w.store in
      let w' = record w { store = s } in
      if is_zero d.retention then w else elim r [ err e ↦ w' | ok ms ↦ prune_loaded ms w' ]

  -- The warnings of a healthy report.
  unfoldable pub warn : List Text → World S H → World S H
  unfolding emit join
  warn [] w = w
  warn (x ∷ xs) w = emit level_warn (lit "backup coverage degraded") (join (x ∷ xs) (lit "; ")) w

  -- `Cycle` behind the tracker's update, by whether the report is healthy and the error so far.
  unfoldable pub after_report :
      Bool → Option Text → Check.Report → World S H → Option Text × World S H
  unfolding prune warn
  after_report false cycle_err rep w =
      let detail = join rep.reasons (lit "; ") in
      (
        elim cycle_err [ some e ↦ some e | none ↦ some (lit "coverage unhealthy: " ++ detail) ],
        emit level_error (lit "backup coverage unhealthy") detail w,
      )
  after_report true (some e) rep w = (some e, w)
  after_report true none rep w = (none, warn rep.warnings (prune w))

  -- `Cycle` behind the check.
  unfoldable pub after_check :
      Option Text → Result Text Check.Report × S → World S H → Option Text × World S H
  unfolding after_report record_check
  after_check cycle_err (err e, s) w = (
    elim cycle_err [ some c ↦ some c | none ↦ some (lit "check: " ++ e) ],
    record w { store = s },
  )
  after_check cycle_err (ok rep, s) w = after_report rep.healthy cycle_err rep (record w {
    store = s;
    tracker =
        tracked (record_check times.check_at rep.healthy (created rep.last_verified)) w.tracker;
  })

  -- `Cycle`
  unfoldable pub cycle : World S H → Option Text × World S H
  unfolding backup_and_verify after_check Check.run
  cycle w =
      let (cycle_err, w') = backup_and_verify w in
      after_check cycle_err (Check.run d.backend d.json d.sorter d.max_age now w'.store) w'
