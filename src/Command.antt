-- ===== src/Command.antt =====
-- cmd/backwyn/main.go: the program.
pub mod Flags
pub mod Runtime
pub mod Usage
pub mod Prune
pub mod Check
pub mod Restore
pub mod Daemon
pub mod Listing
pub mod Monitored
mod Tests
use backwyn.Prelude.{
  ℕ, Bool, true, false, ◌&&◌, ◌||◌, Option, none, some, List, [], ◌∷◌, ◌++◌, Result, ok, err,
  if◌then◌else◌,
}
use backwyn.Prelude.Int.{ℤ}
use backwyn.Prelude.Text.{Text, lit, text_eq, has_prefix, has_suffix, show_ℤ}
use backwyn.Prelude.Text.Paths.{FilePath, join_path}
use backwyn.Time.{Time}
use backwyn.Storage.{Backend}
use backwyn.Storage.Local.{new_local, local}
use backwyn.Storage.S3.{Bucket, new_s3, s3}
use backwyn.Manifest.{Manifest}
use backwyn.Config.{Config, ConfigError, load}
use backwyn.Backup as Backup
use backwyn.Verify as Verify
use backwyn.Runner.Cycle.{Times}
use Runtime.{
  Entry, System, Process, Outcome, success, failure, exits, panics, still_running, print, print_err,
  show_int64,
}
use Usage.{usage_text}
use Prune.{run_prune}
use Check.{run_check}
use Restore.{run_restore}
use Daemon.{Wake, DaemonState, run_daemon}
use Listing.{list}

-- What the clock shows where a command reads it, and the events that wake the daemon.
pub record Moments : Type 0 where
  pub now : Time
  pub took : ℤ
  pub times : Times
  pub wakes : List Wake

-- The condition of `cleanupTempFiles`.
unfoldable pub is_stale : Entry → Bool
unfolding has_prefix has_suffix
is_stale e =
    if e.is_dir then false else has_prefix e.name (lit "backwyn-") && has_suffix e.name (lit ".pgc")

-- `filepath.Join` of a directory and a name.
abbrev in_dir : Text → Text → Text
in_dir dir name = dir ++ (lit "/" ++ name)

module _ {S H P : Type 0} (sys : System S H P) where
  -- The loop of `cleanupTempFiles`.
  unfoldable pub remove_stale : List Entry → H → H
  unfolding is_stale
  remove_stale [] h = h
  remove_stale (e ∷ es) h =
      remove_stale es (if is_stale e then sys.host.remove (in_dir sys.temp_dir e.name) h else h)

  unfoldable pub after_read_dir : Result Text (List Entry) → H → H
  unfolding remove_stale
  after_read_dir (err e) h = h
  after_read_dir (ok es) h = remove_stale es h

  -- `cleanupTempFiles`
  unfoldable pub cleanup_temp_files : Process S H → Process S H
  unfolding after_read_dir
  cleanup_temp_files p = record p {
    machine = after_read_dir (sys.read_dir sys.temp_dir p.machine) p.machine;
  }

  -- The directory of the store, from the working directory.
  unfoldable pub located : Text → FilePath
  unfolding has_prefix join_path
  located dir = if has_prefix dir (lit "/") then join_path [] dir else join_path sys.working_dir dir

  unfoldable pub after_new_local : Result Text FilePath × S → Result Text (Backend S) × S
  unfolding local
  after_new_local (err e, s) = (err e, s)
  after_new_local (ok dir, s) = (ok (local sys.files dir), s)

  unfoldable pub after_new_s3 : Result Text Bucket → S → Result Text (Backend S) × S
  unfolding s3
  after_new_s3 (err e) s = (err e, s)
  after_new_s3 (ok bucket) s = (ok (s3 sys.client sys.page_bound bucket), s)

  -- `newBackend`
  unfoldable pub new_backend : Config → S → Result Text (Backend S) × S
  unfolding after_new_local new_local located after_new_s3 new_s3 text_eq
  new_backend cfg s =
      let in_bucket =
        after_new_s3
          (new_s3 (record {
            bucket = cfg.s3.bucket;
            endpoint = cfg.s3.endpoint;
            region = cfg.s3.region;
            access_key = cfg.s3.access_key;
            secret_key = cfg.s3.secret_key;
            path_style = cfg.s3.path_style;
          }))
          s in
      let in_dir = after_new_local (new_local sys.files (located cfg.storage_dir) s) in
      if text_eq cfg.backend (lit "s3") then in_bucket else in_dir

  -- The case "backup" of `run` behind `backup.Run`.
  unfoldable pub after_backup : Result Text Manifest × (S × H) → Process S H → Outcome × Process S H
  unfolding show_int64
  after_backup (err e, (s, h)) p = (failure e, record p { store = s; machine = h })
  after_backup (ok m, (s, h)) p = (
    success,
    print
        (lit "backed up "
          ++ (m.id
              ++ (lit " ("
                  ++ (show_int64 m.plaintext_size
                      ++ (lit " bytes plaintext, "
                          ++ (show_int64 m.encrypted_size
                              ++ (lit " encrypted) -> "
                                  ++ (m.artifact_key
                                      ++ (lit "\nrun 'backwyn verify "
                                          ++ (m.id ++ lit "' to prove it restores.\n"))))))))))
        (record p { store = s; machine = h }),
  )

  -- The case "verify" of `run` behind `verify.Run`.
  unfoldable pub after_verify :
      Result Verify.Failure Manifest × (S × H) → Process S H → Outcome × Process S H
  unfolding show_ℤ
  after_verify (err f, (s, h)) p = (failure f.error, record p { store = s; machine = h })
  after_verify (ok m, (s, h)) p = (
    success,
    print
        (lit "VERIFIED "
          ++ (m.id
              ++ (lit ": checksum ok, archive listable, restored "
                  ++ (show_ℤ m.verification.table_count
                      ++ (lit " tables at "
                          ++ (sys.rfc3339 m.verification.verified_at ++ lit "\n"))))))
        (record p { store = s; machine = h }),
  )

  -- The case "verify" of `run`.
  unfoldable pub run_verify :
      Backend S → Config → List Text → Time → Process S H → Outcome × Process S H
  unfolding after_verify Verify.run
  run_verify b cfg [] now p = (failure (lit "usage: backwyn verify <backup-id>"), p)
  run_verify b cfg (id ∷ []) now p =
      after_verify
        (Verify.run sys.host sys.quote sys.urls b sys.json sys.aead sys.sha256 cfg id now
          (p.store, p.machine))
        p
  run_verify b cfg (id ∷ other ∷ args) now p =
      (failure (lit "usage: backwyn verify <backup-id>"), p)

  -- The case "run" of `run`.
  unfoldable pub after_daemon : Outcome × DaemonState S H → Process S H → Outcome × Process S H
  after_daemon (outcome, d) p =
      (outcome, print_err d.warned (record p { store = d.world.store; machine = d.world.machine }))

  -- The `switch` of `run`.
  unfoldable pub dispatch :
      Backend S → Config → Text → List Text → Moments → Process S H → Outcome × Process S H
  unfolding after_backup Backup.run run_verify run_restore list run_check run_prune after_daemon
      run_daemon usage_text text_eq
  dispatch b cfg cmd args at p =
      let backup =
        after_backup
          (Backup.run b sys.json sys.aead sys.random sys.sha256 sys.urls sys.host cfg at.now
            (p.store, p.machine))
          p in
      let verify = run_verify b cfg args at.now p in
      let restore = run_restore sys b cfg args at.took p in
      let listed = list sys b p in
      let check = run_check sys b args at.now p in
      let prune = run_prune sys b args at.now p in
      let daemon =
        after_daemon (run_daemon sys b cfg args at.times at.now at.wakes p.store p.machine) p in
      if text_eq cmd (lit "backup")
      then backup
      else if text_eq cmd (lit "verify")
      then verify
      else if text_eq cmd (lit "restore")
      then restore
      else if text_eq cmd (lit "list")
      then listed
      else if text_eq cmd (lit "check")
      then check
      else if text_eq cmd (lit "prune")
      then prune
      else if text_eq cmd (lit "run")
      then daemon
      else (failure (lit "unknown command " ++ sys.values.quote cmd), print_err usage_text p)

  -- `run` behind `newBackend`
  unfoldable pub after_new_backend :
      Config
      → Text
      → List Text
      → Moments
      → Result Text (Backend S) × S
      → Process S H
      → Outcome × Process S H
  unfolding dispatch
  after_new_backend cfg cmd args at (err e, s) p = (failure e, record p { store = s })
  after_new_backend cfg cmd args at (ok b, s) p =
      dispatch b cfg cmd args at (record p { store = s })

  -- `run` behind `config.Load`
  unfoldable pub after_config :
      Text → List Text → Moments → Result ConfigError Config → Process S H → Outcome × Process S H
  unfolding after_new_backend new_backend
  after_config cmd args at (err e) p = (failure (sys.show_config_error e), p)
  after_config cmd args at (ok cfg) p =
      after_new_backend cfg cmd args at (new_backend cfg p.store) p

  -- `run`
  unfoldable pub run : Text → List Text → Moments → Process S H → Outcome × Process S H
  unfolding after_config load
  run cmd args at p = after_config cmd args at (load sys.env) p

  -- The end of `main`: the exit code, where the process has ended.
  unfoldable pub exit_code : Outcome × Process S H → Option ℕ × Process S H
  exit_code (success, p) = (some 0, p)
  exit_code (failure e, p) = (some 1, print_err (lit "backwyn: " ++ (e ++ lit "\n")) p)
  exit_code (exits n, p) = (some n, p)
  exit_code (panics e, p) = (some 2, print_err (lit "panic: " ++ e) p)
  exit_code (still_running, p) = (none, p)

  -- `main`, with the arguments behind the program's name.
  unfoldable pub main : List Text → Moments → Process S H → Option ℕ × Process S H
  unfolding cleanup_temp_files exit_code run usage_text text_eq
  main [] at p = (some 2, print_err usage_text (cleanup_temp_files p))
  main (cmd ∷ args) at p =
      let p' = cleanup_temp_files p in
      let ran = exit_code (run cmd args at p') in
      if text_eq cmd (lit "help") || (text_eq cmd (lit "-h") || text_eq cmd (lit "--help"))
      then (some 0, print_err usage_text p')
      else ran
