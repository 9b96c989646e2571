-- ===== src/Runner/Status.antt =====
-- internal/runner/status.go: the tracker and the handlers of `/healthz` and `/metrics`. The lock makes
-- each of these a step of its own, so that calls from several goroutines are some sequence of steps.
pub mod Health
use backwyn.Prelude.{
  ℕ, ◌+◌, ◌-◌, ◌*◌, ◌/◌, Bool, true, false, List, [], ◌∷◌, ◌++◌, ltb, if◌then◌else◌,
}
use backwyn.Prelude.Int.{ℤ, pos, negsuc}
use backwyn.Prelude.Text.{Text, lit, text_eq, show_ℤ}
use backwyn.Time.{Time, second, day, zero_time, is_zero}

pub record Tracker : Type 0 where
  pub last_backup_time : Time
  pub last_backup_status : Text
  pub last_backup_size : ℤ
  pub last_backup_duration : ℤ
  pub last_verify_time : Time
  pub last_verify_status : Text
  pub last_table_count : ℤ
  pub last_check_time : Time
  pub last_check_healthy : Bool
  pub last_verified_backup : Time

-- `NewTracker`
unfoldable pub new_tracker : Tracker
new_tracker = record {
  last_backup_time = zero_time;
  last_backup_status = [];
  last_backup_size = pos 0;
  last_backup_duration = pos 0;
  last_verify_time = zero_time;
  last_verify_status = [];
  last_table_count = pos 0;
  last_check_time = zero_time;
  last_check_healthy = false;
  last_verified_backup = zero_time;
}

abbrev status_text : Bool → Text
status_text success = if success then lit "success" else lit "failed"

-- `RecordBackup`; `now` is what `time.Now()` returns.
unfoldable pub record_backup : Time → Bool → ℤ → ℤ → Tracker → Tracker
record_backup now success size dur t = record t {
  last_backup_time = now;
  last_backup_size = size;
  last_backup_duration = dur;
  last_backup_status = status_text success;
}

-- `RecordVerify`
unfoldable pub record_verify : Time → Bool → ℤ → Tracker → Tracker
record_verify now success table_count t = record t {
  last_verify_time = now;
  last_table_count = table_count;
  last_verify_status = status_text success;
}

-- `RecordCheck`
unfoldable pub record_check : Time → Bool → Time → Tracker → Tracker
record_check now healthy last_verified t = record t {
  last_check_time = now;
  last_check_healthy = healthy;
  last_verified_backup = last_verified;
}

-- An answer: the code and the body.
pub record Response : Type 0 where
  pub code : ℕ
  pub body : Text

-- The handler of `/healthz`.
unfoldable pub healthz : Tracker → Response
healthz t =
    if is_zero t.last_check_time
    then record { code = 503; body = lit "starting" }
    else if t.last_check_healthy
    then record { code = 200; body = lit "ok" }
    else record { code = 503; body = lit "unhealthy" }

-- 1970-01-01T00:00:00Z
abbrev unix_epoch : Time
unix_epoch = 719_528 * day

-- `t.Unix()`, which rounds down.
unfoldable pub unix : Time → ℤ
unix t =
    if ltb t unix_epoch
    then negsuc ((unix_epoch - t - 1) / second)
    else pos ((t - unix_epoch) / second)

-- `epoch`
unfoldable pub epoch : Time → ℤ
unfolding unix
epoch t = if is_zero t then pos 0 else unix t

-- `boolGauge`
unfoldable pub bool_gauge : Bool → ℤ
bool_gauge b = if b then pos 1 else pos 0

-- The three calls of `Fprintf` for one metric.
abbrev gauge : Text → Text → Text → Text → Text
gauge name help value tail =
    lit "# HELP "
    ++ name
    ++ (lit " " ++ help)
    ++ (lit "\n# TYPE " ++ name ++ lit " gauge\n")
    ++ (name ++ (lit " " ++ value))
    ++ tail

-- The body of `/metrics`. `show_seconds` is `%.3f` of a duration's `Seconds()`.
unfoldable pub metrics : (ℤ → Text) → Tracker → Text
unfolding epoch bool_gauge text_eq
metrics show_seconds t =
    gauge (lit "backwyn_coverage_healthy")
      (lit "Whether the last check found a verified backup within -max-age (1) or not (0).")
      (show_ℤ (bool_gauge t.last_check_healthy)) (lit "\n\n")
    ++ gauge (lit "backwyn_last_verified_backup_time_seconds")
        (lit "Epoch timestamp of the newest verified backup, 0 if none.")
        (show_ℤ (epoch t.last_verified_backup)) (lit "\n\n")
    ++ gauge (lit "backwyn_last_check_time_seconds")
        (lit "Epoch timestamp of the last coverage check, 0 before the first cycle.")
        (show_ℤ (epoch t.last_check_time)) (lit "\n\n")
    ++ gauge (lit "backwyn_last_backup_time_seconds")
        (lit "Epoch timestamp of the last backup attempt.") (show_ℤ (epoch t.last_backup_time))
        (lit "\n\n")
    ++ gauge (lit "backwyn_last_backup_success")
        (lit "Indicates if the last backup succeeded (1) or failed (0).")
        (show_ℤ (bool_gauge (text_eq t.last_backup_status (lit "success")))) (lit "\n\n")
    ++ gauge (lit "backwyn_last_backup_size_bytes")
        (lit "Size of the last encrypted backup artifact in bytes.") (show_ℤ t.last_backup_size)
        (lit "\n\n")
    ++ gauge (lit "backwyn_last_backup_duration_seconds")
        (lit "Duration of the last backup in seconds.") (show_seconds t.last_backup_duration)
        (lit "\n\n")
    ++ gauge (lit "backwyn_last_verify_time_seconds")
        (lit "Epoch timestamp of the last verification attempt.")
        (show_ℤ (epoch t.last_verify_time)) (lit "\n\n")
    ++ gauge (lit "backwyn_last_verify_success")
        (lit "Indicates if the last verification succeeded (1) or failed (0).")
        (show_ℤ (bool_gauge (text_eq t.last_verify_status (lit "success")))) (lit "\n\n")
    ++ gauge (lit "backwyn_last_table_count")
        (lit "Number of tables successfully restored in the last verification.")
        (show_ℤ t.last_table_count) (lit "\n")
