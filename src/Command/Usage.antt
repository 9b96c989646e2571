-- ===== src/Command/Usage.antt =====
-- cmd/backwyn/main.go: the text of `usage`.
use backwyn.Prelude.{List, [], ◌∷◌, ◌++◌}
use backwyn.Prelude.Text.{em_dash, Text, lit, join}

unfoldable pub usage_lines : List Text
usage_lines =
    (lit "backwyn " ++ (em_dash ++ lit " verified Postgres backups"))
    ∷ []
    ∷ lit "usage:"
    ∷ lit "  backwyn backup           dump, encrypt, store, write manifest"
    ∷ lit "  backwyn verify <id>      prove a stored backup restores cleanly"
    ∷ lit "  backwyn restore <id> (-to <dsn> | -to-file <path>) [-force] [-allow-unverified]"
    ∷ lit "                            bring a backup back: restore into a database, or"
    ∷ lit "                            write a plain pg_dump archive you can restore"
    ∷ lit "                            yourself. Refuses a non-empty target, the source"
    ∷ lit "                            database, and unverified backups unless told."
    ∷ lit "  backwyn list             show stored backups and verification status"
    ∷ lit "  backwyn check [-max-age 24h]"
    ∷ lit "                            alert (exit 3) if no verified backup is fresh enough"
    ∷ lit "  backwyn prune [-keep-last N] [-keep-daily N] [-keep-weekly N]"
    ∷ lit "                 [-keep-monthly N] [-dry-run] [-sweep-orphans]"
    ∷ lit "                            delete backups outside the retention policy. Never"
    ∷ lit "                            deletes the most recent verified backup, and prunes"
    ∷ lit "                            nothing at all if no backup is verified. With no"
    ∷ lit "                            -keep flags it keeps everything."
    ∷ lit "  backwyn run [-interval 6h] [-max-age 24h] [-once] [-listen :8080] [-keep-* N]"
    ∷ lit "                            daemon: backup -> verify -> check -> prune on a"
    ∷ lit "                            schedule (-once runs a single cycle, for cron)."
    ∷ lit "                            Serves /healthz and /metrics on -listen (\"\" to"
    ∷ lit "                            disable; skipped with -once)."
    ∷ []
    ∷ lit "environment:"
    ∷ lit "  BACKWYN_SOURCE_DSN        source database connection string"
    ∷ lit "  BACKWYN_ENCRYPTION_KEY    base64-encoded 32-byte key"
    ∷ lit "  BACKWYN_VERIFY_ADMIN_DSN  local Postgres admin DSN (verify sandbox)"
    ∷ lit "  BACKWYN_STORAGE           backend: \"local\" (default) or \"s3\""
    ∷ lit "  BACKWYN_STORAGE_DIR       local backend root (when BACKWYN_STORAGE=local)"
    ∷ lit "  BACKWYN_S3_BUCKET         bucket name (when BACKWYN_STORAGE=s3)"
    ∷ lit "  BACKWYN_S3_ENDPOINT       S3 endpoint, e.g. R2 https://<acct>.r2.cloudflarestorage.com"
    ∷ lit "  BACKWYN_S3_REGION         region (\"auto\" for R2)"
    ∷ lit "  BACKWYN_S3_ACCESS_KEY     S3 access key id"
    ∷ lit "  BACKWYN_S3_SECRET_KEY     S3 secret access key"
    ∷ lit "  BACKWYN_S3_PATH_STYLE     \"true\" for path-style addressing (R2, MinIO)"
    ∷ lit "  BACKWYN_ALERT_WEBHOOK     optional URL to POST JSON alerts to"
    ∷ lit "  BACKWYN_VERIFY_QUERY      optional SQL run against the restored sandbox; if"
    ∷ lit "                            it errors, verification fails"
    ∷ lit "  BACKWYN_DUMP_SCHEMAS      optional comma-separated schemas to dump (pg_dump"
    ∷ lit "                            -n); empty dumps the whole database"
    ∷ lit "  BACKWYN_DUMP_ROW_SECURITY \"true\" dumps RLS tables under the role's policies"
    ∷ lit "                            (pg_dump --enable-row-security); requires the"
    ∷ lit "                            read-all policies from sql/backup_role_rls.sql"
    ∷ lit "  BACKWYN_LISTEN_ADDR       default for run -listen (health checks + metrics)"
    ∷ []

-- `usage`
unfoldable pub usage_text : Text
unfolding usage_lines join
usage_text = join usage_lines (lit "\n") ++ lit "\n"
