-- ===== src/Pgtools.antt =====
-- internal/pgtools/pgtools.go: the Postgres client programs.
pub mod Sql
pub mod Client
pub mod Dsn
pub mod Quoting
mod Tests
