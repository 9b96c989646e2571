-- ===== src/Runner.antt =====
-- internal/runner: the state behind the observability endpoints, and the cycle.
pub mod Status
pub mod Cycle
pub mod Pruning
pub mod Alerted
mod Untouched
pub mod Swept
pub mod Answered
mod CycleTests
mod Tests
