-- ===== src/Retention.antt =====
-- internal/retention/retention.go: which backups to prune, and the pruning itself.
pub mod Policy
pub mod Slots
pub mod Reasons
pub mod Decided
pub mod Guards
pub mod Spec
pub mod Exact
pub mod Sort
pub mod Plan
pub mod Apply
pub mod Sweep
pub mod Complete
pub mod Orphans
pub mod Spared
pub mod Deleted
mod Tests
