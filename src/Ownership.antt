-- ===== src/Ownership.antt =====
-- internal/ownership: who owns a process group, and the reclaiming of those that are owned.
pub mod Verify
pub mod Stat
pub mod Reconcile
