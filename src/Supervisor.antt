-- ===== src/Supervisor.antt =====
-- internal/supervisor: restarts of managed backends.
pub mod Restart
pub mod Coordinator
