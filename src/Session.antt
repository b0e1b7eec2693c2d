-- ===== src/Session.antt =====
-- internal/session: managers of downstream sessions.
pub mod Manager
pub mod Shared
