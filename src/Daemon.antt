-- ===== src/Daemon.antt =====
-- src/daemon: of the process that keeps the session, the settings.
pub mod Config
