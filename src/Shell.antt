-- ===== src/Shell.antt =====
-- src/shell: of the shell around the windows, the state of the updates.
pub mod UpdateState
