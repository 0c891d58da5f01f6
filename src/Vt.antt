-- ===== src/Vt.antt =====
-- src/vt: the terminal emulator.
pub mod Attrs
pub mod Cell
pub mod Charset
pub mod Modes
pub mod Parser
pub mod Reply
pub mod Screen
pub mod Scrollback
