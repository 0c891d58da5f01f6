-- ===== src/Apps.antt =====
-- The applications of the desktop.
pub mod Editor
pub mod Terminal
