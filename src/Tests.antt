-- ===== src/Tests.antt =====
-- The theorems at concrete inputs, and runs of the definitions.
mod Common
mod Daemon
mod Drawing
mod Editor
mod Screen
mod Shell
mod Terminal
mod Windows
