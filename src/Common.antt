-- ===== src/Common.antt =====
-- src/common: the codec, the wire protocol and the output queue that both processes share.
pub mod Utf8
pub mod Proto
pub mod OutQueue
pub mod Wire
