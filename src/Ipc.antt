-- ===== src/Ipc.antt =====
-- crates/arkforge-ipc: what the daemon and its clients exchange.
pub mod Wire
