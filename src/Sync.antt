-- ===== src/Sync.antt =====
-- kernel/src/sync.
mod Counting
pub mod Mutex
pub mod Once
pub mod OnceLock
