-- ===== src/Store.antt =====
-- internal/infrastructure/memory/store.go: the repository in memory.
pub mod Defs
pub mod Import
pub mod Locking
pub mod Consistency
pub mod Writes
pub mod History
pub mod Jobs
