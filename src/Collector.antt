-- ===== src/Collector.antt =====
-- The collector's own parts.
pub mod Queue
pub mod Stderr
pub mod Session
pub mod Link
pub mod WriterThread
pub mod Upkeep
pub mod Daemon
mod Tests
