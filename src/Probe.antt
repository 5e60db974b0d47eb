-- ===== src/Probe.antt =====
-- The probe: probe/probe.py.
pub mod Chunks
pub mod Gpu
pub mod Lock
pub mod Schedule
pub mod Tracker
pub mod Stat
pub mod Process
pub mod Scan
mod Tests
