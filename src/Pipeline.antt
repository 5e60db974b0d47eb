-- ===== src/Pipeline.antt =====
-- The pipeline: from the probe's readings to storage records.
pub mod Rules
pub mod Classify
pub mod Minutes
pub mod Usage
pub mod Enrich
pub mod Node
mod Tests
