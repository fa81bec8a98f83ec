-- ===== src/Iteration.antt =====
-- server/server.py, POST /api/iterations: one published iteration.
pub mod Request
pub mod Verdict
pub mod Recording
pub mod Outcome
pub mod Harvest
pub mod Capture
pub mod Publish
pub mod Frame
pub mod Branches
pub mod Best
pub mod Validity
pub mod Counters
pub mod Published
pub mod Counted
pub mod Baselines
pub mod Measuring
pub mod Claiming
pub mod SeedCounts
pub mod PoolSize
pub mod Tests
pub mod MeasuringTests
