-- ===== src/Shards.antt =====
-- The sharding of a benchmark in scripts/c3_compute.py: which instances run on which machine.
pub mod Plan
pub mod Sizes
pub mod Windows
pub mod Filled
pub mod Loops
pub mod Cover
pub mod Tests
