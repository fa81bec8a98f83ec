-- ===== src/SlotPool.antt =====
-- scripts/c3_pool.py: the slots of remote jobs that the agents of a fleet share, first come first served.
mod Lists
pub mod Slots
pub mod Steps
pub mod Cap
pub mod Grants
pub mod Order
pub mod Tests
