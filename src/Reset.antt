-- ===== src/Reset.antt =====
-- server/trajectory_reset.py: the reset of a stagnating agent.
pub mod Trip
pub mod Launching
pub mod Machine
pub mod Frame
pub mod Recheck
pub mod Once
pub mod Validity
pub mod Adoption
pub mod Banking
pub mod Consuming
pub mod Twice
pub mod Tests
