-- ===== src/Db.antt =====
-- server/db.py: the tables of the coordination server, and the statements on each of them.
pub mod Rows
pub mod States
pub mod Trajectories
pub mod Bests
pub mod Pool
pub mod Baseline
pub mod Seeds
pub mod Valid
