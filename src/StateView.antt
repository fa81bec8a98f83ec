-- ===== src/StateView.antt =====
-- The authenticated GET /api/state of an agent: _agent_state and seed_for_agent (server/server.py), and
-- the statements of server/db.py that only they use.
pub mod Heartbeat
pub mod Peers
pub mod Seeding
pub mod Tripping
pub mod Hints
pub mod Poll
pub mod Alive
pub mod Validity
pub mod PreCheck
pub mod Delivery
pub mod Starts
mod Tests
