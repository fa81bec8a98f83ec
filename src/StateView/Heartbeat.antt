-- ===== src/StateView/Heartbeat.antt =====
-- The two ways in which an agent shows that it is alive: the UPDATE at the top of _agent_state, and
-- the handler heartbeat, behind its token check (server/server.py).
use tig_swarm_demo.Prelude.{
  ℕ, String, Option, none, some, List, [], ◌∷◌, ◌==◌, leb, if◌then◌else◌, select_all, update,
}
use tig_swarm_demo.Db.Rows.{AgentState, Db}
use tig_swarm_demo.Db.States.{update_agent_challenge_state}

-- UPDATE agents SET last_heartbeat = ? WHERE id = ?
unfoldable pub touch_heartbeat : Db → ℕ → ℕ → Db
touch_heartbeat db agent_id ts = record db {
  agents = update (λ a. a.id == agent_id) (λ a. record a { last_heartbeat = ts }) db.agents;
}

-- ORDER BY last_active_at DESC LIMIT 1, the earlier row first among equals
unfoldable pub newest : List AgentState → Option AgentState
newest [] = none
newest (r ∷ rows) = elim (newest rows) [
  | none ↦ some r
  | some s ↦ if leb s.last_active_at r.last_active_at then some r else some s
]

-- the challenge of the agent's most recent poll
unfoldable pub current_state : Db → ℕ → Option AgentState
unfolding newest
current_state db agent_id = newest (select_all (λ r. r.agent_id == agent_id) db.agent_states)

-- the two statements of heartbeat
unfoldable pub heartbeat : Db → ℕ → String → ℕ → Db
unfolding current_state
heartbeat db agent_id status timestamp =
    let touched = record db {
      agents =
          update (λ a. a.id == agent_id)
            (λ a. record a { last_heartbeat = timestamp; status = status }) db.agents;
    } in
    elim (current_state touched agent_id) [
      | none ↦ touched
      | some r ↦
          update_agent_challenge_state touched agent_id r.challenge
            (λ s. record s { last_active_at = timestamp })
    ]
