-- ===== src/StateView/Peers.antt =====
-- list_trajectory_bests and has_failure_material (server/db.py): what an agent's peers and its own past
-- have to offer.
use tig_swarm_demo.Prelude.{
  ℕ, ℤ, String, Bool, not, ◌&&◌, ◌||◌, Option, List, [], ◌∷◌, ◌==◌, ltb, if◌then◌else◌, is_some,
  select,
}
use tig_swarm_demo.Db.Rows.{Direction, AgentState, TrajectoryBest, Db}
use tig_swarm_demo.Db.States.{is_state, is_better}

-- the columns that the query selects
pub record Peer : Type 0 where
  pub agent_id : ℕ
  pub challenge : ℕ
  pub experiment_id : Option ℕ
  pub algorithm_code : String
  pub kernel_code : Option String
  pub score : ℤ
  pub feasible : Bool
  pub challenge_metrics : Option String
  pub solution_data : Option String
  pub updated_at : ℕ

unfoldable pub peer_of : TrajectoryBest → Peer
peer_of b = record {
  agent_id = b.agent_id;
  challenge = b.challenge;
  experiment_id = b.experiment_id;
  algorithm_code = b.algorithm_code;
  kernel_code = b.kernel_code;
  score = b.score;
  feasible = b.feasible;
  challenge_metrics = b.challenge_metrics;
  solution_data = b.solution_data;
  updated_at = b.updated_at;
}

-- the JOIN with agent_challenge_state, whose key is (agent_id, challenge)
unfoldable pub is_active_on : List AgentState → ℕ → TrajectoryBest → Bool
is_active_on states cutoff_ts b =
    is_some (
      select (λ r. is_state b.agent_id b.challenge r && not (ltb r.last_active_at cutoff_ts))
        states)

-- the WHERE clause, for one excluded agent and active_only
unfoldable pub is_peer : List AgentState → ℕ → ℕ → ℕ → TrajectoryBest → Bool
unfolding is_active_on
is_peer states challenge agent_id cutoff_ts b =
    b.feasible
    && b.challenge == challenge
    && not (b.agent_id == agent_id)
    && is_active_on states cutoff_ts b

-- ORDER BY score in the challenge's direction, the earlier row first among equals
unfoldable pub insert_by_score : Direction → Peer → List Peer → List Peer
unfolding is_better
insert_by_score direction p [] = p ∷ []
insert_by_score direction p (q ∷ peers) =
    let rest = insert_by_score direction p peers in
    if is_better direction q.score p.score then q ∷ rest else p ∷ (q ∷ peers)

unfoldable pub list_peers :
    Direction → List AgentState → ℕ → ℕ → ℕ → List TrajectoryBest → List Peer
unfolding is_peer peer_of insert_by_score
list_peers direction states challenge agent_id cutoff_ts [] = []
list_peers direction states challenge agent_id cutoff_ts (b ∷ bests) =
    let rest = list_peers direction states challenge agent_id cutoff_ts bests in
    if is_peer states challenge agent_id cutoff_ts b
    then insert_by_score direction (peer_of b) rest
    else rest

-- list_trajectory_bests(exclude_agent_ids=[agent_id], active_only=True)
unfoldable pub list_trajectory_bests : Db → ℕ → Direction → ℕ → ℕ → List Peer
unfolding list_peers
list_trajectory_bests db challenge direction agent_id cutoff_ts =
    list_peers direction db.agent_states challenge agent_id cutoff_ts db.trajectory_bests

-- has_failure_material; `has_records` is the half that asks the table failure_records
unfoldable pub has_failure_material : Bool → Db → ℕ → ℕ → Bool
has_failure_material has_records db agent_id challenge =
    has_records
    || is_some (
        select
          (λ e. e.agent_id == agent_id && e.challenge == challenge && not e.beats_trajectory_best)
          db.experiments)
