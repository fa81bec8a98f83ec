-- ===== src/Reset/Frame.antt =====
-- What each stage of a reset leaves alone, and the rows that it writes for its agent.
use tig_swarm_demo.Prelude.{
  ℕ, ◌≡◌, refl, ap, ◌∙◌, String, Option, none, some, List, [], ◌∷◌, arith, update,
}
use tig_swarm_demo.Db.Rows.{AgentState, TrajectoryBest, Inactive, Db}
use tig_swarm_demo.Db.States.{update_agent_challenge_state, is_state}
use tig_swarm_demo.Db.Trajectories.{
  deactivate_trajectory, reactivate_trajectory, increment_trajectory_agents,
}
use tig_swarm_demo.Db.Bests.{upsert_trajectory_best, clear_trajectory_best}
use tig_swarm_demo.Db.Pool.{deposit_inactive, remove_inactive}
use tig_swarm_demo.Reset.Trip.{ResetReason, Call}
use tig_swarm_demo.Reset.Launching.{
  Source, Start, Launch, deactivate_current, join_trajectory, launch, adopt, pick_inactive,
}
use tig_swarm_demo.Reset.Machine.{deposit_best, seed_best, restart, settle}

pub agent_states-deactivate :
    (db : Db) (id : Option ℕ) (timestamp : ℕ)
    → (deactivate_current db id timestamp).agent_states ≡ db.agent_states
unfolding deactivate_trajectory
agent_states-deactivate db none timestamp = refl
agent_states-deactivate db (some id) timestamp = refl

agent_states-join :
    (db : Db) (id : Option ℕ) → (join_trajectory db id).agent_states ≡ db.agent_states
unfolding reactivate_trajectory increment_trajectory_agents
agent_states-join db none = refl
agent_states-join db (some id) = refl

module _ (call : Call) where
  agent_states-deposit :
      (db : Db) (acs : Option AgentState) (best : TrajectoryBest)
      → (deposit_best call db acs best).agent_states ≡ db.agent_states
  unfolding deposit_best deposit_inactive
  agent_states-deposit db acs best = ground arith

  agent_states-seed : (l : Launch) (db : Db) → (seed_best call l db).agent_states ≡ db.agent_states
  unfolding seed_best upsert_trajectory_best clear_trajectory_best
  agent_states-seed l db = ground arith

  pub agent_states-settle :
      (acs : Option AgentState) (best : TrajectoryBest) (l : Launch) (db : Db)
      → (settle call acs best (l, db)).1.agent_states
        ≡ update (is_state call.agent_id call.challenge) (restart l) db.agent_states
  unfolding settle update_agent_challenge_state
  agent_states-settle acs best l db =
      ap (update (is_state call.agent_id call.challenge) (restart l))
        (agent_states-seed l (deposit_best call db acs best) ∙ agent_states-deposit db acs best)

module _ (fingerprint : String → ℕ) (seed_fn : Db → Call → Source × Start) (call : Call) where
  pub agent_states-launch :
      (db : Db) (reason : ResetReason) (pool : List Inactive)
      → (launch fingerprint seed_fn call db reason pool).1.agent_states ≡ db.agent_states
  unfolding launch adopt remove_inactive
  agent_states-launch db reason [] = refl
  agent_states-launch db reason (e ∷ pool) =
      let picked = pick_inactive fingerprint seed_fn db call.challenge call.draw e pool in
      ground (arith, agent_states-join (remove_inactive db picked.id) picked.trajectory_id)
