-- ===== src/Reset/Machine.antt =====
-- server/trajectory_reset.py, the whole reset as one transaction on the database. A rollback is `none`.
use tig_swarm_demo.Prelude.{ℕ, ℤ, String, true, Option, none, some, if◌then◌else◌}
use tig_swarm_demo.Db.Rows.{AgentState, TrajectoryBest, Db}
use tig_swarm_demo.Db.States.{get_agent_challenge_state, update_agent_challenge_state}
use tig_swarm_demo.Db.Bests.{
  get_trajectory_best, upsert_trajectory_best, clear_trajectory_best, files_json,
}
use tig_swarm_demo.Db.Pool.{deposit_inactive, get_inactive_with_deactivations}
use tig_swarm_demo.Reset.Trip.{ResetReason, Call, trajectory_of, program_of, reset_reason}
use tig_swarm_demo.Reset.Launching.{Start, Source, ResetInfo, Launch, deactivate_current, launch}

pub record ResetOutcome : Type 0 where
  pub reset_info : ResetInfo
  pub seed_start : Option Start
  pub source : Source
  pub traj_best : Option TrajectoryBest
  pub current_trajectory_best : Option ℤ
  pub traj_best_experiment_id : Option ℕ
  pub timestamp : ℕ

-- the agent's own best goes to the pool, if it is feasible
unfoldable pub deposit_best : Call → Db → Option AgentState → TrajectoryBest → Db
deposit_best call db acs best =
    if best.feasible
    then deposit_inactive db (record {
      agent_id = call.agent_id;
      challenge = call.challenge;
      algorithm_code = best.algorithm_code;
      score = some best.score;
      deposited_at = call.timestamp;
      trajectory_id = trajectory_of acs;
      program_id = program_of acs;
      kernel_code = best.kernel_code;
      experiment_id = best.experiment_id;
      algorithm_files = best.algorithm_files;
    })
    else db

-- the row that an adopted score is written to
unfoldable pub floor_row : Call → Launch → ℤ → TrajectoryBest
floor_row call l score = record {
  agent_id = call.agent_id;
  challenge = call.challenge;
  experiment_id = l.adopted_experiment_id;
  algorithm_code = l.source.algorithm_code;
  kernel_code = l.source.kernel_code;
  algorithm_files = files_json l.source.algorithm_files;
  score = score;
  feasible = true;
  challenge_metrics = none;
  solution_data = none;
  track_scores = none;
  updated_at = call.timestamp;
  trajectory_id = l.trajectory_id;
  hyperparameters = none;
}

-- seeds the personal best with the adopted floor, or clears it
unfoldable pub seed_best : Call → Launch → Db → Db
unfolding floor_row
seed_best call l db = elim l.adopted_score [
  | some score ↦ upsert_trajectory_best db (floor_row call l score)
  | none ↦ clear_trajectory_best db call.agent_id call.challenge
]

-- the columns that the reset writes to the agent's state
unfoldable pub restart : Launch → AgentState → AgentState
restart l r = record r {
  runs_since_improvement = 0;
  current_trajectory_id = l.trajectory_id;
  current_program_id = some l.program_id;
}

unfoldable pub outcome : Call → Launch → Db → ResetOutcome
outcome call l db = record {
  reset_info = l.reset_info;
  seed_start = l.seed_start;
  source = l.source;
  traj_best = get_trajectory_best db call.agent_id call.challenge;
  current_trajectory_best = l.adopted_score;
  traj_best_experiment_id = elim l.adopted_score [ none ↦ none | some _ ↦ l.adopted_experiment_id ];
  timestamp = call.timestamp;
}

-- from the launch to the commit
unfoldable pub settle : Call → Option AgentState → TrajectoryBest → Launch × Db → ResetOutcome × Db
unfolding deposit_best seed_best restart outcome
settle call acs best (l, db) =
    let seeded = seed_best call l (deposit_best call db acs best) in
    (
      outcome call l seeded,
      update_agent_challenge_state seeded call.agent_id call.challenge (restart l),
    )

-- db.code_fingerprint is a SHA-256 digest; the server only compares its values.
module _ (fingerprint : String → ℕ) (seed_fn : Db → Call → Source × Start) where
  -- the reset itself, once the re-check has found a reason
  unfoldable pub run_reset :
      Call → Db → Option AgentState → TrajectoryBest → ResetReason → ResetOutcome × Db
  unfolding settle launch
  run_reset call db acs best reason =
      let parked = deactivate_current db (trajectory_of acs) call.timestamp in
      settle call acs best (
        launch fingerprint seed_fn call parked reason
          (get_inactive_with_deactivations parked call.challenge))

  abbrev pub finish_reset :
      Call
      → Db
      → Option AgentState
      → Option TrajectoryBest
      → Option ResetReason
      → Option (ResetOutcome × Db)
  finish_reset call db acs (some best) (some reason) = some (run_reset call db acs best reason)
  finish_reset call db acs _ _ = none

  unfoldable pub maybe_reset_trajectory : Call → Db → Option (ResetOutcome × Db)
  unfolding run_reset reset_reason
  maybe_reset_trajectory call db =
      let acs = get_agent_challenge_state db call.agent_id call.challenge in
      let best = get_trajectory_best db call.agent_id call.challenge in
      finish_reset call db acs best (reset_reason call db acs best)
