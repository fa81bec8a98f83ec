-- ===== src/Iteration/Outcome.antt =====
-- _apply_iteration_outcome: the momentum of the trajectory, then the improvement, refactor or failed
-- branch (server/server.py).
use tig_swarm_demo.Prelude.{
  ℕ, ℤ, String, Bool, true, false, Option, none, some, if◌then◌else◌, or_else,
}
use tig_swarm_demo.Db.Rows.{Direction, TrajectoryBest, Db}
use tig_swarm_demo.Db.States.{
  update_agent_challenge_state, increment_agent_challenge_counters, Increment, no_increment,
}
use tig_swarm_demo.Db.Trajectories.{update_trajectory_after_edit}
use tig_swarm_demo.Db.Bests.{upsert_trajectory_best, files_json}
use tig_swarm_demo.Iteration.Request.{IterationCreate, Fresh}
use tig_swarm_demo.Iteration.Verdict.{Verdict}

-- the arguments that the three calls of increment_agent_challenge_counters share
unfoldable pub run_increment : IterationCreate → Direction → Increment
run_increment req direction = record no_increment {
  runs = 1;
  best_ever_score = if req.feasible then some req.score else none;
  direction = direction;
  input_tokens = or_else req.input_tokens 0;
  output_tokens = or_else req.output_tokens 0;
}

-- the row that the two calls of upsert_trajectory_best write
unfoldable pub best_row : IterationCreate → Fresh → ℕ → ℕ → ℤ → Option String → TrajectoryBest
best_row req fresh challenge trajectory_id score hyperparameters = record {
  agent_id = req.agent_id;
  challenge = challenge;
  experiment_id = some fresh.exp_id;
  algorithm_code = req.algorithm_code;
  kernel_code = req.kernel_code;
  algorithm_files = files_json req.algorithm_files;
  score = score;
  feasible = req.feasible;
  challenge_metrics = req.challenge_metrics;
  solution_data = req.solution_data;
  track_scores = req.track_scores;
  updated_at = fresh.timestamp;
  trajectory_id = some trajectory_id;
  hyperparameters = hyperparameters;
}

-- the client's configuration, or else the parent's
abbrev pub keep_hyperparameters : Option String → TrajectoryBest → Option String
keep_hyperparameters none parent = parent.hyperparameters
keep_hyperparameters (some h) parent = some h

-- `if verdict.beats_trajectory_best`
unfoldable pub apply_improvement : Db → IterationCreate → Fresh → ℕ → Direction → ℕ → Db
unfolding run_increment best_row
apply_improvement db req fresh challenge direction trajectory_id =
    upsert_trajectory_best
      (update_agent_challenge_state
        (increment_agent_challenge_counters db req.agent_id challenge
          (record (run_increment req direction) {
            improvements = 1;
            runs_since_improvement_reset = true;
          }))
        req.agent_id challenge
        (λ r. record r { current_program_id = some fresh.improved_program_id }))
      (best_row req fresh challenge trajectory_id req.score req.hyperparameters)

-- `elif verdict.is_refactor`: the leaner code, at the score of its parent
unfoldable pub apply_refactor :
    Db → IterationCreate → Fresh → ℕ → Direction → ℕ → TrajectoryBest → Db
unfolding run_increment best_row
apply_refactor db req fresh challenge direction trajectory_id parent =
    upsert_trajectory_best
      (increment_agent_challenge_counters db req.agent_id challenge (run_increment req direction))
      (best_row req fresh challenge trajectory_id parent.score
        (keep_hyperparameters req.hyperparameters parent))

-- `else`
unfoldable pub apply_failure : Db → IterationCreate → ℕ → Direction → Db
unfolding run_increment
apply_failure db req challenge direction =
    increment_agent_challenge_counters db req.agent_id challenge
      (record (run_increment req direction) { runs_since_improvement_inc = 1 })

-- A refactor has a parent (judge): without one the branch is the failed one.
unfoldable pub apply_branch :
    Db → IterationCreate → Fresh → ℕ → Direction → Bool → Bool → Option TrajectoryBest → ℕ → Db
unfolding apply_improvement apply_refactor apply_failure
apply_branch db req fresh challenge direction true is_refactor parent trajectory_id =
    apply_improvement db req fresh challenge direction trajectory_id
apply_branch db req fresh challenge direction false true (some parent) trajectory_id =
    apply_refactor db req fresh challenge direction trajectory_id parent
apply_branch db req fresh challenge direction false _ _ trajectory_id =
    apply_failure db req challenge direction

-- _apply_iteration_outcome
unfoldable pub apply_iteration_outcome :
    Db → IterationCreate → Fresh → ℕ → Direction → Verdict → ℕ → Db
unfolding apply_branch
apply_iteration_outcome db req fresh challenge direction verdict trajectory_id =
    apply_branch
      (update_trajectory_after_edit db trajectory_id verdict.beats_trajectory_best
        (if verdict.beats_trajectory_best then some req.score else none))
      req fresh challenge direction verdict.beats_trajectory_best verdict.is_refactor
      verdict.prev_trajectory_best trajectory_id
