-- ===== src/Iteration/Recording.antt =====
-- The rows that every publish adds: the program and trajectory it belongs to, the hypothesis and the
-- experiment, and the pending hint that it consumes (server/server.py).
use tig_swarm_demo.Prelude.{ℕ, ℤ, Option, none, some, [], ◌∷◌, ◌++◌, or_else}
use tig_swarm_demo.Db.Rows.{AgentState, Hint, Experiment, Db}
use tig_swarm_demo.Db.States.{
  update_agent_challenge_state, increment_agent_challenge_counters, no_increment,
}
use tig_swarm_demo.Db.Trajectories.{create_trajectory}
use tig_swarm_demo.Db.Bests.{files_json}
use tig_swarm_demo.Iteration.Request.{IterationCreate, Fresh}
use tig_swarm_demo.Iteration.Verdict.{Verdict}

-- _ensure_current_program_id
unfoldable pub ensure_current_program_id : Db → ℕ → ℕ → Option ℕ → ℕ → ℕ × Db
ensure_current_program_id db agent_id challenge (some id) new_id = (id, db)
ensure_current_program_id db agent_id challenge none new_id = (
  new_id,
  update_agent_challenge_state db agent_id challenge
      (λ r. record r { current_program_id = some new_id }),
)

-- _ensure_trajectory
unfoldable pub ensure_trajectory : Db → ℕ → ℕ → Option ℕ → ℕ → ℕ → Option ℤ → ℕ × Db
ensure_trajectory db agent_id challenge (some id) new_id timestamp initial_score = (id, db)
ensure_trajectory db agent_id challenge none new_id timestamp initial_score = (
  new_id,
  increment_agent_challenge_counters
      (update_agent_challenge_state (create_trajectory db new_id challenge timestamp initial_score)
        agent_id challenge (λ r. record r { current_trajectory_id = some new_id }))
      agent_id challenge (record no_increment { num_trajectories_inc = 1 }),
)

-- the INSERT INTO hypotheses of create_iteration
unfoldable pub insert_hypothesis : Db → IterationCreate → Fresh → ℕ → Verdict → ℕ → Db
insert_hypothesis db req fresh challenge verdict program_id = record db {
  hypotheses =
      db.hypotheses
      ++ record {
        id = fresh.hyp_id;
        agent_id = req.agent_id;
        challenge = challenge;
        title = req.title;
        description = req.description;
        strategy_tag = req.strategy_tag;
        status = verdict.hyp_status;
        target_best_experiment_id = verdict.target_best_experiment_id;
        program_id = program_id;
        role = req.role;
        created_at = fresh.timestamp;
      }
        ∷ [];
}

abbrev pub hint_of : Option AgentState → Option Hint
hint_of none = none
hint_of (some acs) = acs.pending_hint

abbrev pub source_of : Option AgentState → Option ℕ
source_of none = none
source_of (some acs) = acs.pending_inspiration_source

abbrev pub source_trajectory_of : Option AgentState → Option ℕ
source_trajectory_of none = none
source_trajectory_of (some acs) = acs.pending_inspiration_source_trajectory

-- the row of _record_experiment
unfoldable pub experiment_row :
    IterationCreate → Fresh → ℕ → ℕ → Option AgentState → Verdict → Experiment
experiment_row req fresh challenge trajectory_id acs verdict = record {
  id = fresh.exp_id;
  agent_id = req.agent_id;
  challenge = challenge;
  hypothesis_id = fresh.hyp_id;
  algorithm_code = req.algorithm_code;
  kernel_code = req.kernel_code;
  algorithm_files = files_json req.algorithm_files;
  hyperparameters = req.hyperparameters;
  score = req.score;
  default_score = or_else req.default_score req.score;
  feasible = req.feasible;
  challenge_metrics = req.challenge_metrics;
  notes = req.notes;
  solution_data = req.solution_data;
  track_scores = req.track_scores;
  beats_trajectory_best = verdict.beats_trajectory_best;
  trajectory_id = trajectory_id;
  received_hint = hint_of acs;
  inspiration_source_id = source_of acs;
  inspiration_source_trajectory_id = source_trajectory_of acs;
  input_tokens = or_else req.input_tokens 0;
  output_tokens = or_else req.output_tokens 0;
  created_at = fresh.timestamp;
}

unfoldable pub clear_hint : AgentState → AgentState
clear_hint r = record r {
  pending_hint = none;
  pending_inspiration_source = none;
  pending_inspiration_source_trajectory = none;
}

-- `if received_hint is not None`
unfoldable pub consume_hint : Db → ℕ → ℕ → Option Hint → Db
unfolding clear_hint
consume_hint db agent_id challenge none = db
consume_hint db agent_id challenge (some hint) =
    update_agent_challenge_state db agent_id challenge clear_hint

-- _record_experiment
unfoldable pub record_experiment :
    Db → IterationCreate → Fresh → ℕ → ℕ → Option AgentState → Verdict → Db
unfolding experiment_row consume_hint
record_experiment db req fresh challenge trajectory_id acs verdict =
    consume_hint
      (record db {
        experiments =
            db.experiments ++ experiment_row req fresh challenge trajectory_id acs verdict ∷ [];
      })
      req.agent_id challenge (hint_of acs)
