-- ===== src/Samples.antt =====
-- A small database, and what the concrete runs of the tests take from outside it.
use tig_swarm_demo.Prelude.{ℕ, pos, String, true, false, none, some, [], ◌∷◌, arith}
use tig_swarm_demo.Db.Rows.{
  maximise, frontier, AgentState, Trajectory, active, inactive, TrajectoryBest, Inactive,
  inspiration, Db,
}
use tig_swarm_demo.Db.Valid.{IsValid}
use tig_swarm_demo.Reset.Trip.{Call}
use tig_swarm_demo.Reset.Launching.{Source, Start, stub}
use tig_swarm_demo.Iteration.Request.{IterationCreate, Fresh, Env, mutation}

-- an agent that has run five times in vain
abbrev pub stalled_state : AgentState
stalled_state = record {
  agent_id = 7;
  challenge = 1;
  current_trajectory_id = some 3;
  current_program_id = some 4;
  runs_since_improvement = 5;
  improvements = 1;
  experiments_completed = 6;
  best_ever_score = some (pos 10);
  num_trajectories = 1;
  tacit_knowledge_count = 0;
  inspiration_count = 0;
  failed_attempts_count = 0;
  pending_hint = some inspiration;
  pending_inspiration_source = some 8;
  pending_inspiration_source_trajectory = some 2;
  total_input_tokens = 0;
  total_output_tokens = 0;
  last_active_at = 50;
  ever_benchmarked = true;
}

abbrev pub own_line : Trajectory
own_line = record {
  id = 3;
  challenge = 1;
  started_at = 10;
  status = active;
  current_score = some (pos 10);
  num_edits = 6;
  num_improvements = 1;
  momentum = 243;
  num_agents = 1;
  edits_since_improvement = 5;
  num_deactivations = 0;
  deactivated_at = none;
}

abbrev pub parked_line : Trajectory
parked_line = record {
  id = 2;
  challenge = 1;
  started_at = 5;
  status = inactive;
  current_score = some (pos 4);
  num_edits = 9;
  num_improvements = 2;
  momentum = 0;
  num_agents = 1;
  edits_since_improvement = 7;
  num_deactivations = 1;
  deactivated_at = some 20;
}

abbrev pub own_best : TrajectoryBest
own_best = record {
  agent_id = 7;
  challenge = 1;
  experiment_id = some 30;
  algorithm_code = "own";
  kernel_code = none;
  algorithm_files = none;
  score = pos 10;
  feasible = true;
  challenge_metrics = none;
  solution_data = none;
  track_scores = none;
  updated_at = 40;
  trajectory_id = some 3;
  hyperparameters = none;
}

abbrev pub pooled : Inactive
pooled = record {
  id = 0;
  agent_id = 8;
  challenge = 1;
  algorithm_code = "pooled";
  kernel_code = none;
  algorithm_files = none;
  score = some (pos 4);
  deposited_at = 20;
  trajectory_id = some 2;
  program_id = some 5;
  experiment_id = some 31;
}

abbrev pub sample_db : Db
sample_db = record {
  agents =
      record { id = 7; name = "ada"; tier = frontier; status = "idle"; last_heartbeat = 40 } ∷ [];
  agent_states = stalled_state ∷ [];
  trajectories = own_line ∷ parked_line ∷ [];
  trajectory_bests = own_best ∷ [];
  inactive_algorithms = pooled ∷ [];
  next_inactive = 1;
  experiments = [];
  hypotheses = [];
  best_history = [];
  seed_pool = [];
  next_seed = 1;
  mainnet_baselines = [];
  score_epochs = [];
}

-- The sample satisfies the invariant.
pub sample-IsValid : IsValid sample_db
sample-IsValid = record {
  states = ground arith;
  trajectories = ground arith;
  bests = ground arith;
  pool = ground arith;
}

abbrev pub sample_call : Call
sample_call = record {
  agent_id = 7;
  challenge = 1;
  direction = maximise;
  stagnation_limit = 5;
  negative_trajectory_limit = 12;
  timestamp = 100;
  force_reason = none;
  draw = 0;
  new_program_id = 60;
}

abbrev pub one_fingerprint : String → ℕ
one_fingerprint code = 0

abbrev pub stub_source : Db → Call → Source × Start
stub_source db call =
    (record { algorithm_code = "stub"; kernel_code = none; algorithm_files = none }, stub)

abbrev pub sample_env : Env
sample_env = record {
  is_known_challenge = λ _. true;
  direction_of = λ _. maximise;
  config_fingerprint = λ _. none;
  fingerprint = one_fingerprint;
  is_blank = λ _. false;
  loc = λ _. 10;
  similarity = λ _ _. pos 0;
  limits = record { pool_size = 2; similarity_threshold = pos 1; max_loc = 100 };
}

abbrev pub sample_request : IterationCreate
sample_request = record {
  agent_id = 7;
  title = "t";
  description = "d";
  strategy_tag = "greedy";
  algorithm_code = "better";
  kernel_code = none;
  algorithm_files = none;
  score = pos 12;
  feasible = true;
  notes = "";
  solution_data = none;
  track_scores = none;
  challenge = some 1;
  challenge_metrics = none;
  input_tokens = some 3;
  output_tokens = some 4;
  role = none;
  hyperparameters = none;
  default_score = none;
  iteration_type = mutation;
}

abbrev pub sample_fresh : Fresh
sample_fresh = record {
  exp_id = 70;
  hyp_id = 71;
  program_id = 72;
  trajectory_id = 73;
  improved_program_id = 74;
  timestamp = 200;
}
