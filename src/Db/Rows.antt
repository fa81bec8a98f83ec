-- ===== src/Db/Rows.antt =====
-- The rows of the tables in server/db.py (SCHEMA), and a whole database.
--
-- Identifiers (agents, challenges, trajectories, programs, experiments) are texts that the server
-- only compares, and so are timestamps, which sort as texts: both are numbers here. A score is a
-- finite double that the server only compares, with another score or with 0.0: it is the integer
-- that counts it in multiples of 2^-1074, which keeps equality, order and sign. The column of an
-- optional text is an `Option`, and a JSON column keeps the value that was encoded.
use tig_swarm_demo.Prelude.{ℕ, ℤ, String, Bool, Option, List}

-- `direction`: "max", or any other text
pub data Direction : Type 0 where
  maximise minimise : Direction

-- {relpath: content}
abbrev pub Files : Type 0
Files = List (String × String)

-- agent tiers of server/tiers.py
pub data Tier : Type 0 where
  standard frontier : Tier

-- agents, without the token and the columns that only registration writes
pub record Agent : Type 0 where
  pub id : ℕ
  pub name : String
  pub tier : Tier
  pub status : String
  pub last_heartbeat : ℕ

-- agent_challenge_state.pending_hint
pub data Hint : Type 0 where
  tacit_knowledge inspiration failed_attempts : Hint

-- agent_challenge_state, without the running cost, a sum of doubles that only reports show
pub record AgentState : Type 0 where
  pub agent_id : ℕ
  pub challenge : ℕ
  pub current_trajectory_id : Option ℕ
  pub current_program_id : Option ℕ
  pub runs_since_improvement : ℕ
  pub improvements : ℕ
  pub experiments_completed : ℕ
  pub best_ever_score : Option ℤ
  pub num_trajectories : ℕ
  pub tacit_knowledge_count : ℕ
  pub inspiration_count : ℕ
  pub failed_attempts_count : ℕ
  pub pending_hint : Option Hint
  pub pending_inspiration_source : Option ℕ
  pub pending_inspiration_source_trajectory : Option ℕ
  pub total_input_tokens : ℕ
  pub total_output_tokens : ℕ
  pub last_active_at : ℕ
  pub ever_benchmarked : Bool

pub data Status : Type 0 where
  active inactive : Status

-- trajectories. `momentum` starts at 0.0 and every edit multiplies it by 0.75 and may add 1: it is
-- the numerator of a fraction over 4 ^ num_edits.
pub record Trajectory : Type 0 where
  pub id : ℕ
  pub challenge : ℕ
  pub started_at : ℕ
  pub status : Status
  pub current_score : Option ℤ
  pub num_edits : ℕ
  pub num_improvements : ℕ
  pub momentum : ℕ
  pub num_agents : ℕ
  pub edits_since_improvement : ℕ
  pub num_deactivations : ℕ
  pub deactivated_at : Option ℕ

-- trajectory_bests
pub record TrajectoryBest : Type 0 where
  pub agent_id : ℕ
  pub challenge : ℕ
  pub experiment_id : Option ℕ
  pub algorithm_code : String
  pub kernel_code : Option String
  pub algorithm_files : Option Files
  pub score : ℤ
  pub feasible : Bool
  pub challenge_metrics : Option String
  pub solution_data : Option String
  pub track_scores : Option String
  pub updated_at : ℕ
  pub trajectory_id : Option ℕ
  pub hyperparameters : Option String

-- inactive_algorithms
pub record Inactive : Type 0 where
  pub id : ℕ
  pub agent_id : ℕ
  pub challenge : ℕ
  pub algorithm_code : String
  pub kernel_code : Option String
  pub algorithm_files : Option Files
  pub score : Option ℤ
  pub deposited_at : ℕ
  pub trajectory_id : Option ℕ
  pub program_id : Option ℕ
  pub experiment_id : Option ℕ

-- experiments, without the two percentages and the cost, doubles that only the dashboard reads
pub record Experiment : Type 0 where
  pub id : ℕ
  pub agent_id : ℕ
  pub challenge : ℕ
  pub hypothesis_id : ℕ
  pub algorithm_code : String
  pub kernel_code : Option String
  pub algorithm_files : Option Files
  pub hyperparameters : Option String
  pub score : ℤ
  pub default_score : ℤ
  pub feasible : Bool
  pub challenge_metrics : Option String
  pub notes : String
  pub solution_data : Option String
  pub track_scores : Option String
  pub beats_trajectory_best : Bool
  pub trajectory_id : ℕ
  pub received_hint : Option Hint
  pub inspiration_source_id : Option ℕ
  pub inspiration_source_trajectory_id : Option ℕ
  pub input_tokens : ℕ
  pub output_tokens : ℕ
  pub created_at : ℕ

-- hypotheses.status
pub data HypothesisStatus : Type 0 where
  refactored succeeded failed : HypothesisStatus

-- hypotheses, without the digest of the title
pub record Hypothesis : Type 0 where
  pub id : ℕ
  pub agent_id : ℕ
  pub challenge : ℕ
  pub title : String
  pub description : String
  pub strategy_tag : String
  pub status : HypothesisStatus
  pub target_best_experiment_id : Option ℕ
  pub program_id : ℕ
  pub role : Option String
  pub created_at : ℕ

-- best_history, without the copy of the agent's name
pub record BestHistory : Type 0 where
  pub experiment_id : ℕ
  pub agent_id : ℕ
  pub challenge : ℕ
  pub score : ℤ
  pub solution_data : Option String
  pub created_at : ℕ

-- seed_pool.source
pub data SeedSource : Type 0 where
  authored harvested : SeedSource

-- seed_pool
pub record Seed : Type 0 where
  pub id : ℕ
  pub challenge : ℕ
  pub strategy_tag : String
  pub source : SeedSource
  pub score : Option ℤ
  pub feasible : Bool
  pub algorithm_code : String
  pub kernel_code : Option String
  pub algorithm_files : Option Files
  pub origin_agent_id : Option ℕ
  pub created_at : ℕ

-- mainnet_baselines.status
pub data BaselineStatus : Type 0 where
  pending requested measuring ready unavailable : BaselineStatus

-- mainnet_baselines. `measured_by` keeps the agent of "agent:<id>".
pub record Baseline : Type 0 where
  pub challenge : ℕ
  pub algo_name : String
  pub score : Option ℤ
  pub feasible : Bool
  pub status : BaselineStatus
  pub code_fingerprint : Option ℕ
  pub config_fingerprint : Option ℕ
  pub measured_by : Option ℕ
  pub benchmarked_at : Option ℕ
  pub created_at : ℕ

-- One swarm's database. `score_epochs` are the `config` rows of `score_epoch_key`; `next_inactive`
-- and `next_seed` are the AUTOINCREMENT counters.
pub record Db : Type 0 where
  pub agents : List Agent
  pub agent_states : List AgentState
  pub trajectories : List Trajectory
  pub trajectory_bests : List TrajectoryBest
  pub inactive_algorithms : List Inactive
  pub next_inactive : ℕ
  pub experiments : List Experiment
  pub hypotheses : List Hypothesis
  pub best_history : List BestHistory
  pub seed_pool : List Seed
  pub next_seed : ℕ
  pub mainnet_baselines : List Baseline
  pub score_epochs : List (ℕ × ℕ)
