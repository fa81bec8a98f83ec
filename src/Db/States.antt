-- ===== src/Db/States.antt =====
-- agent_challenge_state: one row for each agent and challenge (server/db.py).
use tig_swarm_demo.Prelude.{
  ℕ, ◌+◌, Bool, false, ◌&&◌, Option, none, some, ltb_ℤ, ℤ, ◌==◌, if◌then◌else◌, select, update,
  upsert,
}
use tig_swarm_demo.Db.Rows.{Direction, maximise, minimise, AgentState, Db}

-- is_better
unfoldable pub is_better : Direction → ℤ → ℤ → Bool
is_better maximise candidate prior = ltb_ℤ prior candidate
is_better minimise candidate prior = ltb_ℤ candidate prior

-- WHERE agent_id = ? AND challenge = ?
abbrev pub is_state : ℕ → ℕ → AgentState → Bool
is_state agent_id challenge r = r.agent_id == agent_id && r.challenge == challenge

-- get_agent_challenge_state
unfoldable pub get_agent_challenge_state : Db → ℕ → ℕ → Option AgentState
get_agent_challenge_state db agent_id challenge =
    select (is_state agent_id challenge) db.agent_states

-- the row that ensure_agent_challenge_state inserts, with the defaults of the schema
unfoldable pub new_state : ℕ → ℕ → ℕ → AgentState
new_state agent_id challenge last_active_at = record {
  agent_id = agent_id;
  challenge = challenge;
  current_trajectory_id = none;
  current_program_id = none;
  runs_since_improvement = 0;
  improvements = 0;
  experiments_completed = 0;
  best_ever_score = none;
  num_trajectories = 0;
  tacit_knowledge_count = 0;
  inspiration_count = 0;
  failed_attempts_count = 0;
  pending_hint = none;
  pending_inspiration_source = none;
  pending_inspiration_source_trajectory = none;
  total_input_tokens = 0;
  total_output_tokens = 0;
  last_active_at = last_active_at;
  ever_benchmarked = false;
}

-- ensure_agent_challenge_state
unfoldable pub ensure_agent_challenge_state : Db → ℕ → ℕ → ℕ → Db
ensure_agent_challenge_state db agent_id challenge last_active_at = record db {
  agent_states =
      upsert (is_state agent_id challenge) (new_state agent_id challenge last_active_at)
        (λ r. record r { last_active_at = last_active_at }) db.agent_states;
}

-- update_agent_challenge_state: `set_fields` writes the columns that the caller names
unfoldable pub update_agent_challenge_state : Db → ℕ → ℕ → (AgentState → AgentState) → Db
update_agent_challenge_state db agent_id challenge set_fields = record db {
  agent_states = update (is_state agent_id challenge) set_fields db.agent_states;
}

-- the CASE expression of increment_agent_challenge_counters
unfoldable pub raise_best_ever : Direction → Option ℤ → Option ℤ → Option ℤ
unfolding is_better
raise_best_ever direction none best = best
raise_best_ever direction (some score) none = some score
raise_best_ever direction (some score) (some best) =
    if is_better direction score best then some score else some best

-- the keyword arguments of increment_agent_challenge_counters that some caller passes
pub record Increment : Type 0 where
  pub runs : ℕ
  pub improvements : ℕ
  pub runs_since_improvement_reset : Bool
  pub runs_since_improvement_inc : ℕ
  pub num_trajectories_inc : ℕ
  pub tacit_knowledge_inc : ℕ
  pub inspiration_inc : ℕ
  pub failed_attempts_inc : ℕ
  pub best_ever_score : Option ℤ
  pub direction : Direction
  pub input_tokens : ℕ
  pub output_tokens : ℕ

-- the defaults of those arguments
abbrev pub no_increment : Increment
no_increment = record {
  runs = 0;
  improvements = 0;
  runs_since_improvement_reset = false;
  runs_since_improvement_inc = 0;
  num_trajectories_inc = 0;
  tacit_knowledge_inc = 0;
  inspiration_inc = 0;
  failed_attempts_inc = 0;
  best_ever_score = none;
  direction = maximise;
  input_tokens = 0;
  output_tokens = 0;
}

-- the SET clause of increment_agent_challenge_counters
unfoldable pub add_counters : Increment → AgentState → AgentState
unfolding raise_best_ever
add_counters i r = record r {
  experiments_completed = r.experiments_completed + i.runs;
  improvements = r.improvements + i.improvements;
  runs_since_improvement =
      if i.runs_since_improvement_reset
      then 0
      else r.runs_since_improvement + i.runs_since_improvement_inc;
  num_trajectories = r.num_trajectories + i.num_trajectories_inc;
  tacit_knowledge_count = r.tacit_knowledge_count + i.tacit_knowledge_inc;
  inspiration_count = r.inspiration_count + i.inspiration_inc;
  failed_attempts_count = r.failed_attempts_count + i.failed_attempts_inc;
  total_input_tokens = r.total_input_tokens + i.input_tokens;
  total_output_tokens = r.total_output_tokens + i.output_tokens;
  best_ever_score = raise_best_ever i.direction i.best_ever_score r.best_ever_score;
}

-- increment_agent_challenge_counters
unfoldable pub increment_agent_challenge_counters : Db → ℕ → ℕ → Increment → Db
increment_agent_challenge_counters db agent_id challenge i = record db {
  agent_states = update (is_state agent_id challenge) (add_counters i) db.agent_states;
}
