-- ===== src/Iteration/Counters.antt =====
-- The agent's row after a publish: its counters, its personal best and its pending hint.
use tig_swarm_demo.Prelude.{
  ℕ, ◌≡◌, refl, ap, ◌∙◌, ℤ, Option, none, some, arith, select-update, map_option,
}
use tig_swarm_demo.Db.Rows.{AgentState, Hint, Db}
use tig_swarm_demo.Db.States.{
  get_agent_challenge_state, update_agent_challenge_state, increment_agent_challenge_counters,
  Increment, add_counters, is_state, no_increment,
}
use tig_swarm_demo.Db.Trajectories.{create_trajectory}
use tig_swarm_demo.Iteration.Recording.{
  ensure_current_program_id, ensure_trajectory, consume_hint, clear_hint,
}

-- The counters and the personal best are the same.
pub record SameRun (a b : AgentState) : Type 0 where
  pub completed : b.experiments_completed ≡ a.experiments_completed
  pub improved : b.improvements ≡ a.improvements
  pub stalled : b.runs_since_improvement ≡ a.runs_since_improvement
  pub best : b.best_ever_score ≡ a.best_ever_score

-- A row of the agent that an operation leaves, with what it kept of the row before.
pub record Row (db : Db) (agent_id challenge : ℕ) (P : AgentState → Type 0) : Type 0 where
  pub row : AgentState
  pub found : get_agent_challenge_state db agent_id challenge ≡ some row
  pub holds : P row

module _ (agent_id challenge : ℕ) where
  -- An update of the row that keeps its key.
  pub Row-update :
      (P : AgentState → Type 0) (db : Db) (f : AgentState → AgentState) (row : AgentState)
      → ((r : AgentState) → is_state agent_id challenge (f r) ≡ is_state agent_id challenge r)
      → get_agent_challenge_state db agent_id challenge ≡ some row
      → P (f row)
      → Row (update_agent_challenge_state db agent_id challenge f) agent_id challenge P
  unfolding get_agent_challenge_state update_agent_challenge_state
  Row-update P db f row keep e p = record {
    row = f row;
    found =
        select-update (is_state agent_id challenge) f db.agent_states keep ∙ ap (map_option f) e;
    holds = p;
  }

  pub Row-increment :
      (P : AgentState → Type 0) (db : Db) (i : Increment) (row : AgentState)
      → get_agent_challenge_state db agent_id challenge ≡ some row
      → P (add_counters i row)
      → Row (increment_agent_challenge_counters db agent_id challenge i) agent_id challenge P
  unfolding get_agent_challenge_state increment_agent_challenge_counters add_counters
  Row-increment P db i row e p = record {
    row = add_counters i row;
    found =
        select-update (is_state agent_id challenge) (add_counters i) db.agent_states (λ r. refl)
        ∙ ap (map_option (add_counters i)) e;
    holds = p;
  }

  pub Row-program :
      (db : Db) (id : Option ℕ) (new_id : ℕ) (row : AgentState)
      → get_agent_challenge_state db agent_id challenge ≡ some row
      → Row
          (ensure_current_program_id db agent_id challenge id new_id).1
          agent_id
          challenge
          (λ r. SameRun row r × (r.pending_hint ≡ row.pending_hint))
  unfolding ensure_current_program_id
  Row-program db none new_id row e = Row-update _ db _ row (λ r. refl) e (ground arith)
  Row-program db (some id) new_id row e = record { row = row; found = e; holds = ground arith }

  pub Row-trajectory :
      (db : Db) (id : Option ℕ) (new_id timestamp : ℕ) (score : Option ℤ) (row : AgentState)
      → get_agent_challenge_state db agent_id challenge ≡ some row
      → Row
          (ensure_trajectory db agent_id challenge id new_id timestamp score).1
          agent_id
          challenge
          (λ r. SameRun row r × (r.pending_hint ≡ row.pending_hint))
  unfolding ensure_trajectory create_trajectory get_agent_challenge_state add_counters
  Row-trajectory db none new_id timestamp score row e =
      let set =
        Row-update (λ r. SameRun row r × (r.pending_hint ≡ row.pending_hint))
          (create_trajectory db new_id challenge timestamp score)
          (λ r. record r { current_trajectory_id = some new_id }) row (λ r. refl) e
          (ground arith) in
      Row-increment _ _ (record no_increment { num_trajectories_inc = 1 }) set.row set.found
        (let h = set.holds in ground arith)
  Row-trajectory db (some id) new_id timestamp score row e = record {
    row = row;
    found = e;
    holds = ground arith;
  }

  pub Row-hint :
      (db : Db) (hint : Option Hint) (row : AgentState)
      → get_agent_challenge_state db agent_id challenge ≡ some row
      → row.pending_hint ≡ hint
      → Row
          (consume_hint db agent_id challenge hint)
          agent_id
          challenge
          (λ r. SameRun row r × (r.pending_hint ≡ none))
  unfolding consume_hint
  Row-hint db none row e h = record { row = row; found = e; holds = ground arith }
  Row-hint db (some hint) row e h = Row-update _ db clear_hint row (λ r. refl) e (ground arith)
