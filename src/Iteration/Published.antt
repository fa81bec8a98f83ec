-- ===== src/Iteration/Published.antt =====
-- The agent's row after a whole publish.
use tig_swarm_demo.Prelude.{
  ℕ, ◌+◌, ◌≡◌, refl, sym, ap, ◌∙◌, ℤ, Bool, Option, none, some, [], ◌∷◌, ◌++◌, arith, if◌then◌else◌,
  select-upsert-some,
}
use tig_swarm_demo.Db.Rows.{AgentState, Direction, Db}
use tig_swarm_demo.Db.States.{
  ensure_agent_challenge_state, get_agent_challenge_state, is_state, new_state, raise_best_ever,
}
use tig_swarm_demo.Reset.Trip.{trajectory_of, program_of}
use tig_swarm_demo.Iteration.Request.{IterationCreate, Fresh}
use tig_swarm_demo.Iteration.Verdict.{Verdict}
use tig_swarm_demo.Iteration.Recording.{
  ensure_current_program_id, ensure_trajectory, insert_hypothesis, record_experiment, hint_of,
  experiment_row,
}
use tig_swarm_demo.Iteration.Publish.{record_iteration}
use tig_swarm_demo.Iteration.Counters.{SameRun, Row, Row-program, Row-trajectory, Row-hint}

-- What one run adds to the row of its agent: one experiment always; on an improvement one
-- improvement and a cleared stagnation count, on a refactor neither, otherwise one more stagnation;
-- and a feasible score is offered to the personal best.
pub record IsRun (req : IterationCreate) (direction : Direction) (beats_best is_refactor : Bool)
    (a b : AgentState) : Type 0 where
  pub completed : b.experiments_completed ≡ a.experiments_completed + 1
  pub improved : b.improvements ≡ a.improvements + (if beats_best then 1 else 0)
  pub stalled : b.runs_since_improvement ≡ (
      if beats_best
      then 0
      else if is_refactor
      then a.runs_since_improvement
      else a.runs_since_improvement + 1)
  pub best :
      b.best_ever_score
      ≡ raise_best_ever direction (if req.feasible then some req.score else none) a.best_ever_score

pub SameRun-trans : {a b c : AgentState} → SameRun a b → SameRun b c → SameRun a c
SameRun-trans p q = record {
  completed = q.completed ∙ p.completed;
  improved = q.improved ∙ p.improved;
  stalled = q.stalled ∙ p.stalled;
  best = q.best ∙ p.best;
}

module _ (agent_id challenge : ℕ) where
  pub Row-ensure :
      (db : Db) (timestamp : ℕ) (row : AgentState)
      → get_agent_challenge_state db agent_id challenge ≡ some row
      → Row
          (ensure_agent_challenge_state db agent_id challenge timestamp)
          agent_id
          challenge
          (SameRun row)
  unfolding get_agent_challenge_state ensure_agent_challenge_state
  Row-ensure db timestamp row e = record {
    row = record row { last_active_at = timestamp };
    found =
        select-upsert-some (is_state agent_id challenge) (new_state agent_id challenge timestamp)
          (λ r. record r { last_active_at = timestamp }) db.agent_states row (λ r. refl) e;
    holds = ground arith;
  }

module _ (db : Db) (req : IterationCreate) (fresh : Fresh) (challenge : ℕ) (verdict : Verdict)
    (row : AgentState) (e : get_agent_challenge_state db req.agent_id challenge ≡ some row) where
  abbrev acs : Option AgentState
  acs = get_agent_challenge_state db req.agent_id challenge

  abbrev with_program : ℕ × Db
  with_program =
      ensure_current_program_id db req.agent_id challenge (program_of acs) fresh.program_id

  abbrev with_hypothesis : Db
  with_hypothesis = insert_hypothesis with_program.1 req fresh challenge verdict with_program.0

  abbrev line_score : Option ℤ
  line_score = if verdict.beats_trajectory_best then some req.score else none

  abbrev with_trajectory : ℕ × Db
  with_trajectory =
      ensure_trajectory with_hypothesis req.agent_id challenge (trajectory_of acs)
        fresh.trajectory_id fresh.timestamp line_score

  abbrev with_experiment : Db
  with_experiment = record with_trajectory.1 {
    experiments =
        with_trajectory.1.experiments
        ++ experiment_row req fresh challenge with_trajectory.0 acs verdict ∷ [];
  }

  hint-acs : hint_of acs ≡ row.pending_hint
  hint-acs = ap hint_of e

  abbrev Kept : AgentState → Type 0
  Kept r = SameRun row r × (r.pending_hint ≡ row.pending_hint)

  row-with_program : Row with_program.1 req.agent_id challenge Kept
  row-with_program = Row-program req.agent_id challenge db (program_of acs) fresh.program_id row e

  row-with_trajectory : Row with_trajectory.1 req.agent_id challenge Kept
  unfolding insert_hypothesis get_agent_challenge_state
  row-with_trajectory =
      let p = row-with_program in
      let found : get_agent_challenge_state with_hypothesis req.agent_id challenge ≡ some p.row =
        p.found in
      let t =
        Row-trajectory req.agent_id challenge with_hypothesis (trajectory_of acs)
          fresh.trajectory_id fresh.timestamp line_score p.row found in
      record {
        row = t.row;
        found = t.found;
        holds = (SameRun-trans p.holds.0 t.holds.0, t.holds.1 ∙ p.holds.1);
      }

  pub Row-record :
      Row
        (record_iteration db req fresh challenge verdict).1
        req.agent_id
        challenge
        (λ r. SameRun row r × (r.pending_hint ≡ none))
  unfolding record_iteration record_experiment get_agent_challenge_state
  Row-record =
      let t = row-with_trajectory in
      let found : get_agent_challenge_state with_experiment req.agent_id challenge ≡ some t.row =
        t.found in
      let h =
        Row-hint req.agent_id challenge with_experiment (hint_of acs) t.row found
          (t.holds.1 ∙ sym hint-acs) in
      record {
        row = h.row;
        found = h.found;
        holds = (SameRun-trans t.holds.0 h.holds.0, h.holds.1);
      }
