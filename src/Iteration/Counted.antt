-- ===== src/Iteration/Counted.antt =====
-- The agent's row after a whole publish: its counters, its personal best and its pending hint.
use tig_swarm_demo.Prelude.{
  ℕ, ◌+◌, ◌≡◌, refl, ap, ◌∙◌, Bool, true, false, Option, none, some, arith, if◌then◌else◌, select,
  select-update, map_option, is_some,
}
use tig_swarm_demo.Db.Rows.{AgentState, TrajectoryBest, Direction, Experiment, Db}
use tig_swarm_demo.Db.States.{
  ensure_agent_challenge_state, get_agent_challenge_state, update_agent_challenge_state,
  increment_agent_challenge_counters, is_state, add_counters, raise_best_ever,
}
use tig_swarm_demo.Db.Trajectories.{update_trajectory_after_edit}
use tig_swarm_demo.Db.Bests.{upsert_trajectory_best, get_global_best, get_trajectory_best}
use tig_swarm_demo.Iteration.Request.{IterationCreate, Fresh, Env}
use tig_swarm_demo.Iteration.Verdict.{Verdict, judge, evaluate_iteration}
use tig_swarm_demo.Iteration.Outcome.{
  apply_iteration_outcome, apply_branch, apply_improvement, apply_refactor, apply_failure,
  run_increment,
}
use tig_swarm_demo.Iteration.Publish.{record_iteration, publish}
use tig_swarm_demo.Iteration.Frame.{finish-Finished}
use tig_swarm_demo.Iteration.Counters.{SameRun, Row, Row-update, Row-increment}
use tig_swarm_demo.Iteration.Published.{IsRun, Row-ensure, Row-record, SameRun-trans}

-- A run, from the row that the recording left.
abbrev pub IsRunOf : IterationCreate → Direction → Bool → Bool → AgentState → AgentState → Type 0
IsRunOf req direction beats_best is_refactor a b =
    IsRun req direction beats_best is_refactor a b × (b.pending_hint ≡ a.pending_hint)

-- A run from a row that agrees with an earlier one is a run from the earlier one.
IsRun-after :
    {req : IterationCreate} {direction : Direction} {beats_best is_refactor : Bool}
    {a b c : AgentState}
    → SameRun a b
    → IsRun req direction beats_best is_refactor b c
    → IsRun req direction beats_best is_refactor a c
IsRun-after {req} {direction} {beats_best} {is_refactor} same run = record {
  completed = run.completed ∙ ap (λ n. n + 1) same.completed;
  improved = run.improved ∙ ap (λ n. n + (if beats_best then 1 else 0)) same.improved;
  stalled =
      run.stalled
      ∙ ap (λ n. if beats_best then 0 else if is_refactor then n else n + 1) same.stalled;
  best =
      run.best
      ∙ ap (raise_best_ever direction (if req.feasible then some req.score else none)) same.best;
}

module _ (req : IterationCreate) (fresh : Fresh) (challenge : ℕ) (direction : Direction)
    (trajectory_id : ℕ) where
  Row-branch :
      (beats_best is_refactor : Bool) (prev : Option TrajectoryBest)
      → (is_refactor ≡ true → is_some prev ≡ true)
      → (db : Db) (row : AgentState)
      → get_agent_challenge_state db req.agent_id challenge ≡ some row
      → Row
          (apply_branch db req fresh challenge direction beats_best is_refactor prev trajectory_id)
          req.agent_id
          challenge
          (IsRunOf req direction beats_best is_refactor row)
  unfolding apply_branch apply_improvement apply_refactor apply_failure add_counters run_increment
      upsert_trajectory_best get_agent_challenge_state increment_agent_challenge_counters
      update_agent_challenge_state
  Row-branch true is_refactor prev h db row e =
      let counted =
        Row-increment req.agent_id challenge (IsRunOf req direction true is_refactor row) db
          (record (run_increment req direction) {
            improvements = 1;
            runs_since_improvement_reset = true;
          })
          row e (ground arith) in
      let moved =
        Row-update req.agent_id challenge (IsRunOf req direction true is_refactor row)
          (increment_agent_challenge_counters db req.agent_id challenge
            (record (run_increment req direction) {
              improvements = 1;
              runs_since_improvement_reset = true;
            }))
          (λ r. record r { current_program_id = some fresh.improved_program_id }) counted.row
          (λ r. refl) counted.found (let k = counted.holds in ground arith) in
      record { row = moved.row; found = moved.found; holds = moved.holds }
  Row-branch false true (some parent) h db row e =
      let counted =
        Row-increment req.agent_id challenge (IsRunOf req direction false true row) db
          (run_increment req direction) row e (ground arith) in
      record { row = counted.row; found = counted.found; holds = counted.holds }
  Row-branch false true none h db row e = absurd (cc (h refl))
  Row-branch false false none h db row e =
      Row-increment req.agent_id challenge (IsRunOf req direction false false row) db
        (record (run_increment req direction) { runs_since_improvement_inc = 1 }) row e
        (ground arith)
  Row-branch false false (some parent) h db row e =
      Row-increment req.agent_id challenge (IsRunOf req direction false false row) db
        (record (run_increment req direction) { runs_since_improvement_inc = 1 }) row e
        (ground arith)

refactor-has-parent :
    (req : IterationCreate) (direction : Direction) (e : Option Experiment)
    (prev : Option TrajectoryBest)
    → (judge req direction e prev).is_refactor ≡ true
    → is_some prev ≡ true
unfolding judge
refactor-has-parent req direction e prev h = ground (arith, h)

-- The row of a published agent: one run on top of the row before, the hint consumed, benchmarked.
pub record IsPublished (req : IterationCreate) (direction : Direction) (verdict : Verdict)
    (a b : AgentState) : Type 0 where
  pub run : IsRun req direction verdict.beats_trajectory_best verdict.is_refactor a b
  pub hint : b.pending_hint ≡ none
  pub benchmarked : b.ever_benchmarked ≡ true

module _ (env : Env) (db : Db) (req : IterationCreate) (fresh : Fresh) (challenge : ℕ) where
  abbrev direction : Direction
  direction = env.direction_of challenge

  abbrev ensured : Db
  ensured = ensure_agent_challenge_state db req.agent_id challenge fresh.timestamp

  abbrev verdict : Verdict
  verdict = evaluate_iteration ensured req challenge direction

  abbrev recorded : ℕ × Db
  recorded = record_iteration ensured req fresh challenge verdict

  abbrev applied : Db
  applied = apply_iteration_outcome recorded.1 req fresh challenge direction verdict recorded.0

  verdict-has-parent : verdict.is_refactor ≡ true → is_some verdict.prev_trajectory_best ≡ true
  unfolding evaluate_iteration
  verdict-has-parent =
      refactor-has-parent req direction (get_global_best ensured challenge direction)
        (get_trajectory_best ensured req.agent_id challenge)

  row-applied :
      (row : AgentState)
      → get_agent_challenge_state db req.agent_id challenge ≡ some row
      → Row applied req.agent_id challenge (λ r.
        IsRun req direction verdict.beats_trajectory_best verdict.is_refactor row r
        × (r.pending_hint ≡ none))
  unfolding apply_iteration_outcome update_trajectory_after_edit get_agent_challenge_state
  row-applied row e =
      let start = Row-ensure req.agent_id challenge db fresh.timestamp row e in
      let kept = Row-record ensured req fresh challenge verdict start.row start.found in
      let same = SameRun-trans start.holds kept.holds.0 in
      let r =
        Row-branch req fresh challenge direction recorded.0 verdict.beats_trajectory_best
          verdict.is_refactor verdict.prev_trajectory_best verdict-has-parent
          (update_trajectory_after_edit recorded.1 recorded.0 verdict.beats_trajectory_best
            (if verdict.beats_trajectory_best then some req.score else none))
          kept.row kept.found in
      record {
        row = r.row;
        found = r.found;
        holds = (IsRun-after same r.holds.0, r.holds.1 ∙ kept.holds.1);
      }

  -- A publish of an agent with a row counts one run in that row: one experiment more; with an
  -- improvement one improvement more and a stagnation count of 0, with a refactor both as before,
  -- otherwise one more stagnation; the personal best raised by a feasible score only; the pending
  -- hint consumed, and the agent marked as benchmarked.
  pub publish_counts_one_run :
      (row : AgentState)
      → get_agent_challenge_state db req.agent_id challenge ≡ some row
      → Row
          (publish env db req fresh challenge).1
          req.agent_id
          challenge
          (IsPublished req direction (publish env db req fresh challenge).0 row)
  unfolding publish get_agent_challenge_state
  publish_counts_one_run row e =
      let r = row-applied row e in
      let (run, hint) = r.holds in
      record {
        row = record r.row { ever_benchmarked = true };
        found =
            ap (select (is_state req.agent_id challenge))
              (finish-Finished env applied req fresh challenge verdict).states
            ∙ select-update (is_state req.agent_id challenge)
                (λ r. record r { ever_benchmarked = true }) applied.agent_states (λ r. refl)
            ∙ ap (map_option {A = AgentState} (λ r. record r { ever_benchmarked = true })) r.found;
        holds = record {
          run = record {
            completed = run.completed;
            improved = run.improved;
            stalled = run.stalled;
            best = run.best;
          };
          hint = hint;
          benchmarked = refl;
        };
      }
