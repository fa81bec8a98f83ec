-- ===== src/Iteration/Validity.antt =====
-- A publish keeps the database well-formed.
use tig_swarm_demo.Prelude.{
  ℕ, ◌≡◌, refl, sym, subst, ℤ, Bool, true, false, Option, none, some, All, arith,
}
use tig_swarm_demo.Db.Rows.{AgentState, Hint, TrajectoryBest, Direction, Db}
use tig_swarm_demo.Db.States.{
  ensure_agent_challenge_state, update_agent_challenge_state, no_increment,
}
use tig_swarm_demo.Db.Valid.{
  IsValid, IsCounted, IsPaced, IsFeasible, IsAdoptable, ensure-IsValid, update_state-IsValid,
  increment-IsValid, create_trajectory-IsValid, after_edit-IsValid, upsert_best-IsValid,
}
use tig_swarm_demo.Iteration.Request.{IterationCreate, Fresh, Env}
use tig_swarm_demo.Iteration.Verdict.{Verdict, evaluate_iteration}
use tig_swarm_demo.Iteration.Recording.{
  ensure_current_program_id, ensure_trajectory, insert_hypothesis, record_experiment, consume_hint,
  hint_of, clear_hint,
}
use tig_swarm_demo.Iteration.Outcome.{apply_iteration_outcome, apply_branch}
use tig_swarm_demo.Iteration.Publish.{record_iteration, finish_iteration, publish}
use tig_swarm_demo.Iteration.Frame.{finish-Finished}

IsCounted-fields :
    (r r' : AgentState)
    → r'.improvements ≡ r.improvements
    → r'.runs_since_improvement ≡ r.runs_since_improvement
    → r'.experiments_completed ≡ r.experiments_completed
    → IsCounted r
    → IsCounted r'
IsCounted-fields r r' a b c h = omega arith

program-IsValid :
    (db : Db) (agent_id challenge : ℕ) (id : Option ℕ) (new_id : ℕ)
    → IsValid db
    → IsValid (ensure_current_program_id db agent_id challenge id new_id).1
unfolding ensure_current_program_id
program-IsValid db agent_id challenge none new_id v =
    update_state-IsValid db v agent_id challenge _ (λ r h. IsCounted-fields r _ refl refl refl h)
program-IsValid db agent_id challenge (some id) new_id v = v

trajectory-IsValid :
    (db : Db) (agent_id challenge : ℕ) (id : Option ℕ) (new_id timestamp : ℕ) (score : Option ℤ)
    → IsValid db
    → IsValid (ensure_trajectory db agent_id challenge id new_id timestamp score).1
unfolding ensure_trajectory
trajectory-IsValid db agent_id challenge none new_id timestamp score v =
    increment-IsValid _
      (update_state-IsValid _ (create_trajectory-IsValid db v new_id challenge timestamp score)
        agent_id challenge _ (λ r h. IsCounted-fields r _ refl refl refl h))
      agent_id challenge (record no_increment { num_trajectories_inc = 1 }) (omega arith)
      (omega arith)
trajectory-IsValid db agent_id challenge (some id) new_id timestamp score v = v

hint-IsValid :
    (db : Db) (agent_id challenge : ℕ) (hint : Option Hint)
    → IsValid db
    → IsValid (consume_hint db agent_id challenge hint)
unfolding consume_hint
hint-IsValid db agent_id challenge none v = v
hint-IsValid db agent_id challenge (some hint) v =
    update_state-IsValid db v agent_id challenge clear_hint
      (λ r h. IsCounted-fields r (clear_hint r) refl refl refl h)

-- Only the four tables of the invariant matter.
same_tables :
    (a b : Db)
    → b.agent_states ≡ a.agent_states
    → b.trajectories ≡ a.trajectories
    → b.trajectory_bests ≡ a.trajectory_bests
    → b.inactive_algorithms ≡ a.inactive_algorithms
    → b.next_inactive ≡ a.next_inactive
    → IsValid a
    → IsValid b
same_tables a b states trajectories bests pool next v = record {
  states = subst (All IsCounted) (sym states) v.states;
  trajectories = subst (All IsPaced) (sym trajectories) v.trajectories;
  bests = subst (All IsFeasible) (sym bests) v.bests;
  pool =
      subst (All (IsAdoptable b.next_inactive)) (sym pool)
        (subst (λ n. All (IsAdoptable n) a.inactive_algorithms) (sym next) v.pool);
}

hypothesis-IsValid :
    (db : Db) (req : IterationCreate) (fresh : Fresh) (challenge : ℕ) (verdict : Verdict)
    (program : ℕ)
    → IsValid db
    → IsValid (insert_hypothesis db req fresh challenge verdict program)
unfolding insert_hypothesis
hypothesis-IsValid db req fresh challenge verdict program v =
    same_tables db _ refl refl refl refl refl v

experiment-IsValid :
    (db : Db) (req : IterationCreate) (fresh : Fresh) (challenge trajectory_id : ℕ)
    (acs : Option AgentState) (verdict : Verdict)
    → IsValid db
    → IsValid (record_experiment db req fresh challenge trajectory_id acs verdict)
unfolding record_experiment
experiment-IsValid db req fresh challenge trajectory_id acs verdict v =
    hint-IsValid _ req.agent_id challenge (hint_of acs)
      (same_tables db _ refl refl refl refl refl v)

record-IsValid :
    (db : Db) (req : IterationCreate) (fresh : Fresh) (challenge : ℕ) (verdict : Verdict)
    → IsValid db
    → IsValid (record_iteration db req fresh challenge verdict).1
unfolding record_iteration
record-IsValid db req fresh challenge verdict v =
    experiment-IsValid _ req fresh challenge _ _ verdict (
      trajectory-IsValid _ req.agent_id challenge _ fresh.trajectory_id fresh.timestamp _ (
        hypothesis-IsValid _ req fresh challenge verdict _
          (program-IsValid db req.agent_id challenge _ fresh.program_id v)))

-- An improvement and a refactor are feasible.
record IsSound (req : IterationCreate) (beats_best is_refactor : Bool) : Type 0 where
  improvement : beats_best ≡ true → req.feasible ≡ true
  refactoring : is_refactor ≡ true → req.feasible ≡ true

branch-IsValid :
    (db : Db) (req : IterationCreate) (fresh : Fresh) (challenge : ℕ) (direction : Direction)
    (beats_best is_refactor : Bool) (prev : Option TrajectoryBest) (trajectory_id : ℕ)
    → IsSound req beats_best is_refactor
    → IsValid db
    → IsValid
        (apply_branch db req fresh challenge direction beats_best is_refactor prev trajectory_id)
unfolding apply_branch
branch-IsValid db req fresh challenge direction true is_refactor prev trajectory_id s v =
    upsert_best-IsValid _
      (update_state-IsValid _
        (increment-IsValid db v req.agent_id challenge _ (omega arith) (omega arith)) req.agent_id
        challenge _ (λ r h. IsCounted-fields r _ refl refl refl h))
      _ (s.improvement refl)
branch-IsValid db req fresh challenge direction false true (some parent) trajectory_id s v =
    upsert_best-IsValid _
      (increment-IsValid db v req.agent_id challenge _ (omega arith) (omega arith)) _
      (s.refactoring refl)
branch-IsValid db req fresh challenge direction false true none trajectory_id s v =
    increment-IsValid db v req.agent_id challenge _ (omega arith) (omega arith)
branch-IsValid db req fresh challenge direction false false none trajectory_id s v =
    increment-IsValid db v req.agent_id challenge _ (omega arith) (omega arith)
branch-IsValid db req fresh challenge direction false false (some b) trajectory_id s v =
    increment-IsValid db v req.agent_id challenge _ (omega arith) (omega arith)

judge-IsSound :
    (db : Db) (req : IterationCreate) (challenge : ℕ) (direction : Direction)
    → IsSound req
        (evaluate_iteration db req challenge direction).beats_trajectory_best
        (evaluate_iteration db req challenge direction).is_refactor
unfolding evaluate_iteration
judge-IsSound db req challenge direction = record {
  improvement = λ h. ground arith;
  refactoring = λ h. ground arith;
}

finish-IsValid :
    (env : Env) (db : Db) (req : IterationCreate) (fresh : Fresh) (challenge : ℕ)
    (verdict : Verdict)
    → IsValid db
    → IsValid (finish_iteration env db req fresh challenge verdict)
unfolding update_agent_challenge_state
finish-IsValid env db req fresh challenge verdict v =
    let f = finish-Finished env db req fresh challenge verdict in
    same_tables
      (update_agent_challenge_state db req.agent_id challenge
        (λ r. record r { ever_benchmarked = true }))
      _ f.states f.trajectories f.bests f.pool f.next
      (update_state-IsValid db v req.agent_id challenge _
        (λ r h. IsCounted-fields r _ refl refl refl h))

-- A publish keeps the database well-formed, whatever the request: the stored bests are feasible, the
-- pool is adoptable, and the counters of agents and trajectories are consistent.
pub publish-IsValid :
    (env : Env) (db : Db) (req : IterationCreate) (fresh : Fresh) (challenge : ℕ)
    → IsValid db
    → IsValid (publish env db req fresh challenge).1
unfolding publish apply_iteration_outcome
publish-IsValid env db req fresh challenge v =
    let direction = env.direction_of challenge in
    let db0 = ensure_agent_challenge_state db req.agent_id challenge fresh.timestamp in
    let verdict = evaluate_iteration db0 req challenge direction in
    finish-IsValid env _ req fresh challenge verdict (
      branch-IsValid _ req fresh challenge direction _ _ _ _
        (judge-IsSound db0 req challenge direction)
        (after_edit-IsValid _
          (record-IsValid db0 req fresh challenge verdict
            (ensure-IsValid db v req.agent_id challenge fresh.timestamp))
          _ _ _))
