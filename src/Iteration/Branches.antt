-- ===== src/Iteration/Branches.antt =====
-- The trajectory best that each branch of a publish leaves.
use tig_swarm_demo.Prelude.{
  ℕ, ◌≡◌, refl, ap, ◌∙◌, ℤ, Bool, true, false, Option, none, some, arith, select, Bool-cases, inl,
  inr, select-upsert,
}
use tig_swarm_demo.Db.Rows.{TrajectoryBest, Experiment, Direction, maximise, minimise, Db}
use tig_swarm_demo.Db.States.{
  ensure_agent_challenge_state, update_agent_challenge_state, increment_agent_challenge_counters,
  is_better,
}
use tig_swarm_demo.Db.Trajectories.{update_trajectory_after_edit}
use tig_swarm_demo.Db.Bests.{get_trajectory_best, upsert_trajectory_best, is_best}
use tig_swarm_demo.Iteration.Request.{IterationCreate, Fresh, Env}
use tig_swarm_demo.Iteration.Verdict.{Verdict, judge, evaluate_iteration, beats, asks_refactor}
use tig_swarm_demo.Iteration.Outcome.{
  apply_iteration_outcome, apply_branch, best_row, keep_hyperparameters,
}
use tig_swarm_demo.Iteration.Publish.{record_iteration, publish}
use tig_swarm_demo.Iteration.Frame.{finish-Finished, record-Recorded}

pub is_better_irrefl : (direction : Direction) (a : ℤ) → is_better direction a a ≡ false
unfolding is_better
is_better_irrefl maximise a = ground arith
is_better_irrefl minimise a = ground arith

pub is_better_asym :
    (direction : Direction) (a b : ℤ)
    → is_better direction a b ≡ true
    → is_better direction b a ≡ false
unfolding is_better
is_better_asym maximise a b h = ground arith
is_better_asym minimise a b h = ground arith

-- The best that the three branches leave, from the one before.
abbrev pub branch_best :
    IterationCreate → Fresh → ℕ → Bool → Bool → Option TrajectoryBest → ℕ → Option TrajectoryBest
branch_best req fresh challenge true is_refactor prev trajectory_id =
    some (best_row req fresh challenge trajectory_id req.score req.hyperparameters)
branch_best req fresh challenge false true (some parent) trajectory_id = some (
    best_row req fresh challenge trajectory_id parent.score
      (keep_hyperparameters req.hyperparameters parent))
branch_best req fresh challenge false _ prev trajectory_id = prev

module _ (db : Db) (req : IterationCreate) (fresh : Fresh) (challenge : ℕ)
    (direction : Direction) where
  best-branch :
      (beats_best is_refactor : Bool) (prev : Option TrajectoryBest) (trajectory_id : ℕ)
      → get_trajectory_best db req.agent_id challenge ≡ prev
      → get_trajectory_best
          (apply_branch db req fresh challenge direction beats_best is_refactor prev trajectory_id)
          req.agent_id
          challenge
        ≡ branch_best req fresh challenge beats_best is_refactor prev trajectory_id
  unfolding apply_branch get_trajectory_best upsert_trajectory_best update_agent_challenge_state
      increment_agent_challenge_counters
  best-branch true is_refactor prev trajectory_id e =
      select-upsert (is_best req.agent_id challenge)
        (best_row req fresh challenge trajectory_id req.score req.hyperparameters) _ (ground arith)
  best-branch false true (some parent) trajectory_id e =
      select-upsert (is_best req.agent_id challenge)
        (best_row req fresh challenge trajectory_id parent.score
          (keep_hyperparameters req.hyperparameters parent))
        _ (ground arith)
  best-branch false true none trajectory_id e = e
  best-branch false false none trajectory_id e = e
  best-branch false false (some parent) trajectory_id e = e

best-outcome :
    (db : Db) (req : IterationCreate) (fresh : Fresh) (challenge : ℕ) (direction : Direction)
    (verdict : Verdict) (trajectory_id : ℕ)
    → get_trajectory_best db req.agent_id challenge ≡ verdict.prev_trajectory_best
    → get_trajectory_best
        (apply_iteration_outcome db req fresh challenge direction verdict trajectory_id)
        req.agent_id
        challenge
      ≡ branch_best req fresh challenge verdict.beats_trajectory_best verdict.is_refactor
          verdict.prev_trajectory_best trajectory_id
unfolding apply_iteration_outcome update_trajectory_after_edit get_trajectory_best
best-outcome db req fresh challenge direction verdict trajectory_id e =
    best-branch _ req fresh challenge direction verdict.beats_trajectory_best verdict.is_refactor
      verdict.prev_trajectory_best trajectory_id e

module _ (env : Env) (db : Db) (req : IterationCreate) (fresh : Fresh) (challenge : ℕ) where
  abbrev pub published : Verdict × Db
  published = publish env db req fresh challenge

  -- The best after a publish is the one that the verdict's branch leaves.
  pub best-publish :
      (trajectory_id : ℕ) × (get_trajectory_best published.1 req.agent_id challenge
        ≡ branch_best req fresh challenge published.0.beats_trajectory_best published.0.is_refactor
            (get_trajectory_best db req.agent_id challenge)
            trajectory_id)
  unfolding publish get_trajectory_best evaluate_iteration ensure_agent_challenge_state
  best-publish =
      let db0 = ensure_agent_challenge_state db req.agent_id challenge fresh.timestamp in
      let direction = env.direction_of challenge in
      let verdict = evaluate_iteration db0 req challenge direction in
      let r = record_iteration db0 req fresh challenge verdict in
      let applied = apply_iteration_outcome r.1 req fresh challenge direction verdict r.0 in
      (
        r.0,
        ap (select (is_best req.agent_id challenge))
              (finish-Finished env applied req fresh challenge verdict).bests
            ∙ best-outcome r.1 req fresh challenge direction verdict r.0 (
                ap (select (is_best req.agent_id challenge))
                  (record-Recorded db0 req fresh challenge verdict).bests),
      )

-- No branch leaves a worse score, if an improvement did beat the stored one.
pub branch-le :
    (req : IterationCreate) (fresh : Fresh) (challenge : ℕ) (beats_best is_refactor : Bool)
    (b : TrajectoryBest) (trajectory_id : ℕ) (direction : Direction)
    → (beats_best ≡ true → is_better direction req.score b.score ≡ true)
    → (b' : TrajectoryBest) × (branch_best req fresh challenge beats_best is_refactor
          (some b)
          trajectory_id
        ≡ some b')
      × (is_better direction b.score b'.score ≡ false)
unfolding best_row
branch-le req fresh challenge true is_refactor b trajectory_id direction h =
    (_, refl, is_better_asym direction req.score b.score (h refl))
branch-le req fresh challenge false true b trajectory_id direction h =
    (_, refl, is_better_irrefl direction b.score)
branch-le req fresh challenge false false b trajectory_id direction h =
    (b, refl, is_better_irrefl direction b.score)

pub branch-idle :
    (req : IterationCreate) (fresh : Fresh) (challenge : ℕ) (beats_best is_refactor : Bool)
    (prev : Option TrajectoryBest) (trajectory_id : ℕ)
    → beats_best ≡ false
    → is_refactor ≡ false
    → branch_best req fresh challenge beats_best is_refactor prev trajectory_id ≡ prev
branch-idle req fresh challenge true is_refactor prev trajectory_id h k = absurd (cc)
branch-idle req fresh challenge false true prev trajectory_id h k = absurd (cc)
branch-idle req fresh challenge false false none trajectory_id h k = refl
branch-idle req fresh challenge false false (some b) trajectory_id h k = refl

module _ (req : IterationCreate) (fresh : Fresh) (challenge trajectory_id : ℕ)
    (direction : Direction) (e : Option Experiment) where
  abbrev judged : Option TrajectoryBest → Option TrajectoryBest
  judged prev =
      let v = judge req direction e prev in
      branch_best req fresh challenge v.beats_trajectory_best v.is_refactor prev trajectory_id

  abbrev raised : TrajectoryBest
  raised = best_row req fresh challenge trajectory_id req.score req.hyperparameters

  abbrev leaner : TrajectoryBest → TrajectoryBest
  leaner b =
      best_row req fresh challenge trajectory_id b.score
        (keep_hyperparameters req.hyperparameters b)

  -- The branch that the verdict takes leaves a best that the published score does not beat.
  pub branch-reaches :
      (prev : Option TrajectoryBest)
      → ((b : TrajectoryBest) → prev ≡ some b → b.feasible ≡ true)
      → req.feasible ≡ true
      → (b : TrajectoryBest) × (judged prev ≡ some b)
        × (b.feasible ≡ true)
        × (is_better direction req.score b.score ≡ false)
  unfolding judge best_row
  branch-reaches none fine h = (raised, rw (h, beats) refl, h, is_better_irrefl direction req.score)
  branch-reaches (some b) fine h = elim (Bool-cases (is_better direction req.score b.score)) [
    | inl better ↦ (raised, rw (h, beats, better) refl, h, is_better_irrefl direction req.score)
    | inr worse ↦ elim (Bool-cases (asks_refactor req.iteration_type)) [
      | inl asked ↦ (leaner b, rw (h, beats, worse, asked) refl, h, worse)
      | inr plain ↦ (b, rw (h, beats, worse, plain) refl, fine b refl, worse)
    ]
  ]
