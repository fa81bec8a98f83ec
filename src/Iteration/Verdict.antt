-- ===== src/Iteration/Verdict.antt =====
-- _evaluate_iteration: how one publish scores against the global best and the trajectory best.
use tig_swarm_demo.Prelude.{
  ℕ, ℤ, Bool, true, false, not, ◌&&◌, Option, none, some, if◌then◌else◌, is_some,
}
use tig_swarm_demo.Db.Rows.{
  Direction, TrajectoryBest, Experiment, HypothesisStatus, refactored, succeeded, failed, Db,
}
use tig_swarm_demo.Db.States.{is_better}
use tig_swarm_demo.Db.Bests.{get_trajectory_best, get_global_best}
use tig_swarm_demo.Iteration.Request.{IterationCreate, IterationType, mutation, refactor}

-- _IterationVerdict, without the baseline and the percentages, which only go into messages
pub record Verdict : Type 0 where
  pub prev_best : Option Experiment
  pub prev_trajectory_best : Option TrajectoryBest
  pub is_new_best : Bool
  pub beats_trajectory_best : Bool
  pub is_refactor : Bool
  pub hyp_status : HypothesisStatus
  pub target_best_experiment_id : Option ℕ

abbrev pub asks_refactor : IterationType → Bool
asks_refactor mutation = false
asks_refactor refactor = true

-- `prev is None or is_better(direction, score, prev["score"])`
unfoldable pub beats : Direction → ℤ → Option ℤ → Bool
unfolding is_better
beats direction score none = true
beats direction score (some prior) = is_better direction score prior

abbrev pub score_of : Option TrajectoryBest → Option ℤ
score_of none = none
score_of (some b) = some b.score

abbrev pub global_score_of : Option Experiment → Option ℤ
global_score_of none = none
global_score_of (some e) = some e.score

abbrev pub experiment_of : Option TrajectoryBest → Option ℕ
experiment_of none = none
experiment_of (some b) = b.experiment_id

-- the verdict, from the two bests
unfoldable pub judge :
    IterationCreate → Direction → Option Experiment → Option TrajectoryBest → Verdict
unfolding beats
judge req direction prev_best prev_trajectory_best =
    let beats_trajectory_best =
      req.feasible && beats direction req.score (score_of prev_trajectory_best) in
    let is_refactor =
      asks_refactor req.iteration_type
      && req.feasible
      && is_some prev_trajectory_best
      && not beats_trajectory_best in
    record {
      prev_best = prev_best;
      prev_trajectory_best = prev_trajectory_best;
      is_new_best = req.feasible && beats direction req.score (global_score_of prev_best);
      beats_trajectory_best = beats_trajectory_best;
      is_refactor = is_refactor;
      hyp_status =
          if is_refactor then refactored else if beats_trajectory_best then succeeded else failed;
      target_best_experiment_id = experiment_of prev_trajectory_best;
    }

-- _evaluate_iteration
unfoldable pub evaluate_iteration : Db → IterationCreate → ℕ → Direction → Verdict
unfolding judge
evaluate_iteration db req challenge direction =
    judge req direction (get_global_best db challenge direction)
      (get_trajectory_best db req.agent_id challenge)
