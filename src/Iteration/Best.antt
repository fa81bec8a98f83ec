-- ===== src/Iteration/Best.antt =====
-- The trajectory best of the publishing agent after a publish.
use tig_swarm_demo.Prelude.{ℕ, ◌≡◌, ◌∙◌, true, false, some, arith, All-select}
use tig_swarm_demo.Db.Rows.{TrajectoryBest, Db}
use tig_swarm_demo.Db.States.{ensure_agent_challenge_state, is_better}
use tig_swarm_demo.Db.Bests.{get_trajectory_best, is_best, get_global_best}
use tig_swarm_demo.Db.Valid.{IsValid, IsFeasible}
use tig_swarm_demo.Iteration.Request.{IterationCreate, Fresh, Env}
use tig_swarm_demo.Iteration.Verdict.{judge, evaluate_iteration}
use tig_swarm_demo.Iteration.Publish.{publish}
use tig_swarm_demo.Iteration.Branches.{
  published, best-publish, branch-le, branch-idle, branch-reaches,
}

module _ (env : Env) (db : Db) (req : IterationCreate) (fresh : Fresh) (challenge : ℕ) where
  verdict_beats :
      (b : TrajectoryBest)
      → get_trajectory_best db req.agent_id challenge ≡ some b
      → (published env db req fresh challenge).0.beats_trajectory_best ≡ true
      → is_better (env.direction_of challenge) req.score b.score ≡ true
  unfolding publish evaluate_iteration get_trajectory_best ensure_agent_challenge_state judge
  verdict_beats b e h = ground (arith, e)

  -- A publish never lowers the best of its agent: if there was a best, there is one afterwards, and
  -- the old score is not better than the new one.
  pub publish_never_lowers_best :
      (b : TrajectoryBest)
      → get_trajectory_best db req.agent_id challenge ≡ some b
      → (b' : TrajectoryBest) × (get_trajectory_best
            (publish env db req fresh challenge).1
            req.agent_id
            challenge
          ≡ some b')
        × (is_better (env.direction_of challenge) b.score b'.score ≡ false)
  publish_never_lowers_best b e =
      let (trajectory_id, after) = best-publish env db req fresh challenge in
      let (b', left, kept) =
        branch-le req fresh challenge (published env db req fresh challenge).0.beats_trajectory_best
          (published env db req fresh challenge).0.is_refactor b trajectory_id
          (env.direction_of challenge) (verdict_beats b e) in
      (b', rw e at after ∙ left, kept)

  -- An infeasible publish leaves the best of its agent as it was.
  pub infeasible_publish_keeps_best :
      req.feasible ≡ false
      → get_trajectory_best (publish env db req fresh challenge).1 req.agent_id challenge
        ≡ get_trajectory_best db req.agent_id challenge
  unfolding publish evaluate_iteration judge
  infeasible_publish_keeps_best e =
      let (trajectory_id, after) = best-publish env db req fresh challenge in
      after
      ∙ branch-idle req fresh challenge _ _ (get_trajectory_best db req.agent_id challenge)
          trajectory_id (ground arith) (ground arith)

  -- After a feasible publish its agent has a feasible best, and the published score is not better
  -- than the score of that best, in a database whose bests are feasible.
  pub feasible_publish_is_reached :
      IsValid db
      → req.feasible ≡ true
      → (b : TrajectoryBest) × (get_trajectory_best
            (publish env db req fresh challenge).1
            req.agent_id
            challenge
          ≡ some b)
        × (b.feasible ≡ true)
        × (is_better (env.direction_of challenge) req.score b.score ≡ false)
  unfolding publish evaluate_iteration get_trajectory_best ensure_agent_challenge_state
      get_global_best
  feasible_publish_is_reached v e =
      let (trajectory_id, after) = best-publish env db req fresh challenge in
      let (b, reached, fine, kept) =
        branch-reaches req fresh challenge trajectory_id (env.direction_of challenge)
          (get_global_best db challenge (env.direction_of challenge))
          (get_trajectory_best db req.agent_id challenge)
          (λ b before.
            All-select IsFeasible (is_best req.agent_id challenge) db.trajectory_bests v.bests
              before)
          e in
      (b, after ∙ reached, fine, kept)
