-- ===== src/Iteration/Tests.antt =====
-- Publishes on the sample database.
use tig_swarm_demo.Prelude.{pos, ◌≡◌, refl, true, false, some, select, String, ltb_ℤ, ◌≤◌, max}
use tig_swarm_demo.Db.Rows.{TrajectoryBest, maximise}
use tig_swarm_demo.Db.States.{get_agent_challenge_state, is_better}
use tig_swarm_demo.Db.Bests.{get_trajectory_best}
use tig_swarm_demo.Db.Valid.{IsValid}
use tig_swarm_demo.Iteration.Request.{IterationCreate}
use tig_swarm_demo.Iteration.Publish.{publish}
use tig_swarm_demo.Iteration.Best.{
  publish_never_lowers_best, infeasible_publish_keeps_best, feasible_publish_is_reached,
}
use tig_swarm_demo.Iteration.Validity.{publish-IsValid}
use tig_swarm_demo.Iteration.Harvest.{maybe_harvest_seed}
use tig_swarm_demo.Iteration.PoolSize.{pool_count, harvest_keeps_pool_bounded}
use tig_swarm_demo.Iteration.Counters.{Row}
use tig_swarm_demo.Iteration.Counted.{IsPublished, publish_counts_one_run}
use tig_swarm_demo.Samples.{
  stalled_state, own_best, sample_db, sample-IsValid, sample_env, sample_request, sample_fresh,
}

publish_never_lowers_best_example :
    (b' : TrajectoryBest) × (get_trajectory_best
        (publish sample_env sample_db sample_request sample_fresh 1).1
        7
        1
      ≡ some b')
    × (is_better maximise (pos 10) b'.score ≡ false)
unfolding get_trajectory_best select
publish_never_lowers_best_example =
    publish_never_lowers_best sample_env sample_db sample_request sample_fresh 1 own_best refl

abbrev infeasible_request : IterationCreate
infeasible_request = record sample_request { feasible = false }

infeasible_publish_keeps_best_example :
    get_trajectory_best (publish sample_env sample_db infeasible_request sample_fresh 1).1 7 1
    ≡ get_trajectory_best sample_db 7 1
infeasible_publish_keeps_best_example =
    infeasible_publish_keeps_best sample_env sample_db infeasible_request sample_fresh 1 refl

feasible_publish_is_reached_example :
    (b : TrajectoryBest) × (get_trajectory_best
        (publish sample_env sample_db sample_request sample_fresh 1).1
        7
        1
      ≡ some b)
    × (b.feasible ≡ true)
    × (is_better maximise (pos 12) b.score ≡ false)
feasible_publish_is_reached_example =
    feasible_publish_is_reached sample_env sample_db sample_request sample_fresh 1 sample-IsValid
      refl

publish-IsValid_example : IsValid (publish sample_env sample_db sample_request sample_fresh 1).1
publish-IsValid_example =
    publish-IsValid sample_env sample_db sample_request sample_fresh 1 sample-IsValid

publish_counts_one_run_example :
    Row (publish sample_env sample_db sample_request sample_fresh 1).1 7 1 (
      IsPublished sample_request maximise
        (publish sample_env sample_db sample_request sample_fresh 1).0
        stalled_state)
unfolding get_agent_challenge_state select
publish_counts_one_run_example =
    publish_counts_one_run sample_env sample_db sample_request sample_fresh 1 stalled_state refl

never_similar : (a b : String) → ltb_ℤ (sample_env.similarity a b) (pos 0) ≡ false
never_similar a b = refl

harvest_keeps_pool_bounded_example :
    pool_count (maybe_harvest_seed sample_env sample_db sample_request 1 200) 1
    ≤ max (pool_count sample_db 1) (max 2 2)
harvest_keeps_pool_bounded_example =
    harvest_keeps_pool_bounded sample_env never_similar sample_db sample_request 1 200
