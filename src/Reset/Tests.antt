-- ===== src/Reset/Tests.antt =====
-- Runs of the reset on the sample database.
use tig_swarm_demo.Prelude.{
  ℤ, pos, ◌≡◌, refl, ◌⊎◌, inl, inr, true, false, none, some, [], ◌∷◌, IsIn, arith, select,
  select_all, update, delete,
}
use tig_swarm_demo.Db.Rows.{TrajectoryBest, Inactive, Db}
use tig_swarm_demo.Db.States.{get_agent_challenge_state, is_better, update_agent_challenge_state}
use tig_swarm_demo.Db.Trajectories.{
  deactivate_trajectory, trajectory_counts, get_trajectory, increment_trajectory_agents,
  reactivate_trajectory,
}
use tig_swarm_demo.Db.Pool.{get_inactive_with_deactivations, deposit_inactive, remove_inactive}
use tig_swarm_demo.Db.Baseline.{get_mainnet_baseline}
use tig_swarm_demo.Reset.Launching.{go_fresh, pick_inactive}
use tig_swarm_demo.Db.Bests.{get_trajectory_best, upsert_trajectory_best}
use tig_swarm_demo.Db.Valid.{IsValid}
use tig_swarm_demo.Reset.Trip.{Call, stagnation, has_edits, trajectory_of}
use tig_swarm_demo.Reset.Twice.{adopted_line_is_culled_again}
use tig_swarm_demo.Reset.Machine.{ResetOutcome, run_reset, maybe_reset_trajectory}
use tig_swarm_demo.Reset.Recheck.{again}
use tig_swarm_demo.Reset.Once.{no_second_reset}
use tig_swarm_demo.Reset.Validity.{reset-IsValid}
use tig_swarm_demo.Reset.Banking.{IsBanked, reset_deposits_own_best}
use tig_swarm_demo.Reset.Consuming.{IsAdopted, adoption_consumes_entry}
use tig_swarm_demo.Samples.{
  stalled_state, own_best, pooled, sample_db, sample-IsValid, sample_call, one_fingerprint,
  stub_source,
}

abbrev after : ResetOutcome × Db
after =
    run_reset one_fingerprint stub_source sample_call sample_db (some stalled_state) own_best
      stagnation

-- The stalled agent is reset.
reset_run :
    maybe_reset_trajectory one_fingerprint stub_source sample_call sample_db
    ≡ some (after.0, after.1)
unfolding maybe_reset_trajectory get_agent_challenge_state get_trajectory_best select
reset_run = refl

floor_is_positive :
    (s : ℤ)
    → after.0.current_trajectory_best ≡ some s
    → (sample_call.negative_trajectory_limit ≡ 0)
      ⊎ (is_better sample_call.direction s (pos 0) ≡ true)
unfolding run_reset is_better select get_inactive_with_deactivations select_all
    deactivate_trajectory go_fresh trajectory_counts update pick_inactive get_mainnet_baseline
floor_is_positive s e = inr (ground (arith, e))

no_second_reset_example :
    maybe_reset_trajectory one_fingerprint stub_source (again sample_call 101 0 61) after.1 ≡ none
no_second_reset_example =
    no_second_reset one_fingerprint stub_source sample_call sample_db after.1 after.0 reset_run 101
      0 61 floor_is_positive

reset-IsValid_example : IsValid after.1
reset-IsValid_example =
    reset-IsValid one_fingerprint stub_source sample_call sample_db after.1 after.0 sample-IsValid
      reset_run

abbrev own_deposit : Inactive
own_deposit = record {
  id = 1;
  agent_id = 7;
  challenge = 1;
  algorithm_code = "own";
  kernel_code = none;
  algorithm_files = none;
  score = some (pos 10);
  deposited_at = 100;
  trajectory_id = some 3;
  program_id = some 4;
  experiment_id = some 30;
}

own_deposit_is_pooled : IsIn own_deposit after.1.inactive_algorithms
unfolding run_reset select get_inactive_with_deactivations select_all deactivate_trajectory go_fresh
    trajectory_counts update pick_inactive get_mainnet_baseline update_agent_challenge_state
    upsert_trajectory_best deposit_inactive increment_trajectory_agents reactivate_trajectory
    remove_inactive delete
own_deposit_is_pooled = inl refl

reset_deposits_own_best_example :
    IsIn own_deposit sample_db.inactive_algorithms
    ⊎ ((best : TrajectoryBest) × (get_trajectory_best sample_db 7 1 ≡ some best)
        × IsBanked sample_call best own_deposit)
reset_deposits_own_best_example =
    reset_deposits_own_best one_fingerprint stub_source sample_call sample_db after.1 after.0
      reset_run own_deposit own_deposit_is_pooled

adoption_consumes_entry_example : (e : Inactive) × IsAdopted sample_call sample_db after.1 after.0 e
unfolding run_reset select get_inactive_with_deactivations select_all deactivate_trajectory go_fresh
    trajectory_counts update
adoption_consumes_entry_example =
    adoption_consumes_entry one_fingerprint stub_source sample_call sample_db after.1 after.0
      reset_run sample-IsValid refl

-- an agent on a line whose pooled entry has the score 0
abbrev poor_db : Db
poor_db = record sample_db { inactive_algorithms = record pooled { score = some (pos 0) } ∷ [] }

abbrev strict_call : Call
strict_call = record sample_call { negative_trajectory_limit = 9 }

abbrev after_poor : ResetOutcome × Db
after_poor =
    run_reset one_fingerprint stub_source strict_call poor_db (some stalled_state) own_best
      stagnation

poor_reset_run :
    maybe_reset_trajectory one_fingerprint stub_source strict_call poor_db
    ≡ some (after_poor.0, after_poor.1)
unfolding maybe_reset_trajectory get_agent_challenge_state get_trajectory_best select
poor_reset_run = refl

poor_floor : after_poor.0.current_trajectory_best ≡ some (pos 0)
unfolding run_reset select get_inactive_with_deactivations select_all deactivate_trajectory go_fresh
    trajectory_counts update pick_inactive get_mainnet_baseline
poor_floor = refl

poor_edits :
    has_edits after_poor.1 9 (trajectory_of (get_agent_challenge_state after_poor.1 7 1)) ≡ true
unfolding run_reset has_edits get_trajectory get_agent_challenge_state select
    get_inactive_with_deactivations select_all deactivate_trajectory go_fresh trajectory_counts
    update pick_inactive get_mainnet_baseline update_agent_challenge_state upsert_trajectory_best
    deposit_inactive increment_trajectory_agents reactivate_trajectory remove_inactive delete
poor_edits = refl

zero_is_no_better : is_better strict_call.direction (pos 0) (pos 0) ≡ false
unfolding is_better
zero_is_no_better = refl

adopted_line_is_culled_again_example :
    (r : ResetOutcome × Db) × (maybe_reset_trajectory one_fingerprint stub_source
        (again strict_call 101 0 61)
        after_poor.1
      ≡ some r)
adopted_line_is_culled_again_example =
    adopted_line_is_culled_again one_fingerprint stub_source strict_call poor_db after_poor.1
      after_poor.0 poor_reset_run 101 0 61 (pos 0) poor_floor zero_is_no_better (omega arith)
      poor_edits
