-- ===== src/Sweep/Tests.antt =====
-- The sweep of one silent agent, with an algorithm of two files.
use tig_swarm_demo.Prelude.{
  ◌≡◌, refl, ◌⊎◌, inl, inr, pos, false, none, some, [], ◌∷◌, IsIn, select, update, delete,
}
use tig_swarm_demo.Db.Rows.{Inactive, Db}
use tig_swarm_demo.Db.Trajectories.{deactivate_trajectory}
use tig_swarm_demo.Db.Bests.{get_trajectory_best, clear_trajectory_best}
use tig_swarm_demo.Db.Pool.{deposit_inactive, is_negative}
use tig_swarm_demo.Db.Valid.{IsValid}
use tig_swarm_demo.Sweep.{Owned, deactivate_inactive_agent_trajectories}
use tig_swarm_demo.Sweep.Whole.{sweep-IsValid, sweep_deposits_no_files}
use tig_swarm_demo.Samples.{sample_db, sample-IsValid, own_best}

abbrev two_files : Db
two_files = record sample_db {
  trajectory_bests =
      record own_best { algorithm_files = some (("mod.rs", "own") ∷ ("a.rs", "sib") ∷ []) } ∷ [];
}

abbrev silent : Owned
silent = record { agent_id = 7; challenge = 1; trajectory_id = 3; program_id = some 4 }

abbrev swept_row : Inactive
swept_row = record {
  id = 1;
  agent_id = 7;
  challenge = 1;
  algorithm_code = "own";
  kernel_code = none;
  algorithm_files = none;
  score = some (pos 10);
  deposited_at = 100;
  trajectory_id = some 3;
  program_id = some 4;
  experiment_id = some 30;
}

sweep-IsValid_example : IsValid (deactivate_inactive_agent_trajectories 60 100 sample_db).1
sweep-IsValid_example = sweep-IsValid 60 100 sample_db sample-IsValid

-- The entry of the two files has lost the sibling.
swept_row_is_pooled :
    IsIn swept_row (deactivate_inactive_agent_trajectories 60 100 two_files).1.inactive_algorithms
unfolding deactivate_inactive_agent_trajectories select update delete deactivate_trajectory
    get_trajectory_best clear_trajectory_best deposit_inactive
swept_row_is_pooled = inr (inl refl)

sweep_deposits_no_files_example :
    IsIn swept_row two_files.inactive_algorithms
    ⊎ ((swept_row.algorithm_files ≡ none) × (is_negative swept_row.score ≡ false))
sweep_deposits_no_files_example =
    sweep_deposits_no_files 60 100 two_files swept_row swept_row_is_pooled
