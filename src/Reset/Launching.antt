-- ===== src/Reset/Launching.antt =====
-- server/trajectory_reset.py, the choice of the next launch point: a fresh start, or the adoption of
-- an entry of the inactive pool.
use tig_swarm_demo.Prelude.{
  ℕ, ◌*◌, ◌%◌, ℤ, String, Bool, true, not, ◌&&◌, Option, none, some, List, [], ◌∷◌, ◌==◌, ltb,
  if◌then◌else◌, is_some, or_else, length, get_or,
}
use tig_swarm_demo.Db.Rows.{Files, Inactive, Db}
use tig_swarm_demo.Db.Trajectories.{
  deactivate_trajectory, reactivate_trajectory, increment_trajectory_agents, trajectory_counts,
}
use tig_swarm_demo.Db.Bests.{row_files}
use tig_swarm_demo.Db.Pool.{remove_inactive}
use tig_swarm_demo.Db.Baseline.{get_mainnet_baseline, is_outstanding}
use tig_swarm_demo.Reset.Trip.{ResetReason, Call}

-- how seed_fn chose the code
pub data Start : Type 0 where
  seed peer stub : Start

-- the result of seed_fn, and of the adoption of a pooled entry
pub record Source : Type 0 where
  pub algorithm_code : String
  pub kernel_code : Option String
  pub algorithm_files : Option Files

-- `reset_info`, with needs_benchmark of an adoption
pub data ResetInfo : Type 0 where
  fresh_start : Start → ResetReason → ResetInfo
  adopted_inactive : ResetReason → (prior_score : Option ℤ) → (needs_benchmark : Bool) → ResetInfo

-- what the launch decides: the code, the trajectory to join, and the floor to inherit
pub record Launch : Type 0 where
  pub source : Source
  pub trajectory_id : Option ℕ
  pub program_id : ℕ
  pub adopted_score : Option ℤ
  pub adopted_experiment_id : Option ℕ
  pub reset_info : ResetInfo
  pub seed_start : Option Start

-- `not inactive_pool or n_traj ** 1.5 < total_deact`, both sides squared
unfoldable pub go_fresh : List Inactive → ℕ × ℕ → Bool
go_fresh [] counts = true
go_fresh (e ∷ pool) counts = ltb (counts.0 * counts.0 * counts.0) (counts.1 * counts.1)

abbrev pub deactivate_current : Db → Option ℕ → ℕ → Db
deactivate_current db none timestamp = db
deactivate_current db (some id) timestamp = deactivate_trajectory db id timestamp

abbrev pub join_trajectory : Db → Option ℕ → Db
join_trajectory db none = db
join_trajectory db (some id) = increment_trajectory_agents (reactivate_trajectory db id) id

-- `random.choice`
abbrev pub choice {ℓ} : {A : Type ℓ} → ℕ → A → List A → A
choice draw x xs = get_or (x ∷ xs) (draw % length (x ∷ xs)) x

-- the fingerprint that an outstanding measurement waits for
unfoldable pub wanted_code : Db → ℕ → Option ℕ
wanted_code db challenge = elim (get_mainnet_baseline db challenge) [
  | none ↦ none
  | some row ↦ if is_outstanding row.status then row.code_fingerprint else none
]

unfoldable pub adopted_launch : Call → ResetReason → Inactive → Launch
adopted_launch call reason picked = record {
  source = record {
    algorithm_code = picked.algorithm_code;
    kernel_code = picked.kernel_code;
    algorithm_files = row_files picked.algorithm_files;
  };
  trajectory_id = picked.trajectory_id;
  program_id = or_else picked.program_id call.new_program_id;
  adopted_score = picked.score;
  adopted_experiment_id = picked.experiment_id;
  reset_info = adopted_inactive reason picked.score (not (is_some picked.score));
  seed_start = none;
}

-- the launch and the database behind it: a picked entry is consumed, and its trajectory joined
unfoldable pub adopt : Call → Db → ResetReason → Inactive → Launch × Db
unfolding adopted_launch
adopt call db reason picked = (
  adopted_launch call reason picked,
  join_trajectory (remove_inactive db picked.id) picked.trajectory_id,
)

-- db.code_fingerprint is a SHA-256 digest; the server only compares its values.
module _ (fingerprint : String → ℕ) (seed_fn : Db → Call → Source × Start) where
  -- the first unscored entry that holds the code of the baseline
  unfoldable pub find_unscored : ℕ → List Inactive → Option Inactive
  find_unscored code [] = none
  find_unscored code (e ∷ pool) =
      if not (is_some e.score) && fingerprint e.algorithm_code == code
      then some e
      else find_unscored code pool

  -- _pick_inactive, on the wanted fingerprint and a pool with first entry `e`
  unfoldable pub pick_wanted : Option ℕ → ℕ → Inactive → List Inactive → Inactive
  unfolding find_unscored
  pick_wanted none draw e pool = choice draw e pool
  pick_wanted (some code) draw e pool = or_else (find_unscored code (e ∷ pool)) (choice draw e pool)

  -- _pick_inactive
  unfoldable pub pick_inactive : Db → ℕ → ℕ → Inactive → List Inactive → Inactive
  unfolding pick_wanted wanted_code
  pick_inactive db challenge draw e pool = pick_wanted (wanted_code db challenge) draw e pool

  unfoldable pub fresh_launch : Call → Db → ResetReason → Launch
  fresh_launch call db reason =
      let (source, start) = seed_fn db call in
      record {
        source = source;
        trajectory_id = none;
        program_id = call.new_program_id;
        adopted_score = none;
        adopted_experiment_id = none;
        reset_info = fresh_start start reason;
        seed_start = some start;
      }

  unfoldable pub launch : Call → Db → ResetReason → List Inactive → Launch × Db
  unfolding fresh_launch adopt
  launch call db reason [] = (fresh_launch call db reason, db)
  launch call db reason (e ∷ pool) =
      if go_fresh (e ∷ pool) (trajectory_counts db call.challenge)
      then (fresh_launch call db reason, db)
      else adopt call db reason (pick_inactive db call.challenge call.draw e pool)
