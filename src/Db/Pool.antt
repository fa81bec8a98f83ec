-- ===== src/Db/Pool.antt =====
-- inactive_algorithms, the pool of abandoned trajectories that a reset adopts from (server/db.py).
use tig_swarm_demo.Prelude.{
  ℕ, ◌+◌, ℤ, pos, ltb_ℤ, String, Bool, false, Option, none, some, List, [], ◌∷◌, ◌++◌, ◌==◌,
  if◌then◌else◌, select_all, delete,
}
use tig_swarm_demo.Db.Rows.{Inactive, Db, Files}

-- `score is not None and score < 0`
abbrev pub is_negative : Option ℤ → Bool
is_negative none = false
is_negative (some score) = ltb_ℤ score (pos 0)

-- the arguments of deposit_inactive
pub record Deposit : Type 0 where
  pub agent_id : ℕ
  pub challenge : ℕ
  pub algorithm_code : String
  pub score : Option ℤ
  pub deposited_at : ℕ
  pub trajectory_id : Option ℕ
  pub program_id : Option ℕ
  pub kernel_code : Option String
  pub experiment_id : Option ℕ
  pub algorithm_files : Option Files

-- the inserted row
unfoldable pub deposited : ℕ → Deposit → Inactive
deposited id d = record {
  id = id;
  agent_id = d.agent_id;
  challenge = d.challenge;
  algorithm_code = d.algorithm_code;
  kernel_code = d.kernel_code;
  algorithm_files = d.algorithm_files;
  score = d.score;
  deposited_at = d.deposited_at;
  trajectory_id = d.trajectory_id;
  program_id = d.program_id;
  experiment_id = d.experiment_id;
}

-- deposit_inactive; the callers ignore the row id
unfoldable pub deposit_inactive : Db → Deposit → Db
unfolding deposited
deposit_inactive db d = if is_negative d.score then db else record db {
  inactive_algorithms = db.inactive_algorithms ++ deposited db.next_inactive d ∷ [];
  next_inactive = db.next_inactive + 1;
}

-- remove_inactive
unfoldable pub remove_inactive : Db → ℕ → Db
remove_inactive db inactive_id = record db {
  inactive_algorithms = delete (λ r. r.id == inactive_id) db.inactive_algorithms;
}

-- get_inactive_with_deactivations; no caller reads the joined count
unfoldable pub get_inactive_with_deactivations : Db → ℕ → List Inactive
get_inactive_with_deactivations db challenge =
    select_all (λ r. r.challenge == challenge) db.inactive_algorithms
