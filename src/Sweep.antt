-- ===== src/Sweep.antt =====
-- deactivate_inactive_agent_trajectories (server/db.py): the trajectories of agents that went silent.
use tig_swarm_demo.Prelude.{
  ℕ, ◌+◌, Bool, true, false, not, ◌&&◌, Option, none, some, List, [], ◌∷◌, ◌==◌, ltb, if◌then◌else◌,
  is_some, select, update,
}
use tig_swarm_demo.Db.Rows.{AgentState, TrajectoryBest, Db}
use tig_swarm_demo.Db.States.{is_state}
use tig_swarm_demo.Db.Trajectories.{deactivate_trajectory}
use tig_swarm_demo.Db.Bests.{get_trajectory_best, clear_trajectory_best}
use tig_swarm_demo.Db.Pool.{Deposit, deposit_inactive}
pub mod Freed
pub mod Whole
pub mod Tests

-- a row of the snapshot
pub record Owned : Type 0 where
  pub agent_id : ℕ
  pub challenge : ℕ
  pub trajectory_id : ℕ
  pub program_id : Option ℕ

-- `current_trajectory_id = ?`, which no NULL satisfies
abbrev pub is_on : ℕ → Option ℕ → Bool
is_on id none = false
is_on id (some t) = t == id

-- the snapshot of the silent agents that hold a trajectory
unfoldable pub snapshot : ℕ → List AgentState → List Owned
snapshot cutoff_ts [] = []
snapshot cutoff_ts (r ∷ rows) =
    let rest = snapshot cutoff_ts rows in
    if ltb r.last_active_at cutoff_ts
    then (elim r.current_trajectory_id [
      | none ↦ rest
      | some t ↦
          record {
            agent_id = r.agent_id;
            challenge = r.challenge;
            trajectory_id = t;
            program_id = r.current_program_id;
          }
          ∷ rest
    ])
    else rest

-- the WHERE clause of the guard
abbrev pub is_still_owned : ℕ → Owned → AgentState → Bool
is_still_owned cutoff_ts o r =
    is_state o.agent_id o.challenge r
    && ltb r.last_active_at cutoff_ts
    && is_on o.trajectory_id r.current_trajectory_id

-- the UPDATE of the guard
unfoldable pub release_pointer : ℕ → Owned → Db → Db
release_pointer cutoff_ts o db = record db {
  agent_states =
      update (is_still_owned cutoff_ts o)
        (λ r. record r { current_trajectory_id = none; current_program_id = none }) db.agent_states;
}

-- `other_live is not None`
unfoldable pub has_other_live : ℕ → Owned → Db → Bool
has_other_live cutoff_ts o db = is_some (
    select
      (λ r.
        is_on o.trajectory_id r.current_trajectory_id
        && not (ltb r.last_active_at cutoff_ts)
        && not (is_state o.agent_id o.challenge r))
      db.agent_states)

-- the arguments of deposit_inactive; algorithm_files is left at its default
unfoldable pub swept_deposit : Owned → TrajectoryBest → ℕ → Deposit
swept_deposit o best timestamp = record {
  agent_id = o.agent_id;
  challenge = o.challenge;
  algorithm_code = best.algorithm_code;
  score = some best.score;
  deposited_at = timestamp;
  trajectory_id = some o.trajectory_id;
  program_id = o.program_id;
  kernel_code = best.kernel_code;
  experiment_id = best.experiment_id;
  algorithm_files = none;
}

-- `if best is not None`
unfoldable pub bank_best : Owned → ℕ → Db → Option TrajectoryBest → Db
unfolding swept_deposit
bank_best o timestamp db none = db
bank_best o timestamp db (some best) =
    clear_trajectory_best
      (if best.feasible then deposit_inactive db (swept_deposit o best timestamp) else db)
      o.agent_id o.challenge

-- what follows a guard that matched
unfoldable pub free_trajectory : ℕ → ℕ → Owned → Db → Db
unfolding release_pointer has_other_live bank_best
free_trajectory cutoff_ts timestamp o db =
    let released = release_pointer cutoff_ts o db in
    let parked =
      if has_other_live cutoff_ts o released
      then released
      else deactivate_trajectory released o.trajectory_id timestamp in
    bank_best o timestamp parked (get_trajectory_best parked o.agent_id o.challenge)

-- one round of the loop: whether it counted, and the database behind it
unfoldable pub sweep_row : ℕ → ℕ → Owned → Db → Bool × Db
unfolding free_trajectory
sweep_row cutoff_ts timestamp o db =
    if is_some (select (is_still_owned cutoff_ts o) db.agent_states)
    then (true, free_trajectory cutoff_ts timestamp o db)
    else (false, db)

unfoldable pub sweep_rows : ℕ → ℕ → List Owned → Db → ℕ × Db
unfolding sweep_row
sweep_rows cutoff_ts timestamp [] db = (0, db)
sweep_rows cutoff_ts timestamp (o ∷ owned) db =
    let (counted, swept) = sweep_row cutoff_ts timestamp o db in
    let (processed, last) = sweep_rows cutoff_ts timestamp owned swept in
    ((if counted then 1 else 0) + processed, last)

-- deactivate_inactive_agent_trajectories
unfoldable pub deactivate_inactive_agent_trajectories : ℕ → ℕ → Db → ℕ × Db
unfolding snapshot sweep_rows
deactivate_inactive_agent_trajectories cutoff_ts timestamp db =
    sweep_rows cutoff_ts timestamp (snapshot cutoff_ts db.agent_states) db
