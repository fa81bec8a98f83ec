-- ===== src/Sweep/Whole.antt =====
-- A round of the sweep, and all rounds together.
use tig_swarm_demo.Prelude.{
  ℕ, ◌≡◌, refl, ap, ◌∙◌, ◌⊎◌, inl, inr, true, false, Option, none, some, List, [], ◌∷◌, arith,
  is_some, select, update, select-delete, IsIn, Bool-cases,
}
use tig_swarm_demo.Db.Rows.{AgentState, TrajectoryBest, Inactive, Db}
use tig_swarm_demo.Db.Trajectories.{deactivate_trajectory}
use tig_swarm_demo.Db.Bests.{get_trajectory_best, clear_trajectory_best, is_best}
use tig_swarm_demo.Db.Pool.{deposit_inactive, is_negative}
use tig_swarm_demo.Db.Valid.{IsValid}
use tig_swarm_demo.Sweep.{
  Owned, snapshot, is_still_owned, release_pointer, has_other_live, bank_best, sweep_row,
  sweep_rows, deactivate_inactive_agent_trajectories,
}
use tig_swarm_demo.Sweep.Freed.{sweep_row-IsValid, pool-sweep_row}

module _ (cutoff_ts timestamp : ℕ) where
  rows-IsValid :
      (owned : List Owned) (db : Db)
      → IsValid db
      → IsValid (sweep_rows cutoff_ts timestamp owned db).1
  unfolding sweep_rows
  rows-IsValid [] db v = v
  rows-IsValid (o ∷ owned) db v =
      rows-IsValid owned (sweep_row cutoff_ts timestamp o db).1
        (sweep_row-IsValid cutoff_ts timestamp o db v)

  -- A sweep keeps the database well-formed.
  pub sweep-IsValid :
      (db : Db)
      → IsValid db
      → IsValid (deactivate_inactive_agent_trajectories cutoff_ts timestamp db).1
  unfolding deactivate_inactive_agent_trajectories
  sweep-IsValid db v = rows-IsValid (snapshot cutoff_ts db.agent_states) db v

  pool-rows :
      (owned : List Owned) (db : Db) (row : Inactive)
      → IsIn row (sweep_rows cutoff_ts timestamp owned db).1.inactive_algorithms
      → IsIn row db.inactive_algorithms
        ⊎ ((row.algorithm_files ≡ none) × (is_negative row.score ≡ false))
  unfolding sweep_rows
  pool-rows [] db row h = inl h
  pool-rows (o ∷ owned) db row h =
      elim (pool-rows owned (sweep_row cutoff_ts timestamp o db).1 row h) [
        | inr new ↦ inr new
        | inl old ↦ pool-sweep_row cutoff_ts timestamp o db row old
      ]

  -- Every row of the pool after a sweep was there before it, or it has no sibling files, whatever
  -- files the swept algorithm had, and its score is not negative.
  pub sweep_deposits_no_files :
      (db : Db) (row : Inactive)
      → IsIn row
          (deactivate_inactive_agent_trajectories cutoff_ts timestamp db).1.inactive_algorithms
      → IsIn row db.inactive_algorithms
        ⊎ ((row.algorithm_files ≡ none) × (is_negative row.score ≡ false))
  unfolding deactivate_inactive_agent_trajectories
  sweep_deposits_no_files db row h = pool-rows (snapshot cutoff_ts db.agent_states) db row h

  module _ (o : Owned) where
    abbrev released : AgentState → AgentState
    released r = record r { current_trajectory_id = none; current_program_id = none }

    released-is_still_owned : (r : AgentState) → is_still_owned cutoff_ts o (released r) ≡ false
    released-is_still_owned r = ground arith

    released_rows :
        (rows : List AgentState)
        → is_some (
            select (is_still_owned cutoff_ts o) (update (is_still_owned cutoff_ts o) released rows))
          ≡ false
    unfolding select update
    released_rows [] = refl
    released_rows (r ∷ rows) = elim (Bool-cases (is_still_owned cutoff_ts o r)) [
      | inl owned ↦ rw (owned, released-is_still_owned r) (released_rows rows)
      | inr other ↦ rw (other, other) (released_rows rows)
    ]

    best-bank :
        (db : Db) (best : Option TrajectoryBest)
        → get_trajectory_best db o.agent_id o.challenge ≡ best
        → get_trajectory_best (bank_best o timestamp db best) o.agent_id o.challenge ≡ none
    unfolding bank_best get_trajectory_best clear_trajectory_best
    best-bank db none e = e
    best-bank db (some best) e = select-delete (is_best o.agent_id o.challenge) _

    states-bank :
        (db : Db) (best : Option TrajectoryBest)
        → (bank_best o timestamp db best).agent_states ≡ db.agent_states
    unfolding bank_best clear_trajectory_best deposit_inactive
    states-bank db none = refl
    states-bank db (some best) = ground arith

    -- A round that counts leaves its agent without a trajectory best and without the swept trajectory;
    -- a round that does not count leaves the database as it was.
    pub sweep_row_lem :
        (db : Db)
        → ((sweep_row cutoff_ts timestamp o db).0 ≡ true)
            × (get_trajectory_best (sweep_row cutoff_ts timestamp o db).1 o.agent_id o.challenge
                ≡ none)
            × (is_some (
                  select
                    (is_still_owned cutoff_ts o)
                    (sweep_row cutoff_ts timestamp o db).1.agent_states)
                ≡ false)
          ⊎ ((sweep_row cutoff_ts timestamp o db).0 ≡ false)
            × ((sweep_row cutoff_ts timestamp o db).1 ≡ db)
    unfolding sweep_row release_pointer deactivate_trajectory
    sweep_row_lem db =
        elim (Bool-cases (is_some (select (is_still_owned cutoff_ts o) db.agent_states))) [
          | inr gone ↦ inr (rw gone (refl, refl))
          | inl held ↦
              let freed = release_pointer cutoff_ts o db in
              let rows = released_rows db.agent_states in
              elim (Bool-cases (has_other_live cutoff_ts o freed)) [
                | inl shared ↦
                    let best = get_trajectory_best freed o.agent_id o.challenge in
                    inl (
                      rw (held, shared)
                        (
                          refl,
                          best-bank freed best refl,
                          ap (λ xs. is_some (select (is_still_owned cutoff_ts o) xs))
                                (states-bank freed best)
                              ∙ rows,
                        ))
                | inr alone ↦
                    let parked = deactivate_trajectory freed o.trajectory_id timestamp in
                    let best = get_trajectory_best parked o.agent_id o.challenge in
                    inl (
                      rw (held, alone)
                        (
                          refl,
                          best-bank parked best refl,
                          ap (λ xs. is_some (select (is_still_owned cutoff_ts o) xs))
                                (states-bank parked best)
                              ∙ rows,
                        ))
              ]
        ]
