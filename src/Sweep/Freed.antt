-- ===== src/Sweep/Freed.antt =====
-- What a sweep leaves of the agents that it frees, and of the pool.
use tig_swarm_demo.Prelude.{
  ℕ, ◌≡◌, ap, ◌∙◌, ◌⊎◌, inl, inr, false, Option, none, some, is_some, select, All-update, IsIn,
  IsIn-append, Bool-cases,
}
use tig_swarm_demo.Db.Rows.{TrajectoryBest, Inactive, Db}
use tig_swarm_demo.Db.Trajectories.{deactivate_trajectory}
use tig_swarm_demo.Db.Bests.{clear_trajectory_best}
use tig_swarm_demo.Db.Pool.{deposited, deposit_inactive, is_negative}
use tig_swarm_demo.Db.Valid.{
  IsValid, IsCounted, deactivate-IsValid, deposit-IsValid, clear_best-IsValid,
}
use tig_swarm_demo.Sweep.{
  Owned, is_still_owned, release_pointer, has_other_live, swept_deposit, bank_best, sweep_row,
}

module _ (cutoff_ts timestamp : ℕ) (o : Owned) where
  released-IsValid : (db : Db) → IsValid db → IsValid (release_pointer cutoff_ts o db)
  unfolding release_pointer
  released-IsValid db v = record {
    states =
        All-update IsCounted (is_still_owned cutoff_ts o) _ db.agent_states
          (λ r h. record { improved = h.improved; stalled = h.stalled }) v.states;
    trajectories = v.trajectories;
    bests = v.bests;
    pool = v.pool;
  }

  bank_best-IsValid :
      (db : Db) (best : Option TrajectoryBest)
      → IsValid db
      → IsValid (bank_best o timestamp db best)
  unfolding bank_best
  bank_best-IsValid db none v = v
  bank_best-IsValid db (some best) v = elim (Bool-cases best.feasible) [
    | inl fine ↦ rw fine (
        clear_best-IsValid _ (deposit-IsValid db v (swept_deposit o best timestamp)) o.agent_id
          o.challenge)
    | inr broken ↦ rw broken (clear_best-IsValid db v o.agent_id o.challenge)
  ]

  pub sweep_row-IsValid : (db : Db) → IsValid db → IsValid (sweep_row cutoff_ts timestamp o db).1
  unfolding sweep_row
  sweep_row-IsValid db v =
      elim (Bool-cases (is_some (select (is_still_owned cutoff_ts o) db.agent_states))) [
        | inr gone ↦ rw gone v
        | inl held ↦
            let w = released-IsValid db v in
            elim (Bool-cases (has_other_live cutoff_ts o (release_pointer cutoff_ts o db))) [
              | inl shared ↦ rw (held, shared) (bank_best-IsValid _ _ w)
              | inr alone ↦
                  rw (held, alone)
                    (bank_best-IsValid _ _ (deactivate-IsValid _ w o.trajectory_id timestamp))
            ]
      ]

  -- a pool row that the sweep made
  abbrev pub IsSwept : Inactive → Type 0
  IsSwept row = (row.algorithm_files ≡ none) × (is_negative row.score ≡ false)

  new_row :
      (row : Inactive) (id : ℕ) (best : TrajectoryBest) {B : Type 0}
      → is_negative (some best.score) ≡ false
      → B ⊎ ((row ≡ deposited id (swept_deposit o best timestamp)) ⊎ ⊥)
      → B ⊎ IsSwept row
  unfolding deposited swept_deposit
  new_row row id best good (inl old) = inl old
  new_row row id best good (inr (inl e)) = inr (
    ap (λ (r : Inactive). r.algorithm_files) e,
    ap (λ (r : Inactive). is_negative r.score) e ∙ good,
  )
  new_row row id best good (inr (inr never)) = absurd never

  pool-bank :
      (db : Db) (best : Option TrajectoryBest) (row : Inactive)
      → IsIn row (bank_best o timestamp db best).inactive_algorithms
      → IsIn row db.inactive_algorithms ⊎ IsSwept row
  unfolding bank_best clear_trajectory_best deposit_inactive
  pool-bank db none row h = inl h
  pool-bank db (some best) row h = elim (Bool-cases best.feasible) [
    | inr broken ↦ inl (rw broken at h)
    | inl fine ↦ elim (Bool-cases (is_negative (some best.score))) [
      | inl bad ↦ inl (rw (fine, bad) at h)
      | inr good ↦
          new_row row db.next_inactive best good
            (IsIn-append row db.inactive_algorithms _ (rw (fine, good) at h))
    ]
  ]

  pub pool-sweep_row :
      (db : Db) (row : Inactive)
      → IsIn row (sweep_row cutoff_ts timestamp o db).1.inactive_algorithms
      → IsIn row db.inactive_algorithms ⊎ IsSwept row
  unfolding sweep_row deactivate_trajectory release_pointer
  pool-sweep_row db row h =
      elim (Bool-cases (is_some (select (is_still_owned cutoff_ts o) db.agent_states))) [
        | inr gone ↦ inl (rw gone at h)
        | inl held ↦
            elim (Bool-cases (has_other_live cutoff_ts o (release_pointer cutoff_ts o db))) [
              | inl shared ↦
                  pool-bank (release_pointer cutoff_ts o db) _ row (rw (held, shared) at h)
              | inr alone ↦
                  pool-bank
                    (deactivate_trajectory (release_pointer cutoff_ts o db) o.trajectory_id
                      timestamp)
                    _ row (rw (held, alone) at h)
            ]
      ]
