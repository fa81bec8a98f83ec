-- ===== src/Reset/Validity.antt =====
-- A reset keeps the database well-formed, and what it puts into the inactive pool.
use tig_swarm_demo.Prelude.{
  ℕ, ◌≡◌, refl, subst, inl, inr, String, Option, none, some, List, [], ◌∷◌, arith, Bool-cases,
  Option-cases,
}
use tig_swarm_demo.Db.Rows.{AgentState, TrajectoryBest, Inactive, Db}
use tig_swarm_demo.Db.Trajectories.{reactivate_trajectory, trajectory_counts}
use tig_swarm_demo.Db.Valid.{
  IsValid, deactivate-IsValid, reactivate-IsValid, increment_agents-IsValid, remove-IsValid,
  deposit-IsValid, upsert_best-IsValid, clear_best-IsValid, update_state-IsValid,
}
use tig_swarm_demo.Reset.Trip.{ResetReason, Call, trajectory_of}
use tig_swarm_demo.Reset.Launching.{
  Source, Start, Launch, deactivate_current, join_trajectory, launch, adopt, pick_inactive,
  go_fresh,
}
use tig_swarm_demo.Reset.Machine.{
  ResetOutcome, deposit_best, seed_best, floor_row, restart, settle, maybe_reset_trajectory,
}
use tig_swarm_demo.Reset.Recheck.{acs, maybe_reset-inversion}

deactivate_current-IsValid :
    (db : Db) (id : Option ℕ) (timestamp : ℕ)
    → IsValid db
    → IsValid (deactivate_current db id timestamp)
deactivate_current-IsValid db none timestamp v = v
deactivate_current-IsValid db (some id) timestamp v = deactivate-IsValid db v id timestamp

join-IsValid : (db : Db) (id : Option ℕ) → IsValid db → IsValid (join_trajectory db id)
join-IsValid db none v = v
join-IsValid db (some id) v =
    increment_agents-IsValid (reactivate_trajectory db id) (reactivate-IsValid db v id) id

module _ (call : Call) where
  deposit_best-IsValid :
      (db : Db) (acs : Option AgentState) (best : TrajectoryBest)
      → IsValid db
      → IsValid (deposit_best call db acs best)
  unfolding deposit_best
  deposit_best-IsValid db acs best v = elim (Bool-cases best.feasible) [
    | inl e ↦ rw e (deposit-IsValid db v _)
    | inr e ↦ rw e v
  ]

  seed_best-IsValid : (l : Launch) (db : Db) → IsValid db → IsValid (seed_best call l db)
  unfolding seed_best
  seed_best-IsValid l db v = elim (Option-cases l.adopted_score) [
    | inl e ↦ rw (e, seed_best) (clear_best-IsValid db v call.agent_id call.challenge)
    | inr (s, e) ↦ rw (e, seed_best) (upsert_best-IsValid db v (floor_row call l s) refl)
  ]

  settle-IsValid :
      (acs : Option AgentState) (best : TrajectoryBest) (l : Launch) (db : Db)
      → IsValid db
      → IsValid (settle call acs best (l, db)).1
  unfolding settle
  settle-IsValid acs best l db v =
      update_state-IsValid _ (seed_best-IsValid l _ (deposit_best-IsValid db acs best v))
        call.agent_id call.challenge (restart l) (λ r h. ground arith)

  adopt-IsValid :
      (db : Db) (reason : ResetReason) (e : Inactive)
      → IsValid db
      → IsValid (adopt call db reason e).1
  unfolding adopt
  adopt-IsValid db reason e v = join-IsValid _ e.trajectory_id (remove-IsValid db v e.id)

module _ (fingerprint : String → ℕ) (seed_fn : Db → Call → Source × Start) (call : Call) where
  launch-IsValid :
      (db : Db) (reason : ResetReason) (pool : List Inactive)
      → IsValid db
      → IsValid (launch fingerprint seed_fn call db reason pool).1
  unfolding launch
  launch-IsValid db reason [] v = v
  launch-IsValid db reason (e ∷ pool) v =
      elim (Bool-cases (go_fresh (e ∷ pool) (trajectory_counts db call.challenge))) [
        | inl fresh ↦ rw fresh v
        | inr reuse ↦ rw reuse (
            adopt-IsValid call db reason
              (pick_inactive fingerprint seed_fn db call.challenge call.draw e pool) v)
      ]

  -- A reset keeps the database well-formed: every stored best is feasible, every pooled entry has an
  -- issued id and a score that is absent or at least 0, an agent's improvements and stagnation are
  -- counted among its experiments, and a trajectory's momentum is at most 4.
  pub reset-IsValid :
      (db db' : Db) (o : ResetOutcome)
      → IsValid db
      → maybe_reset_trajectory fingerprint seed_fn call db ≡ some (o, db')
      → IsValid db'
  reset-IsValid db db' o v reset =
      let (best, reason, _, _, run) =
        maybe_reset-inversion fingerprint seed_fn call db (o, db') reset in
      subst (λ (r : ResetOutcome × Db). IsValid r.1) run
        (settle-IsValid call (acs fingerprint seed_fn call db) best _ _ (
          launch-IsValid _ reason _ (
            deactivate_current-IsValid db (trajectory_of (acs fingerprint seed_fn call db))
              call.timestamp v)))
