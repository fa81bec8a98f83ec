-- ===== src/Reset/Banking.antt =====
-- The inactive pool after a reset: what it consumed, and what it deposited.
use tig_swarm_demo.Prelude.{
  ℕ, ◌≡◌, refl, sym, ap, subst, ◌⊎◌, inl, inr, String, true, false, Option, none, some, List, arith,
  ◌==◌, IsIn, IsIn-append, IsIn-delete, Bool-cases,
}
use tig_swarm_demo.Db.Rows.{AgentState, TrajectoryBest, Inactive, Db}
use tig_swarm_demo.Db.States.{update_agent_challenge_state}
use tig_swarm_demo.Db.Trajectories.{deactivate_trajectory}
use tig_swarm_demo.Db.Bests.{upsert_trajectory_best, clear_trajectory_best, get_trajectory_best}
use tig_swarm_demo.Db.Pool.{deposit_inactive, is_negative}
use tig_swarm_demo.Reset.Trip.{Call, trajectory_of}
use tig_swarm_demo.Reset.Launching.{Source, Start, Launch, deactivate_current}
use tig_swarm_demo.Reset.Machine.{
  ResetOutcome, deposit_best, seed_best, settle, maybe_reset_trajectory,
}
use tig_swarm_demo.Reset.Recheck.{acs, launched, parked, maybe_reset-inversion}
use tig_swarm_demo.Reset.Adoption.{Launched, fresh, adopted, launch-Launched}

-- A pool row that holds the agent's own best, which is feasible and not negative.
pub record IsBanked (call : Call) (best : TrajectoryBest) (row : Inactive) : Type 0 where
  pub feasible : best.feasible ≡ true
  pub nonnegative : is_negative (some best.score) ≡ false
  pub challenge : row.challenge ≡ call.challenge
  pub depositor : row.agent_id ≡ call.agent_id
  pub code : row.algorithm_code ≡ best.algorithm_code
  pub files : row.algorithm_files ≡ best.algorithm_files
  pub score : row.score ≡ some best.score

-- The one new row, or an old one.
last_row : {A : Type 0} {B C : Type 0} {a x : A} → B ⊎ ((a ≡ x) ⊎ ⊥) → ((a ≡ x) → C) → B ⊎ C
last_row (inl b) f = inl b
last_row (inr (inl e)) f = inr (f e)
last_row (inr (inr never)) f = absurd never

module _ (call : Call) (acs : Option AgentState) (best : TrajectoryBest) where
  pub pool-deposit :
      (db : Db) (row : Inactive)
      → IsIn row (deposit_best call db acs best).inactive_algorithms
      → IsIn row db.inactive_algorithms ⊎ (IsBanked call best row × (row.id ≡ db.next_inactive))
  unfolding deposit_best deposit_inactive
  pool-deposit db row h = elim (Bool-cases best.feasible) [
    | inr infeasible ↦ inl (rw infeasible at h)
    | inl fine ↦ elim (Bool-cases (is_negative (some best.score))) [
      | inl bad ↦ inl (rw (fine, bad) at h)
      | inr good ↦ last_row (IsIn-append row db.inactive_algorithms _ (rw (fine, good) at h)) (λ e.
          (
            record {
              feasible = fine;
              nonnegative = good;
              challenge = ap (λ (r : Inactive). r.challenge) e;
              depositor = ap (λ (r : Inactive). r.agent_id) e;
              code = ap (λ (r : Inactive). r.algorithm_code) e;
              files = ap (λ (r : Inactive). r.algorithm_files) e;
              score = ap (λ (r : Inactive). r.score) e;
            },
            ap (λ (r : Inactive). r.id) e,
          ))
    ]
  ]

  pub pool-settle :
      (l : Launch) (db : Db)
      → (settle call acs best (l, db)).1.inactive_algorithms
        ≡ (deposit_best call db acs best).inactive_algorithms
  unfolding settle seed_best upsert_trajectory_best clear_trajectory_best
      update_agent_challenge_state
  pool-settle l db = ground arith

pub pool-deactivate :
    (db : Db) (id : Option ℕ) (timestamp : ℕ)
    → ((deactivate_current db id timestamp).inactive_algorithms ≡ db.inactive_algorithms)
      × ((deactivate_current db id timestamp).next_inactive ≡ db.next_inactive)
unfolding deactivate_trajectory
pool-deactivate db none timestamp = (refl, refl)
pool-deactivate db (some id) timestamp = (refl, refl)

pool-launched :
    (call : Call) (db : Db) (pool : List Inactive) (r : Launch × Db)
    → Launched call db pool r
    → (row : Inactive) → IsIn row r.1.inactive_algorithms
    → IsIn row db.inactive_algorithms
pool-launched call db pool r (fresh same _ _ _) row h = subst (IsIn row) same h
pool-launched call db pool r (adopted e reason _ gone _) row h =
    (IsIn-delete (λ x. x.id == e.id) row db.inactive_algorithms (subst (IsIn row) gone h)).0

module _ (fingerprint : String → ℕ) (seed_fn : Db → Call → Source × Start) (call : Call)
    (db db' : Db) (o : ResetOutcome)
    (reset : maybe_reset_trajectory fingerprint seed_fn call db ≡ some (o, db')) where
  -- Every row of the pool after a reset was there before it, or is the deposit of the agent's own
  -- best: a feasible best whose score is at least 0, with its code, its files and its score.
  pub reset_deposits_own_best :
      (row : Inactive)
      → IsIn row db'.inactive_algorithms
      → IsIn row db.inactive_algorithms
        ⊎ ((best : TrajectoryBest) × (get_trajectory_best db call.agent_id call.challenge
              ≡ some best)
            × IsBanked call best row)
  reset_deposits_own_best row h =
      let (best, reason, has_best, _, run) =
        maybe_reset-inversion fingerprint seed_fn call db (o, db') reset in
      let before = acs fingerprint seed_fn call db in
      let stopped = parked fingerprint seed_fn call db in
      let r = launched fingerprint seed_fn call db reason in
      let inside : IsIn row (settle call before best r).1.inactive_algorithms =
        subst (λ (x : ResetOutcome × Db). IsIn row x.1.inactive_algorithms) (sym run) h in
      elim (pool-deposit call before best r.1 row
        (subst (IsIn row) (pool-settle call before best r.0 r.1) inside)) [
          | inr new ↦ inr (best, has_best, new.0)
          | inl old ↦ inl (
              subst (IsIn row) (pool-deactivate db (trajectory_of before) call.timestamp).0 (
                pool-launched call stopped _ r
                  (launch-Launched fingerprint seed_fn call stopped reason _) row old))
        ]
