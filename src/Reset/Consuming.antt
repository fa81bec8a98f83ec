-- ===== src/Reset/Consuming.antt =====
-- An adoption takes its entry out of the pool for good.
use tig_swarm_demo.Prelude.{
  ℕ, ◌<◌, ◌≡◌, ◌≢◌, refl, ap, subst, ◌∙◌, inl, inr, String, false, Option, none, some, List, [],
  ◌∷◌, arith, ◌==◌, IsIn, IsIn-delete, IsIn-select_all, All-IsIn, delete,
}
use tig_swarm_demo.Db.Rows.{AgentState, TrajectoryBest, Inactive, Db}
use tig_swarm_demo.Db.Trajectories.{reactivate_trajectory, increment_trajectory_agents}
use tig_swarm_demo.Db.Pool.{remove_inactive, get_inactive_with_deactivations}
use tig_swarm_demo.Db.Valid.{IsValid, IsAdoptable}
use tig_swarm_demo.Reset.Trip.{ResetReason, Call, trajectory_of}
use tig_swarm_demo.Reset.Launching.{
  Source, Start, Launch, join_trajectory, launch, adopt, adopted_launch, pick_inactive,
}
use tig_swarm_demo.Reset.Machine.{ResetOutcome, settle, maybe_reset_trajectory}
use tig_swarm_demo.Reset.Recheck.{acs, launched, parked, maybe_reset-inversion}
use tig_swarm_demo.Reset.Adoption.{Launched, fresh, adopted, launch-Launched}
use tig_swarm_demo.Reset.Banking.{pool-deposit, pool-settle, pool-deactivate}

next-join : (db : Db) (id : Option ℕ) → (join_trajectory db id).next_inactive ≡ db.next_inactive
unfolding reactivate_trajectory increment_trajectory_agents
next-join db none = refl
next-join db (some id) = refl

next-launch :
    (fingerprint : String → ℕ) (seed_fn : Db → Call → Source × Start) (call : Call) (db : Db)
    (reason : ResetReason) (pool : List Inactive)
    → (launch fingerprint seed_fn call db reason pool).1.next_inactive ≡ db.next_inactive
unfolding launch adopt remove_inactive
next-launch fingerprint seed_fn call db reason [] = refl
next-launch fingerprint seed_fn call db reason (x ∷ pool) =
    let e = pick_inactive fingerprint seed_fn db call.challenge call.draw x pool in
    ground (arith, next-join (remove_inactive db e.id) e.trajectory_id)

-- The entry that a reset adopts: its code and score are what the agent gets, and it is used up.
pub record IsAdopted (call : Call) (db db' : Db) (o : ResetOutcome) (e : Inactive) : Type 0 where
  pub pooled : IsIn e db.inactive_algorithms
  pub challenge : e.challenge ≡ call.challenge
  pub code : o.source.algorithm_code ≡ e.algorithm_code
  pub score : o.current_trajectory_best ≡ e.score
  pub consumed : (row : Inactive) → IsIn row db'.inactive_algorithms → row.id ≢ e.id

-- No row of the settled pool has the id of the adopted entry.
consumed-settle :
    (call : Call) (acs : Option AgentState) (best : TrajectoryBest) (r : Launch × Db)
    (rows : List Inactive) (e : Inactive)
    → r.1.inactive_algorithms ≡ delete (λ row. row.id == e.id) rows
    → e.id < r.1.next_inactive
    → (row : Inactive) → IsIn row (settle call acs best r).1.inactive_algorithms
    → row.id ≢ e.id
consumed-settle call acs best r rows e gone old row h same =
    elim (pool-deposit call acs best r.1 row
      (subst (IsIn row) (pool-settle call acs best r.0 r.1) h)) [
        | inr new ↦ omega (arith, new.1)
        | inl kept ↦
            differs (IsIn-delete (λ x. x.id == e.id) row rows (subst (IsIn row) gone kept)).1
      ]
  where
    differs : (row.id == e.id) ≡ false → ⊥
    differs d = ground (arith, same)

Launched-IsAdopted :
    (call : Call) (acs : Option AgentState) (best : TrajectoryBest) (db parked : Db)
    (r : Launch × Db)
    → IsValid db
    → parked.inactive_algorithms ≡ db.inactive_algorithms
    → r.1.next_inactive ≡ db.next_inactive
    → Launched call parked (get_inactive_with_deactivations parked call.challenge) r
    → (settle call acs best r).0.seed_start ≡ none
    → (e : Inactive) × IsAdopted call db (settle call acs best r).1 (settle call acs best r).0 e
unfolding settle get_inactive_with_deactivations adopted_launch
Launched-IsAdopted call before best db stopped r v same next (fresh _ _ start started) chosen =
    absurd (cc (started, chosen))
Launched-IsAdopted call before best db stopped r v same next (adopted e reason pooled gone is)
      chosen =
    let (inside, here) = IsIn-select_all (λ x. x.challenge == call.challenge) e _ pooled in
    let in_db : IsIn e db.inactive_algorithms = subst (IsIn e) same inside in
    (
      e,
      record {
        pooled = in_db;
        challenge = ground (arith, here);
        code = ap (λ (l : Launch). l.source.algorithm_code) is;
        score = ap (λ (l : Launch). l.adopted_score) is;
        consumed = consumed-settle call before best r stopped.inactive_algorithms e gone (
            omega (
              arith,
              next,
              (All-IsIn (IsAdoptable db.next_inactive) db.inactive_algorithms v.pool in_db).issued,
            ));
      },
    )

module _ (fingerprint : String → ℕ) (seed_fn : Db → Call → Source × Start) (call : Call)
    (db db' : Db) (o : ResetOutcome)
    (reset : maybe_reset_trajectory fingerprint seed_fn call db ≡ some (o, db')) where
  -- In a well-formed database, a reset that is no fresh start adopts one entry of the pool: one of
  -- the agent's own challenge, whose code and score it hands out, and no row of the pool after the
  -- reset, the agent's own deposit included, has the id of that entry.
  pub adoption_consumes_entry :
      IsValid db → o.seed_start ≡ none → (e : Inactive) × IsAdopted call db db' o e
  adoption_consumes_entry v chosen =
      let (best, reason, _, _, run) =
        maybe_reset-inversion fingerprint seed_fn call db (o, db') reset in
      let before = acs fingerprint seed_fn call db in
      let stopped = parked fingerprint seed_fn call db in
      let still = pool-deactivate db (trajectory_of before) call.timestamp in
      subst
        (λ (x : ResetOutcome × Db).
          x.0.seed_start ≡ none → (e : Inactive) × IsAdopted call db x.1 x.0 e)
        run
        (Launched-IsAdopted call before best db stopped
          (launched fingerprint seed_fn call db reason) v still.0
          (next-launch fingerprint seed_fn call stopped reason _ ∙ still.1)
          (launch-Launched fingerprint seed_fn call stopped reason _))
        chosen
