-- ===== src/Reset/Twice.antt =====
-- The negative cull after an adoption: the joined trajectory keeps its edits.
use tig_swarm_demo.Prelude.{
  ℕ, ◌<◌, ◌≡◌, refl, ap, subst, ◌∙◌, ℤ, pos, String, true, false, Option, none, some, arith,
  Bool-cases, inl, inr,
}
use tig_swarm_demo.Db.Rows.{AgentState, TrajectoryBest, Db}
use tig_swarm_demo.Db.States.{get_agent_challenge_state, is_better}
use tig_swarm_demo.Reset.Trip.{
  ResetReason, stagnation, negative_cull, Call, trajectory_of, is_stagnated, has_edits, is_culled,
  reset_reason,
}
use tig_swarm_demo.Reset.Launching.{Source, Start, Launch}
use tig_swarm_demo.Reset.Machine.{
  ResetOutcome, settle, floor_row, finish_reset, maybe_reset_trajectory,
}
use tig_swarm_demo.Reset.Recheck.{again, acs, launched, maybe_reset-inversion, floor-settle}
use tig_swarm_demo.Reset.Once.{best-reset}

reset_reason-some :
    (call : Call) (db : Db) (state : Option AgentState) (b : TrajectoryBest)
    → call.force_reason ≡ none
    → is_culled call db state b ≡ true
    → (reason : ResetReason) × (reset_reason call db state (some b) ≡ some reason)
unfolding reset_reason
reset_reason-some call db state b free culled = elim (Bool-cases (is_stagnated call state)) [
  | inl stuck ↦ (stagnation, rw (free, stuck) refl)
  | inr fine ↦ (negative_cull, rw (free, fine, culled) refl)
]

finish_reset-some :
    (fingerprint : String → ℕ) (seed_fn : Db → Call → Source × Start) (call : Call) (db : Db)
    (acs : Option AgentState) (best? : Option TrajectoryBest) (reason? : Option ResetReason)
    (b : TrajectoryBest) (reason : ResetReason)
    → best? ≡ some b
    → reason? ≡ some reason
    → (r : ResetOutcome × Db) × (finish_reset fingerprint seed_fn call db acs best? reason?
        ≡ some r)
finish_reset-some fingerprint seed_fn call db acs (some _) (some _) b reason e f = (_, refl)
finish_reset-some fingerprint seed_fn call db acs none reason? b reason e f = absurd (cc)
finish_reset-some fingerprint seed_fn call db acs (some _) none b reason e f = absurd (cc)

floor-of-settle :
    (call : Call) (acs : Option AgentState) (best : TrajectoryBest) (l : Launch) (db : Db) (s : ℤ)
    → (settle call acs best (l, db)).0.current_trajectory_best ≡ some s
    → (b : TrajectoryBest) × ((settle call acs best (l, db)).0.traj_best ≡ some b) × (b.score ≡ s)
unfolding settle floor_row
floor-of-settle call acs best l db s e =
    (floor_row call l s, floor-settle call acs best l db s e, refl)

module _ (fingerprint : String → ℕ) (seed_fn : Db → Call → Source × Start) (call : Call)
    (db db' : Db) (o : ResetOutcome)
    (reset : maybe_reset_trajectory fingerprint seed_fn call db ≡ some (o, db')) where
  inherited :
      (s : ℤ)
      → o.current_trajectory_best ≡ some s
      → (b : TrajectoryBest) × (o.traj_best ≡ some b) × (b.score ≡ s)
  inherited =
      let (best, reason, _, _, run) =
        maybe_reset-inversion fingerprint seed_fn call db (o, db') reset in
      let (l, launched_db) = launched fingerprint seed_fn call db reason in
      subst
        (λ (r : ResetOutcome × Db).
          (s : ℤ)
          → r.0.current_trajectory_best ≡ some s
          → (b : TrajectoryBest) × (r.0.traj_best ≡ some b) × (b.score ≡ s))
        run (floor-of-settle call (acs fingerprint seed_fn call db) best l launched_db)

  -- After a reset that inherits a floor which is not better than 0, on a trajectory that has the edits
  -- of the negative cull, a second call for the same agent resets it once more.
  pub adopted_line_is_culled_again :
      (timestamp draw new_program_id : ℕ) (s : ℤ)
      → o.current_trajectory_best ≡ some s
      → is_better call.direction s (pos 0) ≡ false
      → 0 < call.negative_trajectory_limit
      → has_edits db' call.negative_trajectory_limit
          (trajectory_of (get_agent_challenge_state db' call.agent_id call.challenge))
        ≡ true
      → (r : ResetOutcome × Db) × (maybe_reset_trajectory fingerprint seed_fn
            (again call timestamp draw new_program_id)
            db'
          ≡ some r)
  unfolding maybe_reset_trajectory is_culled
  adopted_line_is_culled_again timestamp draw new_program_id s floor poor limit edits =
      let call' = again call timestamp draw new_program_id in
      let acs' = get_agent_challenge_state db' call.agent_id call.challenge in
      let (b, held, scored) = inherited s floor in
      let stored = best-reset fingerprint seed_fn call db db' o reset ∙ held in
      let (reason, why) =
        reset_reason-some call' db' acs' b refl (ground (arith, scored, poor, limit, edits)) in
      finish_reset-some fingerprint seed_fn call' db' acs' _ _ b reason stored
        (ap (reset_reason call' db' acs') stored ∙ why)
