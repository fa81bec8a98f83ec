-- ===== src/Reset/Recheck.antt =====
-- What a reset leaves for its own agent, and when a second call under the lock finds nothing to do.
use tig_swarm_demo.Prelude.{
  ℕ, ◌≡◌, refl, ap, ◌∙◌, ℤ, String, Option, none, some, arith, update, select-upsert, select-delete,
}
use tig_swarm_demo.Db.Rows.{AgentState, TrajectoryBest, Db}
use tig_swarm_demo.Db.States.{get_agent_challenge_state, is_state, update_agent_challenge_state}
use tig_swarm_demo.Db.Bests.{
  get_trajectory_best, upsert_trajectory_best, clear_trajectory_best, is_best,
}
use tig_swarm_demo.Reset.Trip.{ResetReason, Call, reset_reason, trajectory_of}
use tig_swarm_demo.Reset.Launching.{Source, Start, Launch, deactivate_current, launch}
use tig_swarm_demo.Reset.Machine.{
  ResetOutcome, seed_best, restart, floor_row, settle, run_reset, outcome, maybe_reset_trajectory,
  finish_reset,
}
use tig_swarm_demo.Db.Pool.{get_inactive_with_deactivations}
use tig_swarm_demo.Reset.Frame.{agent_states-deactivate, agent_states-settle, agent_states-launch}

-- The reset of the same agent on the same challenge, called once more with no forced reason.
abbrev pub again : Call → ℕ → ℕ → ℕ → Call
again call timestamp draw new_program_id = record call {
  timestamp = timestamp;
  draw = draw;
  new_program_id = new_program_id;
  force_reason = none;
}

finish_reset-inversion :
    (fingerprint : String → ℕ) (seed_fn : Db → Call → Source × Start) (call : Call) (db : Db)
    (acs : Option AgentState) (best? : Option TrajectoryBest) (reason? : Option ResetReason)
    (r : ResetOutcome × Db)
    → finish_reset fingerprint seed_fn call db acs best? reason? ≡ some r
    → (best : TrajectoryBest) × (reason : ResetReason) × (best? ≡ some best)
      × (reason? ≡ some reason)
      × (run_reset fingerprint seed_fn call db acs best reason ≡ r)
finish_reset-inversion fingerprint seed_fn call db acs (some best) (some reason) r h =
    (best, reason, refl, refl, ground arith)
finish_reset-inversion fingerprint seed_fn call db acs none reason r h = absurd (cc)
finish_reset-inversion fingerprint seed_fn call db acs (some best) none r h = absurd (cc)

module _ (fingerprint : String → ℕ) (seed_fn : Db → Call → Source × Start) (call : Call)
    (db : Db) where
  abbrev pub acs : Option AgentState
  acs = get_agent_challenge_state db call.agent_id call.challenge

  abbrev pub parked : Db
  parked = deactivate_current db (trajectory_of acs) call.timestamp

  abbrev pub launched : ResetReason → Launch × Db
  launched reason =
      launch fingerprint seed_fn call parked reason
        (get_inactive_with_deactivations parked call.challenge)

  -- A successful reset has a best, a reason, and is the settled launch.
  pub maybe_reset-inversion :
      (r : ResetOutcome × Db)
      → maybe_reset_trajectory fingerprint seed_fn call db ≡ some r
      → (best : TrajectoryBest) × (reason : ResetReason) × (get_trajectory_best db call.agent_id
            call.challenge
          ≡ some best)
        × (reset_reason call db acs (some best) ≡ some reason)
        × (settle call acs best (launched reason) ≡ r)
  unfolding maybe_reset_trajectory
  maybe_reset-inversion r h =
      let best? = get_trajectory_best db call.agent_id call.challenge in
      let (best, reason, e, why, run) =
        finish_reset-inversion fingerprint seed_fn call db acs best?
          (reset_reason call db acs best?) r h in
      (best, reason, e, rw (← e) why, run)

  pub agent_states-run :
      (best : TrajectoryBest) (reason : ResetReason)
      → (settle call acs best (launched reason)).1.agent_states
        ≡ update
            (is_state call.agent_id call.challenge)
            (restart (launched reason).0)
            db.agent_states
  agent_states-run best reason =
      agent_states-settle call acs best (launched reason).0 (launched reason).1
      ∙ ap (update (is_state call.agent_id call.challenge) (restart (launched reason).0)) (
          agent_states-launch fingerprint seed_fn call parked reason _
          ∙ agent_states-deactivate db (trajectory_of acs) call.timestamp)

-- The best row of the agent after the settled launch is the inherited floor, or none.
module _ (call : Call) (acs : Option AgentState) (best : TrajectoryBest) (l : Launch)
    (db : Db) where
  abbrev pub settled : ResetOutcome × Db
  settled = settle call acs best (l, db)

  pub best-settle : get_trajectory_best settled.1 call.agent_id call.challenge ≡ settled.0.traj_best
  unfolding settle get_trajectory_best update_agent_challenge_state
  best-settle = refl

  pub floor-settle :
      (s : ℤ) → l.adopted_score ≡ some s → settled.0.traj_best ≡ some (floor_row call l s)
  unfolding settle get_trajectory_best upsert_trajectory_best
  floor-settle s e =
      rw (e, seed_best, outcome)
        (select-upsert (is_best call.agent_id call.challenge) (floor_row call l s) _ (ground arith))

  pub clear-settle : l.adopted_score ≡ none → settled.0.traj_best ≡ none
  unfolding settle get_trajectory_best clear_trajectory_best
  clear-settle e =
      rw (e, seed_best, outcome) (select-delete (is_best call.agent_id call.challenge) _)
