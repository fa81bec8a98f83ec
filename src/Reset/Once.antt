-- ===== src/Reset/Once.antt =====
-- A reset restarts its agent and nobody else, and a second call finds nothing to do.
use tig_swarm_demo.Prelude.{
  ℕ, ◌≡◌, refl, sym, ap, subst, ◌∙◌, ℤ, pos, ◌⊎◌, String, true, Option, none, some, arith,
  map_option, select, update, select-update, select-update_ne, Option-cases, inl, inr, ◌≢◌,
}
use tig_swarm_demo.Db.Rows.{AgentState, TrajectoryBest, Db}
use tig_swarm_demo.Db.States.{get_agent_challenge_state, is_state, is_better}
use tig_swarm_demo.Db.Bests.{get_trajectory_best}
use tig_swarm_demo.Reset.Trip.{ResetReason, Call, reset_reason, runs_since}
use tig_swarm_demo.Reset.Launching.{Source, Start, Launch}
use tig_swarm_demo.Reset.Machine.{
  ResetOutcome, restart, settle, maybe_reset_trajectory, finish_reset,
}
use tig_swarm_demo.Reset.Recheck.{
  again, acs, launched, maybe_reset-inversion, agent_states-run, best-settle, floor-settle,
  clear-settle,
}

finish_reset-none :
    (fingerprint : String → ℕ) (seed_fn : Db → Call → Source × Start) (call : Call) (db : Db)
    (acs : Option AgentState) (best : Option TrajectoryBest) (reason : Option ResetReason)
    → reason ≡ none
    → finish_reset fingerprint seed_fn call db acs best reason ≡ none
finish_reset-none fingerprint seed_fn call db acs none reason e = refl
finish_reset-none fingerprint seed_fn call db acs (some best) none e = refl
finish_reset-none fingerprint seed_fn call db acs (some best) (some reason) e = absurd (cc)

-- Without a forced reason, an agent whose counter is 0 is reset only by the negative cull.
reset_reason-none :
    (call : Call) (db : Db) (acs : Option AgentState) (best : Option TrajectoryBest)
    → call.force_reason ≡ none
    → runs_since acs ≡ 0
    → ((b : TrajectoryBest)
        → best ≡ some b
        → (call.negative_trajectory_limit ≡ 0) ⊎ (is_better call.direction b.score (pos 0) ≡ true))
    → reset_reason call db acs best ≡ none
unfolding reset_reason
reset_reason-none call db acs none free zeroed safe = refl
reset_reason-none call db acs (some b) free zeroed safe = rw free (ground (arith, safe b refl))

inherited-settle :
    (call : Call) (acs : Option AgentState) (best : TrajectoryBest) (l : Launch) (db : Db)
    (b : TrajectoryBest)
    → (settle call acs best (l, db)).0.traj_best ≡ some b
    → (settle call acs best (l, db)).0.current_trajectory_best ≡ some b.score
unfolding settle
inherited-settle call acs best l db b e = elim (Option-cases l.adopted_score) [
  | inl none_adopted ↦ absurd (cc (clear-settle call acs best l db none_adopted, e))
  | inr (s, adopted) ↦ adopted ∙ ground (arith, floor-settle call acs best l db s adopted, e)
]

module _ (fingerprint : String → ℕ) (seed_fn : Db → Call → Source × Start) (call : Call)
    (db db' : Db) (o : ResetOutcome)
    (reset : maybe_reset_trajectory fingerprint seed_fn call db ≡ some (o, db')) where
  states-reset :
      (l : Launch) × (db'.agent_states
        ≡ update (is_state call.agent_id call.challenge) (restart l) db.agent_states)
  states-reset =
      let (best, reason, _, _, run) =
        maybe_reset-inversion fingerprint seed_fn call db (o, db') reset in
      (
        (launched fingerprint seed_fn call db reason).0,
        sym (ap (λ r. r.1.agent_states) run)
            ∙ agent_states-run fingerprint seed_fn call db best reason,
      )

  -- A reset zeroes the agent's stagnation counter and swaps its trajectory and program, and changes
  -- no other column of its row: whatever row the agent had, it has that row with the counter at 0,
  -- some program, and some choice of trajectory.
  pub reset_restarts_agent :
      (row : AgentState)
      → get_agent_challenge_state db call.agent_id call.challenge ≡ some row
      → (trajectory : Option ℕ) × (program : ℕ) × (get_agent_challenge_state db' call.agent_id
            call.challenge
          ≡ some (record row {
            runs_since_improvement = 0;
            current_trajectory_id = trajectory;
            current_program_id = some program;
          }))
  unfolding get_agent_challenge_state restart
  reset_restarts_agent row e =
      let (l, states) = states-reset in
      (
        l.trajectory_id,
        l.program_id,
        ap (select (is_state call.agent_id call.challenge)) states
            ∙ select-update (is_state call.agent_id call.challenge) (restart l) db.agent_states
                (λ r. refl)
            ∙ ap (map_option (restart l)) e,
      )

  -- A reset leaves the state of every other agent, and of every other challenge, as it was.
  pub reset_keeps_others :
      (agent_id challenge : ℕ)
      → (agent_id ≢ call.agent_id) ⊎ (challenge ≢ call.challenge)
      → get_agent_challenge_state db' agent_id challenge
        ≡ get_agent_challenge_state db agent_id challenge
  unfolding get_agent_challenge_state restart
  reset_keeps_others agent_id challenge other =
      let (l, states) = states-reset in
      ap (select (is_state agent_id challenge)) states
      ∙ select-update_ne (is_state call.agent_id call.challenge) (is_state agent_id challenge)
          (restart l) db.agent_states (λ r. refl) (λ r e. ground arith)

  runs_since-reset : runs_since (get_agent_challenge_state db' call.agent_id call.challenge) ≡ 0
  unfolding get_agent_challenge_state restart
  runs_since-reset =
      let (l, states) = states-reset in
      let after =
        ap (select (is_state call.agent_id call.challenge)) states
        ∙ select-update (is_state call.agent_id call.challenge) (restart l) db.agent_states
            (λ r. refl) in
      elim (Option-cases (get_agent_challenge_state db call.agent_id call.challenge)) [
        | inl e ↦ rw (after ∙ ap (map_option (restart l)) e) refl
        | inr (row, e) ↦ rw (after ∙ ap (map_option (restart l)) e) refl
      ]

  pub best-reset : get_trajectory_best db' call.agent_id call.challenge ≡ o.traj_best
  best-reset =
      let (best, reason, _, _, run) =
        maybe_reset-inversion fingerprint seed_fn call db (o, db') reset in
      let (l, launched_db) = launched fingerprint seed_fn call db reason in
      subst
        (λ (r : ResetOutcome × Db).
          get_trajectory_best r.1 call.agent_id call.challenge ≡ r.0.traj_best)
        run (best-settle call (acs fingerprint seed_fn call db) best l launched_db)

  floor-reset :
      (b : TrajectoryBest) → o.traj_best ≡ some b → o.current_trajectory_best ≡ some b.score
  floor-reset =
      let (best, reason, _, _, run) =
        maybe_reset-inversion fingerprint seed_fn call db (o, db') reset in
      let (l, launched_db) = launched fingerprint seed_fn call db reason in
      subst
        (λ (r : ResetOutcome × Db).
          (b : TrajectoryBest)
          → r.0.traj_best ≡ some b
          → r.0.current_trajectory_best ≡ some b.score)
        run (inherited-settle call (acs fingerprint seed_fn call db) best l launched_db)

  -- After a reset, forced or not, a second call for the same agent that has no forced reason finds nothing to
  -- do and rolls back, if the agent started fresh, or the negative cull is off, or the inherited floor is better than 0.
  pub no_second_reset :
      (timestamp draw new_program_id : ℕ)
      → ((s : ℤ)
          → o.current_trajectory_best ≡ some s
          → (call.negative_trajectory_limit ≡ 0) ⊎ (is_better call.direction s (pos 0) ≡ true))
      → maybe_reset_trajectory fingerprint seed_fn (again call timestamp draw new_program_id) db'
        ≡ none
  unfolding maybe_reset_trajectory
  no_second_reset timestamp draw new_program_id safe =
      let call' = again call timestamp draw new_program_id in
      let acs' = get_agent_challenge_state db' call.agent_id call.challenge in
      finish_reset-none fingerprint seed_fn call' db' acs' _ _ (
        reset_reason-none call' db' acs' (get_trajectory_best db' call.agent_id call.challenge) refl
          runs_since-reset (λ b e. safe b.score (floor-reset b (sym best-reset ∙ e))))
