-- ===== src/StateView/PreCheck.antt =====
-- The pre-check of a poll against the re-check of the reset (server/server.py and
-- server/trajectory_reset.py).
use tig_swarm_demo.Prelude.{
  ℕ, ◌≡◌, refl, inl, inr, String, pos, Bool, true, false, not, ◌&&◌, ◌||◌, Option, none, some, ltb,
  arith, Option-cases, is_some, if◌then◌else◌,
}
use tig_swarm_demo.Db.Rows.{AgentState, TrajectoryBest, Db}
use tig_swarm_demo.Db.States.{get_agent_challenge_state, is_better}
use tig_swarm_demo.Db.Bests.{get_trajectory_best}
use tig_swarm_demo.Db.Trajectories.{get_trajectory}
use tig_swarm_demo.Reset.Trip.{
  ResetReason, stagnation, Call, trajectory_of, runs_since, is_stagnated, is_culled, has_edits,
  reset_reason,
}
use tig_swarm_demo.Reset.Launching.{Source, Start}
use tig_swarm_demo.Reset.Machine.{maybe_reset_trajectory, finish_reset}
use tig_swarm_demo.StateView.Tripping.{stagnated, negative_cull, has_limit_edits}
use tig_swarm_demo.StateView.Poll.{Poll, reset_call, pre_check}

edits_agree :
    (db : Db) (limit : ℕ) (id : Option ℕ) → has_limit_edits db limit id ≡ has_edits db limit id
unfolding has_edits
edits_agree db limit none = refl
edits_agree db limit (some id) = elim (Option-cases (get_trajectory db id)) [
  | inl e ↦ ground (arith, e)
  | inr (t, e) ↦ ground (arith, e)
]

-- The two conditions of the cull, on the three tests that they share.
cull_regroup :
    (limited better : Bool) (db : Db) (limit : ℕ) (id : Option ℕ)
    → (limited && not better && has_edits db limit id)
      ≡ (limited && (is_some id && not better) && has_limit_edits db limit id)
unfolding has_edits
cull_regroup limited better db limit none = ground arith
cull_regroup limited better db limit (some id) = rw (edits_agree db limit (some id)) (ground arith)

module _ (fingerprint : String → ℕ) (seed_fn : Db → Call → Source × Start) (p : Poll)
    (db : Db) where
  abbrev call : Call
  call = reset_call p none

  -- The re-check's condition, in the words of the pre-check.
  culled_agrees :
      (acs : Option AgentState) (best : TrajectoryBest)
      → is_culled call db acs best
        ≡ negative_cull p.hinting.direction p.negative_limit db acs (some best)
  unfolding is_culled negative_cull reset_call
  culled_agrees acs best =
      cull_regroup (ltb 0 p.negative_limit) (is_better p.hinting.direction best.score (pos 0)) db
        p.negative_limit (trajectory_of acs)

  verdict_lem :
      (acs : Option AgentState) (best : TrajectoryBest) (stalled culled : Bool)
      → is_some (
          finish_reset fingerprint seed_fn call db acs (some best) (
            if stalled
            then some stagnation
            else if culled
            then some ResetReason.negative_cull
            else none))
        ≡ (stalled && true || culled)
  verdict_lem acs best true culled = refl
  verdict_lem acs best false true = refl
  verdict_lem acs best false false = refl

  outcome_agrees :
      (acs : Option AgentState) (best : Option TrajectoryBest)
      → is_some (finish_reset fingerprint seed_fn call db acs best (reset_reason call db acs best))
        ≡ (stagnated p.stagnation_limit (runs_since acs) best
            || negative_cull p.hinting.direction p.negative_limit db acs best)
  unfolding reset_reason stagnated is_stagnated negative_cull reset_call
  outcome_agrees acs none = ground arith
  outcome_agrees acs (some best) =
      rw (← culled_agrees acs best)
        (verdict_lem acs best (is_stagnated call acs) (is_culled call db acs best))

  -- The cheap pre-check of a poll and the re-check under the write lock agree on the same database: a
  -- reset without a forced reason goes through exactly when the pre-check is true, whether by
  -- stagnation or by a trajectory that never turned positive. So an undisturbed poll never calls the
  -- reset in vain, and never leaves out a reset that the machine would make.
  pub pre_check-agrees :
      is_some (maybe_reset_trajectory fingerprint seed_fn (reset_call p none) db) ≡ pre_check p db
  unfolding maybe_reset_trajectory pre_check reset_call
  pre_check-agrees =
      outcome_agrees (get_agent_challenge_state db p.hinting.agent_id p.hinting.challenge)
        (get_trajectory_best db p.hinting.agent_id p.hinting.challenge)
