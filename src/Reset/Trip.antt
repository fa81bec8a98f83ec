-- ===== src/Reset/Trip.antt =====
-- server/trajectory_reset.py, the re-check under the write lock: whether the reset still applies, and
-- for what reason.
use tig_swarm_demo.Prelude.{
  ℕ, pos, Bool, false, not, ◌&&◌, Option, none, some, ltb, leb, if◌then◌else◌,
}
use tig_swarm_demo.Db.Rows.{Direction, AgentState, TrajectoryBest, Db}
use tig_swarm_demo.Db.States.{is_better}
use tig_swarm_demo.Db.Trajectories.{get_trajectory}

-- `reset_reason`; the one forced reason is the baseline measurement
pub data ResetReason : Type 0 where
  stagnation negative_cull mainnet_baseline : ResetReason

-- The arguments of maybe_reset_trajectory. What the call takes from outside the database stands here
-- too: the number behind random.choice, and the id that new_id would return.
pub record Call : Type 0 where
  pub agent_id : ℕ
  pub challenge : ℕ
  pub direction : Direction
  pub stagnation_limit : ℕ
  pub negative_trajectory_limit : ℕ
  pub timestamp : ℕ
  pub force_reason : Option ResetReason
  pub draw : ℕ
  pub new_program_id : ℕ

-- `acs["runs_since_improvement"] if acs else 0`
abbrev pub runs_since : Option AgentState → ℕ
runs_since none = 0
runs_since (some acs) = acs.runs_since_improvement

-- `acs["current_trajectory_id"] if acs else None`
abbrev pub trajectory_of : Option AgentState → Option ℕ
trajectory_of none = none
trajectory_of (some acs) = acs.current_trajectory_id

abbrev pub program_of : Option AgentState → Option ℕ
program_of none = none
program_of (some acs) = acs.current_program_id

-- `stagnated`, given a trajectory best
unfoldable pub is_stagnated : Call → Option AgentState → Bool
is_stagnated call acs = ltb 0 call.stagnation_limit && leb call.stagnation_limit (runs_since acs)

-- the edits of the current trajectory reach the limit
unfoldable pub has_edits : Db → ℕ → Option ℕ → Bool
has_edits db limit none = false
has_edits db limit (some id) = elim (get_trajectory db id) [
  | none ↦ false
  | some t ↦ leb limit t.num_edits
]

-- the condition of `negative_cull`, given a trajectory best and no stagnation
unfoldable pub is_culled : Call → Db → Option AgentState → TrajectoryBest → Bool
unfolding is_better has_edits
is_culled call db acs best =
    ltb 0 call.negative_trajectory_limit
    && not (is_better call.direction best.score (pos 0))
    && has_edits db call.negative_trajectory_limit (trajectory_of acs)

-- `reset_reason`, or `none` where the call rolls back
unfoldable pub reset_reason :
    Call → Db → Option AgentState → Option TrajectoryBest → Option ResetReason
unfolding is_stagnated is_culled
reset_reason call db acs none = none
reset_reason call db acs (some best) = elim call.force_reason [
  | some reason ↦ some reason
  | none ↦
      if is_stagnated call acs
      then some stagnation
      else if is_culled call db acs best
      then some negative_cull
      else none
]
