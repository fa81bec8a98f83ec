-- ===== src/StateView/Tripping.antt =====
-- _agent_state (server/server.py), the part that decides whether this poll calls the reset: the two
-- cheap pre-checks, and the claim of an outstanding measurement of the mainnet baseline.
use tig_swarm_demo.Prelude.{
  ℕ, String, pos, Bool, false, not, ◌&&◌, ◌||◌, Option, none, some, List, [], ◌∷◌, ◌==◌, ltb, leb,
  if◌then◌else◌, is_some,
}
use tig_swarm_demo.Db.Rows.{Direction, AgentState, TrajectoryBest, Inactive, Baseline, Db}
use tig_swarm_demo.Db.States.{is_better}
use tig_swarm_demo.Db.Trajectories.{get_trajectory}
use tig_swarm_demo.Db.Pool.{get_inactive_with_deactivations}
use tig_swarm_demo.Db.Baseline.{get_mainnet_baseline, is_outstanding, claim_mainnet_measurement}
use tig_swarm_demo.Reset.Trip.{ResetReason, mainnet_baseline, trajectory_of}

-- `stagnated`
unfoldable pub stagnated : ℕ → ℕ → Option TrajectoryBest → Bool
stagnated stagnation_limit runs_since traj_best =
    ltb 0 stagnation_limit && leb stagnation_limit runs_since && is_some traj_best

-- the row of the current trajectory, and its edits
abbrev pub has_limit_edits : Db → ℕ → Option ℕ → Bool
has_limit_edits db negative_limit none = false
has_limit_edits db negative_limit (some cull_traj_id) = elim (get_trajectory db cull_traj_id) [
  | none ↦ false
  | some traj_row ↦ leb negative_limit traj_row.num_edits
]

-- `negative_cull`, where the agent is not stagnated
unfoldable pub negative_cull : Direction → ℕ → Db → Option AgentState → Option TrajectoryBest → Bool
unfolding is_better
negative_cull direction negative_limit db acs none = false
negative_cull direction negative_limit db acs (some traj_best) =
    ltb 0 negative_limit
    && (is_some (trajectory_of acs) && not (is_better direction traj_best.score (pos 0)))
    && has_limit_edits db negative_limit (trajectory_of acs)

module _ (fingerprint : String → ℕ) where
  -- the `any(...)` over the pool
  unfoldable pub holds_unscored : ℕ → List Inactive → Bool
  holds_unscored code [] = false
  holds_unscored code (e ∷ pool) =
      not (is_some e.score) && fingerprint e.algorithm_code == code || holds_unscored code pool

  -- _pooled_mainnet_entry_exists
  unfoldable pub pooled_mainnet_entry_exists : Db → ℕ → Baseline → Bool
  unfolding holds_unscored
  pooled_mainnet_entry_exists db challenge row = elim row.code_fingerprint [
    | none ↦ false
    | some code ↦ holds_unscored code (get_inactive_with_deactivations db challenge)
  ]

  -- _mainnet_measurement_claimable
  unfoldable pub mainnet_measurement_claimable : Db → ℕ → Bool
  unfolding pooled_mainnet_entry_exists
  mainnet_measurement_claimable db challenge = elim (get_mainnet_baseline db challenge) [
    | none ↦ false
    | some row ↦ is_outstanding row.status && pooled_mainnet_entry_exists db challenge row
  ]

  -- the block that sets `force_reason`, behind its first condition
  unfoldable pub claim_measurement : Db → ℕ → ℕ → ℕ → ℕ → Option ResetReason × Db
  unfolding mainnet_measurement_claimable
  claim_measurement db challenge agent_id now_ts stale_before =
      if mainnet_measurement_claimable db challenge
      then (let (db', claimed) =
            claim_mainnet_measurement db challenge agent_id now_ts stale_before in
          (if claimed then some mainnet_baseline else none, db'))
      else (none, db)
