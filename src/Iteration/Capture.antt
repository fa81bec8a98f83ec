-- ===== src/Iteration/Capture.antt =====
-- _maybe_capture_mainnet_baseline: a publish that benchmarked the mainnet algorithm unchanged becomes
-- the baseline of its challenge (server/server.py).
use tig_swarm_demo.Prelude.{
  ℕ, Bool, true, false, ◌&&◌, ◌||◌, Option, none, some, ◌==◌, str_eq, if◌then◌else◌,
}
use tig_swarm_demo.Db.Rows.{BaselineStatus, measuring, Baseline, Db}
use tig_swarm_demo.Db.Baseline.{get_mainnet_baseline, is_unmeasured, set_mainnet_baseline_score}
use tig_swarm_demo.Iteration.Request.{IterationCreate, Env}

abbrev pub is_measuring : BaselineStatus → Bool
is_measuring measuring = true
is_measuring _ = false

-- `by_claim`
unfoldable pub by_claim : Baseline → IterationCreate → Bool
by_claim row req =
    is_measuring row.status
    && (elim row.measured_by [ none ↦ false | some agent ↦ agent == req.agent_id ])
    && str_eq req.strategy_tag "seed_baseline"

-- the conditions under which the score is adopted
unfoldable pub is_measurement : Env → Option Baseline → IterationCreate → Bool
unfolding by_claim
is_measurement env none req = false
is_measurement env (some row) req = elim row.code_fingerprint [
  | none ↦ false
  | some code ↦
      is_unmeasured row.status
      && req.feasible
      && (env.fingerprint req.algorithm_code == code || by_claim row req)
]

-- _maybe_capture_mainnet_baseline
unfoldable pub maybe_capture_mainnet_baseline : Env → Db → ℕ → IterationCreate → ℕ → Db
unfolding is_measurement
maybe_capture_mainnet_baseline env db challenge req timestamp =
    if is_measurement env (get_mainnet_baseline db challenge) req
    then set_mainnet_baseline_score db challenge req.score true timestamp req.agent_id
        (env.config_fingerprint challenge)
    else db
