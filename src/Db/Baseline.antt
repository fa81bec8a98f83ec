-- ===== src/Db/Baseline.antt =====
-- mainnet_baselines: which mainnet algorithm a challenge is measured against (server/db.py).
use tig_swarm_demo.Prelude.{
  ℕ, ℤ, Bool, true, false, ◌&&◌, Option, none, some, ◌==◌, ltb, is_some, select, update,
}
use tig_swarm_demo.Db.Rows.{BaselineStatus, pending, requested, measuring, ready, Baseline, Db}

abbrev pub is_baseline : ℕ → Baseline → Bool
is_baseline challenge r = r.challenge == challenge

-- get_mainnet_baseline
unfoldable pub get_mainnet_baseline : Db → ℕ → Option Baseline
get_mainnet_baseline db challenge = select (is_baseline challenge) db.mainnet_baselines

-- MAINNET_UNMEASURED
abbrev pub is_unmeasured : BaselineStatus → Bool
is_unmeasured pending = true
is_unmeasured requested = true
is_unmeasured measuring = true
is_unmeasured _ = false

-- `status in ("requested", "measuring")`
abbrev pub is_outstanding : BaselineStatus → Bool
is_outstanding requested = true
is_outstanding measuring = true
is_outstanding _ = false

-- the WHERE clause of claim_mainnet_measurement behind its key
unfoldable pub is_claimable : ℕ → Baseline → Bool
is_claimable stale_before r = elim r.status [
  | requested ↦ true
  | measuring ↦ (elim r.benchmarked_at [ none ↦ true | some at ↦ ltb at stale_before ])
  | _ ↦ false
]

-- claim_mainnet_measurement
unfoldable pub claim_mainnet_measurement : Db → ℕ → ℕ → ℕ → ℕ → Db × Bool
unfolding is_claimable
claim_mainnet_measurement db challenge agent_id now_ts stale_before = (
  record db {
    mainnet_baselines =
        update (λ r. r.challenge == challenge && is_claimable stale_before r)
          (λ r. record r {
            status = measuring;
            measured_by = some agent_id;
            benchmarked_at = some now_ts;
          })
          db.mainnet_baselines;
  },
  is_some
      (select (λ r. r.challenge == challenge && is_claimable stale_before r) db.mainnet_baselines),
)

-- set_mainnet_baseline_score
unfoldable pub set_mainnet_baseline_score : Db → ℕ → ℤ → Bool → ℕ → ℕ → Option ℕ → Db
set_mainnet_baseline_score db challenge score feasible benchmarked_at measured_by
      config_fingerprint =
    record db {
      mainnet_baselines =
          update (is_baseline challenge)
            (λ r. record r {
              score = some score;
              feasible = feasible;
              status = ready;
              config_fingerprint = config_fingerprint;
              measured_by = some measured_by;
              benchmarked_at = some benchmarked_at;
            })
            db.mainnet_baselines;
    }
