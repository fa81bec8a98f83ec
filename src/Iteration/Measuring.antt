-- ===== src/Iteration/Measuring.antt =====
-- The measurement of a mainnet baseline: its claim, and the publish that delivers it.
use tig_swarm_demo.Prelude.{
  ℕ, ◌≡◌, refl, ap, ◌∙◌, ◌⊎◌, inl, inr, true, false, ◌==◌, ◌&&◌, some, List, [], ◌∷◌, arith,
  Bool-cases, map_option, select, update, select-update, select-update_ne,
}
use tig_swarm_demo.Db.Rows.{measuring, Baseline, Db}
use tig_swarm_demo.Db.Baseline.{
  get_mainnet_baseline, is_baseline, is_unmeasured, is_claimable, claim_mainnet_measurement,
}
use tig_swarm_demo.Iteration.Request.{IterationCreate, Fresh, Env}
use tig_swarm_demo.Iteration.Capture.{by_claim, is_measurement}
use tig_swarm_demo.Iteration.Publish.{publish}
use tig_swarm_demo.Iteration.Baselines.{
  is_measurement-done, measured, capture_rows, publish-baselines,
}

-- what happens to the baselines while the host leaves them alone
pub data BaselineEvent : Type 0 where
  publishes : (req : IterationCreate) (fresh : Fresh) (challenge : ℕ) → BaselineEvent
  claims_one : (challenge agent_id now_ts stale_before : ℕ) → BaselineEvent

abbrev pub happen : Env → BaselineEvent → Db → Db
happen env (publishes req fresh challenge) db = (publish env db req fresh challenge).1
happen env (claims_one challenge agent_id now_ts stale_before) db =
    (claim_mainnet_measurement db challenge agent_id now_ts stale_before).0

-- a sequence of events, the latest first
abbrev pub happen_all : Env → List BaselineEvent → Db → Db
happen_all env [] db = db
happen_all env (e ∷ events) db = happen env e (happen_all env events db)

-- A claim passes over a row that is not claimable.
claim_keeps :
    (c challenge agent_id now_ts stale_before : ℕ) (row : Baseline) (rows : List Baseline)
    → is_claimable stale_before row ≡ false
    → select (is_baseline c) rows ≡ some row
    → select (is_baseline c) (
        update
          (λ r. r.challenge == challenge && is_claimable stale_before r)
          (λ r. record r {
            status = measuring;
            measured_by = some agent_id;
            benchmarked_at = some now_ts;
          })
          rows)
      ≡ some row
unfolding select update
claim_keeps c challenge agent_id now_ts stale_before row [] idle e = absurd (cc e)
claim_keeps c challenge agent_id now_ts stale_before row (r ∷ rows) idle e =
    let rest = claim_keeps c challenge agent_id now_ts stale_before row rows idle in
    elim (Bool-cases (r.challenge == c)) [
      | inl same ↦
          let here : some r ≡ some row = rw same at e in
          let is : r ≡ row = ground (arith, here) in rw (is, idle) (ground (arith, same, is))
      | inr other ↦ elim (Bool-cases (r.challenge == challenge && is_claimable stale_before r)) [
        | inl hit ↦ rw (hit, other) (rest (rw other at e))
        | inr pass ↦ rw (pass, other) (rest (rw other at e))
      ]
    ]

capture_keeps :
    (env : Env) (c challenge : ℕ) (req : IterationCreate) (timestamp : ℕ) (row : Baseline)
    (rows : List Baseline)
    → is_unmeasured row.status ≡ false
    → select (is_baseline c) rows ≡ some row
    → select (is_baseline c) (capture_rows env rows challenge req timestamp) ≡ some row
capture_keeps env c challenge req timestamp row rows done e = elim (Bool-cases (challenge == c)) [
  | inl same ↦
      let is : challenge ≡ c = ground (arith, same) in
      let idle : is_measurement env (select (is_baseline challenge) rows) req ≡ false =
        rw (is, e) (is_measurement-done env row req (inl done)) in
      rw idle e
  | inr other ↦ elim (Bool-cases (is_measurement env (select (is_baseline challenge) rows) req)) [
    | inl hit ↦ rw hit (
        select-update_ne (is_baseline challenge) (is_baseline c) _ rows (λ r. refl)
          (λ r h. ground (arith, h, other))
        ∙ e)
    | inr pass ↦ rw pass e
  ]
]

-- A baseline that is measured, or that is not available, stays as it is.
happen-keeps :
    (env : Env) (event : BaselineEvent) (db : Db) (c : ℕ) (row : Baseline)
    → is_unmeasured row.status ≡ false
    → get_mainnet_baseline db c ≡ some row
    → get_mainnet_baseline (happen env event db) c ≡ some row
unfolding get_mainnet_baseline claim_mainnet_measurement is_claimable
happen-keeps env (publishes req fresh challenge) db c row done e =
    ap (select (is_baseline c)) (publish-baselines env db req fresh challenge)
    ∙ capture_keeps env c challenge req fresh.timestamp row db.mainnet_baselines done e
happen-keeps env (claims_one challenge agent_id now_ts stale_before) db c row done e =
    claim_keeps c challenge agent_id now_ts stale_before row db.mainnet_baselines
      (ground (arith, done)) e

happen_all-keeps :
    (env : Env) (events : List BaselineEvent) (db : Db) (c : ℕ) (row : Baseline)
    → is_unmeasured row.status ≡ false
    → get_mainnet_baseline db c ≡ some row
    → get_mainnet_baseline (happen_all env events db) c ≡ some row
happen_all-keeps env [] db c row done e = e
happen_all-keeps env (event ∷ events) db c row done e =
    happen-keeps env event (happen_all env events db) c row done
      (happen_all-keeps env events db c row done e)

-- what a publish must bring for its score to become the baseline
pub record Delivers (env : Env) (row : Baseline) (req : IterationCreate) : Type 0 where
  pub code : ℕ
  pub known : row.code_fingerprint ≡ some code
  pub waiting : is_unmeasured row.status ≡ true
  pub feasible : req.feasible ≡ true
  pub meant : (env.fingerprint req.algorithm_code ≡ code) ⊎ (by_claim row req ≡ true)

Delivers-is_measurement :
    (env : Env) (row : Baseline) (req : IterationCreate)
    → Delivers env row req
    → is_measurement env (some row) req ≡ true
unfolding is_measurement
Delivers-is_measurement env row req d =
    rw (is_measurement, d.known) (ground (arith, d.waiting, d.feasible, d.meant))

-- A feasible publish of the recorded mainnet code, or one that the agent that has claimed its measurement
-- tags as such, on a challenge whose baseline is not measured yet, stores its own score as the measured one; and after any
-- sequence of further publishes and claims, by any agents on any challenges, that row is still the same. (The
-- host can ask for another measurement, which is no publish and no claim.)
pub capture_is_final :
    (env : Env) (db : Db) (challenge : ℕ) (req : IterationCreate) (fresh : Fresh) (row : Baseline)
    (events : List BaselineEvent)
    → get_mainnet_baseline db challenge ≡ some row
    → Delivers env row req
    → get_mainnet_baseline (happen_all env events (publish env db req fresh challenge).1) challenge
      ≡ some
          (measured row req.score fresh.timestamp req.agent_id (env.config_fingerprint challenge))
unfolding get_mainnet_baseline
capture_is_final env db challenge req fresh row events e d =
    let taken : is_measurement env (select (is_baseline challenge) db.mainnet_baselines) req
        ≡ true =
      ap (λ r. is_measurement env r req) e ∙ Delivers-is_measurement env row req d in
    happen_all-keeps env events (publish env db req fresh challenge).1 challenge _ refl (
      ap (select (is_baseline challenge)) (publish-baselines env db req fresh challenge)
      ∙ (rw taken (
          select-update (is_baseline challenge) _ db.mainnet_baselines (λ r. refl)
          ∙ ap
              (map_option {A = Baseline} (λ r.
                measured r req.score fresh.timestamp req.agent_id
                  (env.config_fingerprint challenge)))
              e)))
