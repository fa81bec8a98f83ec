-- ===== src/Iteration/Baselines.antt =====
-- What a publish does to the rows of mainnet_baselines (server/server.py): it writes them by a capture only.
use tig_swarm_demo.Prelude.{
  ℕ, ◌≡◌, refl, ap, ◌∙◌, ◌⊎◌, inl, inr, ℤ, Bool, true, false, Option, none, some, List, arith,
  Option-cases, Bool-cases, if◌then◌else◌, select, update,
}
use tig_swarm_demo.Db.Rows.{Direction, ready, TrajectoryBest, Baseline, Db}
use tig_swarm_demo.Db.States.{
  ensure_agent_challenge_state, update_agent_challenge_state, increment_agent_challenge_counters,
}
use tig_swarm_demo.Db.Trajectories.{create_trajectory, update_trajectory_after_edit}
use tig_swarm_demo.Db.Bests.{upsert_trajectory_best}
use tig_swarm_demo.Db.Baseline.{
  get_mainnet_baseline, is_baseline, is_unmeasured, set_mainnet_baseline_score,
}
use tig_swarm_demo.Iteration.Request.{IterationCreate, Fresh, Env}
use tig_swarm_demo.Iteration.Verdict.{Verdict, evaluate_iteration}
use tig_swarm_demo.Iteration.Recording.{
  ensure_current_program_id, ensure_trajectory, insert_hypothesis, record_experiment, consume_hint,
}
use tig_swarm_demo.Iteration.Outcome.{
  apply_improvement, apply_refactor, apply_failure, apply_branch, apply_iteration_outcome,
}
use tig_swarm_demo.Iteration.Capture.{is_measurement, maybe_capture_mainnet_baseline}
use tig_swarm_demo.Iteration.Publish.{record_iteration, finish_iteration, publish}
use tig_swarm_demo.Iteration.Frame.{harvest-SameButSeeds, history-Same}

pub is_measurement-done :
    (env : Env) (row : Baseline) (req : IterationCreate)
    → (is_unmeasured row.status ≡ false) ⊎ (req.feasible ≡ false)
    → is_measurement env (some row) req ≡ false
unfolding is_measurement
is_measurement-done env row req done = elim (Option-cases row.code_fingerprint) [
  | inl missing ↦ rw (is_measurement, missing) refl
  | inr (code, found) ↦ rw (is_measurement, found) (ground (arith, done))
]

-- the row after a measurement
abbrev pub measured : Baseline → ℤ → ℕ → ℕ → Option ℕ → Baseline
measured row score timestamp agent_id config_fingerprint = record row {
  score = some score;
  feasible = true;
  status = ready;
  config_fingerprint = config_fingerprint;
  measured_by = some agent_id;
  benchmarked_at = some timestamp;
}

-- what a capture makes of the rows
abbrev pub capture_rows : Env → List Baseline → ℕ → IterationCreate → ℕ → List Baseline
capture_rows env rows challenge req timestamp =
    if is_measurement env (select (is_baseline challenge) rows) req
    then update (is_baseline challenge)
        (λ r. measured r req.score timestamp req.agent_id (env.config_fingerprint challenge)) rows
    else rows

capture-rows :
    (env : Env) (db : Db) (challenge : ℕ) (req : IterationCreate) (timestamp : ℕ)
    → (maybe_capture_mainnet_baseline env db challenge req timestamp).mainnet_baselines
      ≡ capture_rows env db.mainnet_baselines challenge req timestamp
unfolding maybe_capture_mainnet_baseline get_mainnet_baseline set_mainnet_baseline_score
capture-rows env db challenge req timestamp =
    elim (Bool-cases
      (is_measurement env (select (is_baseline challenge) db.mainnet_baselines) req)) [
        | inl e ↦ rw e refl
        | inr e ↦ rw e refl
      ]

record-baselines :
    (db : Db) (req : IterationCreate) (fresh : Fresh) (challenge : ℕ) (verdict : Verdict)
    → (record_iteration db req fresh challenge verdict).1.mainnet_baselines ≡ db.mainnet_baselines
unfolding record_iteration ensure_current_program_id ensure_trajectory insert_hypothesis
    record_experiment consume_hint create_trajectory update_agent_challenge_state
    increment_agent_challenge_counters
record-baselines db req fresh challenge verdict = ground arith

outcome-baselines :
    (db : Db) (req : IterationCreate) (fresh : Fresh) (challenge : ℕ) (direction : Direction)
    (better is_refactor : Bool) (parent : Option TrajectoryBest) (trajectory_id : ℕ)
    → (apply_branch db req fresh challenge direction better is_refactor parent
        trajectory_id).mainnet_baselines
      ≡ db.mainnet_baselines
unfolding apply_branch apply_improvement apply_refactor apply_failure upsert_trajectory_best
    update_agent_challenge_state increment_agent_challenge_counters
outcome-baselines db req fresh challenge direction true is_refactor parent t = refl
outcome-baselines db req fresh challenge direction false true (some p) t = refl
outcome-baselines db req fresh challenge direction false true none t = refl
outcome-baselines db req fresh challenge direction false false parent t = refl

finish-baselines :
    (env : Env) (db : Db) (req : IterationCreate) (fresh : Fresh) (challenge : ℕ)
    (verdict : Verdict)
    → (finish_iteration env db req fresh challenge verdict).mainnet_baselines
      ≡ capture_rows env db.mainnet_baselines challenge req fresh.timestamp
unfolding finish_iteration update_agent_challenge_state
finish-baselines env db req fresh challenge verdict =
    let h = history-Same env db req fresh challenge verdict in
    let s = harvest-SameButSeeds env _ req challenge fresh.timestamp in
    s.baselines ∙ h.baselines ∙ capture-rows env db challenge req fresh.timestamp

-- Of a publish, the capture alone writes baselines.
pub publish-baselines :
    (env : Env) (db : Db) (req : IterationCreate) (fresh : Fresh) (challenge : ℕ)
    → (publish env db req fresh challenge).1.mainnet_baselines
      ≡ capture_rows env db.mainnet_baselines challenge req fresh.timestamp
unfolding publish apply_iteration_outcome ensure_agent_challenge_state update_trajectory_after_edit
publish-baselines env db req fresh challenge =
    let db0 = ensure_agent_challenge_state db req.agent_id challenge fresh.timestamp in
    let verdict = evaluate_iteration db0 req challenge (env.direction_of challenge) in
    let (trajectory_id, db1) = record_iteration db0 req fresh challenge verdict in
    let done =
      apply_iteration_outcome db1 req fresh challenge (env.direction_of challenge) verdict
        trajectory_id in
    finish-baselines env done req fresh challenge verdict
    ∙ ap (λ rows. capture_rows env rows challenge req fresh.timestamp)
        (outcome-baselines
            (update_trajectory_after_edit db1 trajectory_id verdict.beats_trajectory_best
              (if verdict.beats_trajectory_best then some req.score else none))
            req fresh challenge (env.direction_of challenge) verdict.beats_trajectory_best
            verdict.is_refactor verdict.prev_trajectory_best trajectory_id
          ∙ record-baselines db0 req fresh challenge verdict)
