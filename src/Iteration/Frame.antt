-- ===== src/Iteration/Frame.antt =====
-- Which tables each stage of a publish leaves alone.
use tig_swarm_demo.Prelude.{
  ℕ, ◌≡◌, ap, ◌∙◌, Bool, true, false, Option, List, [], ◌∷◌, ◌++◌, arith, if◌then◌else◌, update,
}
use tig_swarm_demo.Db.Rows.{Seed, Db}
use tig_swarm_demo.Db.States.{
  get_agent_challenge_state, update_agent_challenge_state, increment_agent_challenge_counters,
  is_state,
}
use tig_swarm_demo.Db.Trajectories.{create_trajectory}
use tig_swarm_demo.Db.Baseline.{set_mainnet_baseline_score}
use tig_swarm_demo.Db.Seeds.{insert_seed, evict_seed}
use tig_swarm_demo.SeedPool.{Decision, admit, admit_evict, too_complex, too_similar}
use tig_swarm_demo.Iteration.Request.{IterationCreate, Fresh, Env}
use tig_swarm_demo.Iteration.Verdict.{Verdict}
use tig_swarm_demo.Iteration.Recording.{
  ensure_current_program_id, ensure_trajectory, insert_hypothesis, record_experiment, consume_hint,
  experiment_row,
}
use tig_swarm_demo.Iteration.Harvest.{maybe_harvest_seed, act_on, evict_at}
use tig_swarm_demo.Iteration.Capture.{maybe_capture_mainnet_baseline}
use tig_swarm_demo.Iteration.Publish.{record_best, record_iteration, finish_iteration}

-- Two databases that agree but for the seed pool.
pub record SameButSeeds (a b : Db) : Type 0 where
  pub states : a.agent_states ≡ b.agent_states
  pub trajectories : a.trajectories ≡ b.trajectories
  pub bests : a.trajectory_bests ≡ b.trajectory_bests
  pub pool : a.inactive_algorithms ≡ b.inactive_algorithms
  pub next : a.next_inactive ≡ b.next_inactive
  pub experiments : a.experiments ≡ b.experiments
  pub history : a.best_history ≡ b.best_history
  pub baselines : a.mainnet_baselines ≡ b.mainnet_baselines
  pub epochs : a.score_epochs ≡ b.score_epochs

SameButSeeds-refl : (a : Db) → SameButSeeds a a
SameButSeeds-refl a = ground arith

evict-SameButSeeds :
    (db : Db) (existing : List Seed) (i : Option ℕ) → SameButSeeds (evict_at db existing i) db
unfolding evict_at evict_seed
evict-SameButSeeds db existing i = ground arith

act-SameButSeeds :
    (db : Db) (existing : List Seed) (d : Decision) (seed : Seed)
    → SameButSeeds (act_on db existing d seed) db
unfolding act_on insert_seed
act-SameButSeeds db existing admit seed = ground arith
act-SameButSeeds db existing (admit_evict i) seed = ground (arith, evict-SameButSeeds db existing i)
act-SameButSeeds db existing too_complex seed = ground arith
act-SameButSeeds db existing too_similar seed = ground arith

if-SameButSeeds :
    (b : Bool) (x y db : Db)
    → SameButSeeds x db
    → SameButSeeds y db
    → SameButSeeds (if b then x else y) db
if-SameButSeeds true x y db h k = h
if-SameButSeeds false x y db h k = k

pub harvest-SameButSeeds :
    (env : Env) (db : Db) (req : IterationCreate) (challenge timestamp : ℕ)
    → SameButSeeds (maybe_harvest_seed env db req challenge timestamp) db
unfolding maybe_harvest_seed
harvest-SameButSeeds env db req challenge timestamp =
    if-SameButSeeds _ _ db db (act-SameButSeeds db _ _ _) (SameButSeeds-refl db)

-- The stages behind the outcome write the agent's row, the baseline, the history and the seeds.
pub record Finished (env : Env) (db : Db) (req : IterationCreate) (fresh : Fresh) (challenge : ℕ)
    (verdict : Verdict) (db' : Db) : Type 0 where
  pub states :
      db'.agent_states
      ≡ update
          (is_state req.agent_id challenge)
          (λ r. record r { ever_benchmarked = true })
          db.agent_states
  pub trajectories : db'.trajectories ≡ db.trajectories
  pub bests : db'.trajectory_bests ≡ db.trajectory_bests
  pub pool : db'.inactive_algorithms ≡ db.inactive_algorithms
  pub next : db'.next_inactive ≡ db.next_inactive
  pub experiments : db'.experiments ≡ db.experiments
  pub epochs : db'.score_epochs ≡ db.score_epochs

module _ (env : Env) (db : Db) (req : IterationCreate) (fresh : Fresh) (challenge : ℕ)
    (verdict : Verdict) where
  capture-Same :
      SameButSeeds
        (record (maybe_capture_mainnet_baseline env db challenge req fresh.timestamp) {
          mainnet_baselines = db.mainnet_baselines;
        })
        db
  unfolding maybe_capture_mainnet_baseline set_mainnet_baseline_score
  capture-Same = ground arith

  abbrev pub captured : Db
  captured = maybe_capture_mainnet_baseline env db challenge req fresh.timestamp

  pub history-Same :
      SameButSeeds
        (record (record_best captured req fresh challenge verdict) {
          best_history = captured.best_history;
        })
        captured
  unfolding record_best
  history-Same = ground arith

  pub finish-Finished :
      Finished env db req fresh challenge verdict
        (finish_iteration env db req fresh challenge verdict)
  unfolding finish_iteration update_agent_challenge_state
  finish-Finished =
      let c = capture-Same in
      let h = history-Same in
      let s =
        harvest-SameButSeeds env
          (update_agent_challenge_state (record_best captured req fresh challenge verdict)
            req.agent_id challenge (λ r. record r { ever_benchmarked = true }))
          req challenge fresh.timestamp in
      record {
        states =
            s.states
            ∙ ap
                (update (is_state req.agent_id challenge)
                  (λ r. record r { ever_benchmarked = true }))
                (h.states ∙ c.states);
        trajectories = s.trajectories ∙ h.trajectories ∙ c.trajectories;
        bests = s.bests ∙ h.bests ∙ c.bests;
        pool = s.pool ∙ h.pool ∙ c.pool;
        next = s.next ∙ h.next ∙ c.next;
        experiments = s.experiments ∙ h.experiments ∙ c.experiments;
        epochs = s.epochs ∙ h.epochs ∙ c.epochs;
      }

-- The recording stages keep the bests and the pool, and append one experiment.
pub record Recorded (db : Db) (req : IterationCreate) (fresh : Fresh) (challenge : ℕ)
    (verdict : Verdict) (trajectory_id : ℕ) (db' : Db) : Type 0 where
  pub bests : db'.trajectory_bests ≡ db.trajectory_bests
  pub pool : db'.inactive_algorithms ≡ db.inactive_algorithms
  pub next : db'.next_inactive ≡ db.next_inactive
  pub experiments :
      db'.experiments
      ≡ db.experiments
        ++ experiment_row req fresh challenge trajectory_id
            (get_agent_challenge_state db req.agent_id challenge)
            verdict
          ∷ []
  pub epochs : db'.score_epochs ≡ db.score_epochs
  pub history : db'.best_history ≡ db.best_history

pub record-Recorded :
    (db : Db) (req : IterationCreate) (fresh : Fresh) (challenge : ℕ) (verdict : Verdict)
    → Recorded db req fresh challenge verdict
        (record_iteration db req fresh challenge verdict).0
        (record_iteration db req fresh challenge verdict).1
unfolding record_iteration ensure_current_program_id ensure_trajectory insert_hypothesis
    record_experiment consume_hint create_trajectory update_agent_challenge_state
    increment_agent_challenge_counters
record-Recorded db req fresh challenge verdict = ground arith
