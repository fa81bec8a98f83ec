-- ===== src/StateView/Validity.antt =====
-- A poll keeps the database well-formed, whatever other connections do between its statements, as
-- long as they keep it too.
use tig_swarm_demo.Prelude.{
  ℕ, ◌≤◌, inl, inr, String, not, ◌&&◌, Option, none, some, leb, is_some, arith, Bool-cases,
  Option-cases,
}
use tig_swarm_demo.Db.Rows.{
  AgentState, TrajectoryBest, Hint, tacit_knowledge, inspiration, failed_attempts, Db,
}
use tig_swarm_demo.Db.States.{get_agent_challenge_state}
use tig_swarm_demo.Db.Bests.{get_trajectory_best}
use tig_swarm_demo.Db.Baseline.{claim_mainnet_measurement}
use tig_swarm_demo.Db.Valid.{IsValid, ensure-IsValid, update_state-IsValid, increment-IsValid}
use tig_swarm_demo.Reset.Trip.{ResetReason, program_of}
use tig_swarm_demo.Reset.Machine.{maybe_reset_trajectory}
use tig_swarm_demo.Reset.Validity.{reset-IsValid}
use tig_swarm_demo.Iteration.Recording.{ensure_current_program_id}
use tig_swarm_demo.StateView.Heartbeat.{touch_heartbeat}
use tig_swarm_demo.StateView.Seeding.{seed_fn_of}
use tig_swarm_demo.StateView.Tripping.{mainnet_measurement_claimable, claim_measurement}
use tig_swarm_demo.StateView.Hints.{Hinting, hint_increment, stagnation_hint, stash, give_hint}
use tig_swarm_demo.StateView.Poll.{
  Poll, Meanwhile, Served, reset_call, pre_check, inspire, respond, reset_branch, after_claim,
  claim_branch, serve, agent_state,
}

-- Every commit of another connection keeps the invariant.
pub record IsCareful (m : Meanwhile) : Type 0 where
  pub read : (db : Db) → IsValid db → IsValid (m.before_read db)
  pub claim : (db : Db) → IsValid db → IsValid (m.before_claim db)
  pub reset : (db : Db) → IsValid db → IsValid (m.before_reset db)
  pub after : (db : Db) → IsValid db → IsValid (m.after_reset db)
  pub program : (db : Db) → IsValid db → IsValid (m.before_program db)
  pub hint : (db : Db) → IsValid db → IsValid (m.before_hint db)

touch-IsValid : (db : Db) (agent_id ts : ℕ) → IsValid db → IsValid (touch_heartbeat db agent_id ts)
unfolding touch_heartbeat
touch-IsValid db agent_id ts v = record {
  states = v.states;
  trajectories = v.trajectories;
  bests = v.bests;
  pool = v.pool;
}

hint_increment_quiet :
    (hint : Hint)
    → ((hint_increment hint).improvements ≤ (hint_increment hint).runs)
      × ((hint_increment hint).runs_since_improvement_inc ≤ (hint_increment hint).runs)
hint_increment_quiet tacit_knowledge = (omega arith, omega arith)
hint_increment_quiet inspiration = (omega arith, omega arith)
hint_increment_quiet failed_attempts = (omega arith, omega arith)

give_hint-IsValid : (h : Hinting) (db : Db) → IsValid db → IsValid (give_hint h db).2
unfolding give_hint stash
give_hint-IsValid h db v =
    update_state-IsValid _
      (increment-IsValid db v h.agent_id h.challenge (hint_increment (stagnation_hint h db))
        (hint_increment_quiet (stagnation_hint h db)).0
        (hint_increment_quiet (stagnation_hint h db)).1)
      h.agent_id h.challenge _ (λ r c. record { improved = c.improved; stalled = c.stalled })

program-IsValid :
    (db : Db) (agent_id challenge : ℕ) (program : Option ℕ) (new_id : ℕ)
    → IsValid db
    → IsValid (ensure_current_program_id db agent_id challenge program new_id).1
unfolding ensure_current_program_id
program-IsValid db agent_id challenge (some id) new_id v = v
program-IsValid db agent_id challenge none new_id v =
    update_state-IsValid db v agent_id challenge _
      (λ r c. record { improved = c.improved; stalled = c.stalled })

claim-IsValid :
    (db : Db) (challenge agent_id now_ts stale_before : ℕ)
    → IsValid db
    → IsValid (claim_mainnet_measurement db challenge agent_id now_ts stale_before).0
unfolding claim_mainnet_measurement
claim-IsValid db challenge agent_id now_ts stale_before v = record {
  states = v.states;
  trajectories = v.trajectories;
  bests = v.bests;
  pool = v.pool;
}

claim_measurement-IsValid :
    (fingerprint : String → ℕ) (db : Db) (challenge agent_id now_ts stale_before : ℕ)
    → IsValid db
    → IsValid (claim_measurement fingerprint db challenge agent_id now_ts stale_before).1
unfolding claim_measurement
claim_measurement-IsValid fingerprint db challenge agent_id now_ts stale_before v =
    elim (Bool-cases (mainnet_measurement_claimable fingerprint db challenge)) [
      | inl e ↦ rw e (claim-IsValid db challenge agent_id now_ts stale_before v)
      | inr e ↦ rw e v
    ]

module _ (m : Meanwhile) (careful : IsCareful m) (p : Poll) where
  inspire-IsValid :
      (served : Served) (program_id : ℕ) (db : Db)
      → IsValid db
      → IsValid (inspire m p served program_id db).1
  unfolding inspire
  inspire-IsValid served program_id db v =
      elim (Bool-cases
        (not (is_some served.trajectory_reset) && leb p.stagnation_threshold served.runs_since)) [
          | inl e ↦ rw e (give_hint-IsValid p.hinting _ (careful.hint db v))
          | inr e ↦ rw e v
        ]

  respond-IsValid : (served : Served) (db : Db) → IsValid db → IsValid (respond m p (served, db)).1
  unfolding respond
  respond-IsValid served db v = inspire-IsValid served _ _ (
      program-IsValid _ p.hinting.agent_id p.hinting.challenge (program_of served.acs)
        p.new_program_id (careful.program db v))

  module _ (fingerprint : String → ℕ) where
    reset_branch-IsValid :
        (force : Option ResetReason) (db : Db)
        → IsValid db
        → IsValid (reset_branch fingerprint m p force db).1
    unfolding reset_branch
    reset_branch-IsValid force db v =
        elim (Option-cases
          (maybe_reset_trajectory fingerprint (seed_fn_of p.seeding) (reset_call p force) db)) [
            | inl e ↦ rw (reset_branch, e) (careful.after db v)
            | inr ((o, db'), e) ↦
                rw (reset_branch, e)
                  (careful.after db' (
                    reset-IsValid fingerprint (seed_fn_of p.seeding) (reset_call p force) db db' o v
                      e))
          ]

    after_claim-IsValid :
        (acs : Option AgentState) (best : Option TrajectoryBest) (force : Option ResetReason)
        (db : Db)
        → IsValid db
        → IsValid (after_claim fingerprint m p acs best (force, db)).1
    unfolding after_claim
    after_claim-IsValid acs best none db v = v
    after_claim-IsValid acs best (some reason) db v =
        reset_branch-IsValid (some reason) _ (careful.reset db v)

    claim_branch-IsValid :
        (acs : Option AgentState) (best : Option TrajectoryBest) (db : Db)
        → IsValid db
        → IsValid (claim_branch fingerprint m p db acs best).1
    unfolding claim_branch
    claim_branch-IsValid acs none db v = v
    claim_branch-IsValid acs (some best) db v = after_claim-IsValid acs (some best) _ _ (
        claim_measurement-IsValid fingerprint _ p.hinting.challenge p.hinting.agent_id p.claim_ts
          p.stale_before (careful.claim db v))

    abbrev acs_of : Db → Option AgentState
    acs_of db = get_agent_challenge_state db p.hinting.agent_id p.hinting.challenge

    abbrev best_of : Db → Option TrajectoryBest
    best_of db = get_trajectory_best db p.hinting.agent_id p.hinting.challenge

    serve-IsValid : (db : Db) → IsValid db → IsValid (serve fingerprint m p db).1
    unfolding serve
    serve-IsValid db v = elim (Bool-cases (pre_check p db)) [
      | inl e ↦ rw e (reset_branch-IsValid none _ (careful.reset db v))
      | inr e ↦ rw e (claim_branch-IsValid (acs_of db) (best_of db) db v)
    ]

    -- A poll keeps the database well-formed, through the heartbeat, the claim of a measurement, the
    -- reset, a new program id and the hint, provided that whatever other connections commit between
    -- these statements keeps it well-formed too.
    pub poll-IsValid : (db : Db) → IsValid db → IsValid (agent_state fingerprint m p db).1
    unfolding agent_state
    poll-IsValid db v = respond-IsValid _ _ (
        serve-IsValid _ (
          careful.read _ (
            ensure-IsValid _ (touch-IsValid db p.hinting.agent_id p.ts_now v) p.hinting.agent_id
              p.hinting.challenge p.ts_now)))
