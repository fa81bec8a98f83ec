-- ===== src/StateView/Poll.antt =====
-- _agent_state (server/server.py) as a whole: one poll of an agent, from the heartbeat to the hint.
use tig_swarm_demo.Prelude.{
  ℕ, ℤ, String, Bool, not, ◌&&◌, ◌||◌, Option, none, some, leb, if◌then◌else◌, is_some, map_option,
}
use tig_swarm_demo.Db.Rows.{AgentState, TrajectoryBest, Hint, Db}
use tig_swarm_demo.Db.States.{get_agent_challenge_state, ensure_agent_challenge_state}
use tig_swarm_demo.Db.Bests.{get_trajectory_best, row_files}
use tig_swarm_demo.Reset.Trip.{ResetReason, Call, runs_since, program_of}
use tig_swarm_demo.Reset.Launching.{Source, Start, ResetInfo}
use tig_swarm_demo.Reset.Machine.{ResetOutcome, maybe_reset_trajectory}
use tig_swarm_demo.Iteration.Recording.{ensure_current_program_id}
use tig_swarm_demo.StateView.Heartbeat.{touch_heartbeat}
use tig_swarm_demo.StateView.Peers.{Peer}
use tig_swarm_demo.StateView.Seeding.{Seeding, seed_for_agent, seed_fn_of}
use tig_swarm_demo.StateView.Tripping.{stagnated, negative_cull, claim_measurement}
use tig_swarm_demo.StateView.Hints.{Hinting, give_hint}

-- The arguments of a poll, the settings that it reads, and what it takes from the clock, from new_id
-- and from random.choice.
pub record Poll : Type 0 where
  pub hinting : Hinting
  pub seeding : Seeding
  pub stagnation_limit : ℕ
  pub negative_limit : ℕ
  pub stagnation_threshold : ℕ
  pub ts_now : ℕ
  pub claim_ts : ℕ
  pub stale_before : ℕ
  pub reset_ts : ℕ
  pub reset_draw : ℕ
  pub reset_program_id : ℕ
  pub new_program_id : ℕ

-- What other connections commit while this one awaits, outside its transactions: before the first read,
-- the claim, the reset, the read that follows the reset, a new program id, and the hint.
pub record Meanwhile : Type 0 where
  pub before_read : Db → Db
  pub before_claim : Db → Db
  pub before_reset : Db → Db
  pub after_reset : Db → Db
  pub before_program : Db → Db
  pub before_hint : Db → Db

-- the arguments that the reset is called with
unfoldable pub reset_call : Poll → Option ResetReason → Call
reset_call p force_reason = record {
  agent_id = p.hinting.agent_id;
  challenge = p.hinting.challenge;
  direction = p.hinting.direction;
  stagnation_limit = p.stagnation_limit;
  negative_trajectory_limit = p.negative_limit;
  timestamp = p.reset_ts;
  force_reason = force_reason;
  draw = p.reset_draw;
  new_program_id = p.reset_program_id;
}

-- the variables that both halves of the reset block set
pub record Served : Type 0 where
  pub trajectory_reset : Option ResetInfo
  pub seed_start : Option Start
  pub source : Source
  pub traj_best : Option TrajectoryBest
  pub current_trajectory_best : Option ℤ
  pub traj_best_experiment_id : Option ℕ
  pub runs_since : ℕ
  pub acs : Option AgentState

unfoldable pub best_source : TrajectoryBest → Source
best_source b = record {
  algorithm_code = b.algorithm_code;
  kernel_code = b.kernel_code;
  algorithm_files = row_files b.algorithm_files;
}

abbrev pub experiment_of : Option TrajectoryBest → Option ℕ
experiment_of none = none
experiment_of (some b) = b.experiment_id

-- `else` of `reset is not None`: the agent's own best, or a cold start
abbrev pub starting_code : Poll → Db → Option TrajectoryBest → Source × Option Start
starting_code p db (some b) = (best_source b, none)
starting_code p db none =
    let (source, start) =
      seed_for_agent p.seeding db p.hinting.agent_id p.hinting.challenge p.hinting.direction in
    (source, some start)

unfoldable pub serve_current : Poll → Db → Option AgentState → Option TrajectoryBest → Served
unfolding best_source
serve_current p db acs best =
    let (source, start) = starting_code p db best in
    record {
      trajectory_reset = none;
      seed_start = start;
      source = source;
      traj_best = best;
      current_trajectory_best = map_option (λ (b : TrajectoryBest). b.score) best;
      traj_best_experiment_id = experiment_of best;
      runs_since = runs_since acs;
      acs = acs;
    }

-- `reset is not None`
unfoldable pub serve_reset : ResetOutcome → Option AgentState → Served
serve_reset o acs = record {
  trajectory_reset = some o.reset_info;
  seed_start = o.seed_start;
  source = o.source;
  traj_best = o.traj_best;
  current_trajectory_best = o.current_trajectory_best;
  traj_best_experiment_id = o.traj_best_experiment_id;
  runs_since = 0;
  acs = acs;
}

-- what the agent's current rows serve
unfoldable pub serve_stored : Poll → Db → Served
unfolding serve_current
serve_stored p db =
    serve_current p db (get_agent_challenge_state db p.hinting.agent_id p.hinting.challenge)
      (get_trajectory_best db p.hinting.agent_id p.hinting.challenge)

-- `stagnated or negative_cull`, on the rows of `db`
unfoldable pub pre_check : Poll → Db → Bool
unfolding stagnated negative_cull
pre_check p db =
    let best = get_trajectory_best db p.hinting.agent_id p.hinting.challenge in
    let acs = get_agent_challenge_state db p.hinting.agent_id p.hinting.challenge in
    stagnated p.stagnation_limit (runs_since acs) best
    || negative_cull p.hinting.direction p.negative_limit db acs best

-- what the response holds
pub record View : Type 0 where
  pub served : Served
  pub program_id : ℕ
  pub hint : Option Hint
  pub inspiration : Option Peer

-- the inspiration block, skipped after a reset
unfoldable pub inspire : Meanwhile → Poll → Served → ℕ → Db → View × Db
unfolding give_hint
inspire m p served program_id db =
    if not (is_some served.trajectory_reset) && leb p.stagnation_threshold served.runs_since
    then (let (hint, chosen, db') = give_hint p.hinting (m.before_hint db) in
        (
          record {
            served = served;
            program_id = program_id;
            hint = some hint;
            inspiration = chosen;
          },
          db',
        ))
    else (record { served = served; program_id = program_id; hint = none; inspiration = none }, db)

-- from `_ensure_current_program_id` on
unfoldable pub respond : Meanwhile → Poll → Served × Db → View × Db
unfolding inspire
respond m p (served, db) =
    let (program_id, db') =
      ensure_current_program_id (m.before_program db) p.hinting.agent_id p.hinting.challenge
        (program_of served.acs) p.new_program_id in
    inspire m p served program_id db'

module _ (fingerprint : String → ℕ) (m : Meanwhile) (p : Poll) where
  -- the call of the reset; an agent that lost the race reads its rows again
  unfoldable pub reset_branch : Option ResetReason → Db → Served × Db
  unfolding serve_reset serve_stored reset_call
  reset_branch force_reason db =
      elim (maybe_reset_trajectory fingerprint (seed_fn_of p.seeding) (reset_call p force_reason)
        db) [
          | none ↦ (serve_stored p (m.after_reset db), m.after_reset db)
          | some (o, db') ↦ (
            serve_reset o (
                get_agent_challenge_state (m.after_reset db') p.hinting.agent_id
                  p.hinting.challenge),
            m.after_reset db',
          )
        ]

  -- the poll behind the claim: `db` is the state in which the claim was made
  unfoldable pub after_claim :
      Option AgentState → Option TrajectoryBest → Option ResetReason × Db → Served × Db
  unfolding reset_branch serve_current
  after_claim acs best (force_reason, db) =
      if is_some force_reason
      then reset_branch force_reason (m.before_reset db)
      else (serve_current p db acs best, db)

  -- the measurement block, for an agent with a best
  unfoldable pub claim_branch : Db → Option AgentState → Option TrajectoryBest → Served × Db
  unfolding after_claim
  claim_branch db acs none = (serve_current p db acs none, db)
  claim_branch db acs (some best) = after_claim acs (some best) (
      claim_measurement fingerprint (m.before_claim db) p.hinting.challenge p.hinting.agent_id
        p.claim_ts p.stale_before)

  -- from the first read to the starting code
  unfoldable pub serve : Db → Served × Db
  unfolding claim_branch reset_branch pre_check
  serve db =
      if pre_check p db
      then reset_branch none (m.before_reset db)
      else claim_branch db (get_agent_challenge_state db p.hinting.agent_id p.hinting.challenge)
          (get_trajectory_best db p.hinting.agent_id p.hinting.challenge)

  -- _agent_state
  unfoldable pub agent_state : Db → View × Db
  unfolding serve respond touch_heartbeat
  agent_state db = respond m p (
      serve (
        m.before_read (
          ensure_agent_challenge_state (touch_heartbeat db p.hinting.agent_id p.ts_now)
            p.hinting.agent_id p.hinting.challenge p.ts_now)))
