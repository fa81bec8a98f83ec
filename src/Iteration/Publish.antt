-- ===== src/Iteration/Publish.antt =====
-- create_iteration: the whole publish, from the checks to the commit (server/server.py). What the
-- handler broadcasts, and the rank in its response, are read off the committed database.
use tig_swarm_demo.Prelude.{
  ℕ, Bool, true, not, Option, none, some, [], ◌∷◌, ◌++◌, ◌==◌, if◌then◌else◌, is_some, select,
}
use tig_swarm_demo.Db.Rows.{Db}
use tig_swarm_demo.Db.States.{
  ensure_agent_challenge_state, get_agent_challenge_state, update_agent_challenge_state,
}
use tig_swarm_demo.Reset.Trip.{trajectory_of, program_of}
use tig_swarm_demo.Iteration.Request.{
  IterationCreate, Fresh, Env, Result, ok, err, token_mismatch, missing_challenge,
  unknown_challenge, unregistered_agent,
}
use tig_swarm_demo.Iteration.Verdict.{Verdict, evaluate_iteration}
use tig_swarm_demo.Iteration.Recording.{
  ensure_current_program_id, ensure_trajectory, insert_hypothesis, record_experiment,
}
use tig_swarm_demo.Iteration.Outcome.{apply_iteration_outcome}
use tig_swarm_demo.Iteration.Harvest.{maybe_harvest_seed}
use tig_swarm_demo.Iteration.Capture.{maybe_capture_mainnet_baseline}

-- the INSERT INTO best_history
unfoldable pub record_best : Db → IterationCreate → Fresh → ℕ → Verdict → Db
record_best db req fresh challenge verdict =
    if verdict.is_new_best
    then record db {
      best_history =
          db.best_history
          ++ record {
            experiment_id = fresh.exp_id;
            agent_id = req.agent_id;
            challenge = challenge;
            score = req.score;
            solution_data = req.solution_data;
            created_at = fresh.timestamp;
          }
            ∷ [];
    }
    else db

-- the hypothesis, the trajectory and the experiment
unfoldable pub record_iteration : Db → IterationCreate → Fresh → ℕ → Verdict → ℕ × Db
record_iteration db req fresh challenge verdict =
    let acs = get_agent_challenge_state db req.agent_id challenge in
    let (program_id, db1) =
      ensure_current_program_id db req.agent_id challenge (program_of acs) fresh.program_id in
    let (trajectory_id, db2) =
      ensure_trajectory (insert_hypothesis db1 req fresh challenge verdict program_id) req.agent_id
        challenge (trajectory_of acs) fresh.trajectory_id fresh.timestamp
        (if verdict.beats_trajectory_best then some req.score else none) in
    (trajectory_id, record_experiment db2 req fresh challenge trajectory_id acs verdict)

-- what follows the outcome, up to the commit
unfoldable pub finish_iteration : Env → Db → IterationCreate → Fresh → ℕ → Verdict → Db
unfolding record_best
finish_iteration env db req fresh challenge verdict =
    maybe_harvest_seed env
      (update_agent_challenge_state
        (record_best (maybe_capture_mainnet_baseline env db challenge req fresh.timestamp) req fresh
          challenge verdict)
        req.agent_id challenge (λ r. record r { ever_benchmarked = true }))
      req challenge fresh.timestamp

-- the transaction, for a registered agent
unfoldable pub publish : Env → Db → IterationCreate → Fresh → ℕ → Verdict × Db
unfolding record_iteration finish_iteration
publish env db req fresh challenge =
    let direction = env.direction_of challenge in
    let db0 = ensure_agent_challenge_state db req.agent_id challenge fresh.timestamp in
    let verdict = evaluate_iteration db0 req challenge direction in
    let (trajectory_id, db1) = record_iteration db0 req fresh challenge verdict in
    (
      verdict,
      finish_iteration env
          (apply_iteration_outcome db1 req fresh challenge direction verdict trajectory_id) req
          fresh challenge verdict,
    )

-- `SELECT 1 FROM agents WHERE id = ?`
unfoldable pub is_registered : Db → ℕ → Bool
is_registered db agent_id = is_some (select (λ a. a.id == agent_id) db.agents)

unfoldable pub publish_on : Env → Db → IterationCreate → Fresh → Option ℕ → Result (Verdict × Db)
unfolding publish is_registered
publish_on env db req fresh none = err missing_challenge
publish_on env db req fresh (some challenge) =
    if not (env.is_known_challenge challenge)
    then err unknown_challenge
    else if not (is_registered db req.agent_id)
    then err unregistered_agent
    else ok (publish env db req fresh challenge)

-- create_iteration, with the agent that the token resolved to
unfoldable pub create_iteration : Env → Db → ℕ → IterationCreate → Fresh → Result (Verdict × Db)
unfolding publish_on
create_iteration env db token_agent_id req fresh =
    if token_agent_id == req.agent_id
    then publish_on env db req fresh req.challenge
    else err token_mismatch
