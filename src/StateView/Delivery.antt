-- ===== src/StateView/Delivery.antt =====
-- A hint on its way from the poll that gives it to the experiment that is tagged with it
-- (_agent_state and create_iteration in server/server.py).
use tig_swarm_demo.Prelude.{
  ℕ, ◌≡◌, refl, subst, ap, ◌∙◌, Bool, true, false, Option, none, some, [], ◌∷◌, ◌++◌,
  select-upsert-some,
}
use tig_swarm_demo.Db.Rows.{Direction, AgentState, TrajectoryBest, Hint, Experiment, Db}
use tig_swarm_demo.Db.States.{
  get_agent_challenge_state, ensure_agent_challenge_state, update_agent_challenge_state,
  increment_agent_challenge_counters, is_state, new_state,
}
use tig_swarm_demo.Db.Trajectories.{update_trajectory_after_edit}
use tig_swarm_demo.Db.Bests.{upsert_trajectory_best}
use tig_swarm_demo.Iteration.Request.{IterationCreate, Fresh, Env}
use tig_swarm_demo.Iteration.Verdict.{Verdict, evaluate_iteration}
use tig_swarm_demo.Iteration.Recording.{experiment_row, hint_of, source_of, source_trajectory_of}
use tig_swarm_demo.Iteration.Outcome.{
  apply_iteration_outcome, apply_branch, apply_improvement, apply_refactor, apply_failure,
}
use tig_swarm_demo.Iteration.Publish.{record_iteration, publish}
use tig_swarm_demo.Iteration.Counters.{Row, Row-update, Row-increment}
use tig_swarm_demo.Iteration.Frame.{record-Recorded, finish-Finished}
use tig_swarm_demo.StateView.Peers.{Peer}
use tig_swarm_demo.StateView.Hints.{Hinting, hint_increment, pending_source, stash, give_hint}

-- The pending columns of a row.
record IsPending (hint : Hint) (source : Option ℕ) (r : AgentState) : Type 0 where
  told : r.pending_hint ≡ some hint
  from_peer : r.pending_inspiration_source ≡ source
  from_line : r.pending_inspiration_source_trajectory ≡ none

Row-give_hint :
    (h : Hinting) (db : Db) (row : AgentState)
    → get_agent_challenge_state db h.agent_id h.challenge ≡ some row
    → Row
        (give_hint h db).2
        h.agent_id
        h.challenge
        (IsPending (give_hint h db).0 (pending_source (give_hint h db).0 (give_hint h db).1))
unfolding give_hint stash
Row-give_hint h db row e =
    let counted =
      Row-increment h.agent_id h.challenge (λ r. Unit {0}) db (hint_increment (give_hint h db).0)
        row e tt in
    Row-update h.agent_id h.challenge _ _ (stash (give_hint h db).0 (give_hint h db).1) counted.row
      (λ r. refl) counted.found (record { told = refl; from_peer = refl; from_line = refl })

Row-refresh :
    (agent_id challenge : ℕ) (hint : Hint) (source : Option ℕ) (db : Db) (timestamp : ℕ)
    → Row db agent_id challenge (IsPending hint source)
    → Row
        (ensure_agent_challenge_state db agent_id challenge timestamp)
        agent_id
        challenge
        (IsPending hint source)
unfolding get_agent_challenge_state ensure_agent_challenge_state
Row-refresh agent_id challenge hint source db timestamp r = record {
  row = record r.row { last_active_at = timestamp };
  found =
      select-upsert-some (is_state agent_id challenge) (new_state agent_id challenge timestamp)
        (λ x. record x { last_active_at = timestamp }) db.agent_states r.row (λ x. refl) r.found;
  holds = record {
    told = r.holds.told;
    from_peer = r.holds.from_peer;
    from_line = r.holds.from_line;
  };
}

branch-experiments :
    (db : Db) (req : IterationCreate) (fresh : Fresh) (challenge : ℕ) (direction : Direction)
    (beats_best is_refactor : Bool) (parent : Option TrajectoryBest) (trajectory_id : ℕ)
    → (let after =
          apply_branch db req fresh challenge direction beats_best is_refactor parent
            trajectory_id in
        after.experiments ≡ db.experiments)
unfolding apply_branch apply_improvement apply_refactor apply_failure upsert_trajectory_best
    update_agent_challenge_state increment_agent_challenge_counters
branch-experiments db req fresh challenge direction true is_refactor parent id = refl
branch-experiments db req fresh challenge direction false true (some parent) id = refl
branch-experiments db req fresh challenge direction false true none id = refl
branch-experiments db req fresh challenge direction false false parent id = refl

module _ (env : Env) (db : Db) (req : IterationCreate) (fresh : Fresh) (challenge : ℕ) where
  abbrev pub verdict : Verdict
  verdict =
      evaluate_iteration (ensure_agent_challenge_state db req.agent_id challenge fresh.timestamp)
        req challenge (env.direction_of challenge)

  abbrev refreshed : Db
  refreshed = ensure_agent_challenge_state db req.agent_id challenge fresh.timestamp

  -- A publish adds its experiment and leaves the others alone.
  pub experiments-publish :
      (publish env db req fresh challenge).1.experiments
      ≡ db.experiments
        ++ experiment_row req fresh challenge
            (record_iteration refreshed req fresh challenge verdict).0
            (get_agent_challenge_state refreshed req.agent_id challenge)
            verdict
          ∷ []
  unfolding publish apply_iteration_outcome update_trajectory_after_edit
      ensure_agent_challenge_state
  experiments-publish =
      (finish-Finished env _ req fresh challenge verdict).experiments
      ∙ branch-experiments _ req fresh challenge _ _ _ _ _
      ∙ (record-Recorded refreshed req fresh challenge verdict).experiments

-- The experiment is tagged with the hint and its source; the trajectory of the source is lost.
pub record IsTagged (hint : Hint) (chosen : Option Peer) (e : Experiment) : Type 0 where
  pub hint_tag : e.received_hint ≡ some hint
  pub source_tag : e.inspiration_source_id ≡ pending_source hint chosen
  pub trajectory_tag : e.inspiration_source_trajectory_id ≡ none

module _ (env : Env) (db : Db) (req : IterationCreate) (fresh : Fresh) (h : Hinting)
    (row : AgentState) (same : h.agent_id ≡ req.agent_id)
    (e : get_agent_challenge_state db h.agent_id h.challenge ≡ some row) where
  -- An agent with a row on the challenge that is given a hint and then publishes: the publish adds one
  -- experiment, tagged with that hint, and with the peer whose code was shown as its source exactly
  -- when the hint was inspiration. The column for the source's trajectory is always empty.
  pub hint_is_delivered :
      (x : Experiment) × ((publish env (give_hint h db).2 req fresh h.challenge).1.experiments
        ≡ db.experiments ++ x ∷ [])
      × IsTagged (give_hint h db).0 (give_hint h db).1 x
  unfolding give_hint experiment_row update_agent_challenge_state increment_agent_challenge_counters
  hint_is_delivered =
      let given =
        subst
          (λ a.
            Row (give_hint h db).2 a h.challenge
              (IsPending (give_hint h db).0 (pending_source (give_hint h db).0 (give_hint h db).1)))
          same (Row-give_hint h db row e) in
      let r = Row-refresh req.agent_id h.challenge _ _ _ fresh.timestamp given in
      (
        _,
        experiments-publish env (give_hint h db).2 req fresh h.challenge,
        record {
          hint_tag = ap hint_of r.found ∙ r.holds.told;
          source_tag = ap source_of r.found ∙ r.holds.from_peer;
          trajectory_tag = ap source_trajectory_of r.found ∙ r.holds.from_line;
        },
      )
