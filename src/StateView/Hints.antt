-- ===== src/StateView/Hints.antt =====
-- _agent_state (server/server.py), the inspiration of a stagnating agent: which hint it is given, from
-- which peer, and what the next publish will be tagged with.
use tig_swarm_demo.Prelude.{ℕ, Bool, ◌&&◌, Option, none, some, List, [], ◌∷◌, if◌then◌else◌}
use tig_swarm_demo.Db.Rows.{
  Direction, AgentState, Hint, tacit_knowledge, inspiration, failed_attempts, Db,
}
use tig_swarm_demo.Db.States.{
  Increment, no_increment, increment_agent_challenge_counters, update_agent_challenge_state,
}
use tig_swarm_demo.Reset.Launching.{choice}
use tig_swarm_demo.StateView.Peers.{Peer, list_trajectory_bests, has_failure_material}

-- What the block takes from the settings, from the table failure_records and from random.choice.
pub record Hinting : Type 0 where
  pub agent_id : ℕ
  pub challenge : ℕ
  pub direction : Direction
  pub cutoff_ts : ℕ
  pub failed_attempts_archive : Bool
  pub has_records : Bool
  pub hint_draw : ℕ
  pub peer_draw : ℕ

-- hint_choices behind its first entry
unfoldable pub more_choices : Hinting → Db → List Hint
unfolding has_failure_material
more_choices h db =
    inspiration
    ∷ (if h.failed_attempts_archive && has_failure_material h.has_records db h.agent_id h.challenge
        then failed_attempts ∷ []
        else [])

-- `stagnation_hint`
unfoldable pub stagnation_hint : Hinting → Db → Hint
unfolding more_choices
stagnation_hint h db = choice h.hint_draw tacit_knowledge (more_choices h db)

-- the counter that a hint increments
abbrev pub hint_increment : Hint → Increment
hint_increment tacit_knowledge = record no_increment { tacit_knowledge_inc = 1 }
hint_increment inspiration = record no_increment { inspiration_inc = 1 }
hint_increment failed_attempts = record no_increment { failed_attempts_inc = 1 }

-- `chosen`
abbrev pub chosen_peer : ℕ → List Peer → Option Peer
chosen_peer draw [] = none
chosen_peer draw (p ∷ peers) = some (choice draw p peers)

-- `pending_source`
abbrev pub pending_source : Hint → Option Peer → Option ℕ
pending_source inspiration (some chosen) = some chosen.agent_id
pending_source _ _ = none

-- `pending_source_traj` is chosen.get("trajectory_id"), and the rows of list_trajectory_bests have no
-- such column
unfoldable pub stash : Hint → Option Peer → AgentState → AgentState
stash hint chosen r = record r {
  pending_hint = some hint;
  pending_inspiration_source = pending_source hint chosen;
  pending_inspiration_source_trajectory = none;
}

-- the hint, the peer whose code is shown, and the database behind the counters and the stash
unfoldable pub give_hint : Hinting → Db → Hint × Option Peer × Db
unfolding stagnation_hint
give_hint h db =
    let hint = stagnation_hint h db in
    let counted =
      increment_agent_challenge_counters db h.agent_id h.challenge (hint_increment hint) in
    let chosen =
      chosen_peer h.peer_draw
        (list_trajectory_bests counted h.challenge h.direction h.agent_id h.cutoff_ts) in
    (hint, chosen, update_agent_challenge_state counted h.agent_id h.challenge (stash hint chosen))
