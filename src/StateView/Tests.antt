-- ===== src/StateView/Tests.antt =====
-- Runs of a poll on the sample database.
use tig_swarm_demo.Prelude.{
  ◌≡◌, refl, pos, true, false, none, some, [], ◌∷◌, ◌++◌, is_some, arith, select, select_all,
}
use tig_swarm_demo.Db.Rows.{maximise, frontier, TrajectoryBest, Experiment, Db}
use tig_swarm_demo.Db.States.{get_agent_challenge_state, ensure_agent_challenge_state}
use tig_swarm_demo.Db.Bests.{get_trajectory_best}
use tig_swarm_demo.Db.Seeds.{list_seeds}
use tig_swarm_demo.Db.Valid.{IsValid, ensure-IsValid}
use tig_swarm_demo.Reset.Launching.{peer}
use tig_swarm_demo.Reset.Machine.{maybe_reset_trajectory}
use tig_swarm_demo.Iteration.Publish.{publish}
use tig_swarm_demo.StateView.Peers.{list_trajectory_bests}
use tig_swarm_demo.StateView.Seeding.{Seeding, exploiter, seed_for_agent, seed_fn_of}
use tig_swarm_demo.StateView.Hints.{Hinting, give_hint}
use tig_swarm_demo.Sweep.{Owned, sweep_rows}
use tig_swarm_demo.StateView.Heartbeat.{current_state, heartbeat}
use tig_swarm_demo.StateView.Alive.{IsSpared, heartbeat_survives_sweep}
use tig_swarm_demo.StateView.Poll.{Poll, Meanwhile, reset_call, pre_check, agent_state}
use tig_swarm_demo.StateView.Validity.{IsCareful, poll-IsValid}
use tig_swarm_demo.StateView.PreCheck.{pre_check-agrees}
use tig_swarm_demo.StateView.Delivery.{IsTagged, hint_is_delivered}
use tig_swarm_demo.StateView.Starts.{Starts, seed_for_agent_lem}
use tig_swarm_demo.Samples.{
  stalled_state, own_best, sample_db, sample-IsValid, one_fingerprint, sample_env, sample_request,
  sample_fresh,
}

abbrev sample_hinting : Hinting
sample_hinting = record {
  agent_id = 7;
  challenge = 1;
  direction = maximise;
  cutoff_ts = 30;
  failed_attempts_archive = false;
  has_records = false;
  hint_draw = 1;
  peer_draw = 0;
}

abbrev sample_seeding : Seeding
sample_seeding = record {
  tier = frontier;
  role = exploiter;
  cutoff_ts = 30;
  seeded = none;
  is_gpu = false;
  initial = ("initial", "");
  seed_draw = 0;
}

abbrev sample_poll : Poll
sample_poll = record {
  hinting = sample_hinting;
  seeding = sample_seeding;
  stagnation_limit = 5;
  negative_limit = 12;
  stagnation_threshold = 2;
  ts_now = 99;
  claim_ts = 100;
  stale_before = 20;
  reset_ts = 100;
  reset_draw = 0;
  reset_program_id = 60;
  new_program_id = 61;
}

-- A second agent, 8, whose best has a second file.
abbrev peer_best : TrajectoryBest
peer_best = record own_best {
  agent_id = 8;
  algorithm_code = "theirs";
  algorithm_files = some (("extra.rs", "fn f() {}") ∷ []);
  score = pos 20;
}

abbrev peer_db : Db
peer_db = record sample_db {
  agent_states = stalled_state ∷ record stalled_state { agent_id = 8 } ∷ [];
  trajectory_bests = own_best ∷ peer_best ∷ [];
}

-- another connection refreshes agent 8 before the reset, and once more after it
abbrev refreshing : Meanwhile
refreshing = record {
  before_read = λ db. db;
  before_claim = λ db. db;
  before_reset = λ db. ensure_agent_challenge_state db 8 1 98;
  after_reset = λ db. db;
  before_program = λ db. ensure_agent_challenge_state db 8 1 99;
  before_hint = λ db. db;
}

refreshing-IsCareful : IsCareful refreshing
refreshing-IsCareful = record {
  read = λ db v. v;
  claim = λ db v. v;
  reset = λ db v. ensure-IsValid db v 8 1 98;
  after = λ db v. v;
  program = λ db v. ensure-IsValid db v 8 1 99;
  hint = λ db v. v;
}

poll-IsValid_example : IsValid (agent_state one_fingerprint refreshing sample_poll sample_db).1
poll-IsValid_example =
    poll-IsValid refreshing refreshing-IsCareful sample_poll one_fingerprint sample_db
      sample-IsValid

pre_check-agrees_example :
    is_some (
      maybe_reset_trajectory one_fingerprint
        (seed_fn_of sample_seeding)
        (reset_call sample_poll none)
        sample_db)
    ≡ pre_check sample_poll sample_db
pre_check-agrees_example =
    pre_check-agrees one_fingerprint (seed_fn_of sample_seeding) sample_poll sample_db

stalled_trips : pre_check sample_poll sample_db ≡ true
unfolding pre_check get_trajectory_best get_agent_challenge_state select
stalled_trips = refl

found : get_agent_challenge_state peer_db 7 1 ≡ some stalled_state
unfolding get_agent_challenge_state select
found = refl

hint_is_delivered_example :
    (x : Experiment) × ((publish sample_env
        (give_hint sample_hinting peer_db).2
        sample_request
        sample_fresh
        1).1.experiments
      ≡ [] ++ x ∷ [])
    × IsTagged (give_hint sample_hinting peer_db).0 (give_hint sample_hinting peer_db).1 x
hint_is_delivered_example =
    hint_is_delivered sample_env peer_db sample_request sample_fresh sample_hinting stalled_state
      refl found

-- An exploiter without seeds starts from the better agent's code, and loses its second file.
peer_start : (seed_for_agent sample_seeding peer_db 7 1 maximise).1 ≡ peer
unfolding seed_for_agent list_seeds list_trajectory_bests select_all select
peer_start = refl

seed_for_agent_lem_example :
    Starts sample_seeding peer_db 7 1 maximise
      (seed_for_agent sample_seeding peer_db 7 1 maximise).0
      (seed_for_agent sample_seeding peer_db 7 1 maximise).1
seed_for_agent_lem_example = seed_for_agent_lem sample_seeding peer_db 7 1 maximise

-- Agent 7 would be swept with its row of time 50; a heartbeat at 90 keeps it.
abbrev silent_row : Owned
silent_row = record { agent_id = 7; challenge = 1; trajectory_id = 3; program_id = some 4 }

polled : current_state sample_db 7 ≡ some stalled_state
unfolding current_state select_all
polled = refl

heartbeat_survives_sweep_example :
    IsSpared 7 1 80 95
      (heartbeat sample_db 7 "working" 90)
      (sweep_rows 80 95 (silent_row ∷ []) (heartbeat sample_db 7 "working" 90)).1
heartbeat_survives_sweep_example =
    heartbeat_survives_sweep sample_db 7 "working" 90 80 95 stalled_state (silent_row ∷ [])
      (omega arith) polled
