-- ===== src/StateView/Seeding.antt =====
-- seed_for_agent (server/server.py): the starting code of a fresh trajectory.
use tig_swarm_demo.Prelude.{
  ℕ, String, Bool, true, false, ◌||◌, Option, none, some, List, [], ◌∷◌, if◌then◌else◌,
}
use tig_swarm_demo.Db.Rows.{Direction, Tier, standard, frontier, Seed, Db}
use tig_swarm_demo.Db.Bests.{row_files}
use tig_swarm_demo.Db.Seeds.{list_seeds}
use tig_swarm_demo.Reset.Trip.{Call}
use tig_swarm_demo.Reset.Launching.{Source, Start, seed, peer, stub, choice}
use tig_swarm_demo.StateView.Peers.{Peer, list_trajectory_bests}

-- `agent_role`, normalized
pub data Role : Type 0 where
  explorer exploiter : Role

-- What seed_for_agent takes besides the connection, the agent and the challenge. `is_gpu` and
-- `initial` are the registry entry and load_initial_algorithm of the challenge.
pub record Seeding : Type 0 where
  pub tier : Tier
  pub role : Role
  pub cutoff_ts : ℕ
  pub seeded : Option Bool
  pub is_gpu : Bool
  pub initial : String × String
  pub seed_draw : ℕ

abbrev pub is_standard : Tier → Bool
is_standard standard = true
is_standard frontier = false

abbrev pub is_exploiter : Role → Bool
is_exploiter explorer = false
is_exploiter exploiter = true

-- `needs_seed`
unfoldable pub needs_seed : Seeding → Bool
needs_seed s = elim s.seeded [
  | none ↦ s.is_gpu || is_standard s.tier || is_exploiter s.role
  | some given ↦ given
]

abbrev pub kernel_or_empty : Option String → Option String
kernel_or_empty none = some ""
kernel_or_empty (some k) = some k

unfoldable pub stub_source : Seeding → Source
stub_source s = record {
  algorithm_code = s.initial.0;
  kernel_code = some s.initial.1;
  algorithm_files = none;
}

unfoldable pub seed_source : Seed → Source
seed_source s = record {
  algorithm_code = s.algorithm_code;
  kernel_code = kernel_or_empty s.kernel_code;
  algorithm_files = row_files s.algorithm_files;
}

-- `_row_files(best)` reads a column that list_trajectory_bests does not select
unfoldable pub peer_source : Peer → Source
peer_source p = record {
  algorithm_code = p.algorithm_code;
  kernel_code = kernel_or_empty p.kernel_code;
  algorithm_files = none;
}

abbrev pub best_peer : Seeding → List Peer → Source × Start
best_peer s [] = (stub_source s, stub)
best_peer s (p ∷ peers) = (peer_source p, peer)

abbrev pub drawn_seed : Seeding → List Seed → List Peer → Source × Start
drawn_seed s [] peers = best_peer s peers
drawn_seed s (x ∷ seeds) peers = (seed_source (choice s.seed_draw x seeds), seed)

-- seed_for_agent; a kernel that is absent is passed on as the empty text
unfoldable pub seed_for_agent : Seeding → Db → ℕ → ℕ → Direction → Source × Start
unfolding needs_seed stub_source seed_source peer_source
seed_for_agent s db agent_id challenge direction =
    if needs_seed s
    then drawn_seed s (list_seeds db challenge)
        (list_trajectory_bests db challenge direction agent_id s.cutoff_ts)
    else (stub_source s, stub)

-- functools.partial(seed_for_agent, seeded=...), as the reset calls it
abbrev pub seed_fn_of : Seeding → Db → Call → Source × Start
seed_fn_of s db call = seed_for_agent s db call.agent_id call.challenge call.direction
