-- ===== src/Iteration/Harvest.antt =====
-- _maybe_harvest_seed: a frontier agent's simple and novel algorithm joins the seed pool
-- (server/server.py).
use tig_swarm_demo.Prelude.{
  ℕ, Bool, true, false, not, ◌&&◌, Option, none, some, List, map, ◌==◌, if◌then◌else◌, select,
  get_elem?,
}
use tig_swarm_demo.Db.Rows.{Tier, standard, frontier, Seed, harvested, Db}
use tig_swarm_demo.Db.Bests.{files_json}
use tig_swarm_demo.Db.Seeds.{insert_seed, list_seeds, evict_seed}
use tig_swarm_demo.SeedPool.{Decision, admit, admit_evict, decide_admission}
use tig_swarm_demo.Iteration.Request.{IterationCreate, Env}

-- get_agent_tier: a missing agent counts as standard
unfoldable pub get_agent_tier : Db → ℕ → Tier
get_agent_tier db agent_id = elim (select (λ a. a.id == agent_id) db.agents) [
  | none ↦ standard
  | some a ↦ a.tier
]

abbrev pub is_frontier : Tier → Bool
is_frontier standard = false
is_frontier frontier = true

-- the seed that insert_seed is given
unfoldable pub harvested_seed : IterationCreate → ℕ → ℕ → Seed
harvested_seed req challenge timestamp = record {
  id = 0;
  challenge = challenge;
  strategy_tag = req.strategy_tag;
  source = harvested;
  score = some req.score;
  feasible = true;
  algorithm_code = req.algorithm_code;
  kernel_code = req.kernel_code;
  algorithm_files = files_json req.algorithm_files;
  origin_agent_id = some req.agent_id;
  created_at = timestamp;
}

-- `evict_seed(existing[evict_index]["id"])`
unfoldable pub evict_at : Db → List Seed → Option ℕ → Db
evict_at db existing none = db
evict_at db existing (some i) = elim (get_elem? existing i) [
  | none ↦ db
  | some s ↦ evict_seed db s.id
]

unfoldable pub act_on : Db → List Seed → Decision → Seed → Db
unfolding evict_at
act_on db existing admit seed = insert_seed db seed
act_on db existing (admit_evict i) seed = insert_seed (evict_at db existing i) seed
act_on db existing _ seed = db

-- _maybe_harvest_seed
unfoldable pub maybe_harvest_seed : Env → Db → IterationCreate → ℕ → ℕ → Db
unfolding get_agent_tier harvested_seed act_on
maybe_harvest_seed env db req challenge timestamp =
    if req.feasible
      && not (env.is_blank req.algorithm_code)
      && is_frontier (get_agent_tier db req.agent_id)
    then (let existing = list_seeds db challenge in
        act_on db existing
          (decide_admission env.loc env.similarity req.algorithm_code
            (map (λ s. s.algorithm_code) existing) env.limits)
          (harvested_seed req challenge timestamp))
    else db
