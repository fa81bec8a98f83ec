-- ===== src/AgentLoop/Cleaning.antt =====
-- _score_within_delta, _run_cleaner_iteration and the publish of a result (scripts/run_loop.py). A
-- percentage is a whole number; run_prepass is a parameter: the new files, and whether it acted.
use tig_swarm_demo.Prelude.{
  ℕ, suc, ◌+◌, ◌*◌, ℤ, pos, negsuc, pos_part, neg_part, Bool, true, false, not, ◌&&◌, ◌||◌, Option,
  none, some, [], ◌∷◌, leb, ltb, if◌then◌else◌, length,
}
use tig_swarm_demo.Db.Rows.{Direction, maximise, minimise}
use tig_swarm_demo.SearchReplace.Apply.{FileMap}
use tig_swarm_demo.AgentLoop.{
  BenchResult, Params, defaults, Built, built, failed, Outside, World, run_benchmark,
}
use tig_swarm_demo.AgentLoop.Tuning.{write_map}

-- publish_results: it sends what stands on disk; the server takes it, or the call raises. What it fills in
-- (0 for a missing score) and the other fields of the payload are left out
unfoldable pub publish_results : Outside → Params → BenchResult → World → Bool × World
publish_results env params b w = (
  env.publish_ok w.calls,
  record w {
    calls = suc w.calls;
    published = record { disk = w.disk; params = params; bench = b } ∷ w.published;
  },
)

unfoldable pub total_chars : FileMap → ℕ
total_chars [] = 0
total_chars ((k, v) ∷ files) = length v + total_chars files

-- a * m ≤ b * n, for integers a and b and natural m and n
abbrev pub le_scaled : ℤ → ℕ → ℤ → ℕ → Bool
le_scaled a m b n = leb (pos_part a * m + neg_part b * n) (pos_part b * n + neg_part a * m)

-- x * (100 - d) on the side where it is compared: with d above 100 it stands as a negative factor
abbrev pub le_less : ℤ → ℤ → ℕ → Bool
le_less score parent d =
    leb (pos_part score * 100 + neg_part parent * 100 + pos_part parent * d)
      (neg_part score * 100 + pos_part parent * 100 + neg_part parent * d)

abbrev pub ge_less : ℤ → ℤ → ℕ → Bool
ge_less score parent d =
    leb (neg_part score * 100 + pos_part parent * 100 + neg_part parent * d)
      (pos_part score * 100 + neg_part parent * 100 + pos_part parent * d)

-- _score_within_delta
unfoldable pub score_within_delta : Direction → ℤ → ℤ → ℕ → Bool
score_within_delta minimise score (pos p) d = le_scaled score 100 (pos p) (100 + d)
score_within_delta minimise score (negsuc p) d = le_less score (negsuc p) d
score_within_delta maximise score (pos p) d = ge_less score (pos p) d
score_within_delta maximise score (negsuc p) d = le_scaled (negsuc p) (100 + d) score 100

-- _clean_score, for a score that is known
unfoldable pub clean_score : ℕ → ℤ → ℤ
clean_score noise x = if ltb (pos_part x + neg_part x) noise then pos 0 else x

pub record CleanSettings : Type 0 where
  pub trigger_chars : ℕ
  pub cooldown_iters : ℕ
  pub target_pct : ℕ
  pub score_delta_pct : ℕ

-- `ok`
abbrev pub keeps_score : Outside → CleanSettings → ℤ → BenchResult → Bool
keeps_score env set parent b = elim b.score [
  | none ↦ false
  | some score ↦ b.feasible && score_within_delta env.direction score parent set.score_delta_pct
]

abbrev pub publish_refactor : Outside → FileMap → BenchResult → World → Bool × World
publish_refactor env original b w =
    let (taken, sent) = publish_results env defaults b w in
    elim taken [ true ↦ (true, sent) | false ↦ (false, write_map env original sent) ]

abbrev pub judge_clean : Outside → CleanSettings → ℤ → FileMap → Built → World → Bool × World
judge_clean env set parent original (failed err) w = (false, write_map env original w)
judge_clean env set parent original (built b) w = elim (keeps_score env set parent b) [
  | true ↦ publish_refactor env original b w
  | false ↦ (false, write_map env original w)
]

-- the benchmark of the lean code, against the score of the trajectory with its noise taken out
abbrev pub try_clean : Outside → CleanSettings → FileMap → Option ℤ → World → Bool × World
try_clean env set lean none w = (false, w)
try_clean env set lean (some parent) w =
    let (result, ran) = run_benchmark env defaults (write_map env lean w) in
    judge_clean env set (clean_score env.noise parent) w.disk result ran

-- _run_cleaner_iteration
unfoldable pub run_cleaner_iteration : Outside → CleanSettings → Option ℤ → World → Bool × World
unfolding total_chars write_map run_benchmark score_within_delta clean_score publish_results
run_cleaner_iteration env set parent w =
    let (lean, acted) = env.run_prepass w.disk in
    if not acted || ltb (total_chars w.disk * set.target_pct) (total_chars lean * 100)
    then (false, w)
    else try_clean env set lean parent w
