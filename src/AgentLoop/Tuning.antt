-- ===== src/AgentLoop/Tuning.antt =====
-- _hpo_gate_open and _maybe_tune_hyperparameters (scripts/run_loop.py). The extraction of the
-- hyperparameters by the model is a parameter: nothing, or a variant with its suggested configurations.
use tig_swarm_demo.Prelude.{
  ℕ, zero, suc, ◌-◌, ℤ, Bool, true, false, ◌&&◌, Option, none, some, List, [], ◌∷◌, ltb,
  if◌then◌else◌, length, get_elem?,
}
use tig_swarm_demo.Db.Rows.{Direction}
use tig_swarm_demo.Db.States.{is_better}
use tig_swarm_demo.SearchReplace.Apply.{FileMap}
use tig_swarm_demo.ChallengeFiles.{read_text, write_files}
use tig_swarm_demo.Hpo.{search_configs}
use tig_swarm_demo.AgentLoop.{
  BenchResult, trial_config, track_configs, Built, built, failed, Outside, World, run_benchmark,
  after_ask,
}
use tig_swarm_demo.AgentLoop.Fixing.{benchmark_with_compile_fix}

-- the host's settings for the search
pub record TuneSettings : Type 0 where
  pub min_improvements : ℕ
  pub first_tune_improvements : ℕ
  pub num_suggested : ℕ
  pub search_budget : ℕ

pub data Gate : Type 0 where
  gate_open gate_closed index_error : Gate

-- scores[-k], for a k that is at most the length; -0 is 0
unfoldable pub from_end : ℕ → List ℤ → Option ℤ
from_end zero scores = get_elem? scores 0
from_end (suc k) scores = get_elem? scores (length scores - suc k)

-- the tune band: better than the floor, and worse than the parent
abbrev pub band_gate : Direction → ℤ → Option ℤ → Option ℤ → Gate
band_gate direction score (some parent) (some band_floor) =
    if is_better direction score band_floor && is_better direction parent score
    then gate_open
    else gate_closed
band_gate direction score _ _ = index_error

abbrev pub score_gate : Direction → TuneSettings → List ℤ → Bool → Option ℤ → Gate
score_gate direction set scores has_tuned none = gate_closed
score_gate direction set scores false (some score) =
    if ltb (length scores) set.first_tune_improvements then gate_closed else gate_open
score_gate direction set scores true (some score) =
    if ltb (length scores) set.min_improvements
    then gate_closed
    else band_gate direction score (from_end 1 scores) (from_end set.min_improvements scores)

-- _hpo_gate_open
unfoldable pub hpo_gate_open : Direction → TuneSettings → BenchResult → List ℤ → Bool → Gate
unfolding is_better from_end
hpo_gate_open direction set b scores has_tuned =
    if b.feasible then score_gate direction set scores has_tuned b.score else gate_closed

-- what is published: the default result, or the tuned one with its configurations
pub data Tuning : Type 0 where
  kept : Tuning
  adopted : BenchResult → List (ℕ × ℕ × ℤ) → Tuning
  raised : Tuning

-- files.write_files
unfoldable pub write_map : Outside → FileMap → World → World
unfolding write_files
write_map env files w = record w { disk = write_files env.files.entry_name files w.disk }

-- the tuned result, if it has a score and is feasible
abbrev pub adopt_tuned : Outside → FileMap → List (ℕ × ℕ × ℤ) → Built → World → Tuning × World
adopt_tuned env original winning (failed err) w = (kept, write_map env original w)
adopt_tuned env original winning (built b) w = elim b.score [
  | none ↦ (kept, write_map env original w)
  | some score ↦ elim b.feasible [
    | true ↦ (adopted b winning, w)
    | false ↦ (kept, write_map env original w)
  ]
]

-- the final benchmark, on the test seed
abbrev pub final_run : Outside → FileMap → List (ℕ × ℕ × ℤ) → World → Tuning × World
final_run env original [] w = (kept, write_map env original w)
final_run env original (c ∷ winning) w =
    let (result, ran) = run_benchmark env (track_configs (c ∷ winning)) w in
    adopt_tuned env original (c ∷ winning) result ran

-- the search, whose runs leave the directory alone
unfoldable pub search_and_run : Outside → TuneSettings → FileMap → List ℕ → World → Tuning × World
unfolding search_configs run_benchmark write_map
search_and_run env set original suggested w =
    let result =
      search_configs env.config_key (env.search_run w.calls w.disk) set.search_budget
        set.num_suggested env.direction suggested (env.draws w.calls) in
    final_run env original result.winning_configs (record w { calls = suc w.calls })

abbrev pub after_build :
    Outside → TuneSettings → FileMap → List ℕ → Option BenchResult → World → Tuning × World
after_build env set original suggested none w = (kept, write_map env original w)
after_build env set original suggested (some b) w = search_and_run env set original suggested w

-- the variant is written, checked and built
unfoldable pub try_variant : Outside → TuneSettings → FileMap → List ℕ → World → Tuning × World
unfolding write_map benchmark_with_compile_fix search_and_run read_text
try_variant env set variant suggested w =
    let original = w.disk in
    let written = write_map env variant w in
    let run = benchmark_with_compile_fix env (trial_config 0) 2 false written in
    if env.violation (read_text env.files.entry_name variant) variant
    then (kept, write_map env original written)
    else after_build env set original suggested run.0 run.2

abbrev pub after_extraction :
    Outside → TuneSettings → Option (FileMap × List ℕ) → World → Tuning × World
after_extraction env set none w = (kept, w)
after_extraction env set (some (variant, suggested)) w = try_variant env set variant suggested w

-- _maybe_tune_hyperparameters
unfoldable pub maybe_tune :
    Outside → TuneSettings → BenchResult → List ℤ → Bool → World → Tuning × World
unfolding hpo_gate_open try_variant
maybe_tune env set default_bench scores has_tuned w =
    elim (hpo_gate_open env.direction set default_bench scores has_tuned) [
      | gate_closed ↦ (kept, w)
      | index_error ↦ (raised, w)
      | gate_open ↦ after_extraction env set (env.extraction w.calls w.disk) (after_ask w)
    ]
