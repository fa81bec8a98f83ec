-- ===== src/AgentLoop/Tests.antt =====
-- Short runs of the loop: results that are published, tuned and cleaned, and a broken benchmark.
use tig_swarm_demo.Prelude.{
  ℕ, ◌≤◌, ◌≡◌, refl, arith, pos, negsuc, true, false, none, some, [], ◌∷◌, length,
}
use tig_swarm_demo.Db.Rows.{maximise, minimise}
use tig_swarm_demo.SearchReplace.Text.{Text, is_empty, eq_text}
use tig_swarm_demo.SearchReplace.Apply.{FileMap}
use tig_swarm_demo.CleanerPrepass.{contains}
use tig_swarm_demo.ChallengeFiles.{path_names, translate_char, read_text}
use tig_swarm_demo.ChallengeFiles.Tidy.{IsTidy}
use tig_swarm_demo.AgentLoop.{Params, track_configs, Built, built, failed, Outside, World}
use tig_swarm_demo.AgentLoop.Fixing.{codes}
use tig_swarm_demo.AgentLoop.Tuning.{TuneSettings}
use tig_swarm_demo.AgentLoop.Cleaning.{CleanSettings, score_within_delta, run_cleaner_iteration}
use tig_swarm_demo.AgentLoop.Iterations.{State, Input, Loop, froze, run_loop}
use tig_swarm_demo.AgentLoop.Honest.{Advances, IsHonest}
use tig_swarm_demo.AgentLoop.Cleaned.{
  CleanGives, run_cleaner_iteration_lem, score_within_delta-opposite,
}
use tig_swarm_demo.AgentLoop.Freeze.{wasted, run_loop-IsHonest, freeze_guard_lem}
use tig_swarm_demo.AgentLoop.Failing.{Asks}
use tig_swarm_demo.AgentLoop.Broken.{broken_benchmark_freezes}

abbrev entry : Text
entry = b'm' ∷ []

abbrev sibling : Text
sibling = b'h' ∷ []

-- a score is the length of the entry's code; the empty code does not build
abbrev scored : Text → Built
scored [] = failed (codes "error[E0425]")
scored (c ∷ t) =
    built (record { score = some (pos (length (c ∷ t))); feasible = true; errors = false })

abbrev variant : FileMap
variant = (entry, b'v' ∷ b'v' ∷ []) ∷ []

abbrev env : Outside
env = record {
  files = record { entry_name = entry; kernel_name = b'k' ∷ []; is_gpu = false };
  benchmark = λ n disk params. scored (read_text entry disk);
  search_run = λ n disk c.
      some
        (record { score = some (pos c); feasible = true; track_scores = (1, some (pos c)) ∷ [] });
  answer = λ n. some (b'a' ∷ b'b' ∷ b'c' ∷ []);
  agent = λ n. [];
  extraction = λ n disk. some (variant, 7 ∷ []);
  publish_ok = λ n. true;
  parse_response = λ t. (t, []);
  challenge_import = λ t. t;
  common_imports = λ t. t;
  violation = λ t files. false;
  is_stub = λ t. is_empty t;
  http_code = λ t. false;
  run_prepass = λ files. ((entry, read_text entry files) ∷ [], true);
  config_key = λ c. c;
  draws = λ n i. none;
  direction = maximise;
  noise = 1;
}

abbrev broken : Outside
broken = record env { benchmark = λ n disk params. failed (codes "error: could not compile") }

abbrev tune : TuneSettings
tune = record {
  min_improvements = 1;
  first_tune_improvements = 1;
  num_suggested = 5;
  search_budget = 3;
}

abbrev clean : CleanSettings
clean = record { trigger_chars = 100; cooldown_iters = 3; target_pct = 60; score_delta_pct = 2 }

abbrev disk : FileMap
disk = (entry, b'a' ∷ []) ∷ (sibling, b'b' ∷ b'b' ∷ []) ∷ []

abbrev world : World
world = record { disk = disk; calls = 0; measured = []; published = []; code_asked = 0 }

abbrev state : State
state = record {
  best_code = b'a' ∷ [];
  best_kernel = [];
  best_files = [];
  needs_benchmark = false;
  trajectory_best = some (pos 1);
  stagnation = 0;
  improvement_scores = pos 1 ∷ [];
  has_tuned = false;
}

abbrev input : Input
input = record {
  challenge = 4;
  freeze_limit = 2;
  stagnation_limit = 0;
  mode = record { exploiter = false; search_replace = false };
  agentic = false;
  tune = tune;
  clean = clean;
  state = some state;
  has_hypothesis = true;
}

abbrev start : Loop
start = record {
  world = world;
  iteration = 0;
  consecutive_sr_skips = 0;
  bench_failures = 0;
  bench_fail_challenge = none;
  cleaner_last_attempt = none;
}

disk-IsTidy : IsTidy disk
unfolding contains path_names translate_char eq_text
disk-IsTidy = record { distinct = ground arith; plain = ground arith }

-- One iteration writes new code, tunes it and publishes the variant with the best configuration.
published_run :
    (run_loop env (input ∷ []) start).1.world.published
    ≡ record {
      disk = variant;
      params = track_configs ((1, 7, pos 7) ∷ []);
      bench = record { score = some (pos 2); feasible = true; errors = false };
    }
      ∷ []
unfolding run_loop
published_run = refl

-- With a broken benchmark the guard stops the third iteration.
frozen_run :
    ((run_loop broken (input ∷ input ∷ input ∷ input ∷ []) start).0 ≡ froze)
    × (wasted 0 (run_loop broken (input ∷ input ∷ input ∷ input ∷ []) start).2 ≡ 2)
unfolding run_loop
frozen_run = (refl, refl)

-- The sibling is dropped, and the score is kept.
cleaned_run : (run_cleaner_iteration env clean (some (pos 1)) world).0 ≡ true
unfolding run_cleaner_iteration read_text
cleaned_run = refl

run_loop-IsHonest_example :
    IsHonest (run_loop env (input ∷ input ∷ []) start).1.world
    × IsTidy (run_loop env (input ∷ input ∷ []) start).1.world.disk
run_loop-IsHonest_example = run_loop-IsHonest env (input ∷ input ∷ []) start disk-IsTidy tt

freeze_guard_lem_example :
    wasted 0 (run_loop broken (input ∷ input ∷ input ∷ input ∷ []) start).2 ≤ 2
freeze_guard_lem_example =
    freeze_guard_lem broken 4 2 (omega arith) (input ∷ input ∷ input ∷ input ∷ []) start
      ((refl, refl), ((refl, refl), ((refl, refl), ((refl, refl), tt)))) disk-IsTidy refl

run_cleaner_iteration_lem_example :
    let (cleaned, v) = run_cleaner_iteration env clean (some (pos 1)) world in
    Advances env world v
    × (v.code_asked ≡ 0)
    × CleanGives env clean (some (pos 1)) world (cleaned, v)
run_cleaner_iteration_lem_example = run_cleaner_iteration_lem env clean (some (pos 1)) world

score_within_delta-opposite_example :
    score_within_delta minimise (negsuc 97) (negsuc 99) 2
    ≡ score_within_delta maximise (pos 98) (pos 100) 2
score_within_delta-opposite_example = score_within_delta-opposite maximise (pos 98) (pos 100) 2

abbrev broken_error : ℕ → FileMap → Params → Text
broken_error n files params = codes "error: could not compile"

input-Asks : Asks broken broken_error (λ n disk params. refl) input
input-Asks = record { state = state; given = refl; allowed = refl; asks = refl }

broken_benchmark_freezes_example :
    ((run_loop broken (input ∷ input ∷ input ∷ []) start).0 ≡ froze)
    × (length (run_loop broken (input ∷ input ∷ input ∷ []) start).2 ≡ 2)
broken_benchmark_freezes_example =
    broken_benchmark_freezes broken broken_error (λ n disk params. refl) 4 2 (omega arith)
      (input ∷ input ∷ input ∷ []) start
      ((refl, refl, input-Asks), ((refl, refl, input-Asks), ((refl, refl, input-Asks), tt)))
      (omega arith) refl
