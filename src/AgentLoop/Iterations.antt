-- ===== src/AgentLoop/Iterations.antt =====
-- The body of main's while loop (scripts/run_loop.py), from the freeze guard to the publish, for both the
-- completion mode and the tooled agent.
use tig_swarm_demo.Prelude.{
  ℕ, suc, ◌+◌, ◌-◌, ℤ, Bool, true, false, not, ◌&&◌, ◌||◌, Option, none, some, List, [], ◌∷◌, ◌++◌,
  ◌==◌, ltb, leb, if◌then◌else◌,
}
use tig_swarm_demo.SearchReplace.Text.{Text, is_empty}
use tig_swarm_demo.SearchReplace.Apply.{FileMap}
use tig_swarm_demo.ChallengeFiles.{read_text}
use tig_swarm_demo.AgentLoop.{
  BenchResult, defaults, track_configs, Built, built, failed, Outside, World, run_benchmark,
  after_ask, with_entry, validate_entry, write_code,
}
use tig_swarm_demo.AgentLoop.Fixing.{restore_best, benchmark_with_compile_fix, fix_runtime_errors}
use tig_swarm_demo.AgentLoop.Tuning.{
  TuneSettings, Tuning, kept, adopted, raised, write_map, maybe_tune,
}
use tig_swarm_demo.AgentLoop.Cleaning.{
  CleanSettings, publish_results, total_chars, run_cleaner_iteration,
}
use tig_swarm_demo.AgentLoop.Generating.{EditMode, generate_code}

-- what the server's state gives for one iteration
pub record State : Type 0 where
  pub best_code : Text
  pub best_kernel : Text
  pub best_files : FileMap
  pub needs_benchmark : Bool
  pub trajectory_best : Option ℤ
  pub stagnation : ℕ
  pub improvement_scores : List ℤ
  pub has_tuned : Bool

-- the configuration of one iteration, read anew each time; no state where its call failed, and no answer
-- to the hypothesis where the model failed or said nothing
pub record Input : Type 0 where
  pub challenge : ℕ
  pub freeze_limit : ℕ
  pub stagnation_limit : ℕ
  pub mode : EditMode
  pub agentic : Bool
  pub tune : TuneSettings
  pub clean : CleanSettings
  pub state : Option State
  pub has_hypothesis : Bool

-- the variables of main that live from one iteration to the next
pub record Loop : Type 0 where
  pub world : World
  pub iteration : ℕ
  pub consecutive_sr_skips : ℕ
  pub bench_failures : ℕ
  pub bench_fail_challenge : Option ℕ
  pub cleaner_last_attempt : Option ℕ

-- how an iteration ends: with the next one, by the freeze guard, or by an exception
pub data Outcome : Type 0 where
  continues froze crashed : Outcome

-- `iter_challenge != bench_fail_challenge`
abbrev pub same_challenge : ℕ → Option ℕ → Bool
same_challenge challenge none = false
same_challenge challenge (some c) = c == challenge

-- the counter after the check for a challenge switch
abbrev pub counted_failures : Input → Loop → ℕ
counted_failures inp s =
    if same_challenge inp.challenge s.bench_fail_challenge then s.bench_failures else 0

-- _note_bench_failure
abbrev pub note_failure : Loop → World → Outcome × Loop
note_failure s w = (continues, record s { world = w; bench_failures = suc s.bench_failures })

-- the end of an iteration that a benchmark has succeeded in
abbrev pub note_success : Loop → World → Outcome × Loop
note_success s w = (continues, record s { world = w; bench_failures = 0 })

abbrev pub publish_tuning : Outside → Loop → BenchResult → Tuning → World → Outcome × Loop
publish_tuning env s b raised w = (crashed, record s { world = w; bench_failures = 0 })
publish_tuning env s b kept w = note_success s (publish_results env defaults b w).1
publish_tuning env s b (adopted b' winning) w =
    note_success s (publish_results env (track_configs winning) b' w).1

-- from a benchmark's result to the publish
unfoldable pub tune_and_publish :
    Outside → Input → State → Loop → BenchResult → World → Outcome × Loop
unfolding maybe_tune publish_results
tune_and_publish env inp st s b w =
    let (tuning, tuned) = maybe_tune env inp.tune b st.improvement_scores st.has_tuned w in
    publish_tuning env s b tuning tuned

abbrev pub best_pair : State → Text × Text
best_pair st = (st.best_code, st.best_kernel)

abbrev pub after_runtime :
    Outside → Input → State → Loop → Option BenchResult → World → Outcome × Loop
after_runtime env inp st s none w = note_failure s w
after_runtime env inp st s (some b) w = tune_and_publish env inp st s b w

-- the benchmark of generated code, with both kinds of fix
abbrev pub after_compile :
    Outside → Input → State → Loop → Option BenchResult → World → Outcome × Loop
after_compile env inp st s none w = note_failure s (restore_best env (best_pair st) w)
after_compile env inp st s (some b) w =
    let (fixed, ran) = fix_runtime_errors env (best_pair st) 2 b w in
    after_runtime env inp st s fixed ran

unfoldable pub bench_code : Outside → Input → State → Loop → Text × Text → World → Outcome × Loop
unfolding benchmark_with_compile_fix fix_runtime_errors restore_best tune_and_publish write_code
bench_code env inp st s (code, kernel) w =
    let run = benchmark_with_compile_fix env defaults 2 false (write_code env code kernel w) in
    after_compile env inp st s run.0 run.2

-- `if not code`: the skips in a row, and the forced rewrite after three of them
abbrev pub second_try :
    Outside → Input → State → Loop → Option (Text × Text) → World → Outcome × Loop
second_try env inp st s none w = note_failure s w
second_try env inp st s (some made) w = bench_code env inp st s made w

abbrev pub after_generation :
    Outside → Input → State → Loop → Option (Text × Text) → World → Outcome × Loop
after_generation env inp st s (some made) w =
    bench_code env inp st (record s { consecutive_sr_skips = 0 }) made w
after_generation env inp st s none w =
    let (forced, asked) = generate_code env inp.mode true w in
    if leb 3 (suc s.consecutive_sr_skips)
    then second_try env inp st (record s { consecutive_sr_skips = 0 }) forced asked
    else note_failure (record s { consecutive_sr_skips = suc s.consecutive_sr_skips }) w

-- mode 1; without a hypothesis the iteration ends
unfoldable pub complete : Outside → Input → State → Loop → World → Outcome × Loop
unfolding generate_code bench_code
complete env inp st s w =
    let (made, asked) = generate_code env inp.mode false (record w { calls = suc w.calls }) in
    if inp.has_hypothesis
    then after_generation env inp st s made asked
    else (continues, record s { world = record w { calls = suc w.calls } })

abbrev pub after_agent_run : Outside → Input → State → Loop → Built → World → Outcome × Loop
after_agent_run env inp st s (failed err) w = note_failure s (restore_best env (best_pair st) w)
after_agent_run env inp st s (built b) w = tune_and_publish env inp st s b w

-- mode 2, from the files that the agent has left in its worktree on
unfoldable pub take_agent_files : Outside → Input → State → Loop → FileMap → World → Outcome × Loop
unfolding validate_entry with_entry write_map run_benchmark restore_best tune_and_publish read_text
take_agent_files env inp st s left w =
    let raw = read_text env.files.entry_name left in
    let code = env.common_imports (env.challenge_import raw) in
    let (result, ran) = run_benchmark env defaults (write_map env (with_entry env code left) w) in
    if is_empty raw || validate_entry env code w
    then note_failure s (restore_best env (best_pair st) w)
    else after_agent_run env inp st s result ran

-- `if is_agentic: ... else: ...`
unfoldable pub mutate : Outside → Input → State → Loop → World → Outcome × Loop
unfolding take_agent_files complete
mutate env inp st s w =
    if inp.agentic
    then take_agent_files env inp st s (env.agent w.calls) (after_ask w)
    else complete env inp st s w

-- cleaner_last_attempt starts at -(10 ** 9)
abbrev pub cooled_down : CleanSettings → ℕ → Option ℕ → Bool
cooled_down set iteration none = leb set.cooldown_iters (iteration + 1000000000)
cooled_down set iteration (some last) = leb (last + set.cooldown_iters) iteration

-- _state_files_map; the kernel path is configured exactly for a GPU challenge
unfoldable pub state_files_map : Outside → State → FileMap
state_files_map env st =
    if is_empty st.best_files
    then (if is_empty st.best_code then [] else (env.files.entry_name, st.best_code) ∷ [])
      ++ (if not (is_empty st.best_kernel) && env.files.is_gpu
          then (env.files.kernel_name, st.best_kernel) ∷ []
          else [])
    else st.best_files

unfoldable pub wants_clean : Outside → Input → State → Loop → Bool
unfolding total_chars state_files_map
wants_clean env inp st s =
    not (is_empty st.best_code)
    && not (env.is_stub st.best_code)
    && ltb inp.clean.trigger_chars (total_chars (state_files_map env st))
    && cooled_down inp.clean s.iteration s.cleaner_last_attempt
    && not (ltb 0 inp.stagnation_limit && leb (inp.stagnation_limit - 1) st.stagnation)

-- the cleaner's share of an iteration
unfoldable pub clean_or_mutate : Outside → Input → State → Loop → World → Outcome × Loop
unfolding wants_clean run_cleaner_iteration mutate
clean_or_mutate env inp st s w =
    let (cleaned, done) = run_cleaner_iteration env inp.clean st.trajectory_best w in
    let tried = record s { cleaner_last_attempt = some s.iteration } in
    if wants_clean env inp st s
    then (if cleaned then note_success tried done else mutate env inp st tried done)
    else mutate env inp st s w

abbrev pub after_seed_run : Outside → Input → State → Loop → Built → World → Outcome × Loop
after_seed_run env inp st s (failed err) w = clean_or_mutate env inp st s w
after_seed_run env inp st s (built b) w = note_success s (publish_results env defaults b w).1

-- from the files of the best on: the benchmark of an adopted seed that has no score comes first
unfoldable pub start_from_best : Outside → Input → State → Loop → World → Outcome × Loop
unfolding run_benchmark clean_or_mutate publish_results
start_from_best env inp st s w =
    let (result, ran) = run_benchmark env defaults w in
    if st.needs_benchmark && not (is_empty st.best_code) && not (env.is_stub st.best_code)
    then after_seed_run env inp st s result ran
    else clean_or_mutate env inp st s w

abbrev pub with_state : Outside → Input → Loop → Option State → Outcome × Loop
with_state env inp s none = (continues, s)
with_state env inp s (some st) =
    let bootstrap = env.is_stub st.best_code in
    let w = s.world in
    if inp.mode.exploiter && bootstrap
    then (continues, s)
    else start_from_best env inp st s (
        if not (is_empty st.best_code) && not bootstrap
        then write_map env (state_files_map env st) w
        else w)

-- one round of the while loop
unfoldable pub iterate : Outside → Input → Loop → Outcome × Loop
unfolding start_from_best write_map state_files_map
iterate env inp s =
    let begun = record s {
      iteration = suc s.iteration;
      bench_failures = counted_failures inp s;
      bench_fail_challenge = some inp.challenge;
    } in
    if ltb 0 inp.freeze_limit && leb inp.freeze_limit begun.bench_failures
    then (froze, begun)
    else with_state env inp begun inp.state

-- what a run gives: how it ends, the variables then, and the world before and after each iteration
abbrev pub Trace : Type 0
Trace = Outcome × Loop × List (World × World)

abbrev pub go_on : World → Outcome × Loop → Trace → Trace
go_on w (continues, t) (o, last, turns) = (o, last, (w, t.world) ∷ turns)
go_on w (froze, t) rest = (froze, t, [])
go_on w (crashed, t) rest = (crashed, t, (w, t.world) ∷ [])

-- the while loop, for as many iterations as there are inputs
unfoldable pub run_loop : Outside → List Input → Loop → Trace
unfolding iterate
run_loop env [] s = (continues, s, [])
run_loop env (inp ∷ inputs) s =
    let turn = iterate env inp s in let rest = run_loop env inputs turn.1 in go_on s.world turn rest
