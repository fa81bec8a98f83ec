-- ===== src/AgentLoop/Failing.antt =====
-- A round of scripts/run_loop.py with a benchmark that never builds: it fails, whatever branch it takes.
use tig_swarm_demo.Prelude.{
  ℕ, zero, suc, ◌*◌, ℤ, ◌≡◌, refl, ap, ◌∙◌, inl, inr, Bool, true, false, ◌&&◌, ◌||◌, Option, none,
  some, arith, Bool-cases, leb, ltb, not,
}
use tig_swarm_demo.SearchReplace.Text.{Text, is_empty}
use tig_swarm_demo.SearchReplace.Apply.{FileMap}
use tig_swarm_demo.ChallengeFiles.{read_text}
use tig_swarm_demo.AgentLoop.{
  BenchResult, Params, defaults, failed, Outside, World, run_benchmark, write_code, validate_entry,
  with_entry, after_ask,
}
use tig_swarm_demo.AgentLoop.Fixing.{
  pick_fix, try_compile_fix, is_infra, benchmark_with_compile_fix,
}
use tig_swarm_demo.AgentLoop.Tuning.{write_map}
use tig_swarm_demo.AgentLoop.Cleaning.{CleanSettings, try_clean, run_cleaner_iteration, total_chars}
use tig_swarm_demo.AgentLoop.Iterations.{
  State, Input, Loop, Outcome, continues, bench_code, second_try, after_generation, complete,
  take_agent_files, mutate, wants_clean, clean_or_mutate, start_from_best, with_state,
}

-- An iteration that ends with one failure more.
pub record Fails (s : Loop) (out : Outcome × Loop) : Type 0 where
  pub ends : out.0 ≡ continues
  pub more : out.1.bench_failures ≡ suc s.bench_failures
  pub kept : out.1.bench_fail_challenge ≡ s.bench_fail_challenge

pick_fix-none :
    (infra : Bool) (fix : Bool × World) (code_changed : Bool) (ran : World)
    (rest : Option BenchResult × Bool × World)
    → rest.0 ≡ none
    → (pick_fix infra fix code_changed ran rest).0 ≡ none
pick_fix-none true fix code_changed ran rest e = refl
pick_fix-none false (true, written) code_changed ran rest e = e
pick_fix-none false (false, asked) code_changed ran rest e = refl

module _ (env : Outside) (err : ℕ → FileMap → Params → Text)
    (broken : (n : ℕ) (disk : FileMap) (params : Params)
      → env.benchmark n disk params ≡ failed (err n disk params)) where
  benchmark_with_compile_fix-none :
      (params : Params) (retries : ℕ) (code_changed : Bool) (w : World)
      → (benchmark_with_compile_fix env params retries code_changed w).0 ≡ none
  unfolding benchmark_with_compile_fix run_benchmark
  benchmark_with_compile_fix-none params zero code_changed w =
      rw (broken w.calls w.disk params) refl
  benchmark_with_compile_fix-none params (suc retries) code_changed w =
      let ran = record w { calls = suc w.calls } in
      let fix = try_compile_fix env ran in
      rw (broken w.calls w.disk params) (
        pick_fix-none (is_infra env (err w.calls w.disk params)) fix code_changed ran
          (benchmark_with_compile_fix env params retries true fix.1)
          (benchmark_with_compile_fix-none params retries true fix.1))

  bench_code-Fails :
      (inp : Input) (st : State) (s : Loop) (made : Text × Text) (w : World)
      → Fails s (bench_code env inp st s made w)
  unfolding bench_code
  bench_code-Fails inp st s (code, kernel) w =
      rw (benchmark_with_compile_fix-none defaults 2 false (write_code env code kernel w))
        (record { ends = refl; more = refl; kept = refl })

  second_try-Fails :
      (inp : Input) (st : State) (s : Loop) (made : Option (Text × Text)) (w : World)
      → Fails s (second_try env inp st s made w)
  second_try-Fails inp st s none w = record { ends = refl; more = refl; kept = refl }
  second_try-Fails inp st s (some made) w = bench_code-Fails inp st s made w

  -- the counter of another loop state with the same counter
  moved :
      {s t : Loop} {out : Outcome × Loop}
      → t.bench_failures ≡ s.bench_failures
      → t.bench_fail_challenge ≡ s.bench_fail_challenge
      → Fails t out
      → Fails s out
  moved f c p = record { ends = p.ends; more = p.more ∙ ap suc f; kept = p.kept ∙ c }

  after_generation-Fails :
      (inp : Input) (st : State) (s : Loop) (made : Option (Text × Text)) (w : World)
      → Fails s (after_generation env inp st s made w)
  after_generation-Fails inp st s (some made) w =
      moved refl refl (bench_code-Fails inp st (record s { consecutive_sr_skips = 0 }) made w)
  after_generation-Fails inp st s none w = elim (Bool-cases (leb 3 (suc s.consecutive_sr_skips))) [
    | inl e ↦
        rw e (moved refl refl (second_try-Fails inp st (record s { consecutive_sr_skips = 0 }) _ _))
    | inr e ↦ rw e (record { ends = refl; more = refl; kept = refl })
  ]

  take_agent_files-Fails :
      (inp : Input) (st : State) (s : Loop) (left : FileMap) (w : World)
      → Fails s (take_agent_files env inp st s left w)
  unfolding take_agent_files run_benchmark
  take_agent_files-Fails inp st s left w =
      let code = env.common_imports (env.challenge_import (read_text env.files.entry_name left)) in
      let written = write_map env (with_entry env code left) w in
      elim (Bool-cases
        (is_empty (read_text env.files.entry_name left) || validate_entry env code w)) [
          | inl e ↦ rw e (record { ends = refl; more = refl; kept = refl })
          | inr e ↦ rw e (
              rw (broken written.calls written.disk defaults)
                (record { ends = refl; more = refl; kept = refl }))
        ]

  mutate-Fails :
      (inp : Input) (st : State) (s : Loop) (w : World)
      → (inp.agentic || inp.has_hypothesis) ≡ true
      → Fails s (mutate env inp st s w)
  unfolding mutate complete
  mutate-Fails inp st s w asks = elim (Bool-cases inp.agentic) [
    | inl e ↦ simp e (take_agent_files-Fails inp st s (env.agent w.calls) (after_ask w))
    | inr e ↦
        let h : inp.has_hypothesis ≡ true = ground (arith, asks, e) in
        simp (e, h) (after_generation-Fails inp st s _ _)
  ]

  try_clean-false :
      (set : CleanSettings) (lean : FileMap) (parent : Option ℤ) (w : World)
      → (try_clean env set lean parent w).0 ≡ false
  unfolding run_benchmark
  try_clean-false set lean none w = refl
  try_clean-false set lean (some parent) w =
      let written = write_map env lean w in rw (broken written.calls written.disk defaults) refl

  run_cleaner_iteration-false :
      (set : CleanSettings) (parent : Option ℤ) (w : World)
      → (run_cleaner_iteration env set parent w).0 ≡ false
  unfolding run_cleaner_iteration
  run_cleaner_iteration-false set parent w =
      let (lean, acted) = env.run_prepass w.disk in
      elim (Bool-cases
        (not acted || ltb (total_chars w.disk * set.target_pct) (total_chars lean * 100))) [
          | inl e ↦ rw e refl
          | inr e ↦ rw e (try_clean-false set lean parent w)
        ]

  clean_or_mutate-Fails :
      (inp : Input) (st : State) (s : Loop) (w : World)
      → (inp.agentic || inp.has_hypothesis) ≡ true
      → Fails s (clean_or_mutate env inp st s w)
  unfolding clean_or_mutate
  clean_or_mutate-Fails inp st s w asks = elim (Bool-cases (wants_clean env inp st s)) [
    | inl e ↦ simp e (
        rw (run_cleaner_iteration-false inp.clean st.trajectory_best w) (
          moved refl refl
            (mutate-Fails inp st (record s { cleaner_last_attempt = some s.iteration }) _ asks)))
    | inr e ↦ rw e (mutate-Fails inp st s w asks)
  ]

  start_from_best-Fails :
      (inp : Input) (st : State) (s : Loop) (w : World)
      → (inp.agentic || inp.has_hypothesis) ≡ true
      → Fails s (start_from_best env inp st s w)
  unfolding start_from_best run_benchmark
  start_from_best-Fails inp st s w asks =
      elim (Bool-cases
        (st.needs_benchmark && not (is_empty st.best_code) && not (env.is_stub st.best_code))) [
          | inl e ↦
              rw e (rw (broken w.calls w.disk defaults) (clean_or_mutate-Fails inp st s _ asks))
          | inr e ↦ rw e (clean_or_mutate-Fails inp st s w asks)
        ]

  -- an iteration that gets as far as asking for code
  pub record Asks (inp : Input) : Type 0 where
    pub state : State
    pub given : inp.state ≡ some state
    pub allowed : (inp.mode.exploiter && env.is_stub state.best_code) ≡ false
    pub asks : (inp.agentic || inp.has_hypothesis) ≡ true

  pub with_state-Fails :
      (inp : Input) (s : Loop) → Asks inp → Fails s (with_state env inp s inp.state)
  with_state-Fails inp s a =
      simp (a.given, a.allowed) (start_from_best-Fails inp a.state s _ a.asks)
