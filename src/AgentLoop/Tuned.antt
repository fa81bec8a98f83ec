-- ===== src/AgentLoop/Tuned.antt =====
-- What the hyperparameter search of an iteration (scripts/run_loop.py) leaves on disk and publishes.
use tig_swarm_demo.Prelude.{
  ℕ, suc, ◌≡◌, refl, inl, inr, ℤ, Bool, true, false, Option, none, some, List, [], ◌∷◌, arith,
  Bool-cases, is_some,
}
use tig_swarm_demo.SearchReplace.Apply.{FileMap}
use tig_swarm_demo.CleanerPrepass.{contains}
use tig_swarm_demo.ChallengeFiles.{path_names, read_text}
use tig_swarm_demo.ChallengeFiles.Tidy.{
  IsTidy, write_files-IsTidy, write_files-has_entry, write_files-restores,
}
use tig_swarm_demo.AgentLoop.{
  BenchResult, trial_config, track_configs, Built, built, failed, Outside, World, note_run,
  run_benchmark, after_ask,
}
use tig_swarm_demo.AgentLoop.Fixing.{benchmark_with_compile_fix}
use tig_swarm_demo.AgentLoop.Tuning.{
  TuneSettings, Gate, gate_open, gate_closed, index_error, hpo_gate_open, Tuning, kept, adopted,
  raised, write_map, adopt_tuned, final_run, search_and_run, after_build, try_variant,
  after_extraction, maybe_tune,
}
use tig_swarm_demo.AgentLoop.Growth.{
  HasEntry, Grows, Grows-refl, Grows-trans, run_benchmark-Grows, after_ask-Grows, Ran,
}
use tig_swarm_demo.AgentLoop.Fixed.{Holds, benchmark_with_compile_fix-Ran}
use tig_swarm_demo.AgentLoop.GateRaised.{GateRaises, hpo_gate_open-index_error}

pub write_map-Grows :
    (env : Outside) (files : FileMap) (w : World) → Grows env w (write_map env files w)
unfolding write_map
write_map-Grows env files w = record {
  asked = omega arith;
  runs = λ r i. i;
  more = omega arith;
  same = refl;
  tidy = write_files-IsTidy env.files.entry_name files w.disk;
  entry = λ e. write_files-has_entry env.files.entry_name files w.disk (inr e);
}

-- The default result is kept with the files from before, or a feasible result with a score is adopted that
-- was measured on the test seed, on the files that are left and with the configurations of the search, or
-- an exception is raised under the condition R, with the files from before.
abbrev pub TuningGives : Type 0 → FileMap → World → Tuning → Type 0
TuningGives R original v kept = v.disk ≡ original
TuningGives R original v (adopted b winning) =
    Holds v (track_configs winning) (some b) × (b.feasible ≡ true) × (is_some b.score ≡ true)
TuningGives R original v raised = (v.disk ≡ original) × R

-- What never raises satisfies any condition for it.
TuningGives-any :
    (R : Type 0) (original : FileMap) (v : World) (t : Tuning)
    → TuningGives ⊥ original v t
    → TuningGives R original v t
TuningGives-any R original v kept g = g
TuningGives-any R original v (adopted b winning) g = g
TuningGives-any R original v raised g = absurd g.1

module _ (env : Outside) (original : FileMap) (tidy : IsTidy original)
    (has : contains (path_names original) env.files.entry_name ≡ true) where
  abbrev Kept : World → Tuning × World → Type 0
  Kept w (t, v) = Grows env w v × TuningGives ⊥ original v t

  restored : (w : World) → Kept w (kept, write_map env original w)
  unfolding write_map
  restored w = (
    write_map-Grows env original w,
    write_files-restores env.files.entry_name original w.disk tidy has,
  )

  later : (u w : World) (out : Tuning × World) → Grows env u w → Kept w out → Kept u out
  later u w (t, v) g k = (Grows-trans g k.0, k.1)

  adopt_tuned-Kept :
      (winning : List (ℕ × ℕ × ℤ)) (result : Built) (w : World)
      → Kept
          (note_run (track_configs winning) result w)
          (adopt_tuned env original winning result (note_run (track_configs winning) result w))
  adopt_tuned-Kept winning (failed err) w = restored _
  adopt_tuned-Kept winning (built b) w = go b.score refl b.feasible refl
    where
      ran : World
      ran = note_run (track_configs winning) (built b) w

      go :
          (score : Option ℤ)
          → b.score ≡ score
          → (feasible : Bool) → b.feasible ≡ feasible
          → Kept ran (elim score as (λ _. Tuning × World) [
            | none ↦ (kept, write_map env original ran)
            | some s ↦ elim feasible as (λ _. Tuning × World) [
              | true ↦ (adopted b winning, ran)
              | false ↦ (kept, write_map env original ran)
            ]
          ])
      go none e feasible f = restored ran
      go (some s) e true f = (Grows-refl env ran, (inl refl, f, rw e refl))
      go (some s) e false f = restored ran

  final_run-Kept :
      (winning : List (ℕ × ℕ × ℤ)) (w : World) → Kept w (final_run env original winning w)
  unfolding run_benchmark
  final_run-Kept [] w = restored w
  final_run-Kept (c ∷ winning) w =
      later w _ _ (run_benchmark-Grows env (track_configs (c ∷ winning)) w) (
        adopt_tuned-Kept (c ∷ winning) (env.benchmark w.calls w.disk (track_configs (c ∷ winning)))
          w)

  search_and_run-Kept :
      (set : TuneSettings) (suggested : List ℕ) (w : World)
      → Kept w (search_and_run env set original suggested w)
  unfolding search_and_run
  search_and_run-Kept set suggested w =
      later w (record w { calls = suc w.calls }) _
        (record {
          asked = omega arith;
          runs = λ r i. i;
          more = omega arith;
          same = refl;
          tidy = λ t. t;
          entry = λ e. e;
        })
        (final_run-Kept _ (record w { calls = suc w.calls }))

  after_build-Kept :
      (set : TuneSettings) (suggested : List ℕ) (o : Option BenchResult) (w : World)
      → Kept w (after_build env set original suggested o w)
  after_build-Kept set suggested none w = restored w
  after_build-Kept set suggested (some b) w = search_and_run-Kept set suggested w

module _ (env : Outside) (set : TuneSettings) where
  try_variant-Kept :
      (variant : FileMap) (suggested : List ℕ) (w : World) (tidy : IsTidy w.disk)
      (has : HasEntry env w)
      → Kept env w.disk tidy has w (try_variant env set variant suggested w)
  unfolding try_variant
  try_variant-Kept variant suggested w tidy has =
      elim (Bool-cases (env.violation (read_text env.files.entry_name variant) variant)) [
        | inl e ↦ rw e (
            later env w.disk tidy has w (write_map env variant w)
              (kept, write_map env w.disk (write_map env variant w)) written
              (restored env w.disk tidy has (write_map env variant w)))
        | inr e ↦ rw e (
            later env w.disk tidy has w _ _ (Grows-trans written ran.0)
              (after_build-Kept env w.disk tidy has set suggested _ _))
      ]
    where
      written : Grows env w (write_map env variant w)
      written = write_map-Grows env variant w

      ran :
          let (o, changed, v) =
            benchmark_with_compile_fix env (trial_config 0) 2 false (write_map env variant w) in
          Grows env (write_map env variant w) v × Ran (write_map env variant w) v (trial_config 0) o
      ran = benchmark_with_compile_fix-Ran env (trial_config 0) 2 false (write_map env variant w)

  after_extraction-Kept :
      (found : Option (FileMap × List ℕ)) (w : World) (tidy : IsTidy w.disk) (has : HasEntry env w)
      → Kept env w.disk tidy has w (after_extraction env set found w)
  after_extraction-Kept none w tidy has = (Grows-refl env w, refl)
  after_extraction-Kept (some (variant, suggested)) w tidy has =
      try_variant-Kept variant suggested w tidy has

  gate-Kept :
      (R : Type 0) (w : World) (tidy : IsTidy w.disk) (has : HasEntry env w) (g : Gate)
      → (g ≡ index_error → R)
      → (let (t, v) = elim g as (λ _. Tuning × World) [
        | gate_closed ↦ (kept, w)
        | index_error ↦ (raised, w)
        | gate_open ↦ after_extraction env set (env.extraction w.calls w.disk) (after_ask w)
      ] in
          Grows env w v × TuningGives R w.disk v t)
  gate-Kept R w tidy has gate_closed r = (Grows-refl env w, refl)
  gate-Kept R w tidy has index_error r = (Grows-refl env w, (refl, r refl))
  gate-Kept R w tidy has gate_open r =
      let found = after_extraction-Kept (env.extraction w.calls w.disk) (after_ask w) tidy has in
      let (t, v) = after_extraction env set (env.extraction w.calls w.disk) (after_ask w) in
      let (g, gives) =
        later env w.disk tidy has w (after_ask w) (t, v) (after_ask-Grows env w) found in
      (g, TuningGives-any R w.disk v t gives)

  pub maybe_tune_lem :
      (b : BenchResult) (scores : List ℤ) (has_tuned : Bool) (w : World)
      → IsTidy w.disk
      → HasEntry env w
      → let (t, v) = maybe_tune env set b scores has_tuned w in
        Grows env w v × TuningGives (GateRaises set b scores has_tuned) w.disk v t
  unfolding maybe_tune
  maybe_tune_lem b scores has_tuned w tidy has =
      gate-Kept (GateRaises set b scores has_tuned) w tidy has
        (hpo_gate_open env.direction set b scores has_tuned)
        (hpo_gate_open-index_error env.direction set b scores has_tuned)
