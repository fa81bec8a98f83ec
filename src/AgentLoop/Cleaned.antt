-- ===== src/AgentLoop/Cleaned.antt =====
-- What the cleaner's share of an iteration (scripts/run_loop.py) leaves on disk and publishes, and the
-- symmetry of its test on the score.
use tig_swarm_demo.Prelude.{
  ℕ, zero, suc, ◌*◌, ◌≤◌, ◌<◌, ◌≡◌, refl, ap, inl, inr, ℤ, pos, negsuc, Bool, true, false, not,
  ◌&&◌, ◌||◌, Option, none, some, ◌∷◌, arith, Bool-cases, ltb, length,
}
use tig_swarm_demo.Db.Rows.{Direction, maximise, minimise}
use tig_swarm_demo.SearchReplace.Apply.{FileMap}
use tig_swarm_demo.ChallengeFiles.{write_files}
use tig_swarm_demo.ChallengeFiles.Tidy.{IsTidy, write_files-restores}
use tig_swarm_demo.AgentLoop.{
  BenchResult, defaults, Built, built, failed, Outside, World, note_run, run_benchmark,
}
use tig_swarm_demo.AgentLoop.Tuning.{write_map}
use tig_swarm_demo.AgentLoop.Cleaning.{
  publish_results, total_chars, score_within_delta, clean_score, CleanSettings, publish_refactor,
  judge_clean, try_clean, run_cleaner_iteration,
}
use tig_swarm_demo.AgentLoop.Growth.{HasEntry, Grows, Grows-trans, note_run-Grows}
use tig_swarm_demo.AgentLoop.Fixed.{Holds}
use tig_swarm_demo.AgentLoop.Tuned.{write_map-Grows}
use tig_swarm_demo.AgentLoop.Honest.{
  Advances, Advances-refl, Advances-trans, Grows-Advances, publish_results-Advances,
}

-- the integer -a
abbrev pub negate : ℤ → ℤ
negate (pos zero) = pos zero
negate (pos (suc n)) = negsuc n
negate (negsuc n) = pos (suc n)

abbrev pub opposite : Direction → Direction
opposite maximise = minimise
opposite minimise = maximise

-- Minimising the negated scores accepts exactly what maximising accepts, and the other way round, for any
-- allowance: the four formulas of the code are one test.
pub score_within_delta-opposite :
    (direction : Direction) (score parent : ℤ) (d : ℕ)
    → score_within_delta (opposite direction) (negate score) (negate parent) d
      ≡ score_within_delta direction score parent d
unfolding score_within_delta
score_within_delta-opposite maximise (pos zero) (pos zero) d = ground arith
score_within_delta-opposite maximise (pos zero) (pos (suc p)) d = ground arith
score_within_delta-opposite maximise (pos zero) (negsuc p) d = ground arith
score_within_delta-opposite maximise (pos (suc n)) (pos zero) d = ground arith
score_within_delta-opposite maximise (pos (suc n)) (pos (suc p)) d = ground arith
score_within_delta-opposite maximise (pos (suc n)) (negsuc p) d = ground arith
score_within_delta-opposite maximise (negsuc n) (pos zero) d = ground arith
score_within_delta-opposite maximise (negsuc n) (pos (suc p)) d = ground arith
score_within_delta-opposite maximise (negsuc n) (negsuc p) d = ground arith
score_within_delta-opposite minimise (pos zero) (pos zero) d = ground arith
score_within_delta-opposite minimise (pos zero) (pos (suc p)) d = ground arith
score_within_delta-opposite minimise (pos zero) (negsuc p) d = ground arith
score_within_delta-opposite minimise (pos (suc n)) (pos zero) d = ground arith
score_within_delta-opposite minimise (pos (suc n)) (pos (suc p)) d = ground arith
score_within_delta-opposite minimise (pos (suc n)) (negsuc p) d = ground arith
score_within_delta-opposite minimise (negsuc n) (pos zero) d = ground arith
score_within_delta-opposite minimise (negsuc n) (pos (suc p)) d = ground arith
score_within_delta-opposite minimise (negsuc n) (negsuc p) d = ground arith

-- A clean that is published.
pub record Cleaned (env : Outside) (set : CleanSettings) (parent : Option ℤ) (w v : World)
    : Type 0 where
  pub bench : BenchResult
  pub score : ℤ
  pub parent_score : ℤ
  pub parent_known : parent ≡ some parent_score
  pub scored : bench.score ≡ some score
  pub feasible : bench.feasible ≡ true
  pub within :
      score_within_delta env.direction score
        (clean_score env.noise parent_score)
        set.score_delta_pct
      ≡ true
  pub measured : Holds v defaults (some bench)
  pub more : length w.measured < length v.measured
  pub sent : v.published ≡ record { disk = v.disk; params = defaults; bench = bench } ∷ w.published
  pub small : total_chars (env.run_prepass w.disk).0 * 100 ≤ total_chars w.disk * set.target_pct
  pub lean : v.disk ≡ write_files env.files.entry_name (env.run_prepass w.disk).0 w.disk

abbrev pub CleanGives : Outside → CleanSettings → Option ℤ → World → Bool × World → Type 0
CleanGives env set parent w (true, v) = Cleaned env set parent w v
CleanGives env set parent w (false, v) = IsTidy w.disk → HasEntry env w → v.disk ≡ w.disk

module _ (env : Outside) (set : CleanSettings) (parent : ℤ) (w : World)
    (small : total_chars (env.run_prepass w.disk).0 * 100
      ≤ total_chars w.disk * set.target_pct) where
  abbrev lean_map : FileMap
  lean_map = (env.run_prepass w.disk).0

  abbrev Post : Bool × World → Type 0
  Post (done, v) =
      Advances env w v
      × (v.code_asked ≡ w.code_asked)
      × CleanGives env set (some parent) w (done, v)

  -- Putting the files back, from any world that the clean has led to.
  back :
      (v : World)
      → Advances env w v
      → v.code_asked ≡ w.code_asked
      → Post (false, write_map env w.disk v)
  unfolding write_map
  back v g a = (
    Advances-trans g (Grows-Advances (write_map-Grows env w.disk v)),
    a,
    λ tidy has. write_files-restores env.files.entry_name w.disk v.disk tidy has,
  )

  publish_refactor-Post :
      (b : BenchResult) (score : ℤ) (v : World)
      → b.score ≡ some score
      → b.feasible ≡ true
      → score_within_delta env.direction score (clean_score env.noise parent) set.score_delta_pct
        ≡ true
      → Grows env w v
      → Holds v defaults (some b)
      → length w.measured < length v.measured
      → v.code_asked ≡ w.code_asked
      → v.disk ≡ write_files env.files.entry_name lean_map w.disk
      → Post (publish_refactor env w.disk b v)
  unfolding publish_results
  publish_refactor-Post b score v scored feasible within g h more a lean =
      elim (env.publish_ok v.calls)
        as (λ taken. Post (elim taken as (λ _. Bool × World) [
          | true ↦ (true, (publish_results env defaults b v).1)
          | false ↦ (false, write_map env w.disk (publish_results env defaults b v).1)
        ])) [
          | true ↦ (
            sent,
            a,
            record {
              bench = b;
              score = score;
              parent_score = parent;
              parent_known = refl;
              scored = scored;
              feasible = feasible;
              within = within;
              measured = h;
              more = more;
              sent = ap (λ p. record { disk = v.disk; params = defaults; bench = b } ∷ p) g.same;
              small = small;
              lean = lean;
            },
          )
          | false ↦ back _ sent a
        ]
    where
      sent : Advances env w (publish_results env defaults b v).1
      sent = Advances-trans (Grows-Advances g) (publish_results-Advances env defaults b v h)

  judge_clean-Post :
      (result : Built) (v : World)
      → Grows env w v
      → v.code_asked ≡ w.code_asked
      → v.disk ≡ write_files env.files.entry_name lean_map w.disk
      → Post (
          judge_clean env set
            (clean_score env.noise parent)
            w.disk
            result
            (note_run defaults result v))
  judge_clean-Post (failed err) v g a lean =
      back _ (Grows-Advances (Grows-trans g (note_run-Grows env defaults (failed err) v))) a
  judge_clean-Post (built b) v g a lean = go b.score refl
    where
      ran : World
      ran = note_run defaults (built b) v

      grown : Grows env w ran
      grown = Grows-trans g (note_run-Grows env defaults (built b) v)

      accept :
          (score : ℤ)
          → b.score ≡ some score
          → (ok : Bool)
          → (b.feasible
              && score_within_delta env.direction score
                  (clean_score env.noise parent)
                  set.score_delta_pct)
            ≡ ok
          → Post (elim ok as (λ _. Bool × World) [
            | true ↦ publish_refactor env w.disk b ran
            | false ↦ (false, write_map env w.disk ran)
          ])
      accept score e false f = back ran (Grows-Advances grown) a
      accept score e true f =
          publish_refactor-Post b score ran e (ground arith) (ground arith) grown (inl refl)
            (omega (arith, g.more)) a lean

      go :
          (score : Option ℤ)
          → b.score ≡ score
          → Post
              (elim (elim score as (λ _. Bool) [
                | none ↦ false
                | some s ↦
                    b.feasible
                    && score_within_delta env.direction s
                        (clean_score env.noise parent)
                        set.score_delta_pct
              ])
                as (λ _. Bool × World) [
                  | true ↦ publish_refactor env w.disk b ran
                  | false ↦ (false, write_map env w.disk ran)
                ])
      go none e = back ran (Grows-Advances grown) a
      go (some s) e = accept s e _ refl

-- A cleaner's iteration in a tidy directory with the entry: either it reports nothing cleaned, and every
-- file is as before, whatever failed; or it has published exactly one result of a
-- pre-pass that reached the target size, a feasible one within the allowance of the known score of the
-- trajectory (where a score smaller than 1e-6 counts as 0), that was measured on the lean files which it
-- leaves.
-- It never asks the model for code.
pub run_cleaner_iteration_lem :
    (env : Outside) (set : CleanSettings) (parent : Option ℤ) (w : World)
    → let (cleaned, v) = run_cleaner_iteration env set parent w in
      Advances env w v × (v.code_asked ≡ w.code_asked) × CleanGives env set parent w (cleaned, v)
unfolding run_cleaner_iteration run_benchmark write_map
run_cleaner_iteration_lem env set parent w = elim (Bool-cases skip) [
  | inl e ↦ rw (run_cleaner_iteration, e) (Advances-refl env w, refl, λ tidy has. refl)
  | inr e ↦ rw (run_cleaner_iteration, e) (go parent (ground arith))
]
  where
    skip : Bool
    skip =
        not (env.run_prepass w.disk).1
        || ltb (total_chars w.disk * set.target_pct) (total_chars (env.run_prepass w.disk).0 * 100)

    go :
        (p : Option ℤ)
        → total_chars (env.run_prepass w.disk).0 * 100 ≤ total_chars w.disk * set.target_pct
        → let (cleaned, v) = try_clean env set (env.run_prepass w.disk).0 p w in
          Advances env w v × (v.code_asked ≡ w.code_asked) × CleanGives env set p w (cleaned, v)
    go none small = (Advances-refl env w, refl, λ tidy has. refl)
    go (some p) small =
        judge_clean-Post env set p w small
          (env.benchmark w.calls (write_map env (env.run_prepass w.disk).0 w).disk defaults)
          (write_map env (env.run_prepass w.disk).0 w)
          (write_map-Grows env (env.run_prepass w.disk).0 w) refl refl
