-- ===== src/AgentLoop/Fixed.antt =====
-- What _benchmark_with_compile_fix and _fix_runtime_errors (scripts/run_loop.py) give: the result is that
-- of the directory that they leave.
use tig_swarm_demo.Prelude.{
  ℕ, zero, suc, ◌≡◌, refl, inl, inr, Bool, true, false, not, ◌||◌, Option, none, some, arith, IsIn,
  Bool-cases,
}
use tig_swarm_demo.SearchReplace.Text.{Text}
use tig_swarm_demo.AgentLoop.{
  BenchResult, Params, defaults, Built, built, failed, Outside, World, note_run, run_benchmark,
  after_ask, ask_code,
}
use tig_swarm_demo.AgentLoop.Fixing.{
  write_fix, fix_code, try_compile_fix, is_infra, pick_fix, pick_run, last_run,
  benchmark_with_compile_fix, last_rerun, pick_rerun, rerun, bench_of, pick_retry,
  fix_runtime_errors,
}
use tig_swarm_demo.AgentLoop.Growth.{
  Grows, Grows-refl, Grows-trans, Ran, Ran-earlier, after_ask-Grows, note_run-Grows,
  restore_best-Grows, write_code-Grows,
}

write_fix-Grows :
    (env : Outside) (w : World) (fix : Option (Text × Text)) → Grows env w (write_fix env w fix).1
write_fix-Grows env w none = Grows-refl env w
write_fix-Grows env w (some (code, kernel)) = write_code-Grows env code kernel w

fix_code-Grows :
    (env : Outside) (normalise : Text → Text) (w : World) → Grows env w (fix_code env normalise w).1
unfolding fix_code ask_code
fix_code-Grows env normalise w =
    Grows-trans (after_ask-Grows env w) (write_fix-Grows env (after_ask w) _)

try_compile_fix-Grows : (env : Outside) (w : World) → Grows env w (try_compile_fix env w).1
unfolding try_compile_fix
try_compile_fix-Grows env w =
    fix_code-Grows env (λ code. env.common_imports (env.challenge_import code)) w

-- What a run with retries gives, in the end.
abbrev Retried : Outside → Params → World → Option BenchResult × Bool × World → Type 0
Retried env params w (o, code_changed, v) = Grows env w v × Ran w v params o

last_run-Retried :
    (env : Outside) (params : Params) (result : Built) (code_changed : Bool) (w : World)
    → Retried env params w (last_run result code_changed (note_run params result w))
last_run-Retried env params (built b) code_changed w =
    (note_run-Grows env params (built b) w, (inl refl, omega arith))
last_run-Retried env params (failed err) code_changed w =
    (note_run-Grows env params (failed err) w, tt)

pick_fix-Retried :
    (env : Outside) (params : Params) (infra ok code_changed : Bool) (w ran v : World)
    (rest : Option BenchResult × Bool × World)
    → Grows env w ran
    → Grows env ran v
    → Retried env params v rest
    → Retried env params w (pick_fix infra (ok, v) code_changed ran rest)
pick_fix-Retried env params true ok code_changed w ran v rest g h r = (g, tt)
pick_fix-Retried env params false true code_changed w ran v (o, changed, u) g h r =
    (Grows-trans g (Grows-trans h r.0), Ran-earlier u params o (Grows-trans g h) r.1)
pick_fix-Retried env params false false code_changed w ran v rest g h r = (Grows-trans g h, tt)

pick_run-Retried :
    (env : Outside) (params : Params) (result : Built) (ok code_changed : Bool) (w v : World)
    (rest : Option BenchResult × Bool × World)
    → Grows env (note_run params result w) v
    → Retried env params v rest
    → Retried env params w
        (pick_run env result code_changed (note_run params result w) (ok, v) rest)
pick_run-Retried env params (built b) ok code_changed w v rest h r =
    (note_run-Grows env params (built b) w, (inl refl, omega arith))
pick_run-Retried env params (failed err) ok code_changed w v rest h r =
    pick_fix-Retried env params (is_infra env err) ok code_changed w _ v rest
      (note_run-Grows env params (failed err) w) h r

-- A result that comes out of the retries is that of the directory as they leave it.
pub benchmark_with_compile_fix-Ran :
    (env : Outside) (params : Params) (retries : ℕ) (code_changed : Bool) (w : World)
    → let (o, changed, v) = benchmark_with_compile_fix env params retries code_changed w in
      Grows env w v × Ran w v params o
unfolding benchmark_with_compile_fix run_benchmark
benchmark_with_compile_fix-Ran env params zero code_changed w =
    last_run-Retried env params (env.benchmark w.calls w.disk params) code_changed w
benchmark_with_compile_fix-Ran env params (suc retries) code_changed w =
    pick_run-Retried env params (env.benchmark w.calls w.disk params) _ code_changed w _ _
      (try_compile_fix-Grows env _) (benchmark_with_compile_fix-Ran env params retries true _)

-- A run of what stands on disk gave this result.
abbrev pub Holds : World → Params → Option BenchResult → Type 0
Holds v params none = Unit
Holds v params (some b) = IsIn (record { disk = v.disk; params = params; bench = b }) v.measured

pub Holds_of :
    (w v : World) (params : Params) (o : Option BenchResult) → Ran w v params o → Holds v params o
Holds_of w v params none r = tt
Holds_of w v params (some b) r = r.0

last_rerun-Holds :
    (env : Outside) (result : Built) (w : World)
    → let (o, v) = last_rerun result (note_run defaults result w) in
      Grows env w v × Holds v defaults o
last_rerun-Holds env (built b) w = (note_run-Grows env defaults (built b) w, inl refl)
last_rerun-Holds env (failed err) w = (note_run-Grows env defaults (failed err) w, tt)

pick_rerun-Holds :
    (env : Outside) (result : Built) (ok : Bool) (w v : World) (again : Option BenchResult × World)
    → Grows env (note_run defaults result w) v
    → Grows env v again.1 × Holds again.1 defaults again.0
    → let (o, u) = pick_rerun result (note_run defaults result w) (ok, v) again in
      Grows env w u × Holds u defaults o
pick_rerun-Holds env (built b) ok w v again g h =
    (note_run-Grows env defaults (built b) w, inl refl)
pick_rerun-Holds env (failed err) true w v again g h =
    (Grows-trans (note_run-Grows env defaults (failed err) w) (Grows-trans g h.0), h.1)
pick_rerun-Holds env (failed err) false w v again g h =
    (Grows-trans (note_run-Grows env defaults (failed err) w) g, tt)

rerun-Holds :
    (env : Outside) (w : World)
    → Grows env w (rerun env w).1 × Holds (rerun env w).1 defaults (rerun env w).0
unfolding rerun run_benchmark
rerun-Holds env w =
    pick_rerun-Holds env (env.benchmark w.calls w.disk defaults) _ w _ _
      (try_compile_fix-Grows env _) (last_rerun-Holds env (env.benchmark _ _ defaults) _)

pick_retry-Holds :
    (env : Outside) (best : Text × Text) (ok : Bool) (w v : World)
    (again rest : Option BenchResult × World)
    → Grows env w v
    → Grows env v again.1
    → Grows env again.1 rest.1
    → ((b : BenchResult) → again.0 ≡ some b → Holds rest.1 defaults rest.0)
    → let (o, u) = pick_retry env best (ok, v) again rest in Grows env w u × Holds u defaults o
pick_retry-Holds env best false w v again rest g h k r =
    (Grows-trans g (restore_best-Grows env best v), tt)
pick_retry-Holds env best true w v (none, last) rest g h k r =
    (Grows-trans g (Grows-trans h (restore_best-Grows env best last)), tt)
pick_retry-Holds env best true w v (some b, last) rest g h k r =
    (Grows-trans g (Grows-trans h k), r b refl)

bench_of-Holds :
    (u : World) (b : BenchResult) (o : Option BenchResult) (b' : BenchResult)
    → Holds u defaults o
    → o ≡ some b'
    → Holds u defaults (some (bench_of b o))
bench_of-Holds u b none b' h e = absurd (cc (e))
bench_of-Holds u b (some c) b' h e = h

-- A result that comes out of the runtime fixes is that of the directory as they leave it.
pub fix_runtime_errors-Holds :
    (env : Outside) (best : Text × Text) (retries : ℕ) (b : BenchResult) (w : World)
    → let (o, v) = fix_runtime_errors env best retries b w in
      Grows env w v × (Holds w defaults (some b) → Holds v defaults o)
unfolding fix_runtime_errors
fix_runtime_errors-Holds env best zero b w = (Grows-refl env w, λ h. h)
fix_runtime_errors-Holds env best (suc retries) b w =
    let fix = fix_code env (λ code. code) w in
    let again = rerun env fix.1 in
    let ran = rerun-Holds env fix.1 in
    let rest = fix_runtime_errors-Holds env best retries (bench_of b again.0) again.1 in
    let tried =
      pick_retry-Holds env best fix.0 w fix.1 again _ (fix_code-Grows env (λ code. code) w) ran.0
        rest.0 (λ b' e. rest.1 (bench_of-Holds again.1 b again.0 b' ran.1 e)) in
    elim (Bool-cases (not b.errors || b.feasible)) [
      | inl e ↦ rw e (Grows-refl env w, λ h. h)
      | inr e ↦ rw e (tried.0, λ h. tried.1)
    ]
