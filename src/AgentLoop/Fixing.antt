-- ===== src/AgentLoop/Fixing.antt =====
-- _try_compile_fix, _benchmark_with_compile_fix, _fix_runtime_errors and the restoring of the best
-- (scripts/run_loop.py).
use tig_swarm_demo.Prelude.{
  ℕ, zero, suc, Bool, true, false, not, ◌&&◌, ◌||◌, Option, none, some, List, [], ◌∷◌, String,
  if◌then◌else◌, is_some,
}
use Prim.Native.Char.{code}
use tig_swarm_demo.SearchReplace.Text.{Text, is_empty, eq_text, after_prefix}
use tig_swarm_demo.ChallengeFiles.{read}
use tig_swarm_demo.AgentLoop.{
  BenchResult, Built, built, failed, defaults, Outside, Params, World, ask_code, run_benchmark,
  validate_entry, write_code,
}

-- the code and kernel of a fix, unless it is empty, invalid, or what stands on disk already
unfoldable pub checked_fix : Outside → (Text → Text) → World → Text → Option (Text × Text)
unfolding validate_entry eq_text read
checked_fix env normalise w response =
    let parsed = env.parse_response response in
    let fixed = normalise parsed.0 in
    let on_disk = read env.files w.disk in
    if is_empty parsed.0
      || validate_entry env fixed w
      || eq_text fixed on_disk.0 && eq_text parsed.1 on_disk.1
    then none
    else some (fixed, parsed.1)

abbrev pub fix_of : Outside → (Text → Text) → World → Option Text → Option (Text × Text)
fix_of env normalise w none = none
fix_of env normalise w (some response) = checked_fix env normalise w response

abbrev pub write_fix : Outside → World → Option (Text × Text) → Bool × World
write_fix env w none = (false, w)
write_fix env w (some (code, kernel)) = (true, write_code env code kernel w)

-- the call of the model that both kinds of fix make, and the file that it writes
unfoldable pub fix_code : Outside → (Text → Text) → World → Bool × World
unfolding ask_code checked_fix write_code
fix_code env normalise w =
    let (response, asked) = ask_code env w in
    write_fix env asked (fix_of env normalise asked response)

-- _try_compile_fix
unfoldable pub try_compile_fix : Outside → World → Bool × World
unfolding fix_code
try_compile_fix env w = fix_code env (λ code. env.common_imports (env.challenge_import code)) w

abbrev pub codes : String → Text
codes String.[] = []
codes (String.◌∷◌ c s) = code c ∷ codes s

-- `needle in text`
unfoldable pub is_in : Text → Text → Bool
unfolding after_prefix
is_in needle [] = is_some (after_prefix needle [])
is_in needle (c ∷ t) = is_some (after_prefix needle (c ∷ t)) || is_in needle t

unfoldable pub any_in : List Text → Text → Bool
unfolding is_in
any_in [] t = false
any_in (m ∷ markers) t = is_in m t || any_in markers t

abbrev pub infra_markers : List Text
infra_markers =
    codes "API Error"
    ∷ codes "API error"
    ∷ codes "c3 CLI not found"
    ∷ codes "c3 CLI is out of date"
    ∷ codes "Docker image"
    ∷ codes "could not parse job ID"
    ∷ codes "was never recognised by C3"
    ∷ codes "timeout"
    ∷ codes "INSUFFICIENT_CREDITS"
    ∷ codes "[C3 infra]"
    ∷ []

unfoldable pub is_code_error : Text → Bool
unfolding is_in
is_code_error err =
    is_in (codes "error[") err || is_in (codes "error:") err && is_in (codes "Compiling") err

-- is_infra; the regular expression for a code 401, 403 or 500 is a parameter
unfoldable pub is_infra : Outside → Text → Bool
unfolding is_code_error any_in
is_infra env err = not (is_code_error err) && (any_in infra_markers err || env.http_code err)

-- a failed run: trouble of the machines ends the retries, and so does a fix that writes nothing
abbrev pub pick_fix :
    Bool
    → Bool × World
    → Bool
    → World
    → Option BenchResult × Bool × World
    → Option BenchResult × Bool × World
pick_fix true fix code_changed ran rest = (none, code_changed, ran)
pick_fix false (true, written) code_changed ran rest = rest
pick_fix false (false, asked) code_changed ran rest = (none, code_changed, asked)

abbrev pub pick_run :
    Outside
    → Built
    → Bool
    → World
    → Bool × World
    → Option BenchResult × Bool × World
    → Option BenchResult × Bool × World
pick_run env (built b) code_changed ran fix rest = (some b, code_changed, ran)
pick_run env (failed err) code_changed ran fix rest =
    pick_fix (is_infra env err) fix code_changed ran rest

abbrev pub last_run : Built → Bool → World → Option BenchResult × Bool × World
last_run (built b) code_changed ran = (some b, code_changed, ran)
last_run (failed err) code_changed ran = (none, code_changed, ran)

-- _benchmark_with_compile_fix, with the retries that are left
unfoldable pub benchmark_with_compile_fix :
    Outside → Params → ℕ → Bool → World → Option BenchResult × Bool × World
unfolding run_benchmark is_infra try_compile_fix
benchmark_with_compile_fix env params zero code_changed w =
    let (result, ran) = run_benchmark env params w in last_run result code_changed ran
benchmark_with_compile_fix env params (suc retries) code_changed w =
    let (result, ran) = run_benchmark env params w in
    let fix = try_compile_fix env ran in
    let rest = benchmark_with_compile_fix env params retries true fix.1 in
    pick_run env result code_changed ran fix rest

-- restore_and_fail, and the other places that put the best back
unfoldable pub restore_best : Outside → Text × Text → World → World
unfolding write_code
restore_best env (code, kernel) w = if is_empty code then w else write_code env code kernel w

abbrev pub last_rerun : Built → World → Option BenchResult × World
last_rerun (built b) w = (some b, w)
last_rerun (failed err) w = (none, w)

abbrev pub pick_rerun :
    Built → World → Bool × World → Option BenchResult × World → Option BenchResult × World
pick_rerun (built b) ran fix again = (some b, ran)
pick_rerun (failed err) ran (true, written) again = again
pick_rerun (failed err) ran (false, asked) again = (none, asked)

-- the second half of a runtime retry, from the benchmark of the fix on: it asks for one compile fix
unfoldable pub rerun : Outside → World → Option BenchResult × World
unfolding run_benchmark try_compile_fix
rerun env w =
    let (result, ran) = run_benchmark env defaults w in
    let fix = try_compile_fix env ran in
    let (again, last) = run_benchmark env defaults fix.1 in
    pick_rerun result ran fix (last_rerun again last)

abbrev pub pick_retry :
    Outside
    → Text × Text
    → Bool × World
    → Option BenchResult × World
    → Option BenchResult × World
    → Option BenchResult × World
pick_retry env best (false, asked) again rest = (none, restore_best env best asked)
pick_retry env best (true, written) (none, last) rest = (none, restore_best env best last)
pick_retry env best (true, written) (some b, last) rest = rest

-- `bench = bench_result`, where there is one
abbrev pub bench_of : BenchResult → Option BenchResult → BenchResult
bench_of b none = b
bench_of b (some b') = b'

-- _fix_runtime_errors, with the retries that are left
unfoldable pub fix_runtime_errors :
    Outside → Text × Text → ℕ → BenchResult → World → Option BenchResult × World
unfolding fix_code rerun restore_best
fix_runtime_errors env best zero b w = (some b, w)
fix_runtime_errors env best (suc retries) b w =
    let fix = fix_code env (λ code. code) w in
    let again = rerun env fix.1 in
    let rest = fix_runtime_errors env best retries (bench_of b again.0) again.1 in
    if not b.errors || b.feasible then (some b, w) else pick_retry env best fix again rest
