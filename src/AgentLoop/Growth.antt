-- ===== src/AgentLoop/Growth.antt =====
-- What every step of scripts/run_loop.py that publishes nothing keeps, and what it may add.
use tig_swarm_demo.Prelude.{
  ◌≤◌, ◌<◌, ◌≡◌, refl, ◌∙◌, inl, inr, true, Option, none, some, arith, IsIn, Bool-cases, length,
}
use tig_swarm_demo.SearchReplace.Text.{Text, is_empty}
use tig_swarm_demo.CleanerPrepass.{contains}
use tig_swarm_demo.ChallengeFiles.{path_names}
use tig_swarm_demo.ChallengeFiles.Tidy.{IsTidy, write-IsTidy, write-has_entry}
use tig_swarm_demo.AgentLoop.{
  BenchResult, Params, Built, built, failed, Run, Outside, World, note_run, run_benchmark,
  after_ask, write_code,
}
use tig_swarm_demo.AgentLoop.Fixing.{restore_best}

-- The entry file is on disk.
abbrev pub HasEntry : Outside → World → Type 0
HasEntry env w = contains (path_names w.disk) env.files.entry_name ≡ true

-- From w to v: code may have been asked for and runs may have succeeded, nothing was published, and the
-- directory is as well-formed as before.
pub record Grows (env : Outside) (w v : World) : Type 0 where
  pub asked : w.code_asked ≤ v.code_asked
  pub runs : (r : Run) → IsIn r w.measured → IsIn r v.measured
  pub more : length w.measured ≤ length v.measured
  pub same : v.published ≡ w.published
  pub tidy : IsTidy w.disk → IsTidy v.disk
  pub entry : HasEntry env w → HasEntry env v

pub Grows-refl : (env : Outside) (w : World) → Grows env w w
Grows-refl env w = record {
  asked = omega arith;
  runs = λ r i. i;
  more = omega arith;
  same = refl;
  tidy = λ t. t;
  entry = λ e. e;
}

pub Grows-trans : {env : Outside} {u v w : World} → Grows env u v → Grows env v w → Grows env u w
Grows-trans g h = record {
  asked = omega (arith, g.asked, h.asked);
  runs = λ r i. h.runs r (g.runs r i);
  more = omega (arith, g.more, h.more);
  same = h.same ∙ g.same;
  tidy = λ t. h.tidy (g.tidy t);
  entry = λ e. h.entry (g.entry e);
}

-- A run of what stands on disk in v succeeded with this result, since w.
abbrev pub Ran : World → World → Params → Option BenchResult → Type 0
Ran w v params none = Unit
Ran w v params (some b) =
    IsIn (record { disk = v.disk; params = params; bench = b }) v.measured
    × (length w.measured < length v.measured)

pub Ran-earlier :
    {env : Outside} {u w : World} (v : World) (params : Params) (o : Option BenchResult)
    → Grows env u w
    → Ran w v params o
    → Ran u v params o
Ran-earlier v params none g r = tt
Ran-earlier v params (some b) g r = (r.0, omega (arith, g.more, r.1))

pub note_run-Grows :
    (env : Outside) (params : Params) (result : Built) (w : World)
    → Grows env w (note_run params result w)
note_run-Grows env params (failed err) w = record {
  asked = omega arith;
  runs = λ r i. i;
  more = omega arith;
  same = refl;
  tidy = λ t. t;
  entry = λ e. e;
}
note_run-Grows env params (built b) w = record {
  asked = omega arith;
  runs = λ r i. inr i;
  more = omega arith;
  same = refl;
  tidy = λ t. t;
  entry = λ e. e;
}

pub run_benchmark-Grows :
    (env : Outside) (params : Params) (w : World) → Grows env w (run_benchmark env params w).1
unfolding run_benchmark
run_benchmark-Grows env params w = note_run-Grows env params _ w

pub after_ask-Grows : (env : Outside) (w : World) → Grows env w (after_ask w)
after_ask-Grows env w = record {
  asked = omega arith;
  runs = λ r i. i;
  more = omega arith;
  same = refl;
  tidy = λ t. t;
  entry = λ e. e;
}

pub write_code-Grows :
    (env : Outside) (code kernel : Text) (w : World) → Grows env w (write_code env code kernel w)
unfolding write_code
write_code-Grows env code kernel w = record {
  asked = omega arith;
  runs = λ r i. i;
  more = omega arith;
  same = refl;
  tidy = write-IsTidy env.files code kernel w.disk;
  entry = λ e. write-has_entry env.files code kernel w.disk;
}

pub restore_best-Grows :
    (env : Outside) (best : Text × Text) (w : World) → Grows env w (restore_best env best w)
unfolding restore_best
restore_best-Grows env (code, kernel) w = elim (Bool-cases (is_empty code)) [
  | inl e ↦ rw e (Grows-refl env w)
  | inr e ↦ rw e (write_code-Grows env code kernel w)
]
