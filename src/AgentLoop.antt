-- ===== src/AgentLoop.antt =====
-- scripts/run_loop.py: the loop of an agent. What stands outside is a record of parameters, and the n-th
-- call of it has its own answer: the model and the tooled agent, the benchmark, the server, and the checks
-- by regular expressions. `noise` is the 1e-6 of _clean_score, in the unit of the scores. Token counts, messages to the feed, heartbeats and prompts are left out.
use tig_swarm_demo.Prelude.{
  ℕ, zero, suc, ◌+◌, ℤ, Bool, true, false, not, ◌&&◌, ◌||◌, Option, none, some, List, [], ◌∷◌, ◌++◌,
  String, ◌==◌, if◌then◌else◌, is_some,
}
use Prim.Native.Char.{code}
use tig_swarm_demo.Db.Rows.{Direction}
use tig_swarm_demo.SearchReplace.Text.{Text, is_empty, eq_text, after_prefix}
use tig_swarm_demo.SearchReplace.Apply.{FileMap}
use tig_swarm_demo.ChallengeFiles.{FilesConfig, without, read, write}
use tig_swarm_demo.Hpo
pub mod Fixing
pub mod Tuning
pub mod Cleaning
pub mod Generating
pub mod Iterations
pub mod Growth
pub mod Fixed
pub mod GateRaised
pub mod Tuned
pub mod Honest
pub mod Cleaned
pub mod Generated
pub mod Turns
pub mod Rounds
pub mod Freeze
pub mod Failing
pub mod Broken
mod Tests

-- a benchmark's result; `errors` says whether its list of errors has any
pub record BenchResult : Type 0 where
  pub score : Option ℤ
  pub feasible : Bool
  pub errors : Bool

-- the seed and the hyperparameters of a run: the test seed with the defaults of the code, the seed of the
-- search with one configuration, the test seed with a configuration for each track
pub data Params : Type 0 where
  defaults : Params
  trial_config : ℕ → Params
  track_configs : List (ℕ × ℕ × ℤ) → Params

-- a successful benchmark, and what it ran on
pub record Run : Type 0 where
  pub disk : FileMap
  pub params : Params
  pub bench : BenchResult

-- run_benchmark: a result, or the error text
pub data Built : Type 0 where
  built : BenchResult → Built
  failed : Text → Built

pub record Outside : Type 0 where
  pub files : FilesConfig
  pub benchmark : ℕ → FileMap → Params → Built
  pub search_run : ℕ → FileMap → ℕ → Option Hpo.Bench
  pub answer : ℕ → Option Text
  pub agent : ℕ → FileMap
  pub extraction : ℕ → FileMap → Option (FileMap × List ℕ)
  pub publish_ok : ℕ → Bool
  pub parse_response : Text → Text × Text
  pub challenge_import : Text → Text
  pub common_imports : Text → Text
  pub violation : Text → FileMap → Bool
  pub is_stub : Text → Bool
  pub http_code : Text → Bool
  pub run_prepass : FileMap → FileMap × Bool
  pub config_key : ℕ → ℕ
  pub draws : ℕ → ℕ → Option ℕ
  pub direction : Direction
  pub noise : ℕ

-- the directory, the calls of the outside so far, and three records of the history that no code reads:
-- the runs that succeeded, the runs whose result was published, and how often code was asked for
pub record World : Type 0 where
  pub disk : FileMap
  pub calls : ℕ
  pub measured : List Run
  pub published : List Run
  pub code_asked : ℕ

abbrev pub note_run : Params → Built → World → World
note_run params (failed err) w = record w { calls = suc w.calls }
note_run params (built b) w = record w {
  calls = suc w.calls;
  measured = record { disk = w.disk; params = params; bench = b } ∷ w.measured;
}

unfoldable pub run_benchmark : Outside → Params → World → Built × World
run_benchmark env params w =
    let result = env.benchmark w.calls w.disk params in (result, note_run params result w)

abbrev pub after_ask : World → World
after_ask w = record w { calls = suc w.calls; code_asked = suc w.code_asked }

-- a call of the model for code
unfoldable pub ask_code : Outside → World → Option Text × World
ask_code env w = (env.answer w.calls, after_ask w)

-- bundle[files.entry_name] = entry_code
unfoldable pub with_entry : Outside → Text → FileMap → FileMap
unfolding without
with_entry env entry_code files =
    without env.files.entry_name files ++ (env.files.entry_name, entry_code) ∷ []

-- _validate_entry
unfoldable pub validate_entry : Outside → Text → World → Bool
unfolding with_entry
validate_entry env entry_code w = env.violation entry_code (with_entry env entry_code w.disk)

unfoldable pub write_code : Outside → Text → Text → World → World
unfolding write
write_code env code kernel w = record w { disk = write env.files code kernel w.disk }
