-- ===== src/Iteration/Request.antt =====
-- The request of POST /api/iterations (server/models.py, IterationCreate) and what a call takes from
-- outside the database.
use tig_swarm_demo.Prelude.{ℕ, ℤ, String, Bool, Option}
use tig_swarm_demo.Db.Rows.{Direction, Files}
use tig_swarm_demo.SeedPool.{Limits}

-- iteration_type: "refactor", or any other text
pub data IterationType : Type 0 where
  mutation refactor : IterationType

-- A dictionary field holds its JSON text, and is absent where the dictionary is absent or empty, as
-- _encode_iteration_payload stores it.
pub record IterationCreate : Type 0 where
  pub agent_id : ℕ
  pub title : String
  pub description : String
  pub strategy_tag : String
  pub algorithm_code : String
  pub kernel_code : Option String
  pub algorithm_files : Option Files
  pub score : ℤ
  pub feasible : Bool
  pub notes : String
  pub solution_data : Option String
  pub track_scores : Option String
  pub challenge : Option ℕ
  pub challenge_metrics : Option String
  pub input_tokens : Option ℕ
  pub output_tokens : Option ℕ
  pub role : Option String
  pub hyperparameters : Option String
  pub default_score : Option ℤ
  pub iteration_type : IterationType

-- The ids that new_id draws along the way, and the clock.
pub record Fresh : Type 0 where
  pub exp_id : ℕ
  pub hyp_id : ℕ
  pub program_id : ℕ
  pub trajectory_id : ℕ
  pub improved_program_id : ℕ
  pub timestamp : ℕ

-- The configuration that the handler reads: the registry of challenges, a challenge's direction and
-- the fingerprint of its configuration, and the settings of the seed pool. `fingerprint` is
-- db.code_fingerprint, a SHA-256 digest of which only equality is used; `is_blank` is
-- `not code.strip()`.
pub record Env : Type 0 where
  pub is_known_challenge : ℕ → Bool
  pub direction_of : ℕ → Direction
  pub config_fingerprint : ℕ → Option ℕ
  pub fingerprint : String → ℕ
  pub is_blank : String → Bool
  pub loc : String → ℕ
  pub similarity : String → String → ℤ
  pub limits : Limits

-- the responses of the handler that are HTTP errors
pub data HttpError : Type 0 where
  token_mismatch : HttpError  -- 403
  missing_challenge : HttpError  -- 400
  unknown_challenge : HttpError  -- 400
  unregistered_agent : HttpError  -- 404

pub data Result {ℓ} (A : Type ℓ) : Type ℓ where
  ok : A → Result A
  err : HttpError → Result A
