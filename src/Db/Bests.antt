-- ===== src/Db/Bests.antt =====
-- trajectory_bests and the global best (server/db.py).
use tig_swarm_demo.Prelude.{
  ℕ, Bool, true, ◌&&◌, Option, none, some, List, [], ◌∷◌, ◌==◌, ltb, if◌then◌else◌, select,
  select_all, upsert, delete,
}
use tig_swarm_demo.Db.Rows.{Direction, TrajectoryBest, Experiment, Db, Files}
use tig_swarm_demo.Db.States.{is_better}

abbrev pub is_best : ℕ → ℕ → TrajectoryBest → Bool
is_best agent_id challenge r = r.agent_id == agent_id && r.challenge == challenge

-- get_trajectory_best
unfoldable pub get_trajectory_best : Db → ℕ → ℕ → Option TrajectoryBest
get_trajectory_best db agent_id challenge = select (is_best agent_id challenge) db.trajectory_bests

-- upsert_trajectory_best: the conflict clause overwrites every column but the key
unfoldable pub upsert_trajectory_best : Db → TrajectoryBest → Db
upsert_trajectory_best db new = record db {
  trajectory_bests = upsert (is_best new.agent_id new.challenge) new (λ _. new) db.trajectory_bests;
}

-- clear_trajectory_best
unfoldable pub clear_trajectory_best : Db → ℕ → ℕ → Db
clear_trajectory_best db agent_id challenge = record db {
  trajectory_bests = delete (is_best agent_id challenge) db.trajectory_bests;
}

-- files_json
unfoldable pub files_json : Option Files → Option Files
files_json (some (f ∷ files)) = some (f ∷ files)
files_json _ = none

-- row_files: a stored map that is empty reads as absent
unfoldable pub row_files : Option Files → Option Files
row_files (some (f ∷ files)) = some (f ∷ files)
row_files _ = none

-- SELECT value FROM config WHERE key = ?
unfoldable pub lookup_epoch : ℕ → List (ℕ × ℕ) → Option ℕ
lookup_epoch challenge [] = none
lookup_epoch challenge ((key, value) ∷ rows) =
    if key == challenge then some value else lookup_epoch challenge rows

-- get_score_epoch
unfoldable pub get_score_epoch : Db → ℕ → Option ℕ
unfolding lookup_epoch
get_score_epoch db challenge = lookup_epoch challenge db.score_epochs

-- created_at > COALESCE(epoch, '')
abbrev pub after_epoch : Option ℕ → ℕ → Bool
after_epoch none created_at = true
after_epoch (some epoch) created_at = ltb epoch created_at

-- ORDER BY score LIMIT 1, the earliest row among equals
unfoldable pub best_scored : Direction → List Experiment → Option Experiment
unfolding is_better
best_scored direction [] = none
best_scored direction (e ∷ rest) = elim (best_scored direction rest) [
  | none ↦ some e
  | some b ↦ if is_better direction b.score e.score then some b else some e
]

-- get_global_best
unfoldable pub get_global_best : Db → ℕ → Direction → Option Experiment
unfolding get_score_epoch best_scored
get_global_best db challenge direction = best_scored direction (
    select_all
      (λ e.
        e.feasible
        && e.challenge == challenge
        && after_epoch (get_score_epoch db challenge) e.created_at)
      db.experiments)
