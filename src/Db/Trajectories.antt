-- ===== src/Db/Trajectories.antt =====
-- The table of trajectories (server/db.py).
use tig_swarm_demo.Prelude.{
  ℕ, ◌+◌, ◌*◌, ◌^◌, ℤ, Bool, true, false, ◌&&◌, Option, none, some, List, [], ◌∷◌, ◌++◌, ◌==◌,
  length, select, select_all, update,
}
use tig_swarm_demo.Db.Rows.{Status, active, inactive, Trajectory, Db}

abbrev pub is_trajectory : ℕ → Trajectory → Bool
is_trajectory id r = r.id == id

abbrev pub is_active : Status → Bool
is_active active = true
is_active inactive = false

-- create_trajectory, with num_agents = 1
unfoldable pub create_trajectory : Db → ℕ → ℕ → ℕ → Option ℤ → Db
create_trajectory db trajectory_id challenge started_at current_score = record db {
  trajectories =
      db.trajectories
      ++ record {
        id = trajectory_id;
        challenge = challenge;
        started_at = started_at;
        status = active;
        current_score = current_score;
        num_edits = 0;
        num_improvements = 0;
        momentum = 0;
        num_agents = 1;
        edits_since_improvement = 0;
        num_deactivations = 0;
        deactivated_at = none;
      }
        ∷ [];
}

-- get_trajectory
unfoldable pub get_trajectory : Db → ℕ → Option Trajectory
get_trajectory db trajectory_id = select (is_trajectory trajectory_id) db.trajectories

-- deactivate_trajectory
unfoldable pub deactivate_trajectory : Db → ℕ → ℕ → Db
deactivate_trajectory db trajectory_id deactivated_at = record db {
  trajectories =
      update (λ r. r.id == trajectory_id && is_active r.status)
        (λ r. record r {
          status = inactive;
          deactivated_at = some deactivated_at;
          num_deactivations = r.num_deactivations + 1;
        })
        db.trajectories;
}

-- reactivate_trajectory
unfoldable pub reactivate_trajectory : Db → ℕ → Db
reactivate_trajectory db trajectory_id = record db {
  trajectories =
      update (is_trajectory trajectory_id)
        (λ r. record r { status = active; deactivated_at = none }) db.trajectories;
}

-- increment_trajectory_agents
unfoldable pub increment_trajectory_agents : Db → ℕ → Db
increment_trajectory_agents db trajectory_id = record db {
  trajectories =
      update (is_trajectory trajectory_id) (λ r. record r { num_agents = r.num_agents + 1 })
        db.trajectories;
}

-- the two SET clauses of update_trajectory_after_edit. Over 4 ^ num_edits, `momentum * 0.75` is
-- `momentum * 3` over the next power, and `+ 1` adds that power.
unfoldable pub after_edit : Bool → Option ℤ → Trajectory → Trajectory
after_edit true (some new_score) r = record r {
  num_edits = r.num_edits + 1;
  num_improvements = r.num_improvements + 1;
  momentum = r.momentum * 3 + 4 ^ (r.num_edits + 1);
  current_score = some new_score;
  edits_since_improvement = 0;
}
after_edit _ _ r = record r {
  num_edits = r.num_edits + 1;
  momentum = r.momentum * 3;
  edits_since_improvement = r.edits_since_improvement + 1;
}

-- update_trajectory_after_edit
unfoldable pub update_trajectory_after_edit : Db → ℕ → Bool → Option ℤ → Db
update_trajectory_after_edit db trajectory_id improved new_score = record db {
  trajectories =
      update (is_trajectory trajectory_id) (after_edit improved new_score) db.trajectories;
}

-- SUM(num_deactivations)
unfoldable pub sum_deactivations : List Trajectory → ℕ
sum_deactivations [] = 0
sum_deactivations (r ∷ rows) = r.num_deactivations + sum_deactivations rows

-- trajectory_counts
unfoldable pub trajectory_counts : Db → ℕ → ℕ × ℕ
unfolding sum_deactivations
trajectory_counts db challenge =
    let rows = select_all (λ r. r.challenge == challenge) db.trajectories in
    (length rows, sum_deactivations rows)
