-- ===== src/Db/Valid.antt =====
-- The well-formedness of a database, and that each statement of server/db.py keeps it.
use native.Mathlib.Nat.{mul_comm, pow-suc}
use native.Mathlib.Numerals.{add-one}
use tig_swarm_demo.Prelude.{
  ℕ, ◌+◌, ◌*◌, ◌^◌, ◌≤◌, ◌<◌, ◌≡◌, ℤ, Bool, true, false, ◌&&◌, Option, none, some, [], ◌∷◌, arith,
  ◌==◌, All, All-append, All-map, ◌∙◌, All-update, All-delete, All-upsert, Bool-cases, inl, inr,
}
use tig_swarm_demo.Db.Rows.{AgentState, Trajectory, TrajectoryBest, Inactive, Db}
use tig_swarm_demo.Db.States.{
  ensure_agent_challenge_state, update_agent_challenge_state, increment_agent_challenge_counters,
  Increment, add_counters, new_state, is_state,
}
use tig_swarm_demo.Db.Trajectories.{
  create_trajectory, deactivate_trajectory, reactivate_trajectory, increment_trajectory_agents,
  after_edit, update_trajectory_after_edit, is_trajectory, is_active,
}
use tig_swarm_demo.Db.Bests.{upsert_trajectory_best, clear_trajectory_best, is_best}
use tig_swarm_demo.Db.Pool.{is_negative, Deposit, deposit_inactive, deposited, remove_inactive}

-- Improvements and stagnation are counted among the published experiments.
pub record IsCounted (s : AgentState) : Type 0 where
  pub improved : s.improvements ≤ s.experiments_completed
  pub stalled : s.runs_since_improvement ≤ s.experiments_completed

-- The momentum of a trajectory is at most 4, and its counters are counted among its edits.
pub record IsPaced (t : Trajectory) : Type 0 where
  pub improved : t.num_improvements ≤ t.num_edits
  pub since : t.edits_since_improvement ≤ t.num_edits
  pub momentum : t.momentum ≤ 4 * 4 ^ t.num_edits

abbrev pub IsFeasible : TrajectoryBest → Type 0
IsFeasible b = b.feasible ≡ true

-- An entry that a reset may hand out: its id has been issued, and its score is not negative.
pub record IsAdoptable (next : ℕ) (e : Inactive) : Type 0 where
  pub issued : e.id < next
  pub nonnegative : is_negative e.score ≡ false

pub record IsValid (db : Db) : Type 0 where
  pub states : All IsCounted db.agent_states
  pub trajectories : All IsPaced db.trajectories
  pub bests : All IsFeasible db.trajectory_bests
  pub pool : All (IsAdoptable db.next_inactive) db.inactive_algorithms

module _ (db : Db) (v : IsValid db) where
  pub ensure-IsValid :
      (agent_id challenge last_active_at : ℕ)
      → IsValid (ensure_agent_challenge_state db agent_id challenge last_active_at)
  unfolding ensure_agent_challenge_state new_state
  ensure-IsValid agent_id challenge last_active_at = record {
    states =
        All-upsert IsCounted (is_state agent_id challenge)
          (new_state agent_id challenge last_active_at)
          (λ r. record r { last_active_at = last_active_at }) db.agent_states (ground arith)
          (λ r h. record { improved = h.improved; stalled = h.stalled }) v.states;
    trajectories = v.trajectories;
    bests = v.bests;
    pool = v.pool;
  }

  pub update_state-IsValid :
      (agent_id challenge : ℕ) (f : AgentState → AgentState)
      → ((r : AgentState) → IsCounted r → IsCounted (f r))
      → IsValid (update_agent_challenge_state db agent_id challenge f)
  unfolding update_agent_challenge_state
  update_state-IsValid agent_id challenge f keep = record {
    states = All-update IsCounted (is_state agent_id challenge) f db.agent_states keep v.states;
    trajectories = v.trajectories;
    bests = v.bests;
    pool = v.pool;
  }

  pub increment-IsValid :
      (agent_id challenge : ℕ) (i : Increment)
      → i.improvements ≤ i.runs
      → i.runs_since_improvement_inc ≤ i.runs
      → IsValid (increment_agent_challenge_counters db agent_id challenge i)
  unfolding increment_agent_challenge_counters add_counters
  increment-IsValid agent_id challenge i few since = record {
    states =
        All-update IsCounted (is_state agent_id challenge) (add_counters i) db.agent_states
          (λ r h. ground arith) v.states;
    trajectories = v.trajectories;
    bests = v.bests;
    pool = v.pool;
  }

  pub create_trajectory-IsValid :
      (id challenge started_at : ℕ) (score : Option ℤ)
      → IsValid (create_trajectory db id challenge started_at score)
  unfolding create_trajectory
  create_trajectory-IsValid id challenge started_at score = record {
    states = v.states;
    trajectories = All-append IsPaced db.trajectories _ v.trajectories (ground arith, tt);
    bests = v.bests;
    pool = v.pool;
  }

  pub deactivate-IsValid : (id timestamp : ℕ) → IsValid (deactivate_trajectory db id timestamp)
  unfolding deactivate_trajectory
  deactivate-IsValid id timestamp = record {
    states = v.states;
    trajectories =
        All-update IsPaced (λ r. r.id == id && is_active r.status) _ db.trajectories
          (λ r h. record { improved = h.improved; since = h.since; momentum = h.momentum })
          v.trajectories;
    bests = v.bests;
    pool = v.pool;
  }

  pub reactivate-IsValid : (id : ℕ) → IsValid (reactivate_trajectory db id)
  unfolding reactivate_trajectory
  reactivate-IsValid id = record {
    states = v.states;
    trajectories =
        All-update IsPaced (is_trajectory id) _ db.trajectories
          (λ r h. record { improved = h.improved; since = h.since; momentum = h.momentum })
          v.trajectories;
    bests = v.bests;
    pool = v.pool;
  }

  pub increment_agents-IsValid : (id : ℕ) → IsValid (increment_trajectory_agents db id)
  unfolding increment_trajectory_agents
  increment_agents-IsValid id = record {
    states = v.states;
    trajectories =
        All-update IsPaced (is_trajectory id) _ db.trajectories
          (λ r h. record { improved = h.improved; since = h.since; momentum = h.momentum })
          v.trajectories;
    bests = v.bests;
    pool = v.pool;
  }

four_pow : (n : ℕ) → 4 ^ (n + 1) ≡ 4 * 4 ^ n
four_pow n = rw add-one (pow-suc 4 n ∙ mul_comm (4 ^ n) 4)

-- m * 3 + 4 ^ (n + 1) stays below 4 * 4 ^ (n + 1) if m is at most 4 * 4 ^ n.
after_edit-IsPaced :
    (improved : Bool) (score : Option ℤ) (t : Trajectory)
    → IsPaced t
    → IsPaced (after_edit improved score t)
unfolding after_edit
after_edit-IsPaced true (some s) t h = omega (arith, four_pow t.num_edits)
after_edit-IsPaced true none t h = omega (arith, four_pow t.num_edits)
after_edit-IsPaced false score t h = omega (arith, four_pow t.num_edits)

module _ (db : Db) (v : IsValid db) where
  pub after_edit-IsValid :
      (id : ℕ) (improved : Bool) (score : Option ℤ)
      → IsValid (update_trajectory_after_edit db id improved score)
  unfolding update_trajectory_after_edit
  after_edit-IsValid id improved score = record {
    states = v.states;
    trajectories =
        All-update IsPaced (is_trajectory id) (after_edit improved score) db.trajectories
          (after_edit-IsPaced improved score) v.trajectories;
    bests = v.bests;
    pool = v.pool;
  }

  pub upsert_best-IsValid :
      (b : TrajectoryBest) → b.feasible ≡ true → IsValid (upsert_trajectory_best db b)
  unfolding upsert_trajectory_best
  upsert_best-IsValid b fits = record {
    states = v.states;
    trajectories = v.trajectories;
    bests =
        All-upsert IsFeasible (is_best b.agent_id b.challenge) b (λ _. b) db.trajectory_bests fits
          (λ r h. fits) v.bests;
    pool = v.pool;
  }

  pub clear_best-IsValid :
      (agent_id challenge : ℕ) → IsValid (clear_trajectory_best db agent_id challenge)
  unfolding clear_trajectory_best
  clear_best-IsValid agent_id challenge = record {
    states = v.states;
    trajectories = v.trajectories;
    bests = All-delete IsFeasible (is_best agent_id challenge) db.trajectory_bests v.bests;
    pool = v.pool;
  }

  pub remove-IsValid : (id : ℕ) → IsValid (remove_inactive db id)
  unfolding remove_inactive
  remove-IsValid id = record {
    states = v.states;
    trajectories = v.trajectories;
    bests = v.bests;
    pool =
        All-delete (IsAdoptable db.next_inactive) (λ r. r.id == id) db.inactive_algorithms v.pool;
  }

  pub deposit-IsValid : (d : Deposit) → IsValid (deposit_inactive db d)
  unfolding deposit_inactive
  deposit-IsValid d = elim (Bool-cases (is_negative d.score)) [
    | inl bad ↦ rw bad v
    | inr good ↦ rw good (record {
      states = v.states;
      trajectories = v.trajectories;
      bests = v.bests;
      pool =
          All-append (IsAdoptable (db.next_inactive + 1)) db.inactive_algorithms
            (deposited db.next_inactive d ∷ [])
            (All-map (IsAdoptable db.next_inactive) (IsAdoptable (db.next_inactive + 1))
              db.inactive_algorithms
              (λ e h. record { issued = omega arith; nonnegative = h.nonnegative }) v.pool)
            (record { issued = omega arith; nonnegative = good }, tt);
    })
  ]
