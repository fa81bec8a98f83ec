-- ===== src/StateView/Alive.antt =====
-- The heartbeat of an agent against the sweep of silent agents (heartbeat in server/server.py,
-- deactivate_inactive_agent_trajectories in server/db.py).
use tig_swarm_demo.Prelude.{
  ℕ, ◌≤◌, ◌≡◌, ◌⊎◌, refl, ap, ◌∙◌, String, Bool, true, false, ◌&&◌, Option, none, some, List, [],
  ◌∷◌, arith, All, All-update, ◌==◌, ltb, if◌then◌else◌, is_some, select, update, select-delete_ne,
  Bool-cases, inl, inr,
}
use tig_swarm_demo.Db.Rows.{AgentState, TrajectoryBest, Db}
use tig_swarm_demo.Db.States.{is_state, get_agent_challenge_state, update_agent_challenge_state}
use tig_swarm_demo.Db.Trajectories.{deactivate_trajectory}
use tig_swarm_demo.Db.Bests.{get_trajectory_best, clear_trajectory_best, is_best}
use tig_swarm_demo.Db.Pool.{Deposit, deposit_inactive, is_negative}
use tig_swarm_demo.Sweep.{
  Owned, is_still_owned, release_pointer, has_other_live, bank_best, free_trajectory, sweep_row,
  sweep_rows,
}
use tig_swarm_demo.StateView.Heartbeat.{current_state, heartbeat}

deposit-states : (db : Db) (d : Deposit) → (deposit_inactive db d).agent_states ≡ db.agent_states
unfolding deposit_inactive
deposit-states db d = elim (Bool-cases (is_negative d.score)) [
  | inl e ↦ rw e refl
  | inr e ↦ rw e refl
]

deposit-bests :
    (db : Db) (d : Deposit) → (deposit_inactive db d).trajectory_bests ≡ db.trajectory_bests
unfolding deposit_inactive
deposit-bests db d = elim (Bool-cases (is_negative d.score)) [
  | inl e ↦ rw e refl
  | inr e ↦ rw e refl
]

module _ (agent_id challenge cutoff_ts : ℕ) where
  -- No row of the agent on the challenge is silent.
  abbrev pub IsAwake : AgentState → Type 0
  IsAwake r = is_state agent_id challenge r ≡ true → ltb r.last_active_at cutoff_ts ≡ false

  refresh-IsAwake :
      (timestamp : ℕ) (rows : List AgentState)
      → cutoff_ts ≤ timestamp
      → All IsAwake
          (update (is_state agent_id challenge) (λ s. record s { last_active_at = timestamp }) rows)
  unfolding update
  refresh-IsAwake timestamp [] late = tt
  refresh-IsAwake timestamp (r ∷ rows) late = elim (Bool-cases (is_state agent_id challenge r)) [
    | inl e ↦ rw e (λ _. ground arith, refresh-IsAwake timestamp rows late)
    | inr e ↦ rw e (λ k. absurd (cc (e, k)), refresh-IsAwake timestamp rows late)
  ]

  -- The guard of a round does not match an awake row.
  awake_is_kept :
      (o : Owned) (r : AgentState)
      → IsAwake r
      → is_state agent_id challenge r ≡ true
      → is_still_owned cutoff_ts o r ≡ false
  awake_is_kept o r awake mine =
      guard_fails (is_state o.agent_id o.challenge r) (ltb r.last_active_at cutoff_ts) _
        (awake mine)
    where
      guard_fails : (a b c : Bool) → b ≡ false → (a && b && c) ≡ false
      guard_fails true true c h = absurd (cc (h))
      guard_fails true false c h = refl
      guard_fails false b c h = refl

  select-release :
      (o : Owned) (rows : List AgentState)
      → All IsAwake rows
      → select (is_state agent_id challenge) (
          update
            (is_still_owned cutoff_ts o)
            (λ r. record r { current_trajectory_id = none; current_program_id = none })
            rows)
        ≡ select (is_state agent_id challenge) rows
  unfolding select update
  select-release o [] awake = refl
  select-release o (r ∷ rows) awake = elim (Bool-cases (is_state agent_id challenge r)) [
    | inl e ↦ rw (awake_is_kept o r awake.0 e) (rw e refl)
    | inr e ↦ elim (Bool-cases (is_still_owned cutoff_ts o r)) [
      | inl owned ↦ rw owned (rw e (select-release o rows awake.1))
      | inr free ↦ rw free (rw e (select-release o rows awake.1))
    ]
  ]

  -- A round for the agent itself finds nothing to do.
  own_round :
      (o : Owned) (rows : List AgentState)
      → o.agent_id ≡ agent_id
      → o.challenge ≡ challenge
      → All IsAwake rows
      → select (is_still_owned cutoff_ts o) rows ≡ none
  unfolding select
  own_round o [] a c awake = refl
  own_round o (r ∷ rows) a c awake =
      rw (missed (Bool-cases (is_state agent_id challenge r))) (own_round o rows a c awake.1)
    where
      missed :
          (is_state agent_id challenge r ≡ true) ⊎ (is_state agent_id challenge r ≡ false)
          → is_still_owned cutoff_ts o r ≡ false
      missed (inl e) = awake_is_kept o r awake.0 e
      missed (inr e) = rw (a, c, e) refl

module _ (cutoff_ts timestamp : ℕ) (o : Owned) where
  parked_if : Bool → Db → Db
  parked_if live db = if live then db else deactivate_trajectory db o.trajectory_id timestamp

  parked-states : (live : Bool) (db : Db) → (parked_if live db).agent_states ≡ db.agent_states
  unfolding parked_if deactivate_trajectory
  parked-states true db = refl
  parked-states false db = refl

  parked-bests :
      (live : Bool) (db : Db) → (parked_if live db).trajectory_bests ≡ db.trajectory_bests
  unfolding parked_if deactivate_trajectory
  parked-bests true db = refl
  parked-bests false db = refl

  banked-states :
      (db : Db) (best : Option TrajectoryBest)
      → (bank_best o timestamp db best).agent_states ≡ db.agent_states
  unfolding bank_best clear_trajectory_best
  banked-states db none = refl
  banked-states db (some best) = elim (Bool-cases best.feasible) [
    | inl e ↦ rw e (deposit-states db _)
    | inr e ↦ rw e refl
  ]

  -- A round clears at most the best of its own agent.
  banked-best :
      (agent_id challenge : ℕ) (db : Db) (best : Option TrajectoryBest)
      → (o.agent_id == agent_id && o.challenge == challenge) ≡ false
      → get_trajectory_best (bank_best o timestamp db best) agent_id challenge
        ≡ get_trajectory_best db agent_id challenge
  unfolding bank_best clear_trajectory_best get_trajectory_best
  banked-best agent_id challenge db none apart = refl
  banked-best agent_id challenge db (some best) apart =
      select-delete_ne (is_best o.agent_id o.challenge) (is_best agent_id challenge) _
        (λ r mine. ground (arith, mine, apart))
      ∙ ap (select (is_best agent_id challenge)) (elim (Bool-cases best.feasible) [
        | inl e ↦ rw e (deposit-bests db _)
        | inr e ↦ rw e refl
      ])

module _ (agent_id challenge cutoff_ts timestamp : ℕ) where
  abbrev AreAwake : Db → Type 0
  AreAwake db = All (IsAwake agent_id challenge cutoff_ts) db.agent_states

  -- What a sweep may not touch: the rows of an agent that is awake.
  pub record IsSpared (db swept : Db) : Type 0 where
    pub state :
        get_agent_challenge_state swept agent_id challenge
        ≡ get_agent_challenge_state db agent_id challenge
    pub best :
        get_trajectory_best swept agent_id challenge ≡ get_trajectory_best db agent_id challenge

  free-states :
      (o : Owned) (db : Db)
      → (free_trajectory cutoff_ts timestamp o db).agent_states
        ≡ (release_pointer cutoff_ts o db).agent_states
  unfolding free_trajectory parked_if
  free-states o db =
      banked-states cutoff_ts timestamp o _ _
      ∙ parked-states cutoff_ts timestamp o
          (has_other_live cutoff_ts o (release_pointer cutoff_ts o db))
          (release_pointer cutoff_ts o db)

  free-best :
      (o : Owned) (db : Db)
      → (o.agent_id == agent_id && o.challenge == challenge) ≡ false
      → get_trajectory_best (free_trajectory cutoff_ts timestamp o db) agent_id challenge
        ≡ get_trajectory_best db agent_id challenge
  unfolding free_trajectory parked_if get_trajectory_best release_pointer
  free-best o db apart =
      banked-best cutoff_ts timestamp o agent_id challenge _ _ apart
      ∙ ap (select (is_best agent_id challenge)) (
          parked-bests cutoff_ts timestamp o
            (has_other_live cutoff_ts o (release_pointer cutoff_ts o db))
            (release_pointer cutoff_ts o db))

  freed_round :
      (o : Owned) (db : Db)
      → AreAwake db
      → (o.agent_id == agent_id && o.challenge == challenge) ≡ false
      → IsSpared db (free_trajectory cutoff_ts timestamp o db)
        × AreAwake (free_trajectory cutoff_ts timestamp o db)
  unfolding get_agent_challenge_state release_pointer
  freed_round o db awake apart = (
    record {
      state =
          ap (select (is_state agent_id challenge)) (free-states o db)
          ∙ select-release agent_id challenge cutoff_ts o db.agent_states awake;
      best = free-best o db apart;
    },
    rw (free-states o db) (
        All-update (IsAwake agent_id challenge cutoff_ts) (is_still_owned cutoff_ts o) _
          db.agent_states (λ r h. h) awake),
  )

  -- One round, for the agent itself or for another one.
  round_spares :
      (o : Owned) (db : Db)
      → AreAwake db
      → IsSpared db (sweep_row cutoff_ts timestamp o db).1
        × AreAwake (sweep_row cutoff_ts timestamp o db).1
  unfolding sweep_row
  round_spares o db awake =
      elim (Bool-cases (is_some (select (is_still_owned cutoff_ts o) db.agent_states))) [
        | inr e ↦ rw e (record { state = refl; best = refl }, awake)
        | inl e ↦ elim (Bool-cases (o.agent_id == agent_id && o.challenge == challenge)) [
          | inl same ↦ absurd (
              cc (
                e,
                ap is_some (
                    own_round agent_id challenge cutoff_ts o db.agent_states (ground (arith, same))
                      (ground (arith, same)) awake),
              ))
          | inr apart ↦ rw e (freed_round o db awake apart)
        ]
      ]

  sweep_spares :
      (owned : List Owned) (db : Db)
      → AreAwake db
      → IsSpared db (sweep_rows cutoff_ts timestamp owned db).1
  unfolding sweep_rows
  sweep_spares [] db awake = record { state = refl; best = refl }
  sweep_spares (o ∷ owned) db awake =
      let (spared, still) = round_spares o db awake in
      let rest = sweep_spares owned (sweep_row cutoff_ts timestamp o db).1 still in
      record { state = rest.state ∙ spared.state; best = rest.best ∙ spared.best }

heartbeat-states :
    (db : Db) (agent_id : ℕ) (status : String) (now_ts : ℕ) (r : AgentState)
    → current_state db agent_id ≡ some r
    → (heartbeat db agent_id status now_ts).agent_states
      ≡ update
          (is_state agent_id r.challenge)
          (λ s. record s { last_active_at = now_ts })
          db.agent_states
unfolding heartbeat current_state update_agent_challenge_state
heartbeat-states db agent_id status now_ts r e = rw (heartbeat, e) refl

-- After a heartbeat, no sweep whose cutoff is not later than the heartbeat takes anything from the
-- agent on its current challenge, the one of its latest poll: its row, with the trajectory and the
-- program it works on, and its best are the same before and after all the rounds, even if it stood in
-- the sweep's snapshot, taken before the heartbeat.
pub heartbeat_survives_sweep :
    (db : Db) (agent_id : ℕ) (status : String) (now_ts cutoff_ts timestamp : ℕ) (r : AgentState)
    (owned : List Owned)
    → cutoff_ts ≤ now_ts
    → current_state db agent_id ≡ some r
    → IsSpared agent_id r.challenge cutoff_ts timestamp
        (heartbeat db agent_id status now_ts)
        (sweep_rows cutoff_ts timestamp owned (heartbeat db agent_id status now_ts)).1
heartbeat_survives_sweep db agent_id status now_ts cutoff_ts timestamp r owned late e =
    sweep_spares agent_id r.challenge cutoff_ts timestamp owned _ (
      rw (heartbeat-states db agent_id status now_ts r e)
        (refresh-IsAwake agent_id r.challenge cutoff_ts now_ts db.agent_states late))
