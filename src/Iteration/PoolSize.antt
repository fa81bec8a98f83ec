-- ===== src/Iteration/PoolSize.antt =====
-- The size of the seed pool after a harvest.
use tig_swarm_demo.Prelude.{
  ℕ, ◌+◌, ◌≤◌, ◌<◌, ◌≡◌, refl, sym, ◌∙◌, inl, inr, ℤ, pos, String, Bool, true, false, not, ◌&&◌,
  Option, some, List, map, arith, ltb, ltb_ℤ, ◌==◌, if◌then◌else◌, length, Bool-cases,
  IsIn-select_all, select_all, max, eqb_refl, subst,
}
use tig_swarm_demo.Db.Rows.{Seed, Db}
use tig_swarm_demo.Db.Seeds.{insert_seed, list_seeds, evict_seed}
use tig_swarm_demo.SeedPool.{
  Decision, admit, admit_evict, too_complex, too_similar, Limits, decide_admission,
  most_redundant_index, max_similarity,
}
use tig_swarm_demo.Iteration.SeedCounts.{
  length-sort_by_tag, IsIn-sort_by_tag, get_elem?-IsIn, length-map, count-delete_one, count-append,
}
use tig_swarm_demo.SeedPool.Admission.{most_redundant_index_lem, most_redundant_index-few}
use tig_swarm_demo.Iteration.Request.{IterationCreate, Env}
use tig_swarm_demo.Iteration.Harvest.{
  evict_at, act_on, harvested_seed, maybe_harvest_seed, is_frontier, get_agent_tier,
}

module _ (loc : String → ℕ) (similarity : String → String → ℤ) (codes : List String)
    (limits : Limits) where
  -- what a decision says of the size of the pool
  abbrev Allowed : Decision → Type 0
  Allowed admit = length codes < limits.pool_size
  Allowed (admit_evict o) = o ≡ most_redundant_index loc similarity codes
  Allowed _ = Unit

  chosen-Allowed :
      (complex similar room : Bool)
      → (room ≡ true → length codes < limits.pool_size)
      → Allowed (
          if complex
          then too_complex
          else if similar
          then too_similar
          else if room
          then admit
          else admit_evict (most_redundant_index loc similarity codes))
  chosen-Allowed true similar room h = tt
  chosen-Allowed false true room h = tt
  chosen-Allowed false false true h = h refl
  chosen-Allowed false false false h = refl

  decide-Allowed :
      (candidate : String) → Allowed (decide_admission loc similarity candidate codes limits)
  unfolding decide_admission
  decide-Allowed candidate =
      chosen-Allowed (ltb limits.max_loc (loc candidate))
        (ltb 0 (length codes)
          && not
              (ltb_ℤ (max_similarity loc similarity candidate codes) limits.similarity_threshold))
        (ltb (length codes) limits.pool_size) (λ room. ground (arith, room))

-- the feasible seeds of a challenge
abbrev pub pool_count : Db → ℕ → ℕ
pool_count db challenge = length (list_seeds db challenge)

abbrev listed : ℕ → Seed → Bool
listed challenge s = s.challenge == challenge && s.feasible

pool_count-table :
    (db : Db) (challenge : ℕ)
    → pool_count db challenge ≡ length (select_all (listed challenge) db.seed_pool)
unfolding list_seeds
pool_count-table db challenge = length-sort_by_tag (select_all (listed challenge) db.seed_pool)

pool_count-insert :
    (db : Db) (challenge : ℕ) (seed : Seed)
    → pool_count (insert_seed db seed) challenge ≤ pool_count db challenge + 1
unfolding insert_seed
pool_count-insert db challenge seed =
    let new : Seed = record seed { id = db.next_seed } in
    omega (
      arith,
      pool_count-table db challenge,
      pool_count-table (insert_seed db seed) challenge,
      count-append (listed challenge) db.seed_pool new,
    )

-- An eviction of a listed seed makes room.
pool_count-evict :
    (db : Db) (challenge i : ℕ)
    → i < pool_count db challenge
    → pool_count (evict_at db (list_seeds db challenge) (some i)) challenge
      < pool_count db challenge
unfolding evict_at evict_seed list_seeds
pool_count-evict db challenge i h =
    let existing = list_seeds db challenge in
    let (s, found, inside) = get_elem?-IsIn existing i h in
    let (there, is_listed) =
      IsIn-select_all (listed challenge) s db.seed_pool
        (IsIn-sort_by_tag s (select_all (listed challenge) db.seed_pool) inside) in
    let fewer =
      count-delete_one (listed challenge) (λ x. x.id == s.id) s db.seed_pool there is_listed
        (eqb_refl s.id) in
    rw (evict_at, found)
      (omega (
        arith,
        pool_count-table db challenge,
        pool_count-table (evict_seed db s.id) challenge,
        fewer,
      ))

module _ (env : Env) (nonneg : (a b : String) → ltb_ℤ (env.similarity a b) (pos 0) ≡ false) where
  abbrev codes_of : Db → ℕ → List String
  codes_of db challenge = map (λ s. s.algorithm_code) (list_seeds db challenge)

  evict-bounded :
      (db : Db) (challenge : ℕ) (seed : Seed) (o : Option ℕ)
      → o ≡ most_redundant_index env.loc env.similarity (codes_of db challenge)
      → pool_count (insert_seed (evict_at db (list_seeds db challenge) o) seed) challenge
        ≤ max (pool_count db challenge) 2
  unfolding evict_at
  evict-bounded db challenge seed o e = elim (Bool-cases (ltb (pool_count db challenge) 2)) [
    | inl few ↦
        let count = length-map (λ (s : Seed). s.algorithm_code) (list_seeds db challenge) in
        let nobody =
          most_redundant_index-few env.loc env.similarity (codes_of db challenge)
            (ground (arith, few, count)) in
        let one = pool_count-insert db challenge seed in
        subst
          (λ x.
            pool_count (insert_seed (evict_at db (list_seeds db challenge) x) seed) challenge
            ≤ max (pool_count db challenge) 2)
          (sym (e ∙ nobody))
          (let small : pool_count db challenge < 2 = ground (arith, few) in
            omega (arith, small, one))
    | inr several ↦
        let count = length-map (λ (s : Seed). s.algorithm_code) (list_seeds db challenge) in
        let (j, found, low) =
          most_redundant_index_lem env.loc env.similarity nonneg (codes_of db challenge)
            (ground (arith, several, count)) in
        let fewer = pool_count-evict db challenge j (omega (arith, low, count)) in
        let one =
          pool_count-insert (evict_at db (list_seeds db challenge) (some j)) challenge seed in
        subst
          (λ x.
            pool_count (insert_seed (evict_at db (list_seeds db challenge) x) seed) challenge
            ≤ max (pool_count db challenge) 2)
          (sym (e ∙ found)) (omega (arith, fewer, one))
  ]

  act-bounded :
      (db : Db) (challenge : ℕ) (seed : Seed) (d : Decision)
      → Allowed env.loc env.similarity (codes_of db challenge) env.limits d
      → pool_count (act_on db (list_seeds db challenge) d seed) challenge
        ≤ max (pool_count db challenge) (max env.limits.pool_size 2)
  unfolding act_on
  act-bounded db challenge seed admit room =
      let count = length-map (λ (s : Seed). s.algorithm_code) (list_seeds db challenge) in
      let one = pool_count-insert db challenge seed in omega (arith, room, count, one)
  act-bounded db challenge seed (admit_evict o) e =
      let h = evict-bounded db challenge seed o e in omega (arith, h)
  act-bounded db challenge seed too_complex h = omega arith
  act-bounded db challenge seed too_similar h = omega arith

  -- A publish's harvest keeps the pool of a challenge bounded: afterwards it has no more feasible seeds
  -- than before, or than the pool size, or than two, if no similarity is negative.
  pub harvest_keeps_pool_bounded :
      (db : Db) (req : IterationCreate) (challenge timestamp : ℕ)
      → pool_count (maybe_harvest_seed env db req challenge timestamp) challenge
        ≤ max (pool_count db challenge) (max env.limits.pool_size 2)
  unfolding maybe_harvest_seed
  harvest_keeps_pool_bounded db req challenge timestamp =
      elim (Bool-cases (
        req.feasible
        && not (env.is_blank req.algorithm_code)
        && is_frontier (get_agent_tier db req.agent_id))) [
          | inr skipped ↦ rw skipped (omega arith)
          | inl taken ↦ rw taken (
              act-bounded db challenge (harvested_seed req challenge timestamp)
                (decide_admission env.loc env.similarity req.algorithm_code (codes_of db challenge)
                  env.limits)
                (decide-Allowed env.loc env.similarity (codes_of db challenge) env.limits
                  req.algorithm_code))
        ]
