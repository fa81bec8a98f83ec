-- ===== src/Reset/Adoption.antt =====
-- Where the code of an adoption comes from, what is consumed, and what is deposited.
use tig_swarm_demo.Prelude.{
  ℕ, ◌≡◌, refl, inl, inr, String, Option, none, some, List, [], ◌∷◌, arith, ◌==◌, IsIn, Bool-cases,
  get_or, or_else, ◌%◌, length, delete, not, is_some, ◌&&◌,
}
use tig_swarm_demo.Db.Rows.{Inactive, Db}
use tig_swarm_demo.Db.Trajectories.{
  reactivate_trajectory, increment_trajectory_agents, trajectory_counts,
}
use tig_swarm_demo.Db.Pool.{remove_inactive}
use tig_swarm_demo.Reset.Trip.{ResetReason, Call}
use tig_swarm_demo.Reset.Launching.{
  Source, Start, Launch, join_trajectory, launch, adopt, pick_inactive, pick_wanted, go_fresh,
  choice, find_unscored, wanted_code, adopted_launch, fresh_launch,
}

get_or-IsIn :
    {A : Type 0} (i : ℕ) (x : A) (xs zs : List A)
    → ((a : A) → IsIn a xs → IsIn a zs)
    → IsIn x zs
    → IsIn (get_or xs i x) zs
get_or-IsIn i x [] zs sub here = here
get_or-IsIn ℕ.zero x (y ∷ xs) zs sub here = sub y (inl refl)
get_or-IsIn (ℕ.suc i) x (y ∷ xs) zs sub here = get_or-IsIn i x xs zs (λ a h. sub a (inr h)) here

choice-IsIn : {A : Type 0} (draw : ℕ) (x : A) (xs : List A) → IsIn (choice draw x xs) (x ∷ xs)
choice-IsIn draw x xs =
    get_or-IsIn (draw % length (x ∷ xs)) x (x ∷ xs) (x ∷ xs) (λ a h. h) (inl refl)

or_else-IsIn :
    {A : Type 0} (o : Option A) (d : A) (xs : List A)
    → ((a : A) → o ≡ some a → IsIn a xs)
    → IsIn d xs
    → IsIn (or_else o d) xs
or_else-IsIn none d xs h i = i
or_else-IsIn (some a) d xs h i = h a refl

module _ (fingerprint : String → ℕ) (seed_fn : Db → Call → Source × Start) where
  find_unscored-IsIn :
      (code : ℕ) (pool : List Inactive) (e : Inactive)
      → find_unscored fingerprint seed_fn code pool ≡ some e
      → IsIn e pool
  unfolding find_unscored
  find_unscored-IsIn code [] e h = absurd (cc)
  find_unscored-IsIn code (x ∷ pool) e h =
      elim (Bool-cases (not (is_some x.score) && fingerprint x.algorithm_code == code)) [
        | inl hit ↦ inl (ground (arith, rw hit at h))
        | inr miss ↦ inr (find_unscored-IsIn code pool e (rw miss at h))
      ]

  pick_wanted-IsIn :
      (wanted : Option ℕ) (draw : ℕ) (x : Inactive) (pool : List Inactive)
      → IsIn (pick_wanted fingerprint seed_fn wanted draw x pool) (x ∷ pool)
  unfolding pick_wanted
  pick_wanted-IsIn none draw x pool = choice-IsIn draw x pool
  pick_wanted-IsIn (some code) draw x pool =
      or_else-IsIn (find_unscored fingerprint seed_fn code (x ∷ pool)) (choice draw x pool)
        (x ∷ pool) (λ e h. find_unscored-IsIn code (x ∷ pool) e h) (choice-IsIn draw x pool)

  pick-IsIn :
      (db : Db) (challenge draw : ℕ) (x : Inactive) (pool : List Inactive)
      → IsIn (pick_inactive fingerprint seed_fn db challenge draw x pool) (x ∷ pool)
  unfolding pick_inactive
  pick-IsIn db challenge draw x pool = pick_wanted-IsIn (wanted_code db challenge) draw x pool

-- What the launch may do to the pool: nothing on a fresh start; on an adoption, consume the entry.
pub data Launched (call : Call) (db : Db) (pool : List Inactive) (r : Launch × Db) : Type 0 where
  fresh :
      r.1.inactive_algorithms ≡ db.inactive_algorithms
      → r.0.adopted_score ≡ none
      → (start : Start) → r.0.seed_start ≡ some start
      → Launched call db pool r
  adopted :
      (e : Inactive) (reason : ResetReason)
      → IsIn e pool
      → r.1.inactive_algorithms ≡ delete (λ row. row.id == e.id) db.inactive_algorithms
      → r.0 ≡ adopted_launch call reason e
      → Launched call db pool r

pool-join :
    (db : Db) (id : Option ℕ) → (join_trajectory db id).inactive_algorithms ≡ db.inactive_algorithms
unfolding reactivate_trajectory increment_trajectory_agents
pool-join db none = refl
pool-join db (some id) = refl

adopt-Launched :
    (call : Call) (db : Db) (reason : ResetReason) (pool : List Inactive) (e : Inactive)
    → IsIn e pool
    → Launched call db pool (adopt call db reason e)
unfolding adopt remove_inactive
adopt-Launched call db reason pool e h =
    adopted e reason h (pool-join (remove_inactive db e.id) e.trajectory_id) refl

pub launch-Launched :
    (fingerprint : String → ℕ) (seed_fn : Db → Call → Source × Start) (call : Call) (db : Db)
    (reason : ResetReason) (pool : List Inactive)
    → Launched call db pool (launch fingerprint seed_fn call db reason pool)
unfolding launch fresh_launch
launch-Launched fingerprint seed_fn call db reason [] = fresh refl refl (seed_fn db call).1 refl
launch-Launched fingerprint seed_fn call db reason (x ∷ pool) =
    elim (Bool-cases (go_fresh (x ∷ pool) (trajectory_counts db call.challenge))) [
      | inl e ↦ rw e (fresh refl refl (seed_fn db call).1 refl)
      | inr e ↦ rw e (
          adopt-Launched call db reason (x ∷ pool) _
            (pick-IsIn fingerprint seed_fn db call.challenge call.draw x pool))
    ]
