-- ===== src/Db/Seeds.antt =====
-- seed_pool, the launch points of fresh trajectories (server/db.py).
use Prim.Native.Nat.{Ordering}
use Prim.Native.String.{compare}
use tig_swarm_demo.Prelude.{
  ℕ, ◌+◌, Bool, true, false, if◌then◌else◌, ◌&&◌, List, [], ◌∷◌, ◌++◌, ◌==◌, select_all, delete,
}
use tig_swarm_demo.Db.Rows.{Seed, Db}

-- insert_seed: `seed` holds the arguments, and the row gets the next id
unfoldable pub insert_seed : Db → Seed → Db
insert_seed db seed = record db {
  seed_pool = db.seed_pool ++ record seed { id = db.next_seed } ∷ [];
  next_seed = db.next_seed + 1;
}

abbrev pub tag_leb : Seed → Seed → Bool
tag_leb a b = elim (compare a.strategy_tag b.strategy_tag) [
  | Ordering.lt ↦ true
  | Ordering.eq ↦ true
  | Ordering.gt ↦ false
]

unfoldable pub insert_by_tag : Seed → List Seed → List Seed
insert_by_tag s [] = s ∷ []
insert_by_tag s (x ∷ xs) =
    let rest = insert_by_tag s xs in if tag_leb s x then s ∷ (x ∷ xs) else x ∷ rest

-- ORDER BY strategy_tag, id: a stable sort by the tag, for the table is in the order of its ids
unfoldable pub sort_by_tag : List Seed → List Seed
sort_by_tag [] = []
sort_by_tag (s ∷ seeds) = insert_by_tag s (sort_by_tag seeds)

-- list_seeds, of the feasible seeds only
unfoldable pub list_seeds : Db → ℕ → List Seed
unfolding sort_by_tag insert_by_tag
list_seeds db challenge =
    sort_by_tag (select_all (λ s. s.challenge == challenge && s.feasible) db.seed_pool)

-- evict_seed
unfoldable pub evict_seed : Db → ℕ → Db
evict_seed db seed_id = record db { seed_pool = delete (λ s. s.id == seed_id) db.seed_pool }
