-- ===== src/Shards/Tests.antt =====
-- The plans of small benchmarks.
use tig_swarm_demo.Prelude.{ℕ, ◌≡◌, refl, pos, negsuc, String, some, List, [], ◌∷◌, arith, map}
use tig_swarm_demo.Shards.Plan.{
  Count, whole, other, Slice, instance_units, total_count, balanced_sizes, plan_shards,
}
use tig_swarm_demo.Shards.Windows.{shard_size, shards_window, units_window}
use tig_swarm_demo.Shards.Cover.{plan_covers_every_instance}

-- with keys that are no tracks
abbrev two_tracks : List (String × Count)
two_tracks =
    ("seed", whole (pos 5))
    ∷ ("a", whole (pos 10))
    ∷ ("x", other)
    ∷ ("b", whole (pos 8))
    ∷ ("y", whole (negsuc 2))
    ∷ []

-- The docstring's example.
three_machines :
    plan_shards two_tracks 3
    ≡ some (
        (record { track_key = "a"; start = 0; count = 6 } ∷ [])
        ∷ (record { track_key = "a"; start = 6; count = 4 }
            ∷ record { track_key = "b"; start = 0; count = 2 }
            ∷ [])
        ∷ (record { track_key = "b"; start = 2; count = 6 } ∷ [])
        ∷ [])
unfolding plan_shards
three_machines = refl

plan_covers_every_instance_example :
    (sizes : List ℕ) × (shards : List (List Slice)) × (balanced_sizes 18 3 ≡ some sizes)
    × (plan_shards two_tracks 3 ≡ some shards)
    × (map shard_size shards ≡ sizes)
    × (shards_window shards ≡ units_window (instance_units two_tracks))
unfolding instance_units total_count
plan_covers_every_instance_example = plan_covers_every_instance two_tracks 3 (omega arith)
