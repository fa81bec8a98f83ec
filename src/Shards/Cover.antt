-- ===== src/Shards/Cover.antt =====
-- The plan runs every instance exactly once, on shards of the balanced sizes.
use tig_swarm_demo.Prelude.{
  ℕ, ◌<◌, ◌≡◌, refl, sym, ap, subst, ◌∙◌, String, List, [], ◌∷◌, ◌++◌, arith, map, some, false, All,
  ◌==◌,
}
use tig_swarm_demo.Shards.Plan.{
  Slice, Filling, Count, instance_units, total_count, close_shards, balanced_sizes, plan_sizes,
  plan_shards,
}
use tig_swarm_demo.Shards.Windows.{
  slices_window, shards_window, units_window, shard_size, append_nil, map-append,
  shards_window-append,
}
use tig_swarm_demo.Shards.Sizes.{sum, balanced_sizes-positive, balanced_sizes_lem}
use tig_swarm_demo.Shards.Loops.{fill_units-Filled}
use tig_swarm_demo.Shards.Filled.{Fits}

close-open :
    (shards : List (List Slice)) (cur : List Slice)
    → 0 < shard_size cur
    → (elim cur [ [] ↦ shards | s ∷ slices ↦ shards ++ (s ∷ slices) ∷ [] ]) ≡ shards ++ cur ∷ []
close-open shards [] h = absurd (omega (arith, h))
close-open shards (s ∷ slices) h = refl

no_later : (later : List ℕ) → sum later ≡ 0 → All (λ s. 0 < s) later → later ≡ []
no_later [] h p = refl
no_later (x ∷ later) h p = absurd (let q = p.0 in omega (arith, h, q))

-- A plan of some sizes, for the instances `placed`.
pub record IsPlan (sizes : List ℕ) (placed : List (String × ℕ)) (shards : List (List Slice))
    : Type 0 where
  pub sized : map shard_size shards ≡ sizes
  pub covers : shards_window shards ≡ placed

Fits-IsPlan :
    (sizes : List ℕ) (placed : List (String × ℕ)) (f : Filling)
    → Fits sizes placed 0 f
    → IsPlan sizes placed (close_shards f)
unfolding close_shards
Fits-IsPlan sizes placed f v =
    let r = v.room in
    let w = v.within in
    let u = v.used in
    let p = v.positive.1 in
    let full : shard_size f.cur ≡ f.cap = omega (arith, r, w, u) in
    let last = no_later v.later (omega (arith, r)) v.positive.0 in
    let closed = close-open f.shards f.cur (omega (arith, full, p)) in
    record {
      sized =
          ap (map shard_size) closed
          ∙ map-append shard_size f.shards (f.cur ∷ [])
          ∙ ap (λ c. map shard_size f.shards ++ c ∷ []) full
          ∙ ap (λ xs. map shard_size f.shards ++ (f.cap ∷ xs)) (sym last)
          ∙ sym v.split;
      covers =
          ap shards_window closed
          ∙ shards_window-append f.shards (f.cur ∷ [])
          ∙ ap (λ xs. shards_window f.shards ++ xs) (append_nil (slices_window f.cur))
          ∙ v.holds;
    }

plan_sizes-IsPlan :
    (sizes : List ℕ) (units : List (String × ℕ))
    → All (λ s. 0 < s) sizes
    → sum sizes ≡ total_count units
    → 0 < total_count units
    → (shards : List (List Slice)) × (plan_sizes sizes units ≡ some shards)
      × IsPlan sizes (units_window units) shards
unfolding plan_sizes
plan_sizes-IsPlan [] units positive all more = absurd (omega (arith, all, more))
plan_sizes-IsPlan (cap ∷ sizes) units positive all more =
    let start : Filling = record { shards = []; cur = []; cur_used = 0; cap = cap } in
    let fits : Fits (cap ∷ sizes) [] (total_count units) start = record {
      later = sizes;
      split = refl;
      used = refl;
      within = omega arith;
      holds = refl;
      room = omega (arith, all);
      positive = (positive.1, positive.0);
    } in
    let (f, filled, end) =
      fill_units-Filled (cap ∷ sizes) units [] (total_count units) start (omega arith) fits in
    (
      close_shards f,
      rw (plan_sizes, filled) refl,
      Fits-IsPlan (cap ∷ sizes) (units_window units) f
          (subst (λ n. Fits (cap ∷ sizes) (units_window units) n f) (omega arith) end),
    )

-- A benchmark with an instance to run gets a plan: its shards have the balanced sizes, in order, and
-- together they hold every instance of every track exactly once, in the order of the unsharded run.
pub plan_covers_every_instance :
    (tracks : List (String × Count)) (num_machines : ℕ)
    → 0 < total_count (instance_units tracks)
    → (sizes : List ℕ) × (shards : List (List Slice)) × (balanced_sizes
          (total_count (instance_units tracks))
          num_machines
        ≡ some sizes)
      × (plan_shards tracks num_machines ≡ some shards)
      × (map shard_size shards ≡ sizes)
      × (shards_window shards ≡ units_window (instance_units tracks))
unfolding plan_shards
plan_covers_every_instance tracks num_machines more =
    let units = instance_units tracks in
    let (sizes, balanced, _, _, _) = balanced_sizes_lem (total_count units) num_machines more in
    let (positive, all) = balanced_sizes-positive (total_count units) num_machines sizes balanced in
    let (shards, planned, plan) = plan_sizes-IsPlan sizes units positive all more in
    let some_instance : (total_count units == 0) ≡ false = ground (arith, more) in
    (
      sizes,
      shards,
      balanced,
      rw (plan_shards, some_instance, balanced) planned,
      plan.sized,
      plan.covers,
    )
