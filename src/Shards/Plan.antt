-- ===== src/Shards/Plan.antt =====
-- _instance_units, _balanced_sizes and _plan_shards (scripts/c3_compute.py).
use tig_swarm_demo.Prelude.{
  ℕ, zero, suc, ◌+◌, ◌-◌, ◌/◌, ◌%◌, ℤ, pos, negsuc, String, str_eq, true, false, Option, none, some,
  List, [], ◌∷◌, ◌++◌, ◌==◌, ltb, if◌then◌else◌, length, replicate, get_elem?, min, max,
}

-- a value of the track map: an `int`, or anything else
pub data Count : Type 0 where
  whole : ℤ → Count
  other : Count

-- `isinstance(v, int) and v > 0`
unfoldable pub positive : Count → Option ℕ
positive (whole (pos n)) = if ltb 0 n then some n else none
positive (whole (negsuc n)) = none
positive other = none

-- _instance_units
unfoldable pub instance_units : List (String × Count) → List (String × ℕ)
unfolding positive
instance_units [] = []
instance_units ((k, v) ∷ tracks) =
    let units = instance_units tracks in
    if str_eq k "seed"
    then units
    else (elim (positive v) [ none ↦ units | some n ↦ (k, n) ∷ units ])

-- `sum(count for _, count in units)`
unfoldable pub total_count : List (String × ℕ) → ℕ
total_count [] = 0
total_count (u ∷ units) = u.1 + total_count units

-- the list that _balanced_sizes returns for `m` machines
unfoldable pub spread : ℕ → ℕ → List ℕ
spread total m = replicate (total % m) (total / m + 1) ++ replicate (m - total % m) (total / m)

-- _balanced_sizes; none where divmod raises. A negative number of machines counts as 0.
unfoldable pub balanced_sizes : ℕ → ℕ → Option (List ℕ)
unfolding spread
balanced_sizes total num_machines =
    let m = min (max 1 num_machines) total in if m == 0 then none else some (spread total m)

-- {"track_key", "start", "count"}
pub record Slice : Type 0 where
  pub track_key : String
  pub start : ℕ
  pub count : ℕ

-- the local variables of _plan_shards
pub record Filling : Type 0 where
  pub shards : List (List Slice)
  pub cur : List Slice
  pub cur_used : ℕ
  pub cap : ℕ

-- `if cur_used == cap`; none where sizes[len(shards)] raises
unfoldable pub next_shard : List ℕ → Filling → Option Filling
next_shard sizes f =
    if f.cur_used == f.cap
    then (elim (get_elem? sizes (length f.shards + 1)) [
      | none ↦ none
      | some c ↦ some (record { shards = f.shards ++ f.cur ∷ []; cur = []; cur_used = 0; cap = c })
    ])
    else some f

-- `min(cap - cur_used, count - pos)`, where neither difference is negative
abbrev pub slice_size : ℕ → ℕ → Filling → ℕ
slice_size at count f = min (f.cap - f.cur_used) (count - at)

-- the rest of the loop's body
unfoldable pub take_slice : String → ℕ → ℕ → Filling → Filling
take_slice key at count f = record f {
  cur = f.cur ++ record { track_key = key; start = at; count = slice_size at count f } ∷ [];
  cur_used = f.cur_used + slice_size at count f;
}

-- `while pos < count`, on fuel; none for an exception, and where the fuel runs out
unfoldable pub fill_unit : ℕ → List ℕ → String → ℕ → ℕ → Filling → Option Filling
unfolding next_shard take_slice
fill_unit zero sizes key at count f = if ltb at count then none else some f
fill_unit (suc fuel) sizes key at count f = elim (ltb at count) [
  | false ↦ some f
  | true ↦ elim (next_shard sizes f) [
    | none ↦ none
    | some g ↦
        fill_unit fuel sizes key (at + slice_size at count g) count (take_slice key at count g)
  ]
]

-- `for track_key, count in units`: each round of the loop takes an instance, so the fuel is the count
unfoldable pub fill_units : List ℕ → List (String × ℕ) → Filling → Option Filling
unfolding fill_unit
fill_units sizes [] f = some f
fill_units sizes ((key, count) ∷ units) f = elim (fill_unit count sizes key 0 count f) [
  | none ↦ none
  | some g ↦ fill_units sizes units g
]

-- `if cur: shards.append(cur)`
unfoldable pub close_shards : Filling → List (List Slice)
close_shards f = elim f.cur [ [] ↦ f.shards | s ∷ slices ↦ f.shards ++ (s ∷ slices) ∷ [] ]

-- from `sizes` on; none where sizes[0] raises
unfoldable pub plan_sizes : List ℕ → List (String × ℕ) → Option (List (List Slice))
unfolding fill_units close_shards
plan_sizes [] units = none
plan_sizes (cap ∷ sizes) units =
    elim (fill_units (cap ∷ sizes) units
      (record { shards = []; cur = []; cur_used = 0; cap = cap })) [
        | none ↦ none
        | some f ↦ some (close_shards f)
      ]

-- _plan_shards
unfoldable pub plan_shards : List (String × Count) → ℕ → Option (List (List Slice))
unfolding instance_units total_count balanced_sizes plan_sizes
plan_shards tracks num_machines =
    let units = instance_units tracks in
    if total_count units == 0
    then some []
    else (elim (balanced_sizes (total_count units) num_machines) [
      | none ↦ none
      | some sizes ↦ plan_sizes sizes units
    ])
