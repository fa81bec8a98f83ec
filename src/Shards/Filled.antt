-- ===== src/Shards/Filled.antt =====
-- The loops of the plan: what they have placed so far, and that there is room for what is left.
use tig_swarm_demo.Prelude.{
  ℕ, suc, ◌+◌, ◌-◌, ◌≤◌, ◌<◌, ◌≡◌, refl, sym, ap, ◌∙◌, String, List, [], ◌∷◌, ◌++◌, arith, map,
  some, Bool-cases, inl, inr, All, ◌==◌, length, get_elem?,
}
use tig_swarm_demo.Shards.Plan.{Slice, Filling, next_shard, slice_size, take_slice}
use tig_swarm_demo.Shards.Windows.{
  window, slices_window, shards_window, shard_size, append_assoc, append_nil, map-append,
  slices_window-append, shards_window-append, shard_size-append,
}
use tig_swarm_demo.Shards.Sizes.{sum}

-- The shards so far have the first sizes, and hold the instances `placed`; what the current shard has
-- left and the later sizes make up `left`.
pub record Fits (sizes : List ℕ) (placed : List (String × ℕ)) (left : ℕ) (f : Filling)
    : Type 0 where
  pub later : List ℕ
  pub split : sizes ≡ map shard_size f.shards ++ (f.cap ∷ later)
  pub used : shard_size f.cur ≡ f.cur_used
  pub within : f.cur_used ≤ f.cap
  pub holds : shards_window f.shards ++ slices_window f.cur ≡ placed
  pub room : (f.cap - f.cur_used) + sum later ≡ left
  pub positive : All (λ s. 0 < s) later × (0 < f.cap)

-- The size after the first ones and the current one.
lookup :
    (xs : List (List Slice)) (c d : ℕ) (later : List ℕ)
    → get_elem? (map shard_size xs ++ (c ∷ d ∷ later)) (length xs + 1) ≡ some d
lookup [] c d later = refl
lookup (x ∷ xs) c d later =
    ap (get_elem? (shard_size x ∷ (map shard_size xs ++ (c ∷ d ∷ later)))) (suc_left (length xs))
    ∙ lookup xs c d later
  where
    suc_left : (n : ℕ) → suc n + 1 ≡ suc (n + 1)
    suc_left n = omega arith

-- the state behind a full shard
abbrev turned : Filling → ℕ → Filling
turned f c = record { shards = f.shards ++ f.cur ∷ []; cur = []; cur_used = 0; cap = c }

turned-Fits :
    (sizes : List ℕ) (placed : List (String × ℕ)) (left : ℕ) (f : Filling) (d : ℕ) (later : List ℕ)
    → sizes ≡ map shard_size f.shards ++ (f.cap ∷ d ∷ later)
    → shard_size f.cur ≡ f.cap
    → shards_window f.shards ++ slices_window f.cur ≡ placed
    → d + sum later ≡ left
    → All (λ s. 0 < s) (d ∷ later)
    → Fits sizes placed left (turned f d)
turned-Fits sizes placed left f d later split full holds room positive = record {
  later = later;
  split =
      split
      ∙ ap (λ c. map shard_size f.shards ++ (c ∷ d ∷ later)) (sym full)
      ∙ sym (append_assoc (map shard_size f.shards) (shard_size f.cur ∷ []) (d ∷ later))
      ∙ ap (λ xs. xs ++ (d ∷ later)) (sym (map-append shard_size f.shards (f.cur ∷ [])));
  used = refl;
  within = omega arith;
  holds =
      append_nil (shards_window (f.shards ++ f.cur ∷ []))
      ∙ shards_window-append f.shards (f.cur ∷ [])
      ∙ ap (λ xs. shards_window f.shards ++ xs) (append_nil (slices_window f.cur))
      ∙ holds;
  room = omega (arith, room);
  positive = (positive.1, positive.0);
}

module _ (sizes : List ℕ) (placed : List (String × ℕ)) (left : ℕ) (f : Filling) where
  -- A full shard is followed by another size as long as instances are left.
  full-Fits :
      (later : List ℕ)
      → sizes ≡ map shard_size f.shards ++ (f.cap ∷ later)
      → shard_size f.cur ≡ f.cap
      → shards_window f.shards ++ slices_window f.cur ≡ placed
      → sum later ≡ left
      → All (λ s. 0 < s) later
      → 0 < left
      → (c : ℕ) × (get_elem? sizes (length f.shards + 1) ≡ some c)
        × Fits sizes placed left (turned f c)
        × (0 < c)
  full-Fits [] split full holds room positive some_left = absurd (omega (arith, room, some_left))
  full-Fits (d ∷ later) split full holds room positive some_left = (
    d,
    ap (λ xs. get_elem? xs (length f.shards + 1)) split ∙ lookup f.shards f.cap d later,
    turned-Fits sizes placed left f d later split full holds room positive,
    positive.0,
  )

  pub next_shard-Fits :
      Fits sizes placed left f
      → 0 < left
      → (g : Filling) × (next_shard sizes f ≡ some g)
        × Fits sizes placed left g
        × (g.cur_used < g.cap)
  unfolding next_shard
  next_shard-Fits v some_left = elim (Bool-cases (f.cur_used == f.cap)) [
    | inr open_shard ↦ (f, rw open_shard refl, v, (let w = v.within in ground (arith, open_shard)))
    | inl full ↦
        let same : f.cur_used ≡ f.cap = ground (arith, full) in
        let r = v.room in
        let (c, found, fits, some_c) =
          full-Fits v.later v.split (v.used ∙ same) v.holds (omega (arith, r, same)) v.positive.0
            some_left in
        (turned f c, rw (full, found) refl, fits, some_c)
  ]

  pub take_slice-Fits :
      (key : String) (at count : ℕ)
      → Fits sizes placed left f
      → f.cur_used < f.cap
      → at < count
      → count - at ≤ left
      → Fits sizes
          (placed ++ window key at (slice_size at count f))
          (left - slice_size at count f)
          (take_slice key at count f)
  unfolding take_slice
  take_slice-Fits key at count v open_shard more enough =
      let n = slice_size at count f in
      let slice : Slice = record { track_key = key; start = at; count = n } in
      let w = v.within in
      let u = v.used in
      let r = v.room in
      let size = shard_size-append f.cur (slice ∷ []) in
      record {
        later = v.later;
        split = v.split;
        used = omega (arith, size, u);
        within = omega (arith, w);
        holds =
            ap (λ xs. shards_window f.shards ++ xs)
              (slices_window-append f.cur (slice ∷ [])
                ∙ ap (λ xs. slices_window f.cur ++ xs) (append_nil (window key at n)))
            ∙ sym (append_assoc (shards_window f.shards) (slices_window f.cur) (window key at n))
            ∙ ap (λ xs. xs ++ window key at n) v.holds;
        room = omega (arith, r, w, open_shard);
        positive = v.positive;
      }
