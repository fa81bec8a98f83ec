-- ===== src/Shards/Loops.antt =====
-- The while loop of a track and the for loop over the tracks: they place every instance, in order.
use tig_swarm_demo.Prelude.{
  ℕ, zero, suc, ◌+◌, ◌-◌, ◌≤◌, ◌<◌, ◌≡◌, refl, sym, ap, subst, ◌∙◌, String, List, [], ◌∷◌, ◌++◌,
  arith, Option, some, true, false, Bool-cases, inl, inr, ltb,
}
use tig_swarm_demo.Shards.Plan.{
  Filling, total_count, next_shard, slice_size, take_slice, fill_unit, fill_units,
}
use tig_swarm_demo.Shards.Windows.{window, units_window, append_assoc, append_nil, window_split}
use tig_swarm_demo.Shards.Filled.{Fits, next_shard-Fits, take_slice-Fits}

-- a result of a loop that fits
abbrev pub Filled : List ℕ → List (String × ℕ) → ℕ → Option Filling → Type 0
Filled sizes placed left result = (f : Filling) × (result ≡ some f) × Fits sizes placed left f

-- the window from `at` on, with its first part placed
rest_of :
    (key : String) (placed : List (String × ℕ)) (at n count : ℕ)
    → n ≤ count - at
    → (placed ++ window key at n) ++ window key (at + n) (count - (at + n))
      ≡ placed ++ window key at (count - at)
rest_of key placed at n count few =
    append_assoc placed (window key at n) (window key (at + n) (count - (at + n)))
    ∙ ap (λ xs. placed ++ xs)
        (sym (window_split key at n (count - (at + n))) ∙ ap (window key at) whole)
  where
    whole : n + (count - (at + n)) ≡ count - at
    whole = omega (arith, few)

nothing_left :
    (sizes : List ℕ) (key : String) (at count : ℕ) (placed : List (String × ℕ)) (left : ℕ)
    (f : Filling)
    → ltb at count ≡ false
    → Fits sizes placed left f
    → Fits sizes (placed ++ window key at (count - at)) (left - (count - at)) f
nothing_left sizes key at count placed left f over v =
    subst (λ n. Fits sizes (placed ++ window key at n) (left - n) f) none_more
      (subst (λ xs. Fits sizes xs (left - 0) f) (sym (append_nil placed))
        (subst (λ n. Fits sizes placed n f) same v))
  where
    none_more : 0 ≡ count - at
    none_more = ground (arith, over)

    same : left ≡ left - 0
    same = omega arith

fill_unit-step :
    (fuel : ℕ) (sizes : List ℕ) (key : String) (at count : ℕ) (f g : Filling)
    → ltb at count ≡ true
    → next_shard sizes f ≡ some g
    → fill_unit (suc fuel) sizes key at count f
      ≡ fill_unit fuel sizes key (at + slice_size at count g) count (take_slice key at count g)
unfolding fill_unit
fill_unit-step fuel sizes key at count f g under turn = rw (fill_unit, under, turn) refl

fill_units-step :
    (sizes : List ℕ) (key : String) (count : ℕ) (units : List (String × ℕ)) (f g : Filling)
    → fill_unit count sizes key 0 count f ≡ some g
    → fill_units sizes ((key, count) ∷ units) f ≡ fill_units sizes units g
unfolding fill_units
fill_units-step sizes key count units f g filled = rw (fill_units, filled) refl

fill_unit-Filled :
    (fuel : ℕ) (sizes : List ℕ) (key : String) (at count : ℕ) (placed : List (String × ℕ))
    (left : ℕ) (f : Filling)
    → count - at ≤ fuel
    → count - at ≤ left
    → Fits sizes placed left f
    → Filled sizes
        (placed ++ window key at (count - at))
        (left - (count - at))
        (fill_unit fuel sizes key at count f)
unfolding fill_unit
fill_unit-Filled zero sizes key at count placed left f fueled enough v =
    let over : ltb at count ≡ false = ground (arith, fueled) in
    (f, rw over refl, nothing_left sizes key at count placed left f over v)
fill_unit-Filled (suc fuel) sizes key at count placed left f fueled enough v =
    elim (Bool-cases (ltb at count)) [
      | inr over ↦
          (f, rw (fill_unit, over) refl, nothing_left sizes key at count placed left f over v)
      | inl under ↦
          let more : at < count = ground (arith, under) in
          let (g, turn, fits, open_shard) =
            next_shard-Fits sizes placed left f v (omega (arith, more, enough)) in
          let n = slice_size at count g in
          let taken =
            take_slice-Fits sizes placed left g key at count fits open_shard more enough in
          let (h, filled, done) =
            fill_unit-Filled fuel sizes key (at + n) count (placed ++ window key at n) (left - n)
              (take_slice key at count g) (omega (arith, fueled, more, open_shard))
              (omega (arith, enough)) taken in
          (
            h,
            fill_unit-step fuel sizes key at count f g under turn ∙ filled,
            subst (λ xs. Fits sizes xs (left - (count - at)) h)
                (rest_of key placed at n count (omega arith))
                (subst
                  (λ k.
                    Fits sizes
                      ((placed ++ window key at n) ++ window key (at + n) (count - (at + n))) k h)
                  (omega (arith, more, enough)) done),
          )
    ]

pub fill_units-Filled :
    (sizes : List ℕ) (units : List (String × ℕ)) (placed : List (String × ℕ)) (left : ℕ)
    (f : Filling)
    → total_count units ≤ left
    → Fits sizes placed left f
    → Filled sizes
        (placed ++ units_window units)
        (left - total_count units)
        (fill_units sizes units f)
unfolding fill_units total_count
fill_units-Filled sizes [] placed left f enough v = (
  f,
  refl,
  subst (λ xs. Fits sizes xs (left - 0) f) (sym (append_nil placed))
      (subst (λ n. Fits sizes placed n f) (omega arith) v),
)
fill_units-Filled sizes ((key, count) ∷ units) placed left f enough v =
    let (g, filled, fits) =
      fill_unit-Filled count sizes key 0 count placed left f (omega arith) (omega (arith, enough))
        v in
    let fits' : Fits sizes (placed ++ window key 0 count) (left - count) g =
      subst (λ n. Fits sizes (placed ++ window key 0 n) (left - n) g) (omega arith) fits in
    let (h, done, all) =
      fill_units-Filled sizes units (placed ++ window key 0 count) (left - count) g
        (omega (arith, enough)) fits' in
    (
      h,
      fill_units-step sizes key count units f g filled ∙ done,
      subst (λ xs. Fits sizes xs (left - (count + total_count units)) h)
          (append_assoc placed (window key 0 count) (units_window units))
          (subst (λ n. Fits sizes ((placed ++ window key 0 count) ++ units_window units) n h)
            (omega (arith, enough)) all),
    )
