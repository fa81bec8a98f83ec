-- ===== src/Shards/Sizes.antt =====
-- The sizes of the shards.
use native.Mathlib.Nat.{mod-lt, div-add-mod, mul-suc, suc-mul, add-mul, le-div_iff_mul-le}
use native.Mathlib.Numerals.{add-one}
use mathlib.Core.Option.{some-injective}
use tig_swarm_demo.Prelude.{
  ℕ, zero, suc, ◌+◌, ◌-◌, ◌*◌, ◌/◌, ◌%◌, ◌≤◌, ◌<◌, ◌≡◌, refl, ap, ◌∙◌, List, [], ◌∷◌, ◌++◌, arith,
  length, replicate, length-append, length-replicate, All, All-append, All-map, All-IsIn, IsIn, min,
  max, some, ◌==◌, false, Bool-cases, inl, inr, subst,
}
use tig_swarm_demo.Shards.Plan.{spread, balanced_sizes}

abbrev pub sum : List ℕ → ℕ
sum [] = 0
sum (x ∷ xs) = x + sum xs

sum-replicate : (n a : ℕ) → sum (replicate n a) ≡ n * a
sum-replicate zero a = omega arith
sum-replicate (suc n) a = omega (arith, sum-replicate n a, suc-mul n a)

sum-append : (xs ys : List ℕ) → sum (xs ++ ys) ≡ sum xs + sum ys
sum-append [] ys = omega arith
sum-append (x ∷ xs) ys = omega (arith, sum-append xs ys)

All-replicate : (P : ℕ → Type 0) (n a : ℕ) → P a → All P (replicate n a)
All-replicate P zero a p = tt
All-replicate P (suc n) a p = (p, All-replicate P n a p)

-- r machines with one instance more, and d without
spread_count : (r d q m total : ℕ) → r + d ≡ m → m * q + r ≡ total → r * (q + 1) + d * q ≡ total
spread_count r d q m total e h =
    let step : r * (q + 1) ≡ r * q + r = ap (λ x. r * x) (add-one q) ∙ mul-suc r q in
    omega (arith, step, add-mul r d q, ap (λ x. x * q) e, h)

module _ (total m : ℕ) (some_machine : 0 < m) where
  length-spread : length (spread total m) ≡ m
  unfolding spread
  length-spread =
      let few = mod-lt total some_machine in
      let both =
        length-append (replicate (total % m) (total / m + 1))
          (replicate (m - total % m) (total / m)) in
      let more = length-replicate (total % m) (total / m + 1) in
      let less = length-replicate (m - total % m) (total / m) in
      omega (arith, few, both, more, less)

  pub sum-spread : sum (spread total m) ≡ total
  unfolding spread
  sum-spread =
      let r = total % m in
      let q = total / m in
      let few = mod-lt total some_machine in
      sum-append (replicate r (q + 1)) (replicate (m - r) q)
      ∙ (let more = sum-replicate r (q + 1) in
          let less = sum-replicate (m - r) q in
          let counted =
            spread_count r (m - r) q m total (omega (arith, few)) (div-add-mod total m) in
          omega (arith, more, less, counted))

  All-spread : All (λ s. (total / m ≤ s) × (s ≤ total / m + 1)) (spread total m)
  unfolding spread
  All-spread =
      All-append (λ s. (total / m ≤ s) × (s ≤ total / m + 1))
        (replicate (total % m) (total / m + 1)) (replicate (m - total % m) (total / m))
        (All-replicate _ (total % m) (total / m + 1) (omega arith, omega arith))
        (All-replicate _ (m - total % m) (total / m) (omega arith, omega arith))

  spread-IsEven : (a b : ℕ) → IsIn a (spread total m) → IsIn b (spread total m) → a ≤ b + 1
  spread-IsEven a b here there =
      let (_, high) = All-IsIn _ (spread total m) All-spread here in
      let (low, _) = All-IsIn _ (spread total m) All-spread there in omega (arith, high, low)

-- With at least one instance, the sizes are computed: there are min(num_machines, total) of them, one
-- where num_machines is 0; they add up to the total, and no two of them differ by more than one.
pub balanced_sizes_lem :
    (total num_machines : ℕ)
    → 0 < total
    → (sizes : List ℕ) × (balanced_sizes total num_machines ≡ some sizes)
      × (length sizes ≡ min (max 1 num_machines) total)
      × (sum sizes ≡ total)
      × ((a b : ℕ) → IsIn a sizes → IsIn b sizes → a ≤ b + 1)
unfolding balanced_sizes
balanced_sizes_lem total num_machines h =
    let m = min (max 1 num_machines) total in
    let machine : 0 < m = omega (arith, h) in
    let some_m : (m == 0) ≡ false = ground (arith, machine) in
    (
      spread total m,
      rw some_m refl,
      length-spread total m machine,
      sum-spread total m machine,
      spread-IsEven total m machine,
    )

-- The sizes of a plan are positive: there are no more machines than instances.
pub balanced_sizes-positive :
    (total num_machines : ℕ) (sizes : List ℕ)
    → balanced_sizes total num_machines ≡ some sizes
    → All (λ s. 0 < s) sizes × (sum sizes ≡ total)
unfolding balanced_sizes
balanced_sizes-positive total num_machines sizes e =
    let m = min (max 1 num_machines) total in
    elim (Bool-cases (m == 0)) [
      | inl none_left ↦ absurd (cc (rw none_left at e))
      | inr machines ↦
          let machine : 0 < m = ground (arith, machines) in
          let is : spread total m ≡ sizes =
            some-injective (spread total m) sizes (rw machines at e) in
          let full : 1 ≤ total / m = (le-div_iff_mul-le machine).1 (omega arith) in
          subst (λ xs. All (λ s. 0 < s) xs × (sum xs ≡ total)) is
            (
              All-map _ (λ s. 0 < s) (spread total m) (λ s b. omega (arith, b.0, full))
                  (All-spread total m machine),
              sum-spread total m machine,
            )
    ]
