-- ===== src/Shards/Windows.antt =====
-- The instances that slices and shards hold.
use tig_swarm_demo.Prelude.{
  ℕ, zero, suc, ◌+◌, ◌≡◌, refl, sym, ap, ◌∙◌, String, List, [], ◌∷◌, ◌++◌, arith, map,
}
use tig_swarm_demo.Shards.Plan.{Slice}

-- the instances of one track from index `at` on
abbrev pub window : String → ℕ → ℕ → List (String × ℕ)
window key at zero = []
window key at (suc n) = (key, at) ∷ window key (at + 1) n

abbrev pub slices_window : List Slice → List (String × ℕ)
slices_window [] = []
slices_window (s ∷ slices) = window s.track_key s.start s.count ++ slices_window slices

abbrev pub shards_window : List (List Slice) → List (String × ℕ)
shards_window [] = []
shards_window (shard ∷ shards) = slices_window shard ++ shards_window shards

-- every instance of a benchmark, in order
abbrev pub units_window : List (String × ℕ) → List (String × ℕ)
units_window [] = []
units_window (u ∷ units) = window u.0 0 u.1 ++ units_window units

-- how many instances a shard runs
abbrev pub shard_size : List Slice → ℕ
shard_size [] = 0
shard_size (s ∷ slices) = s.count + shard_size slices

module _ {A : Type 0} where
  pub append_assoc : (xs ys zs : List A) → (xs ++ ys) ++ zs ≡ xs ++ (ys ++ zs)
  append_assoc [] ys zs = refl
  append_assoc (x ∷ xs) ys zs = ap (λ r. x ∷ r) (append_assoc xs ys zs)

  pub append_nil : (xs : List A) → xs ++ [] ≡ xs
  append_nil [] = refl
  append_nil (x ∷ xs) = ap (λ r. x ∷ r) (append_nil xs)

  pub map-append :
      {B : Type 0} (f : A → B) (xs ys : List A) → map f (xs ++ ys) ≡ map f xs ++ map f ys
  map-append f [] ys = refl
  map-append f (x ∷ xs) ys = ap (λ r. f x ∷ r) (map-append f xs ys)

zero_left : (n : ℕ) → 0 + n ≡ n
zero_left n = omega arith

zero_right : (n : ℕ) → n ≡ n + 0
zero_right n = omega arith

suc_left : (m n : ℕ) → suc m + n ≡ suc (m + n)
suc_left m n = omega arith

pub window_split :
    (key : String) (at m n : ℕ) → window key at (m + n) ≡ window key at m ++ window key (at + m) n
window_split key at zero n =
    ap (window key at) (zero_left n) ∙ ap (λ x. window key x n) (zero_right at)
window_split key at (suc m) n =
    ap (window key at) (suc_left m n)
    ∙ ap (λ r. (key, at) ∷ r)
        (window_split key (at + 1) m n
          ∙ ap (λ x. window key (at + 1) m ++ window key x n) (shift at m))
  where
    shift : (a b : ℕ) → a + 1 + b ≡ a + suc b
    shift a b = omega arith

pub slices_window-append :
    (xs ys : List Slice) → slices_window (xs ++ ys) ≡ slices_window xs ++ slices_window ys
slices_window-append [] ys = refl
slices_window-append (s ∷ xs) ys =
    ap (λ r. window s.track_key s.start s.count ++ r) (slices_window-append xs ys)
    ∙ sym (append_assoc (window s.track_key s.start s.count) (slices_window xs) (slices_window ys))

pub shards_window-append :
    (xs ys : List (List Slice)) → shards_window (xs ++ ys) ≡ shards_window xs ++ shards_window ys
shards_window-append [] ys = refl
shards_window-append (s ∷ xs) ys =
    ap (λ r. slices_window s ++ r) (shards_window-append xs ys)
    ∙ sym (append_assoc (slices_window s) (shards_window xs) (shards_window ys))

pub shard_size-append : (xs ys : List Slice) → shard_size (xs ++ ys) ≡ shard_size xs + shard_size ys
shard_size-append [] ys = omega arith
shard_size-append (s ∷ xs) ys = omega (arith, shard_size-append xs ys)
