-- ===== src/Iteration/SeedCounts.antt =====
-- Counting the rows that a sort, a deletion and an insertion leave.
use tig_swarm_demo.Prelude.{
  ℕ, zero, suc, ◌+◌, ◌≤◌, ◌<◌, ◌≡◌, refl, sym, ap, ◌∙◌, ◌⊎◌, inl, inr, Bool, true, some, List, [],
  ◌∷◌, ◌++◌, map, arith, length, get_elem?, Bool-cases, IsIn, select_all, delete,
}
use tig_swarm_demo.Db.Rows.{Seed}
use tig_swarm_demo.Db.Seeds.{sort_by_tag, insert_by_tag, tag_leb}

length-insert_by_tag :
    (s : Seed) (seeds : List Seed) → length (insert_by_tag s seeds) ≡ length seeds + 1
unfolding insert_by_tag
length-insert_by_tag s [] = refl
length-insert_by_tag s (x ∷ seeds) = elim (Bool-cases (tag_leb s x)) [
  | inl first ↦ rw first (omega arith)
  | inr later ↦ rw later (omega (arith, length-insert_by_tag s seeds))
]

pub length-sort_by_tag : (seeds : List Seed) → length (sort_by_tag seeds) ≡ length seeds
unfolding sort_by_tag
length-sort_by_tag [] = refl
length-sort_by_tag (s ∷ seeds) =
    omega (arith, length-insert_by_tag s (sort_by_tag seeds), length-sort_by_tag seeds)

IsIn-insert_by_tag :
    (a s : Seed) (seeds : List Seed) → IsIn a (insert_by_tag s seeds) → (a ≡ s) ⊎ IsIn a seeds
unfolding insert_by_tag
IsIn-insert_by_tag a s [] h = h
IsIn-insert_by_tag a s (x ∷ seeds) h = elim (Bool-cases (tag_leb s x)) [
  | inl first ↦ rw first at h
  | inr later ↦ deeper (IsIn-insert_by_tag a s seeds) (rw later at h)
]
  where
    deeper :
        (IsIn a (insert_by_tag s seeds) → (a ≡ s) ⊎ IsIn a seeds)
        → (a ≡ x) ⊎ IsIn a (insert_by_tag s seeds)
        → (a ≡ s) ⊎ ((a ≡ x) ⊎ IsIn a seeds)
    deeper again (inl e) = inr (inl e)
    deeper again (inr i) = elim (again i) [ inl e ↦ inl e | inr j ↦ inr (inr j) ]

pub IsIn-sort_by_tag : (a : Seed) (seeds : List Seed) → IsIn a (sort_by_tag seeds) → IsIn a seeds
unfolding sort_by_tag
IsIn-sort_by_tag a [] h = h
IsIn-sort_by_tag a (s ∷ seeds) h = elim (IsIn-insert_by_tag a s (sort_by_tag seeds) h) [
  | inl e ↦ inl e
  | inr i ↦ inr (IsIn-sort_by_tag a seeds i)
]

module _ {A : Type 0} where
  pub get_elem?-IsIn :
      (xs : List A) (i : ℕ) → i < length xs → (a : A) × (get_elem? xs i ≡ some a) × IsIn a xs
  get_elem?-IsIn [] i h = absurd (omega (arith, h))
  get_elem?-IsIn (x ∷ xs) zero h = (x, refl, inl refl)
  get_elem?-IsIn (x ∷ xs) (suc i) h =
      let (a, found, inside) = get_elem?-IsIn xs i (omega (arith, h)) in (a, found, inr inside)

  pub length-map : {B : Type 0} (f : A → B) (xs : List A) → length (map f xs) ≡ length xs
  length-map f [] = refl
  length-map f (x ∷ xs) = ap suc (length-map f xs)

  -- Fewer rows are selected from what a deletion leaves.
  count-delete :
      (p q : A → Bool) (rows : List A)
      → length (select_all p (delete q rows)) ≤ length (select_all p rows)
  unfolding select_all delete
  count-delete p q [] = omega arith
  count-delete p q (r ∷ rows) = ground (arith, count-delete p q rows)

  pub count-delete_one :
      (p q : A → Bool) (a : A) (rows : List A)
      → IsIn a rows
      → p a ≡ true
      → q a ≡ true
      → length (select_all p (delete q rows)) < length (select_all p rows)
  unfolding select_all delete
  count-delete_one p q a [] h e f = absurd h
  count-delete_one p q a (r ∷ rows) (inl same) e f =
      let here : p r ≡ true = ap p (sym same) ∙ e in
      let gone : q r ≡ true = ap q (sym same) ∙ f in
      rw (gone, here) (omega (arith, count-delete p q rows))
  count-delete_one p q a (r ∷ rows) (inr h) e f = ground (arith, count-delete_one p q a rows h e f)

  pub count-append :
      (p : A → Bool) (rows : List A) (a : A)
      → length (select_all p (rows ++ a ∷ [])) ≤ length (select_all p rows) + 1
  unfolding select_all
  count-append p [] a = ground arith
  count-append p (r ∷ rows) a = ground (arith, count-append p rows a)
