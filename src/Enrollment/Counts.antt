-- ===== src/Enrollment/Counts.antt =====
-- The agents counted over the store's rows (the sum in runner/service.py), and its writes.
use tig_swarm_demo.Prelude.{
  ◌+◌, ◌≤◌, ◌≡◌, refl, ap, inl, inr, Bool, List, [], ◌∷◌, ◌++◌, arith, Bool-cases, length,
  select_all, update, delete,
}
use tig_swarm_demo.Enrollment.{agents_of}
use tig_swarm_demo.Enrollment.Service.{Enrolment, count_agents}

pub count-append :
    (xs ys : List Enrolment) → count_agents (xs ++ ys) ≡ count_agents xs + count_agents ys
unfolding count_agents
count-append [] ys = omega arith
count-append (r ∷ xs) ys = omega (arith, count-append xs ys)

pub count-delete :
    (p : Enrolment → Bool) (rows : List Enrolment)
    → count_agents (delete p rows) ≤ count_agents rows
unfolding count_agents delete
count-delete p [] = omega arith
count-delete p (r ∷ rows) = ground (arith, count-delete p rows)

pub count-select-delete :
    (p q : Enrolment → Bool) (rows : List Enrolment)
    → count_agents (select_all q (delete p rows)) ≤ count_agents (select_all q rows)
unfolding count_agents select_all delete
count-select-delete p q [] = omega arith
count-select-delete p q (r ∷ rows) = ground (arith, count-select-delete p q rows)

pub count-select-delete_same :
    (p : Enrolment → Bool) (rows : List Enrolment) → count_agents (select_all p (delete p rows)) ≡ 0
unfolding count_agents select_all delete
count-select-delete_same p [] = refl
count-select-delete_same p (r ∷ rows) = ground (arith, count-select-delete_same p rows)

pub select_all-append :
    (p : Enrolment → Bool) (xs ys : List Enrolment)
    → select_all p (xs ++ ys) ≡ select_all p xs ++ select_all p ys
unfolding select_all
select_all-append p [] ys = refl
select_all-append p (r ∷ xs) ys = elim (Bool-cases (p r)) [
  | inl e ↦ rw (e, select_all-append p xs ys)
  | inr e ↦ rw (e, select_all-append p xs ys)
]

module _ (f : Enrolment → Enrolment)
    (keep : (r : Enrolment) → agents_of (f r).config ≡ agents_of r.config) where
  pub count-update :
      (p : Enrolment → Bool) (rows : List Enrolment)
      → count_agents (update p f rows) ≡ count_agents rows
  unfolding count_agents update
  count-update p [] = refl
  count-update p (r ∷ rows) = elim (Bool-cases (p r)) [
    | inl e ↦ rw (e, keep r, count-update p rows)
    | inr e ↦ rw (e, count-update p rows)
  ]

  pub select_all-update :
      (p q : Enrolment → Bool) (rows : List Enrolment)
      → ((r : Enrolment) → q (f r) ≡ q r)
      → count_agents (select_all q (update p f rows)) ≡ count_agents (select_all q rows)
  unfolding count_agents update select_all
  select_all-update p q [] same = refl
  select_all-update p q (r ∷ rows) same =
      ground (arith, same r, ap length (keep r), select_all-update p q rows same)
