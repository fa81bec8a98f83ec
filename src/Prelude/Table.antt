-- ===== src/Prelude/Table.antt =====
-- A database table is the list of its rows, oldest first. The statements that server/db.py issues:
-- SELECT by a condition, UPDATE, DELETE, and INSERT ... ON CONFLICT DO UPDATE over all columns.
use mathlib.Core.Path.{◌≡◌, refl, subst, sym, ap, ◌∙◌}
use mathlib.Core.Bool.{Bool, true, false}
use mathlib.Core.List.{List, [], ◌∷◌, ◌++◌}
use mathlib.Core.Option.{Option, none, some}
use mathlib.Core.Logic.{inl, inr}
use native.Mathlib.Omega.{arith}
use tig_swarm_demo.Prelude.Tests.{if◌then◌else◌, map_option, Bool-cases, Option-cases}
use tig_swarm_demo.Prelude.Lists.{All, All-append, IsIn}

module _ {ℓ} {A : Type ℓ} where
  -- SELECT ... WHERE p, first row
  unfoldable pub select : (A → Bool) → List A → Option A
  select p [] = none
  select p (r ∷ rows) = if p r then some r else select p rows

  -- SELECT ... WHERE p, all rows
  unfoldable pub select_all : (A → Bool) → List A → List A
  select_all p [] = []
  select_all p (r ∷ rows) = let rest = select_all p rows in if p r then r ∷ rest else rest

  -- UPDATE ... SET f WHERE p
  unfoldable pub update : (A → Bool) → (A → A) → List A → List A
  update p f [] = []
  update p f (r ∷ rows) = (if p r then f r else r) ∷ update p f rows

  -- DELETE ... WHERE p
  unfoldable pub delete : (A → Bool) → List A → List A
  delete p [] = []
  delete p (r ∷ rows) = let rest = delete p rows in if p r then rest else r ∷ rest

module _ {ℓ} {A : Type ℓ} where
  -- INSERT new ON CONFLICT (p) DO UPDATE SET f
  unfoldable pub upsert : (A → Bool) → A → (A → A) → List A → List A
  upsert p new f rows = elim (select p rows) [ none ↦ rows ++ new ∷ [] | some _ ↦ update p f rows ]

  pub select-update :
      (p : A → Bool) (f : A → A) (rows : List A)
      → ((r : A) → p (f r) ≡ p r)
      → select p (update p f rows) ≡ map_option f (select p rows)
  unfolding select update
  select-update p f [] keep = refl
  select-update p f (r ∷ rows) keep = ground (arith, keep r, select-update p f rows keep)

  pub select-update_ne :
      (p q : A → Bool) (f : A → A) (rows : List A)
      → ((r : A) → q (f r) ≡ q r)
      → ((r : A) → p r ≡ true → q r ≡ false)
      → select q (update p f rows) ≡ select q rows
  unfolding select update
  select-update_ne p q f [] keep apart = refl
  select-update_ne p q f (r ∷ rows) keep apart =
      ground (arith, keep r, apart r, select-update_ne p q f rows keep apart)

  pub select-append :
      (p : A → Bool) (rows : List A) (new : A)
      → p new ≡ true
      → select p rows ≡ none
      → select p (rows ++ new ∷ []) ≡ some new
  unfolding select
  select-append p [] new h e = ground arith
  select-append p (r ∷ rows) new h e = ground (arith, select-append p rows new h)

  pub select-append_ne :
      (q : A → Bool) (rows : List A) (new : A)
      → q new ≡ false
      → select q (rows ++ new ∷ []) ≡ select q rows
  unfolding select
  select-append_ne q [] new h = ground arith
  select-append_ne q (r ∷ rows) new h = ground (arith, select-append_ne q rows new h)

  pub select-delete : (p : A → Bool) (rows : List A) → select p (delete p rows) ≡ none
  unfolding select delete
  select-delete p [] = refl
  select-delete p (r ∷ rows) = ground (arith, select-delete p rows)

  pub select-delete_ne :
      (p q : A → Bool) (rows : List A)
      → ((r : A) → p r ≡ true → q r ≡ false)
      → select q (delete p rows) ≡ select q rows
  unfolding select delete
  select-delete_ne p q [] apart = refl
  select-delete_ne p q (r ∷ rows) apart = ground (arith, apart r, select-delete_ne p q rows apart)

  pub select_sound : (p : A → Bool) (rows : List A) {r : A} → select p rows ≡ some r → p r ≡ true
  unfolding select
  select_sound p [] h = cc
  select_sound p (x ∷ rows) {r} h = ground (arith, select_sound p rows {r = r})

  select-replace :
      (p : A → Bool) (new : A) (rows : List A) {r : A}
      → p new ≡ true
      → select p rows ≡ some r
      → select p (update p (λ _. new) rows) ≡ some new
  unfolding select update
  select-replace p new [] h e = cc
  select-replace p new (x ∷ rows) {r} h e = ground (arith, select-replace p new rows {r = r} h)

  pub select-upsert :
      (p : A → Bool) (new : A) (rows : List A)
      → p new ≡ true
      → select p (upsert p new (λ _. new) rows) ≡ some new
  unfolding upsert
  select-upsert p new rows h = elim (Option-cases (select p rows)) [
    | inl e ↦ rw (upsert, e) (select-append p rows new h e)
    | inr (r, e) ↦ rw (upsert, e) (select-replace p new rows h e)
  ]

  pub select-upsert-some :
      (p : A → Bool) (new : A) (f : A → A) (rows : List A) (r : A)
      → ((x : A) → p (f x) ≡ p x)
      → select p rows ≡ some r
      → select p (upsert p new f rows) ≡ some (f r)
  unfolding upsert
  select-upsert-some p new f rows r keep e =
      rw (upsert, e) (select-update p f rows keep ∙ ap (map_option f) e)

  pub select-upsert_ne :
      (p q : A → Bool) (new : A) (f : A → A) (rows : List A)
      → q new ≡ false
      → ((r : A) → q (f r) ≡ q r)
      → ((r : A) → p r ≡ true → q r ≡ false)
      → select q (upsert p new f rows) ≡ select q rows
  unfolding upsert
  select-upsert_ne p q new f rows h keep apart = elim (Option-cases (select p rows)) [
    | inl e ↦ rw (upsert, e) (select-append_ne q rows new h)
    | inr (r, e) ↦ rw (upsert, e) (select-update_ne p q f rows keep apart)
  ]

  -- A property of every row is kept by an update that keeps it, by a deletion, and by a selection.
  pub All-update {κ} :
      (P : A → Type κ) (p : A → Bool) (f : A → A) (rows : List A)
      → ((r : A) → P r → P (f r))
      → All P rows
      → All P (update p f rows)
  unfolding update
  All-update P p f [] keep h = tt
  All-update P p f (r ∷ rows) keep h = elim (Bool-cases (p r)) [
    | inl e ↦ rw e (keep r h.0, All-update P p f rows keep h.1)
    | inr e ↦ rw e (h.0, All-update P p f rows keep h.1)
  ]

  pub All-delete {κ} :
      (P : A → Type κ) (p : A → Bool) (rows : List A) → All P rows → All P (delete p rows)
  unfolding delete
  All-delete P p [] h = tt
  All-delete P p (r ∷ rows) h = elim (Bool-cases (p r)) [
    | inl e ↦ rw e (All-delete P p rows h.1)
    | inr e ↦ rw e (h.0, All-delete P p rows h.1)
  ]

  pub All-select_all {κ} :
      (P : A → Type κ) (p : A → Bool) (rows : List A) → All P rows → All P (select_all p rows)
  unfolding select_all
  All-select_all P p [] h = tt
  All-select_all P p (r ∷ rows) h = elim (Bool-cases (p r)) [
    | inl e ↦ rw e (h.0, All-select_all P p rows h.1)
    | inr e ↦ rw e (All-select_all P p rows h.1)
  ]

  pub All-upsert {κ} :
      (P : A → Type κ) (p : A → Bool) (new : A) (f : A → A) (rows : List A)
      → P new
      → ((r : A) → P r → P (f r))
      → All P rows
      → All P (upsert p new f rows)
  unfolding upsert
  All-upsert P p new f rows fits keep h = elim (Option-cases (select p rows)) [
    | inl e ↦ rw (upsert, e) (All-append P rows (new ∷ []) h (fits, tt))
    | inr (r, e) ↦ rw (upsert, e) (All-update P p f rows keep h)
  ]

  pub All-select {κ} :
      (P : A → Type κ) (p : A → Bool) (rows : List A) {r : A}
      → All P rows
      → select p rows ≡ some r
      → P r
  unfolding select
  All-select P p [] h e = absurd (cc)
  All-select P p (x ∷ rows) {r} h e = elim (Bool-cases (p x)) [
    | inl hit ↦ subst P (ground (arith, hit, e)) h.0
    | inr miss ↦ All-select P p rows {r = r} h.1 (rw miss at e)
  ]

module _ {A : Type 0} where
  IsIn-cons :
      (P : A → Type 0) (a r : A) (xs rows : List A)
      → (IsIn a xs → IsIn a rows × P a)
      → P r
      → IsIn a (r ∷ xs)
      → IsIn a (r ∷ rows) × P a
  IsIn-cons P a r xs rows ih p (inl e) = (inl e, subst P (sym e) p)
  IsIn-cons P a r xs rows ih p (inr i) = (inr (ih i).0, (ih i).1)

  pub IsIn-select_all :
      (p : A → Bool) (a : A) (rows : List A)
      → IsIn a (select_all p rows)
      → IsIn a rows × (p a ≡ true)
  unfolding select_all
  IsIn-select_all p a [] h = absurd h
  IsIn-select_all p a (r ∷ rows) h = elim (Bool-cases (p r)) [
    | inl e ↦ IsIn-cons (λ x. p x ≡ true) a r _ rows (IsIn-select_all p a rows) e (rw e at h)
    | inr e ↦ let (i, q) = IsIn-select_all p a rows (rw e at h) in (inr i, q)
  ]

  pub IsIn-delete :
      (p : A → Bool) (a : A) (rows : List A) → IsIn a (delete p rows) → IsIn a rows × (p a ≡ false)
  unfolding delete
  IsIn-delete p a [] h = absurd h
  IsIn-delete p a (r ∷ rows) h = elim (Bool-cases (p r)) [
    | inl e ↦ let (i, q) = IsIn-delete p a rows (rw e at h) in (inr i, q)
    | inr e ↦ IsIn-cons (λ x. p x ≡ false) a r _ rows (IsIn-delete p a rows) e (rw e at h)
  ]
