-- ===== src/SearchReplace/Spans.antt =====
-- The exact spans of a needle are its occurrences, each once, in order (scripts/search_replace.py).
use tig_swarm_demo.Prelude.{
  ℕ, ◌+◌, ◌≤◌, ◌<◌, ◌≡◌, refl, subst, ap, inl, inr, Bool, true, false, some, List, [], ◌∷◌, ◌++◌,
  arith, IsIn, eqb_refl, is_some, if◌then◌else◌, length, Bool-cases, Option-cases,
}
use tig_swarm_demo.SearchReplace.Text.{Text, after_prefix}
use tig_swarm_demo.SearchReplace.Apply.{exact_spans}

pub after_prefix_sound : (s t r : Text) → after_prefix s t ≡ some r → t ≡ s ++ r
unfolding after_prefix
after_prefix_sound [] t r h = ground (arith, h)
after_prefix_sound (a ∷ s) [] r h = absurd (cc (h))
after_prefix_sound (a ∷ s) (b ∷ t) r h = ground (arith, after_prefix_sound s t r)

pub after_prefix-append : (s r : Text) → after_prefix s (s ++ r) ≡ some r
unfolding after_prefix
after_prefix-append [] r = refl
after_prefix-append (a ∷ s) r = rw (after_prefix, eqb_refl a) (after_prefix-append s r)

found_prefix : (t s r : Text) → t ≡ s ++ r → is_some (after_prefix s t) ≡ true
found_prefix t s r e = rw e (ap (is_some {A = Text}) (after_prefix-append s r))

-- An occurrence of a needle: what stands before it, and what behind it.
abbrev pub Occurs : Text → Text → Text → Text → Type 0
Occurs needle t pre post = t ≡ pre ++ (needle ++ post)

-- An occurrence of the needle that stands i places behind an offset k.
abbrev pub At : ℕ → Text → Text → ℕ → Type 0
At k t needle i = (pre : Text) × (post : Text) × Occurs needle t pre post × (i ≡ k + length pre)

At-cons : (k : ℕ) (c : ℕ) (t needle : Text) (i : ℕ) → At (k + 1) t needle i → At k (c ∷ t) needle i
At-cons k c t needle i (pre, post, e, at) = (c ∷ pre, post, ap (λ x. c ∷ x) e, omega (arith, at))

pub exact_spans_sound :
    (k : ℕ) (t needle : Text) (i : ℕ) → IsIn i (exact_spans k t needle) → At k t needle i
unfolding exact_spans
exact_spans_sound k [] needle i h = elim (Option-cases (after_prefix needle [])) [
  | inl e ↦ absurd (rw e at h)
  | inr (r, e) ↦ first needle r i (after_prefix_sound needle [] r e) (rw e at h)
]
  where
    first : (needle r : Text) (i : ℕ) → [] ≡ needle ++ r → IsIn i (k ∷ []) → At k [] needle i
    first needle r i e (inl same) = ([], r, e, omega (arith, same))
    first needle r i e (inr no_more) = absurd no_more
exact_spans_sound k (c ∷ t) needle i h = elim (Option-cases (after_prefix needle (c ∷ t))) [
  | inl e ↦ At-cons k c t needle i (exact_spans_sound (k + 1) t needle i (rw e at h))
  | inr (r, e) ↦
      first r (after_prefix_sound needle (c ∷ t) r e) (exact_spans_sound (k + 1) t needle i)
        (rw e at h)
]
  where
    first :
        (r : Text)
        → c ∷ t ≡ needle ++ r
        → (IsIn i (exact_spans (k + 1) t needle) → At (k + 1) t needle i)
        → IsIn i (k ∷ exact_spans (k + 1) t needle)
        → At k (c ∷ t) needle i
    first r e later (inl same) = ([], r, e, omega (arith, same))
    first r e later (inr more) = At-cons k c t needle i (later more)

-- An offset that is found stays found when the search starts one place before.
in_later :
    (b : Bool) (k i : ℕ) (spans : List ℕ) → IsIn i spans → IsIn i (if b then k ∷ spans else spans)
in_later true k i spans h = inr h
in_later false k i spans h = h

in_first : (b : Bool) (k : ℕ) (spans : List ℕ) → b ≡ true → IsIn k (if b then k ∷ spans else spans)
in_first true k spans h = inl refl
in_first false k spans h = absurd (cc (h))

pub exact_spans_complete :
    (k : ℕ) (t needle pre post : Text) (i : ℕ)
    → Occurs needle t pre post
    → i ≡ k + length pre
    → IsIn i (exact_spans k t needle)
unfolding exact_spans
exact_spans_complete k [] needle [] post i e at =
    subst (λ j. IsIn j (exact_spans k [] needle)) (omega (arith, at))
      (in_first (is_some (after_prefix needle [])) k [] (found_prefix _ needle post e))
exact_spans_complete k [] needle (d ∷ pre) post i e at = absurd (cc (e))
exact_spans_complete k (c ∷ t) needle [] post i e at =
    subst (λ j. IsIn j (exact_spans k (c ∷ t) needle)) (omega (arith, at))
      (in_first (is_some (after_prefix needle (c ∷ t))) k _ (found_prefix _ needle post e))
exact_spans_complete k (c ∷ t) needle (d ∷ pre) post i e at =
    in_later (is_some (after_prefix needle (c ∷ t))) k i _
      (exact_spans_complete (k + 1) t needle pre post i (ground (arith, e)) (omega (arith, at)))

-- The spans from k on are at least k, so that the spans of a text increase.
exact_spans_bound : (k : ℕ) (t needle : Text) (i : ℕ) → IsIn i (exact_spans k t needle) → k ≤ i
exact_spans_bound k t needle i h =
    let (pre, post, e, at) = exact_spans_sound k t needle i h in omega (arith, at)

pub exact_spans_distinct :
    (k : ℕ) (t needle : Text) (i j : ℕ) (spans : List ℕ)
    → exact_spans k t needle ≡ i ∷ j ∷ spans
    → i < j
unfolding exact_spans
exact_spans_distinct k [] needle i j spans h =
    elim (Bool-cases (is_some (after_prefix needle []))) [
      | inl e ↦ absurd (cc (rw e at h))
      | inr e ↦ absurd (cc (rw e at h))
    ]
exact_spans_distinct k (c ∷ t) needle i j spans h =
    elim (Bool-cases (is_some (after_prefix needle (c ∷ t)))) [
      | inl e ↦ first (exact_spans_bound (k + 1) t needle j) (rw e at h)
      | inr e ↦ exact_spans_distinct (k + 1) t needle i j spans (rw e at h)
    ]
  where
    first :
        (IsIn j (exact_spans (k + 1) t needle) → k + 1 ≤ j)
        → k ∷ exact_spans (k + 1) t needle ≡ i ∷ j ∷ spans
        → i < j
    first bound e =
        let rest : exact_spans (k + 1) t needle ≡ j ∷ spans = ground (arith, e) in
        let same : k ≡ i = ground (arith, e) in omega (arith, same, bound (rw rest (inl refl)))
