-- ===== src/AgentLoop/GateRaised.antt =====
-- When _hpo_gate_open (scripts/run_loop.py) raises an IndexError.
use tig_swarm_demo.Prelude.{
  ℕ, zero, suc, ◌-◌, ◌≤◌, ◌<◌, ltb, length, get_elem?, ◌≡◌, refl, inl, inr, ℤ, Bool, true, false,
  Option, none, some, List, [], ◌∷◌, arith, Bool-cases, is_some,
}
use tig_swarm_demo.Db.Rows.{Direction}
use tig_swarm_demo.AgentLoop.{BenchResult}
use tig_swarm_demo.AgentLoop.Tuning.{
  TuneSettings, index_error, from_end, band_gate, score_gate, hpo_gate_open,
}

-- When the gate raises: a trajectory that has been tuned before asks for no improvement at all and has none,
-- so that its latest one is out of range.
pub record GateRaises (set : TuneSettings) (b : BenchResult) (scores : List ℤ) (has_tuned : Bool)
    : Type 0 where
  pub again : has_tuned ≡ true
  pub unlimited : set.min_improvements ≡ 0
  pub without : scores ≡ []
  pub feasible : b.feasible ≡ true
  pub scored : is_some b.score ≡ true

get_elem?-some : (xs : List ℤ) (i : ℕ) → i < length xs → (x : ℤ) × (get_elem? xs i ≡ some x)
get_elem?-some [] i h = absurd (omega (arith, h))
get_elem?-some (x ∷ xs) zero h = (x, refl)
get_elem?-some (x ∷ xs) (suc i) h = get_elem?-some xs i (omega (arith, h))

from_end-some :
    (k : ℕ) (x : ℤ) (xs : List ℤ) → k ≤ length (x ∷ xs) → (y : ℤ) × (from_end k (x ∷ xs) ≡ some y)
unfolding from_end
from_end-some zero x xs h = (x, refl)
from_end-some (suc k) x xs h = get_elem?-some (x ∷ xs) (length (x ∷ xs) - suc k) (omega (arith, h))

band_gate-index_error :
    (direction : Direction) (score : ℤ) (latest floor : Option ℤ) (p q : ℤ)
    → latest ≡ some p
    → floor ≡ some q
    → ¬ (band_gate direction score latest floor ≡ index_error)
band_gate-index_error direction score latest floor p q e f h = ground (arith, e, f, h)

module _ (direction : Direction) (set : TuneSettings) (b : BenchResult) where
  score_gate-index_error :
      (scores : List ℤ) (has_tuned : Bool) (o : Option ℤ)
      → score_gate direction set scores has_tuned o ≡ index_error
      → (has_tuned ≡ true) × (set.min_improvements ≡ 0) × (scores ≡ []) × (is_some o ≡ true)
  score_gate-index_error scores has_tuned none h = absurd (cc h)
  score_gate-index_error scores false (some score) h = absurd (ground (arith, h))
  score_gate-index_error [] true (some score) h = (refl, ground (arith, h), refl, refl)
  score_gate-index_error (x ∷ scores) true (some score) h =
      elim (Bool-cases (ltb (length (x ∷ scores)) set.min_improvements)) [
        | inl few ↦ absurd (cc (rw few at h))
        | inr enough ↦
            let (p, e) = from_end-some 1 x scores (omega arith) in
            let (q, f) = from_end-some set.min_improvements x scores (ground (arith, enough)) in
            absurd (band_gate-index_error direction score _ _ p q e f (rw enough at h))
      ]

  pub hpo_gate_open-index_error :
      (scores : List ℤ) (has_tuned : Bool)
      → hpo_gate_open direction set b scores has_tuned ≡ index_error
      → GateRaises set b scores has_tuned
  unfolding hpo_gate_open
  hpo_gate_open-index_error scores has_tuned h = elim (Bool-cases b.feasible) [
    | inl on ↦
        let (t, m, s, k) = score_gate-index_error scores has_tuned b.score (rw on at h) in
        record { again = t; unlimited = m; without = s; feasible = on; scored = k }
    | inr off ↦ absurd (cc (rw off at h))
  ]
