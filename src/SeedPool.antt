-- ===== src/SeedPool.antt =====
-- server/seed_diversity.py: which published algorithms become seeds, and which seed makes room.
pub mod Admission
pub mod Tests
use tig_swarm_demo.Prelude.{
  ℕ, zero, suc, ◌+◌, ℤ, pos, negsuc, String, not, ◌&&◌, Option, none, some, List, [], ◌∷◌, ltb,
  ltb_ℤ, if◌then◌else◌, length,
}

-- Decision, with the reason as the constructor
pub data Decision : Type 0 where
  admit : Decision
  admit_evict : (evict_index : Option ℕ) → Decision
  too_complex : Decision
  too_similar : Decision

-- the keyword arguments of decide_admission, which are at least 0
pub record Limits : Type 0 where
  pub pool_size : ℕ
  pub similarity_threshold : ℤ
  pub max_loc : ℕ

abbrev pub max_ℤ : ℤ → ℤ → ℤ
max_ℤ a b = if ltb_ℤ a b then b else a

-- `loc` counts lines and `similarity` is a Jaccard index in [0, 1], both over regular expressions:
-- the admission only compares their values, the index as a double.
module _ (loc : String → ℕ) (similarity : String → String → ℤ) where
  -- max_similarity; the default is 0
  unfoldable pub max_similarity : String → List String → ℤ
  max_similarity code [] = pos 0
  max_similarity code (o ∷ []) = similarity code o
  max_similarity code (o ∷ (p ∷ others)) =
      max_ℤ (similarity code o) (max_similarity code (p ∷ others))

  -- the codes at the other indices
  unfoldable pub others_of : ℕ → List String → List String
  others_of i [] = []
  others_of zero (c ∷ codes) = codes
  others_of (suc i) (c ∷ codes) = c ∷ others_of i codes

  -- the loop of most_redundant_index, from index `i` on, with the best so far
  unfoldable pub redundancy_loop : List String → ℕ → List String → Option ℕ → ℤ → Option ℕ
  unfolding max_similarity others_of
  redundancy_loop codes i [] best_idx best_nn = best_idx
  redundancy_loop codes i (c ∷ rest) best_idx best_nn =
      let nn = max_similarity c (others_of i codes) in
      redundancy_loop codes (i + 1) rest (if ltb_ℤ best_nn nn then some i else best_idx)
        (if ltb_ℤ best_nn nn then nn else best_nn)

  -- most_redundant_index; -1.0 is any number below 0
  unfoldable pub most_redundant_index : List String → Option ℕ
  unfolding redundancy_loop
  most_redundant_index codes =
      if ltb (length codes) 2 then none else redundancy_loop codes 0 codes none (negsuc 0)

  -- decide_admission
  unfoldable pub decide_admission : String → List String → Limits → Decision
  unfolding max_similarity most_redundant_index
  decide_admission candidate seed_codes limits =
      if ltb limits.max_loc (loc candidate)
      then too_complex
      else if ltb 0 (length seed_codes)
          && not (ltb_ℤ (max_similarity candidate seed_codes) limits.similarity_threshold)
      then too_similar
      else if ltb (length seed_codes) limits.pool_size
      then admit
      else admit_evict (most_redundant_index seed_codes)
