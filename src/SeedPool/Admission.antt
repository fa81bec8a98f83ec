-- ===== src/SeedPool/Admission.antt =====
-- What decide_admission admits, and which seed it evicts.
use tig_swarm_demo.Prelude.{
  ℕ, suc, ◌+◌, ◌≤◌, ◌<◌, ◌≡◌, All, ◌↔◌, refl, ◌∙◌, ℤ, pos, negsuc, String, Bool, true, false, none,
  some, List, [], ◌∷◌, arith, ltb, ltb_ℤ, if◌then◌else◌, length,
}
use tig_swarm_demo.SeedPool.{
  Decision, admit, admit_evict, Limits, max_similarity, others_of, redundancy_loop,
  most_redundant_index, decide_admission,
}

abbrev pub is_admitted : Decision → Bool
is_admitted admit = true
is_admitted (admit_evict i) = true
is_admitted _ = false

module _ (loc : String → ℕ) (similarity : String → String → ℤ) where
  -- The largest of the similarities is below a bound exactly if each of them is.
  max_similarity-below :
      (code : String) (bound : ℤ) (o : String) (others : List String)
      → (ltb_ℤ (max_similarity loc similarity code (o ∷ others)) bound ≡ true)
        ↔ All (λ c. ltb_ℤ (similarity code c) bound ≡ true) (o ∷ others)
  unfolding max_similarity
  max_similarity-below code bound o [] = (λ h. (h, tt), λ h. h.0)
  max_similarity-below code bound o (p ∷ others) =
      let (down, up) = max_similarity-below code bound p others in
      (
        λ h.
            let rest : ltb_ℤ (max_similarity loc similarity code (p ∷ others)) bound ≡ true =
              ground (arith, h) in
            (ground (arith, h), down rest),
        λ h. let rest = up h.1 in ground (arith, h.0, rest),
      )

  -- A candidate is admitted exactly if it has at most max_loc lines and its similarity to each of the seeds
  -- is below the threshold.
  pub admitted_iff :
      (candidate : String) (seed_codes : List String) (limits : Limits)
      → (is_admitted (decide_admission loc similarity candidate seed_codes limits) ≡ true)
        ↔ (loc candidate ≤ limits.max_loc)
          × All (λ c. ltb_ℤ (similarity candidate c) limits.similarity_threshold ≡ true) seed_codes
  unfolding decide_admission
  admitted_iff candidate [] limits = (λ h. (ground (arith, h), tt), λ h. ground (arith, h.0))
  admitted_iff candidate (o ∷ others) limits =
      let (down, up) = max_similarity-below candidate limits.similarity_threshold o others in
      (
        λ h. (ground (arith, h), down (ground (arith, h))),
        λ h. let below = up h.1 in ground (arith, h.0, below),
      )

  max_similarity-nonneg :
      ((a b : String) → ltb_ℤ (similarity a b) (pos 0) ≡ false)
      → (code : String) (others : List String)
      → ltb_ℤ (max_similarity loc similarity code others) (pos 0) ≡ false
  unfolding max_similarity
  max_similarity-nonneg nonneg code [] = ground arith
  max_similarity-nonneg nonneg code (o ∷ []) = nonneg code o
  max_similarity-nonneg nonneg code (o ∷ (p ∷ others)) =
      ground (arith, nonneg code o, max_similarity-nonneg nonneg code (p ∷ others))

  redundancy_loop-some :
      (codes rest : List String) (i b : ℕ) (nn : ℤ)
      → b < i + length rest
      → (j : ℕ) × (redundancy_loop loc similarity codes i rest (some b) nn ≡ some j)
        × (j < i + length rest)
  unfolding redundancy_loop
  redundancy_loop-some codes [] i b nn h = (b, refl, h)
  redundancy_loop-some codes (c ∷ rest) i b nn h =
      let m = max_similarity loc similarity c (others_of loc similarity i codes) in
      step (λ b' nn'. redundancy_loop-some codes rest (i + 1) b' nn') (ltb_ℤ nn m)
        (if ltb_ℤ nn m then m else nn)
    where
      step :
          ((b' : ℕ) (nn' : ℤ)
            → b' < i + 1 + length rest
            → (j : ℕ) × (redundancy_loop loc similarity codes (i + 1) rest (some b') nn' ≡ some j)
              × (j < i + 1 + length rest))
          → (better : Bool) (nn' : ℤ)
          → (j : ℕ) × (redundancy_loop loc similarity codes
                (i + 1)
                rest
                (if better then some i else some b)
                nn'
              ≡ some j)
            × (j < i + suc (length rest))
      step again true nn' =
          let (j, found, low) = again i nn' (omega arith) in (j, found, omega (arith, low))
      step again false nn' =
          let (j, found, low) = again b nn' (omega (arith, h)) in (j, found, omega (arith, low))

  -- With at least two seeds there is a most redundant one, and its index is one of the seeds', if no
  -- similarity is negative.
  pub most_redundant_index_lem :
      ((a b : String) → ltb_ℤ (similarity a b) (pos 0) ≡ false)
      → (codes : List String) → 2 ≤ length codes
      → (j : ℕ) × (most_redundant_index loc similarity codes ≡ some j) × (j < length codes)
  unfolding most_redundant_index
  most_redundant_index_lem nonneg [] h = absurd (omega (arith, h))
  most_redundant_index_lem nonneg (c ∷ codes) h =
      let m = max_similarity loc similarity c (others_of loc similarity 0 (c ∷ codes)) in
      let first : ltb_ℤ (negsuc 0) m ≡ true =
        ground (arith, max_similarity-nonneg nonneg c (others_of loc similarity 0 (c ∷ codes))) in
      let several : ltb (length (c ∷ codes)) 2 ≡ false = ground (arith, h) in
      let (j, found, low) = redundancy_loop-some (c ∷ codes) codes 1 0 m (omega arith) in
      (
        j,
        started (ltb (length (c ∷ codes)) 2) (ltb_ℤ (negsuc 0) m) m several first ∙ found,
        omega (arith, low),
      )
    where
      started :
          (few better : Bool) (m : ℤ)
          → few ≡ false
          → better ≡ true
          → (if few
              then none
              else redundancy_loop loc similarity
                  (c ∷ codes)
                  (0 + 1)
                  codes
                  (if better then some 0 else none)
                  (if better then m else negsuc 0))
            ≡ redundancy_loop loc similarity (c ∷ codes) 1 codes (some 0) m
      started few better m e f = rw (e, f) refl

  pub most_redundant_index-few :
      (codes : List String) → length codes < 2 → most_redundant_index loc similarity codes ≡ none
  unfolding most_redundant_index
  most_redundant_index-few codes h =
      let few : ltb (length codes) 2 ≡ true = ground (arith, h) in rw few refl
