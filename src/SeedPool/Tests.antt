-- ===== src/SeedPool/Tests.antt =====
-- Admissions under a similarity of equal texts.
use tig_swarm_demo.Prelude.{
  ℕ, All, ◌≤◌, ◌≡◌, ◌↔◌, ℤ, pos, String, str_eq, true, false, List, [], ◌∷◌, arith, ltb_ℤ,
  if◌then◌else◌,
}
use tig_swarm_demo.SeedPool.{Limits, decide_admission}
use tig_swarm_demo.SeedPool.Admission.{is_admitted, admitted_iff}

abbrev ten_lines : String → ℕ
ten_lines code = 10

abbrev same_text : String → String → ℤ
same_text a b = if str_eq a b then pos 8 else pos 0

abbrev two_codes : List String
two_codes = "a" ∷ "b" ∷ []

abbrev small_pool : Limits
small_pool = record { pool_size = 2; similarity_threshold = pos 6; max_loc = 100 }

same_text-nonneg : (a b : String) → ltb_ℤ (same_text a b) (pos 0) ≡ false
same_text-nonneg a b = ground arith

admitted_iff_example :
    (is_admitted (decide_admission ten_lines same_text "c" two_codes small_pool) ≡ true)
    ↔ (10 ≤ 100) × All (λ c. ltb_ℤ (same_text "c" c) (pos 6) ≡ true) two_codes
admitted_iff_example = admitted_iff ten_lines same_text "c" two_codes small_pool
