-- ===== src/Iteration/MeasuringTests.antt =====
-- Measurements of one baseline.
use tig_swarm_demo.Prelude.{
  ◌≡◌, refl, inl, pos, false, none, some, List, [], ◌∷◌, arith, select, select_all,
}
use tig_swarm_demo.Db.Rows.{requested, Baseline, Db}
use tig_swarm_demo.Db.Baseline.{get_mainnet_baseline, claim_mainnet_measurement}
use tig_swarm_demo.Iteration.Baselines.{measured}
use tig_swarm_demo.Iteration.Measuring.{
  BaselineEvent, publishes, claims_one, happen_all, Delivers, capture_is_final,
}
use tig_swarm_demo.Iteration.Publish.{publish}
use tig_swarm_demo.Iteration.Claiming.{claim_is_exclusive}
use tig_swarm_demo.Samples.{sample_db, sample_env, sample_request, sample_fresh}

abbrev asked_for : Baseline
asked_for = record {
  challenge = 1;
  algo_name = "mainnet";
  score = none;
  feasible = false;
  status = requested;
  code_fingerprint = some 0;
  config_fingerprint = none;
  measured_by = none;
  benchmarked_at = none;
  created_at = 10;
}

abbrev asked_db : Db
asked_db = record sample_db { mainnet_baselines = asked_for ∷ [] }

asked_for-Delivers : Delivers sample_env asked_for sample_request
asked_for-Delivers = record {
  code = 0;
  known = refl;
  waiting = refl;
  feasible = refl;
  meant = inl refl;
}

-- another publish of the same code, and a claim, by another agent
abbrev later_events : List BaselineEvent
later_events =
    publishes (record sample_request { agent_id = 8; score = pos 99 }) sample_fresh 1
    ∷ claims_one 1 9 5000 1400
    ∷ []

capture_is_final_example :
    get_mainnet_baseline
      (happen_all sample_env later_events
        (publish sample_env asked_db sample_request sample_fresh 1).1)
      1
    ≡ some (measured asked_for (pos 12) sample_fresh.timestamp 7 none)
unfolding get_mainnet_baseline select
capture_is_final_example =
    capture_is_final sample_env asked_db 1 sample_request sample_fresh asked_for later_events refl
      asked_for-Delivers

claim_is_exclusive_example :
    (claim_mainnet_measurement (claim_mainnet_measurement asked_db 1 7 5000 1400).0 1 8 6000 2400).1
    ≡ false
unfolding select_all claim_mainnet_measurement select
claim_is_exclusive_example =
    claim_is_exclusive asked_db 1 7 8 5000 6000 1400 2400 (omega arith) refl (omega arith)
