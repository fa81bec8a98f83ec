-- ===== src/Hpo/Tests.antt =====
-- A search over two configurations and a failing one.
use tig_swarm_demo.Prelude.{
  ℕ, ◌≡◌, refl, inl, ℤ, pos, true, Option, none, some, [], ◌∷◌, ltb, if◌then◌else◌,
}
use tig_swarm_demo.Db.Rows.{maximise}
use tig_swarm_demo.Hpo.{Bench, find_track, build_config_set, search_configs}
use tig_swarm_demo.Hpo.Configs.{IsConfigSet}
use tig_swarm_demo.Hpo.Best.{Measured, IsWinner, search_configs_lem}

-- configuration c scores c on track 1, and 5 fails
abbrev bench : ℕ → Option Bench
bench c =
    if ltb c 5
    then some (record {
      score = some (pos c);
      feasible = true;
      track_scores = (1, some (pos c)) ∷ (2, none) ∷ [];
    })
    else none

abbrev draws : ℕ → Option ℕ
draws i = if ltb i 1 then some 5 else none

configs_run : build_config_set (λ c. c) 4 2 (3 ∷ 3 ∷ 4 ∷ []) draws ≡ 0 ∷ 3 ∷ 5 ∷ []
unfolding build_config_set
configs_run = refl

winner_run :
    find_track 1 (search_configs (λ c. c) bench 4 2 maximise (3 ∷ 3 ∷ 4 ∷ []) draws).winning_configs
    ≡ some (3, pos 3)
unfolding search_configs
winner_run = refl

search_configs_lem_example :
    IsConfigSet (λ c. c) 4 (build_config_set (λ c. c) 4 2 (3 ∷ 3 ∷ 4 ∷ []) draws)
    × ((t : ℕ) (m : ℕ × ℤ)
        → Measured bench (build_config_set (λ c. c) 4 2 (3 ∷ 3 ∷ 4 ∷ []) draws) t m
        → (w : ℕ × ℤ) × IsWinner (λ c. c) bench 4 2 maximise (3 ∷ 3 ∷ 4 ∷ []) draws t m w)
search_configs_lem_example = search_configs_lem (λ c. c) bench 4 2 maximise (3 ∷ 3 ∷ 4 ∷ []) draws

-- The default configuration was measured on track 1.
default-Measured :
    Measured bench (build_config_set (λ c. c) 4 2 (3 ∷ 3 ∷ 4 ∷ []) draws) 1 (0, pos 0)
unfolding build_config_set
default-Measured = record {
  evaluated = inl refl;
  bench = record {
    score = some (pos 0);
    feasible = true;
    track_scores = (1, some (pos 0)) ∷ (2, none) ∷ [];
  };
  ran = refl;
  scored = inl refl;
}
