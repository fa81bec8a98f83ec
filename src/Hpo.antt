-- ===== src/Hpo.antt =====
-- scripts/hpo.py: the search over hyperparameter configurations. A configuration is a number, 0 the empty
-- one; its JSON text with sorted keys is a parameter, and so are the benchmark and the random draws,
-- `none` for a draw that raises. Scores are integers, as in the server's model.
use tig_swarm_demo.Prelude.{
  ℕ, zero, suc, ◌+◌, ◌-◌, ◌*◌, ℤ, Bool, true, false, not, ◌&&◌, ◌||◌, Option, none, some, List, [],
  ◌∷◌, ◌++◌, max, ◌==◌, ltb, leb, if◌then◌else◌, length, take,
}
use tig_swarm_demo.Db.Rows.{Direction, maximise, minimise}
use tig_swarm_demo.Db.States.{is_better}
pub mod Configs
pub mod Winners
pub mod Best
mod Tests

-- what benchmark_fn returns
pub record Bench : Type 0 where
  pub score : Option ℤ
  pub feasible : Bool
  pub track_scores : List (ℕ × Option ℤ)

pub record Trial : Type 0 where
  pub config : ℕ
  pub score : Option ℤ
  pub feasible : Bool
  pub track_scores : List (ℕ × Option ℤ)

-- _is_better
unfoldable pub is_better_trial : Direction → ℤ → Bool → ℤ → Bool → Bool
unfolding is_better
is_better_trial direction a true b false = true
is_better_trial direction a false b true = false
is_better_trial direction a _ b _ = is_better direction a b

-- best_cfg and best_score of a track
unfoldable pub find_track : ℕ → List (ℕ × ℕ × ℤ) → Option (ℕ × ℤ)
find_track tk [] = none
find_track tk ((t, c, s) ∷ winners) = if t == tk then some (c, s) else find_track tk winners

unfoldable pub set_track : ℕ → ℕ × ℤ → List (ℕ × ℕ × ℤ) → List (ℕ × ℕ × ℤ)
set_track tk (c, s) [] = (tk, c, s) ∷ []
set_track tk (c, s) ((t, d, r) ∷ winners) =
    let rest = set_track tk (c, s) winners in
    if t == tk then (tk, c, s) ∷ winners else (t, d, r) ∷ rest

-- `tk not in best_cfg or _score_better(...)`
abbrev pub improves : Direction → Option (ℕ × ℤ) → ℤ → Bool
improves direction none sc = true
improves direction (some (c, s)) sc = is_better direction sc s

-- the inner loop, over the scores of one trial
unfoldable pub note_scores :
    Direction → ℕ → List (ℕ × Option ℤ) → List (ℕ × ℕ × ℤ) → List (ℕ × ℕ × ℤ)
unfolding find_track set_track is_better
note_scores direction cfg [] winners = winners
note_scores direction cfg ((tk, none) ∷ scores) winners = note_scores direction cfg scores winners
note_scores direction cfg ((tk, some sc) ∷ scores) winners = note_scores direction cfg scores (
    if improves direction (find_track tk winners) sc
    then set_track tk (cfg, sc) winners
    else winners)

-- _per_track_winners, with the score of each winner
unfoldable pub per_track_winners : Direction → List Trial → List (ℕ × ℕ × ℤ) → List (ℕ × ℕ × ℤ)
unfolding note_scores
per_track_winners direction [] winners = winners
per_track_winners direction (t ∷ trials) winners =
    per_track_winners direction trials (note_scores direction t.config t.track_scores winners)

module _ (config_key : ℕ → ℕ) where
  -- `key in seen`: the keys of the configurations so far
  unfoldable pub is_seen : List ℕ → ℕ → Bool
  is_seen [] cfg = false
  is_seen (c ∷ configs) cfg = config_key c == config_key cfg || is_seen configs cfg

  -- _add
  unfoldable pub add_config : List ℕ → ℕ → List ℕ
  unfolding is_seen
  add_config configs cfg = if is_seen configs cfg then configs else configs ++ cfg ∷ []

  unfoldable pub add_suggested : ℕ → List ℕ → List ℕ → List ℕ
  unfolding add_config
  add_suggested n configs [] = configs
  add_suggested n configs (cfg ∷ suggested) =
      let rest = add_suggested n (add_config configs cfg) suggested in
      if leb n (length configs) then configs else rest

  -- the while loop, with the attempts that are left and the number of the next draw
  unfoldable pub add_random : ℕ → (ℕ → Option ℕ) → ℕ → ℕ → List ℕ → List ℕ
  unfolding add_config
  add_random n draws zero attempts configs = configs
  add_random n draws (suc left) attempts configs =
      if ltb (length configs) n
      then (elim (draws attempts) [
        | none ↦ configs
        | some cfg ↦ add_random n draws left (attempts + 1) (add_config configs cfg)
      ])
      else configs

  -- build_config_set
  unfoldable pub build_config_set : ℕ → ℕ → List ℕ → (ℕ → Option ℕ) → List ℕ
  unfolding add_suggested add_random add_config
  build_config_set n num_suggested suggested draws =
      let configs = add_suggested n (add_config [] 0) (take num_suggested suggested) in
      add_random n draws (max 50 ((n - length configs) * 20)) 0 configs

-- _eval
unfoldable pub eval_config : (ℕ → Option Bench) → ℕ → Trial
eval_config benchmark_fn cfg = elim (benchmark_fn cfg) [
  | none ↦ record { config = cfg; score = none; feasible = false; track_scores = [] }
  | some b ↦ record {
    config = cfg;
    score = b.score;
    feasible = b.feasible;
    track_scores = b.track_scores;
  }
]

-- the trials, collected by the index of their configuration
unfoldable pub run_trials : (ℕ → Option Bench) → List ℕ → List Trial
unfolding eval_config
run_trials benchmark_fn [] = []
run_trials benchmark_fn (cfg ∷ configs) =
    eval_config benchmark_fn cfg ∷ run_trials benchmark_fn configs

-- `best_cfg`, `best_score` and `best_feasible` after one more trial
unfoldable pub better_trial : Direction → Option (ℕ × ℤ × Bool) → Trial → Option (ℕ × ℤ × Bool)
unfolding is_better_trial
better_trial direction best t = elim t.score [
  | none ↦ best
  | some s ↦ (elim best [
    | none ↦ some (t.config, s, t.feasible)
    | some (c, r, f) ↦
        if is_better_trial direction s t.feasible r f
        then some (t.config, s, t.feasible)
        else some (c, r, f)
  ])
]

unfoldable pub best_trial : Direction → List Trial → Option (ℕ × ℤ × Bool) → Option (ℕ × ℤ × Bool)
unfolding better_trial
best_trial direction [] best = best
best_trial direction (t ∷ trials) best = best_trial direction trials (better_trial direction best t)

pub record Search : Type 0 where
  pub winning_configs : List (ℕ × ℕ × ℤ)
  pub winning : Option (ℕ × ℤ × Bool)
  pub trials : List Trial

-- search
unfoldable pub search_configs :
    (ℕ → ℕ) → (ℕ → Option Bench) → ℕ → ℕ → Direction → List ℕ → (ℕ → Option ℕ) → Search
unfolding build_config_set run_trials per_track_winners best_trial
search_configs config_key benchmark_fn n num_suggested direction suggested draws =
    let trials =
      run_trials benchmark_fn (build_config_set config_key n num_suggested suggested draws) in
    record {
      winning_configs = per_track_winners direction trials [];
      winning = best_trial direction trials none;
      trials = trials;
    }
