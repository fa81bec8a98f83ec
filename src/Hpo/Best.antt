-- ===== src/Hpo/Best.antt =====
-- What a search (search in scripts/hpo.py) returns for each track.
use tig_swarm_demo.Prelude.{
  ℕ, ◌≡◌, ◌⊎◌, refl, ap, subst, ◌∙◌, inl, inr, ℤ, Bool, true, false, Option, none, some, List, [],
  ◌∷◌, arith, IsIn, ◌==◌, eqb_refl, if◌then◌else◌, Option-cases,
}
use tig_swarm_demo.Db.Rows.{Direction}
use tig_swarm_demo.Db.States.{is_better}
use tig_swarm_demo.Hpo.{
  Bench, Search, find_track, build_config_set, eval_config, run_trials, search_configs,
}
use tig_swarm_demo.Hpo.Winners.{Tops, scores_of, scores_on, winners-Tops}
use tig_swarm_demo.Hpo.Configs.{IsConfigSet, build-IsConfigSet}

-- The benchmark of an evaluated configuration gave it this score on the track.
pub record Measured (benchmark_fn : ℕ → Option Bench) (configs : List ℕ) (t : ℕ) (w : ℕ × ℤ)
    : Type 0 where
  pub evaluated : IsIn w.0 configs
  pub bench : Bench
  pub ran : benchmark_fn w.0 ≡ some bench
  pub scored : IsIn (t, some w.1) bench.track_scores

module _ (t : ℕ) where
  scores_of_keeps :
      (cfg : ℕ) (scores : List (ℕ × Option ℤ)) (seen : List (ℕ × ℤ)) (w : ℕ × ℤ)
      → IsIn w seen
      → IsIn w (scores_of t cfg scores seen)
  unfolding scores_of
  scores_of_keeps cfg [] seen w i = i
  scores_of_keeps cfg ((tk, none) ∷ scores) seen w i = scores_of_keeps cfg scores seen w i
  scores_of_keeps cfg ((tk, some sc) ∷ scores) seen w i =
      scores_of_keeps cfg scores _ w (wider (tk == t))
    where
      wider : (same : Bool) → IsIn w (if same then (cfg, sc) ∷ seen else seen)
      wider true = inr i
      wider false = i

  scores_of_adds :
      (cfg : ℕ) (scores : List (ℕ × Option ℤ)) (seen : List (ℕ × ℤ)) (s : ℤ)
      → IsIn (t, some s) scores
      → IsIn (cfg, s) (scores_of t cfg scores seen)
  unfolding scores_of
  scores_of_adds cfg [] seen s i = absurd i
  scores_of_adds cfg ((tk, none) ∷ scores) seen s (inl e) = absurd (cc (e))
  scores_of_adds cfg ((tk, none) ∷ scores) seen s (inr i) = scores_of_adds cfg scores seen s i
  scores_of_adds cfg ((tk, some sc) ∷ scores) seen s (inr i) = scores_of_adds cfg scores _ s i
  scores_of_adds cfg ((tk, some sc) ∷ scores) seen s (inl e) =
      let same : tk ≡ t = ground (arith, e) in
      let at : s ≡ sc = ground (arith, e) in
      scores_of_keeps cfg scores _ (cfg, s)
        (rw same (rw (eqb_refl t) (inl (ap (λ (x : ℤ). (cfg, x)) at))))

  pair :
      {tk cfg : ℕ} {sc : ℤ} (w : ℕ × ℤ)
      → tk ≡ t
      → w ≡ (cfg, sc)
      → ◌≡◌ {A = ℕ × Option ℤ} (t, some w.1) (tk, some sc)
  pair w at e = rw at (ap (λ (x : ℕ × ℤ). (t, some x.1)) e)

  scores_of_inv :
      (cfg : ℕ) (scores : List (ℕ × Option ℤ)) (seen : List (ℕ × ℤ)) (w : ℕ × ℤ)
      → IsIn w (scores_of t cfg scores seen)
      → IsIn w seen ⊎ ((w.0 ≡ cfg) × IsIn (t, some w.1) scores)
  unfolding scores_of
  scores_of_inv cfg [] seen w i = inl i
  scores_of_inv cfg ((tk, none) ∷ scores) seen w i = elim (scores_of_inv cfg scores seen w i) [
    | inl old ↦ inl old
    | inr (e, j) ↦ inr (e, inr j)
  ]
  scores_of_inv cfg ((tk, some sc) ∷ scores) seen w i = elim (scores_of_inv cfg scores _ w i) [
    | inl here ↦ first (tk == t) (λ e. ground (arith, e)) here
    | inr (e, j) ↦ inr (e, inr j)
  ]
    where
      first :
          (same : Bool)
          → (same ≡ true → tk ≡ t)
          → IsIn w (if same then (cfg, sc) ∷ seen else seen)
          → IsIn w seen ⊎ ((w.0 ≡ cfg) × IsIn (t, some w.1) ((tk, some sc) ∷ scores))
      first false at here = inl here
      first true at (inr old) = inl old
      first true at (inl e) = inr (ap (λ (x : ℕ × ℤ). x.0) e, inl (pair w (at refl) e))

  eval_failed :
      (benchmark_fn : ℕ → Option Bench) (c : ℕ)
      → benchmark_fn c ≡ none
      → eval_config benchmark_fn c
        ≡ record { config = c; score = none; feasible = false; track_scores = [] }
  unfolding eval_config
  eval_failed benchmark_fn c e = rw (eval_config, e) refl

  eval_ran :
      (benchmark_fn : ℕ → Option Bench) (c : ℕ) (b : Bench)
      → benchmark_fn c ≡ some b
      → eval_config benchmark_fn c ≡ record {
        config = c;
        score = b.score;
        feasible = b.feasible;
        track_scores = b.track_scores;
      }
  unfolding eval_config
  eval_ran benchmark_fn c b e = rw (eval_config, e) refl

  -- the scores on the track after one more trial
  abbrev after : (ℕ → Option Bench) → ℕ → List (ℕ × ℤ) → List (ℕ × ℤ)
  after benchmark_fn c seen =
      scores_of t (eval_config benchmark_fn c).config (eval_config benchmark_fn c).track_scores seen

  after_inv :
      (benchmark_fn : ℕ → Option Bench) (c : ℕ) (configs : List ℕ) (seen : List (ℕ × ℤ)) (w : ℕ × ℤ)
      → IsIn w (after benchmark_fn c seen)
      → IsIn w seen ⊎ Measured benchmark_fn (c ∷ configs) t w
  unfolding scores_of
  after_inv benchmark_fn c configs seen w i = elim (Option-cases (benchmark_fn c)) [
    | inl e ↦ inl (rw (eval_failed benchmark_fn c e) at i)
    | inr (b, e) ↦
        (elim (scores_of_inv c b.track_scores seen w (rw (eval_ran benchmark_fn c b e) at i)) [
          | inl old ↦ inl old
          | inr (at, j) ↦
              inr
                (record { evaluated = inl at; bench = b; ran = ap benchmark_fn at ∙ e; scored = j })
        ])
  ]

  -- Every score seen on the track was measured, and every measured one was seen.
  pub trials-Measured :
      (benchmark_fn : ℕ → Option Bench) (configs : List ℕ) (seen : List (ℕ × ℤ)) (w : ℕ × ℤ)
      → IsIn w (scores_on t (run_trials benchmark_fn configs) seen)
      → IsIn w seen ⊎ Measured benchmark_fn configs t w
  unfolding run_trials scores_on
  trials-Measured benchmark_fn [] seen w i = inl i
  trials-Measured benchmark_fn (c ∷ configs) seen w i =
      elim (trials-Measured benchmark_fn configs (after benchmark_fn c seen) w i) [
        | inl here ↦ after_inv benchmark_fn c configs seen w here
        | inr m ↦ inr (record {
          evaluated = inr m.evaluated;
          bench = m.bench;
          ran = m.ran;
          scored = m.scored;
        })
      ]

  seen_kept :
      (benchmark_fn : ℕ → Option Bench) (configs : List ℕ) (seen : List (ℕ × ℤ)) (w : ℕ × ℤ)
      → IsIn w seen
      → IsIn w (scores_on t (run_trials benchmark_fn configs) seen)
  unfolding run_trials scores_on
  seen_kept benchmark_fn [] seen w i = i
  seen_kept benchmark_fn (c ∷ configs) seen w i =
      seen_kept benchmark_fn configs (after benchmark_fn c seen) w (
        scores_of_keeps (eval_config benchmark_fn c).config
          (eval_config benchmark_fn c).track_scores seen w i)

  Measured-seen :
      (benchmark_fn : ℕ → Option Bench) (configs : List ℕ) (seen : List (ℕ × ℤ)) (w : ℕ × ℤ)
      (b : Bench)
      → IsIn w.0 configs
      → benchmark_fn w.0 ≡ some b
      → IsIn (t, some w.1) b.track_scores
      → IsIn w (scores_on t (run_trials benchmark_fn configs) seen)
  unfolding run_trials scores_on
  Measured-seen benchmark_fn [] seen w b i ran scored = absurd i
  Measured-seen benchmark_fn (c ∷ configs) seen w b (inr i) ran scored =
      Measured-seen benchmark_fn configs (after benchmark_fn c seen) w b i ran scored
  Measured-seen benchmark_fn (c ∷ configs) seen w b (inl e) ran scored =
      seen_kept benchmark_fn configs (after benchmark_fn c seen) w (
        subst (λ k. IsIn w (after benchmark_fn k seen)) e
          (rw (eval_ran benchmark_fn w.0 b ran)
            (scores_of_adds w.0 b.track_scores seen w.1 scored)))

module _ (config_key : ℕ → ℕ) (benchmark_fn : ℕ → Option Bench) (n num_suggested : ℕ)
    (direction : Direction) (suggested : List ℕ) (draws : ℕ → Option ℕ) where
  abbrev pub configs : List ℕ
  configs = build_config_set config_key n num_suggested suggested draws

  abbrev pub searched : Search
  searched = search_configs config_key benchmark_fn n num_suggested direction suggested draws

  -- A track's winner was measured, and is not beaten by what was measured.
  pub record IsWinner (t : ℕ) (measured w : ℕ × ℤ) : Type 0 where
    pub found : find_track t searched.winning_configs ≡ some w
    pub real : Measured benchmark_fn configs t w
    pub best : is_better direction measured.1 w.1 ≡ false

  IsWinner-of :
      (t : ℕ) (m : ℕ × ℤ) (found : Option (ℕ × ℤ)) (seen : List (ℕ × ℤ))
      → find_track t searched.winning_configs ≡ found
      → ((w : ℕ × ℤ) → IsIn w seen → Measured benchmark_fn configs t w)
      → IsIn m seen
      → Tops direction found seen
      → (w : ℕ × ℤ) × IsWinner t m w
  IsWinner-of t m none seen e real i top = absurd (subst (λ l. IsIn m l) top i)
  IsWinner-of t m (some w) seen e real i top =
      (w, record { found = e; real = real w top.0; best = top.1 m i })

  -- What a search promises. It evaluates at most n configurations, or one, no two of them equal as
  -- JSON, the default configuration first. And for every score that the benchmark of an evaluated
  -- configuration gave on a track, the default's included, the track has a winner, whose score on the
  -- track was measured with its own configuration and is not beaten by that score.
  pub search_configs_lem :
      IsConfigSet config_key n configs
      × ((t : ℕ) (m : ℕ × ℤ) → Measured benchmark_fn configs t m → (w : ℕ × ℤ) × IsWinner t m w)
  unfolding search_configs find_track
  search_configs_lem = (
    build-IsConfigSet config_key n num_suggested suggested draws,
    λ t m measured.
        IsWinner-of t m _ (scores_on t (run_trials benchmark_fn configs) []) refl (real t)
          (Measured-seen t benchmark_fn configs [] m measured.bench measured.evaluated measured.ran
            measured.scored)
          (winners-Tops direction t (run_trials benchmark_fn configs) [] [] refl),
  )
    where
      real :
          (t : ℕ) (w : ℕ × ℤ)
          → IsIn w (scores_on t (run_trials benchmark_fn configs) [])
          → Measured benchmark_fn configs t w
      real t w i = elim (trials-Measured t benchmark_fn configs [] w i) [
        | inl nothing ↦ absurd nothing
        | inr m ↦ m
      ]
