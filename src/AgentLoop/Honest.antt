-- ===== src/AgentLoop/Honest.antt =====
-- The results that scripts/run_loop.py publishes are results of the files that it publishes.
use tig_swarm_demo.Prelude.{
  ◌≤◌, ◌≡◌, refl, subst, sym, some, List, [], ◌∷◌, arith, All, IsIn, length,
}
use tig_swarm_demo.ChallengeFiles.Tidy.{IsTidy}
use tig_swarm_demo.AgentLoop.{BenchResult, Params, defaults, track_configs, Run, Outside, World}
use tig_swarm_demo.AgentLoop.Tuning.{Tuning, kept, adopted, raised}
use tig_swarm_demo.AgentLoop.Cleaning.{publish_results}
use tig_swarm_demo.AgentLoop.Iterations.{Input, State, Loop, publish_tuning, tune_and_publish}
use tig_swarm_demo.AgentLoop.Growth.{HasEntry, Grows}
use tig_swarm_demo.AgentLoop.Fixed.{Holds}
use tig_swarm_demo.AgentLoop.Tuned.{TuningGives, maybe_tune_lem}

-- Every published result is that of a successful run of the published files, with the published
-- hyperparameters.
abbrev pub IsHonest : World → Type 0
IsHonest w = All (λ r. IsIn r w.measured) w.published

All-runs :
    (v w : List Run) (published : List Run)
    → ((r : Run) → IsIn r v → IsIn r w)
    → All (λ r. IsIn r v) published
    → All (λ r. IsIn r w) published
All-runs v w [] h a = tt
All-runs v w (r ∷ published) h a = (h r a.0, All-runs v w published h a.1)

-- From w to v, where honest results may be published.
pub record Advances (env : Outside) (w v : World) : Type 0 where
  pub asked : w.code_asked ≤ v.code_asked
  pub more : length w.measured ≤ length v.measured
  pub tidy : IsTidy w.disk → IsTidy v.disk
  pub honest : IsHonest w → IsHonest v

pub Advances-refl : (env : Outside) (w : World) → Advances env w w
Advances-refl env w = record {
  asked = omega arith;
  more = omega arith;
  tidy = λ t. t;
  honest = λ h. h;
}

pub Advances-trans :
    {env : Outside} {u v w : World} → Advances env u v → Advances env v w → Advances env u w
Advances-trans g h = record {
  asked = omega (arith, g.asked, h.asked);
  more = omega (arith, g.more, h.more);
  tidy = λ t. h.tidy (g.tidy t);
  honest = λ t. h.honest (g.honest t);
}

pub Grows-Advances : {env : Outside} {w v : World} → Grows env w v → Advances env w v
Grows-Advances {w} {v} g = record {
  asked = g.asked;
  more = g.more;
  tidy = g.tidy;
  honest = λ h.
      subst (All (λ r. IsIn r v.measured)) (sym g.same)
        (All-runs w.measured v.measured w.published g.runs h);
}

pub publish_results-Advances :
    (env : Outside) (params : Params) (b : BenchResult) (w : World)
    → Holds w params (some b)
    → Advances env w (publish_results env params b w).1
unfolding publish_results
publish_results-Advances env params b w h = record {
  asked = omega arith;
  more = omega arith;
  tidy = λ t. t;
  honest = λ a. (h, a);
}

publish_tuning-Advances :
    (env : Outside) (R : Type 0) (s : Loop) (b : BenchResult) (t : Tuning) (w v : World)
    → Grows env w v
    → TuningGives R w.disk v t
    → Holds w defaults (some b)
    → Advances env w (publish_tuning env s b t v).1.world
      × ((publish_tuning env s b t v).1.bench_failures ≡ 0)
      × ((publish_tuning env s b t v).1.bench_fail_challenge ≡ s.bench_fail_challenge)
publish_tuning-Advances env R s b raised w v g r h = (Grows-Advances g, refl, refl)
publish_tuning-Advances env R s b kept w v g same h =
    (Advances-trans (Grows-Advances g) (publish_results-Advances env defaults b v here), refl, refl)
  where
    here : Holds v defaults (some b)
    here =
        subst (λ d. IsIn (record { disk = d; params = defaults; bench = b }) v.measured) (sym same)
          (g.runs _ h)
publish_tuning-Advances env R s b (adopted b' winning) w v g r h = (
  Advances-trans (Grows-Advances g) (publish_results-Advances env (track_configs winning) b' v r.0),
  refl,
  refl,
)

pub tune_and_publish-Advances :
    (env : Outside) (inp : Input) (st : State) (s : Loop) (b : BenchResult) (w : World)
    → IsTidy w.disk
    → HasEntry env w
    → Holds w defaults (some b)
    → Advances env w (tune_and_publish env inp st s b w).1.world
      × ((tune_and_publish env inp st s b w).1.bench_failures ≡ 0)
      × ((tune_and_publish env inp st s b w).1.bench_fail_challenge ≡ s.bench_fail_challenge)
unfolding tune_and_publish
tune_and_publish-Advances env inp st s b w tidy has h =
    let (g, r) = maybe_tune_lem env inp.tune b st.improvement_scores st.has_tuned w tidy has in
    publish_tuning-Advances env _ s b _ w _ g r h
