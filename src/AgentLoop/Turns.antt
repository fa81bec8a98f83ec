-- ===== src/AgentLoop/Turns.antt =====
-- The generated code of an iteration (scripts/run_loop.py): its benchmark, the fixes and the publish, and
-- the counter of the freeze guard.
use tig_swarm_demo.Prelude.{
  suc, ◌≤◌, ◌<◌, ◌≡◌, ◌⊎◌, refl, inl, inr, true, false, Option, none, some, arith, Bool-cases, leb,
  length,
}
use tig_swarm_demo.SearchReplace.Text.{Text}
use tig_swarm_demo.ChallengeFiles.Tidy.{IsTidy, write-has_entry}
use tig_swarm_demo.AgentLoop.{BenchResult, defaults, Outside, World, write_code}
use tig_swarm_demo.AgentLoop.Fixing.{benchmark_with_compile_fix}
use tig_swarm_demo.AgentLoop.Generating.{generate_code}
use tig_swarm_demo.AgentLoop.Iterations.{
  State, Input, Loop, Outcome, note_failure, note_success, tune_and_publish, best_pair,
  after_runtime, after_compile, bench_code, second_try, after_generation, complete,
}
use tig_swarm_demo.AgentLoop.Growth.{
  HasEntry, Grows, Grows-trans, write_code-Grows, restore_best-Grows, Ran, Ran-earlier,
}
use tig_swarm_demo.AgentLoop.Fixed.{Holds, benchmark_with_compile_fix-Ran, fix_runtime_errors-Holds}
use tig_swarm_demo.AgentLoop.Honest.{
  Advances, Advances-refl, Advances-trans, Grows-Advances, tune_and_publish-Advances,
}
use tig_swarm_demo.AgentLoop.Generated.{generate_code-Grows}

-- An iteration that pays for what it asks: a run succeeds in it, or the counter of failures grows.
pub record Pays (env : Outside) (w : World) (s : Loop) (out : Outcome × Loop) : Type 0 where
  pub advances : Advances env w out.1.world
  pub at_most : out.1.bench_failures ≤ suc s.bench_failures
  pub kept : out.1.bench_fail_challenge ≡ s.bench_fail_challenge
  pub pays :
      (length w.measured < length out.1.world.measured) ⊎ (s.bench_failures < out.1.bench_failures)

pub Pays-after :
    {env : Outside} {u w : World} (s : Loop) (out : Outcome × Loop)
    → Advances env u w
    → Pays env w s out
    → Pays env u s out
Pays-after s out g p = record {
  advances = Advances-trans g p.advances;
  at_most = p.at_most;
  kept = p.kept;
  pays = ground (arith, g.more, p.pays);
}

pub note_failure-Pays :
    (env : Outside) (s : Loop) (w v : World) → Grows env w v → Pays env w s (note_failure s v)
note_failure-Pays env s w v g = record {
  advances = Grows-Advances g;
  at_most = omega arith;
  kept = refl;
  pays = inr (omega arith);
}

-- a run that has succeeded, and what comes after it
pub scored-Pays :
    (env : Outside) (inp : Input) (st : State) (s : Loop) (b : BenchResult) (w v : World)
    → IsTidy w.disk
    → Grows env w v
    → HasEntry env v
    → Holds v defaults (some b)
    → length w.measured < length v.measured
    → Pays env w s (tune_and_publish env inp st s b v)
scored-Pays env inp st s b w v tidy g has h more =
    let after = tune_and_publish-Advances env inp st s b v (g.tidy tidy) has h in
    record {
      advances = Advances-trans (Grows-Advances g) after.0;
      at_most = omega (arith, after.1);
      kept = after.2;
      pays = inl (omega (arith, more, after.0.more));
    }

after_runtime-Pays :
    (env : Outside) (inp : Input) (st : State) (s : Loop) (o : Option BenchResult) (w v : World)
    → IsTidy w.disk
    → Grows env w v
    → HasEntry env v
    → Holds v defaults o
    → length w.measured < length v.measured
    → Pays env w s (after_runtime env inp st s o v)
after_runtime-Pays env inp st s none w v tidy g has h more = note_failure-Pays env s w v g
after_runtime-Pays env inp st s (some b) w v tidy g has h more =
    scored-Pays env inp st s b w v tidy g has h more

after_compile-Pays :
    (env : Outside) (inp : Input) (st : State) (s : Loop) (o : Option BenchResult) (w v : World)
    → IsTidy w.disk
    → Grows env w v
    → HasEntry env v
    → Ran w v defaults o
    → Pays env w s (after_compile env inp st s o v)
after_compile-Pays env inp st s none w v tidy g has r =
    note_failure-Pays env s w _ (Grows-trans g (restore_best-Grows env (best_pair st) v))
after_compile-Pays env inp st s (some b) w v tidy g has r =
    let (h, k) = fix_runtime_errors-Holds env (best_pair st) 2 b v in
    after_runtime-Pays env inp st s _ w _ tidy (Grows-trans g h) (h.entry has) (k r.0)
      (omega (arith, r.1, h.more))

bench_code-Pays :
    (env : Outside) (inp : Input) (st : State) (s : Loop) (made : Text × Text) (w : World)
    → IsTidy w.disk
    → Pays env w s (bench_code env inp st s made w)
unfolding bench_code write_code
bench_code-Pays env inp st s (code, kernel) w tidy =
    let written = write_code-Grows env code kernel w in
    let run = benchmark_with_compile_fix env defaults 2 false (write_code env code kernel w) in
    let (h, r) =
      benchmark_with_compile_fix-Ran env defaults 2 false (write_code env code kernel w) in
    after_compile-Pays env inp st s _ w _ tidy (Grows-trans written h)
      (h.entry (write-has_entry env.files code kernel w.disk))
      (Ran-earlier run.2 defaults run.0 written r)

second_try-Pays :
    (env : Outside) (inp : Input) (st : State) (s : Loop) (made : Option (Text × Text))
    (w v : World)
    → IsTidy w.disk
    → Grows env w v
    → Pays env w s (second_try env inp st s made v)
second_try-Pays env inp st s none w v tidy g = note_failure-Pays env s w v g
second_try-Pays env inp st s (some made) w v tidy g =
    Pays-after s _ (Grows-Advances g) (bench_code-Pays env inp st s made v (g.tidy tidy))

-- The count of the skips in a row leaves the counter of failures alone.
after_reset :
    {env : Outside} {w : World} (s : Loop) {out : Outcome × Loop}
    → Pays env w (record s { consecutive_sr_skips = 0 }) out
    → Pays env w s out
after_reset s p = record {
  advances = p.advances;
  at_most = p.at_most;
  kept = p.kept;
  pays = p.pays;
}

after_generation-Pays :
    (env : Outside) (inp : Input) (st : State) (s : Loop) (made : Option (Text × Text)) (w : World)
    → IsTidy w.disk
    → Pays env w s (after_generation env inp st s made w)
after_generation-Pays env inp st s (some made) w tidy =
    after_reset s (bench_code-Pays env inp st (record s { consecutive_sr_skips = 0 }) made w tidy)
after_generation-Pays env inp st s none w tidy =
    elim (Bool-cases (leb 3 (suc s.consecutive_sr_skips))) [
      | inl e ↦ rw e (
          after_reset s (
            second_try-Pays env inp st (record s { consecutive_sr_skips = 0 }) _ w _ tidy
              (generate_code-Grows env inp.mode true w)))
      | inr e ↦ rw e (record {
        advances = Advances-refl env w;
        at_most = omega arith;
        kept = refl;
        pays = inr (omega arith);
      })
    ]

-- An iteration in which code is asked for only if it pays.
pub record Turn (env : Outside) (w : World) (s : Loop) (out : Outcome × Loop) : Type 0 where
  pub advances : Advances env w out.1.world
  pub at_most : out.1.bench_failures ≤ suc s.bench_failures
  pub kept : out.1.bench_fail_challenge ≡ s.bench_fail_challenge
  pub fair :
      (length w.measured < length out.1.world.measured)
      ⊎ ((s.bench_failures ≤ out.1.bench_failures)
          × ((out.1.world.code_asked ≡ w.code_asked) ⊎ (s.bench_failures < out.1.bench_failures)))

pub Pays-Turn :
    {env : Outside} {w : World} (s : Loop) (out : Outcome × Loop)
    → Pays env w s out
    → Turn env w s out
Pays-Turn s out p = record {
  advances = p.advances;
  at_most = p.at_most;
  kept = p.kept;
  fair = ground (arith, p.pays);
}

-- A turn after a step that asks for no code.
pub Turn-after :
    {env : Outside} {u w : World} (s : Loop) (out : Outcome × Loop)
    → Advances env u w
    → w.code_asked ≡ u.code_asked
    → Turn env w s out
    → Turn env u s out
Turn-after s out g a t = record {
  advances = Advances-trans g t.advances;
  at_most = t.at_most;
  kept = t.kept;
  fair = ground (arith, g.more, a, t.fair);
}

-- An iteration that ends with a published benchmark of this very iteration.
pub note_success-Turn :
    (env : Outside) (s : Loop) (w v : World)
    → Advances env w v
    → length w.measured < length v.measured
    → Turn env w s (note_success s v)
note_success-Turn env s w v g more = record {
  advances = g;
  at_most = omega arith;
  kept = refl;
  fair = inl more;
}

pub complete-Turn :
    (env : Outside) (inp : Input) (st : State) (s : Loop) (w : World)
    → IsTidy w.disk
    → Turn env w s (complete env inp st s w)
unfolding complete
complete-Turn env inp st s w tidy = elim (Bool-cases inp.has_hypothesis) [
  | inl e ↦ simp e (
      Pays-Turn s _ (
        Pays-after s _ (Grows-Advances (Grows-trans called made))
          (after_generation-Pays env inp st s _ _ (made.tidy tidy))))
  | inr e ↦ simp e (record {
    advances = Grows-Advances called;
    at_most = omega arith;
    kept = refl;
    fair = inr (omega arith, inl refl);
  })
]
  where
    called : Grows env w (record w { calls = suc w.calls })
    called = record {
      asked = omega arith;
      runs = λ r i. i;
      more = omega arith;
      same = refl;
      tidy = λ t. t;
      entry = λ e. e;
    }

    made :
        Grows env
          (record w { calls = suc w.calls })
          (generate_code env inp.mode false (record w { calls = suc w.calls })).1
    made = generate_code-Grows env inp.mode false (record w { calls = suc w.calls })
