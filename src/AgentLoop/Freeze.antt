-- ===== src/AgentLoop/Freeze.antt =====
-- What the while loop of scripts/run_loop.py guarantees over any run: honest results, and the freeze guard.
use tig_swarm_demo.Prelude.{
  ℕ, suc, ◌≤◌, ◌<◌, ◌≡◌, ◌⊎◌, refl, ap, ◌∙◌, inl, inr, ◌&&◌, some, List, [], ◌∷◌, arith, All,
  Bool-cases, if◌then◌else◌, eqb_refl, leb, ltb, length,
}
use tig_swarm_demo.ChallengeFiles.Tidy.{IsTidy}
use tig_swarm_demo.AgentLoop.{Outside, World}
use tig_swarm_demo.AgentLoop.Iterations.{
  Input, Loop, Outcome, continues, froze, crashed, counted_failures, iterate, go_on, run_loop,
}
use tig_swarm_demo.AgentLoop.Honest.{IsHonest, Advances, Advances-refl, Advances-trans}
use tig_swarm_demo.AgentLoop.Turns.{Turn}
use tig_swarm_demo.AgentLoop.Rounds.{with_state-Turn}

-- the loop's variables when an iteration has passed the guard
abbrev pub begun : Input → Loop → Loop
begun inp s = record s {
  iteration = suc s.iteration;
  bench_failures = counted_failures inp s;
  bench_fail_challenge = some inp.challenge;
}

-- An iteration is stopped by the guard, below which it is a turn.
data Iterated (env : Outside) (inp : Input) (s : Loop) : Outcome × Loop → Type 0 where
  stopped : Iterated env inp s (froze, begun inp s)
  turned :
      (out : Outcome × Loop)
      → Turn env s.world (begun inp s) out
      → (inp.freeze_limit ≡ 0) ⊎ (counted_failures inp s < inp.freeze_limit)
      → Iterated env inp s out

iterate-Iterated :
    (env : Outside) (inp : Input) (s : Loop)
    → IsTidy s.world.disk
    → Iterated env inp s (iterate env inp s)
unfolding iterate
iterate-Iterated env inp s tidy =
    elim (Bool-cases (ltb 0 inp.freeze_limit && leb inp.freeze_limit (counted_failures inp s))) [
      | inl e ↦ simp e stopped
      | inr e ↦
          simp e (turned _ (with_state-Turn env inp (begun inp s) inp.state tidy) (ground arith))
    ]

Iterated-Advances :
    (env : Outside) (inp : Input) (s : Loop) {out : Outcome × Loop}
    → Iterated env inp s out
    → Advances env s.world out.1.world
Iterated-Advances env inp s stopped = Advances-refl env s.world
Iterated-Advances env inp s (turned out t below) = t.advances

go_on-Advances :
    (env : Outside) (w : World) (turn : Outcome × Loop)
    (rest : Outcome × Loop × List (World × World))
    → Advances env w turn.1.world
    → Advances env turn.1.world rest.1.world
    → Advances env w (go_on w turn rest).1.world
go_on-Advances env w (continues, t) (o, last, turns) g h = Advances-trans g h
go_on-Advances env w (froze, t) rest g h = g
go_on-Advances env w (crashed, t) rest g h = g

run_loop-Advances :
    (env : Outside) (inputs : List Input) (s : Loop)
    → IsTidy s.world.disk
    → Advances env s.world (run_loop env inputs s).1.world
unfolding run_loop
run_loop-Advances env [] s tidy = Advances-refl env s.world
run_loop-Advances env (inp ∷ inputs) s tidy =
    let turn = iterate env inp s in
    let g = Iterated-Advances env inp s (iterate-Iterated env inp s tidy) in
    go_on-Advances env s.world turn _ g (run_loop-Advances env inputs turn.1 (g.tidy tidy))

-- Over any run, from a tidy directory: every result that is published is that of a successful benchmark of
-- the very files and hyperparameters that are published with it, whatever the model, the agent, the
-- benchmark and the server answer; and the directory stays tidy.
pub run_loop-IsHonest :
    (env : Outside) (inputs : List Input) (s : Loop)
    → IsTidy s.world.disk
    → IsHonest s.world
    → IsHonest (run_loop env inputs s).1.world × IsTidy (run_loop env inputs s).1.world.disk
run_loop-IsHonest env inputs s tidy honest =
    let g = run_loop-Advances env inputs s tidy in (g.honest honest, g.tidy tidy)

-- the iterations in a row that have asked for code and in which no benchmark has succeeded
abbrev pub wasted : ℕ → List (World × World) → ℕ
wasted n [] = n
wasted n ((w, v) ∷ turns) =
    wasted
      (if ltb (length w.measured) (length v.measured)
        then 0
        else if ltb w.code_asked v.code_asked
        then suc n
        else n)
      turns

module _ (env : Outside) (challenge limit : ℕ) (positive : 0 < limit) where
  -- the challenge and the limit of every iteration
  abbrev Steady : List Input → Type 0
  Steady = All (λ inp. (inp.challenge ≡ challenge) × (inp.freeze_limit ≡ limit))

  -- what the counter is worth, against a number of wasted iterations
  record Covers (n : ℕ) (s : Loop) : Type 0 where
    enough : n ≤ s.bench_failures
    capped : s.bench_failures ≤ limit
    current : (s.bench_fail_challenge ≡ some challenge) ⊎ (n ≡ 0)

  counted-Covers :
      (n : ℕ) (s : Loop) (inp : Input)
      → Covers n s
      → inp.challenge ≡ challenge
      → n ≤ counted_failures inp s
  counted-Covers n s inp c e = elim c.current [
    | inr z ↦ omega (arith, z)
    | inl same ↦ ground (arith, c.enough, same, e, eqb_refl challenge)
  ]

  -- one more iteration
  abbrev tally : ℕ → World → World → ℕ
  tally n w v =
      if ltb (length w.measured) (length v.measured)
      then 0
      else if ltb w.code_asked v.code_asked
      then suc n
      else n

  turned-Covers :
      (n : ℕ) (s : Loop) (inp : Input) (out : Outcome × Loop)
      → Covers n s
      → inp.challenge ≡ challenge
      → inp.freeze_limit ≡ limit
      → Turn env s.world (begun inp s) out
      → (inp.freeze_limit ≡ 0) ⊎ (counted_failures inp s < inp.freeze_limit)
      → Covers (tally n s.world out.1.world) out.1
  turned-Covers n s inp out c e l t below =
      let counted : n ≤ counted_failures inp s = counted-Covers n s inp c e in
      let under : counted_failures inp s < limit = ground (arith, below, l, positive) in
      record {
        enough = ground (arith, counted, t.fair, t.advances.asked);
        capped = omega (arith, t.at_most, under);
        current = inl (t.kept ∙ ap some e);
      }

  step-le :
      (n : ℕ) (s : Loop) (inp : Input) (out : Outcome × Loop)
      (rest : Outcome × Loop × List (World × World))
      → Covers n s
      → inp.challenge ≡ challenge
      → inp.freeze_limit ≡ limit
      → Iterated env inp s out
      → ((m : ℕ) → Covers m out.1 → wasted m rest.2 ≤ limit)
      → wasted n (go_on s.world out rest).2 ≤ limit
  step-le n s inp _ rest c e l stopped ih = omega (arith, c.enough, c.capped)
  step-le n s inp (continues, t') (o, last, turns) c e l (turned out t below) ih =
      ih _ (turned-Covers n s inp out c e l t below)
  step-le n s inp (froze, t') rest c e l (turned out t below) ih = omega (arith, c.enough, c.capped)
  step-le n s inp (crashed, t') rest c e l (turned out t below) ih =
      let after = turned-Covers n s inp out c e l t below in
      omega (arith, after.enough, after.capped)

  run_loop-le :
      (inputs : List Input) (n : ℕ) (s : Loop)
      → Steady inputs
      → IsTidy s.world.disk
      → Covers n s
      → wasted n (run_loop env inputs s).2 ≤ limit
  unfolding run_loop
  run_loop-le [] n s steady tidy c = omega (arith, c.enough, c.capped)
  run_loop-le (inp ∷ inputs) n s steady tidy c =
      let it = iterate-Iterated env inp s tidy in
      step-le n s inp (iterate env inp s) _ c steady.0.0 steady.0.1 it (λ m d.
        run_loop-le inputs m (iterate env inp s).1 steady.1
          ((Iterated-Advances env inp s it).tidy tidy) d)

  -- With one challenge and a positive limit throughout, a run that starts with the counter at 0 in a tidy
  -- directory never has more iterations in a row than the limit that ask the model or the agent for code
  -- and in which no benchmark succeeds, wherever it is stopped.
  pub freeze_guard_lem :
      (inputs : List Input) (s : Loop)
      → Steady inputs
      → IsTidy s.world.disk
      → s.bench_failures ≡ 0
      → wasted 0 (run_loop env inputs s).2 ≤ limit
  freeze_guard_lem inputs s steady tidy zeroed =
      run_loop-le inputs 0 s steady tidy
        (record { enough = omega arith; capped = omega (arith, zeroed); current = inr refl })
