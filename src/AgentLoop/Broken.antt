-- ===== src/AgentLoop/Broken.antt =====
-- The loop of scripts/run_loop.py with a benchmark that never builds: how the freeze guard stops it.
use tig_swarm_demo.Prelude.{
  ℕ, suc, ◌+◌, ◌≤◌, ◌<◌, ◌≡◌, ◌⊎◌, refl, sym, ap, ◌∙◌, inl, inr, ◌&&◌, List, [], ◌∷◌, arith, All,
  Bool-cases, eqb_refl, leb, ltb, length,
}
use tig_swarm_demo.SearchReplace.Text.{Text}
use tig_swarm_demo.SearchReplace.Apply.{FileMap}
use tig_swarm_demo.AgentLoop.{Params, failed, Outside, World}
use tig_swarm_demo.AgentLoop.Iterations.{
  Input, Loop, Outcome, Trace, continues, froze, counted_failures, iterate, go_on, run_loop,
}
use tig_swarm_demo.AgentLoop.Freeze.{begun}
use tig_swarm_demo.AgentLoop.Failing.{Fails, Asks, with_state-Fails}

go_on-continues :
    (w : World) (turn : Outcome × Loop) (rest : Trace)
    → turn.0 ≡ continues
    → go_on w turn rest ≡ (rest.0, rest.1, (w, turn.1.world) ∷ rest.2)
go_on-continues w (o, t) (last, s, turns) e = rw e refl

module _ (env : Outside) (err : ℕ → FileMap → Params → Text)
    (broken : (n : ℕ) (disk : FileMap) (params : Params)
      → env.benchmark n disk params ≡ failed (err n disk params)) where
  module _ (challenge limit : ℕ) (positive : 0 < limit) where
    -- iterations that get as far as asking for code, with one challenge and one limit
    abbrev AllAsk : List Input → Type 0
    AllAsk =
        All (λ inp.
          (inp.challenge ≡ challenge) × (inp.freeze_limit ≡ limit) × Asks env err broken inp)

    -- the number that the guard of the next iteration reads
    abbrev Counts : ℕ → Loop → Type 0
    Counts n s = (inp : Input) → inp.challenge ≡ challenge → counted_failures inp s ≡ n

    Fails-Counts :
        (n : ℕ) (inp : Input) (s : Loop) (out : Outcome × Loop)
        → Counts n s
        → inp.challenge ≡ challenge
        → Fails (begun inp s) out
        → Counts (suc n) out.1
    Fails-Counts n inp s out c e p next f =
        let same : next.challenge ≡ inp.challenge = f ∙ sym e in
        simp (p.kept, p.more, same, eqb_refl inp.challenge) (ap suc (c inp e))

    iterate-cases :
        (n : ℕ) (inp : Input) (s : Loop)
        → Counts n s
        → inp.challenge ≡ challenge
        → inp.freeze_limit ≡ limit
        → Asks env err broken inp
        → ((limit ≤ n) × (iterate env inp s ≡ (froze, begun inp s)))
          ⊎ (Fails (begun inp s) (iterate env inp s) × (n < limit))
    unfolding iterate
    iterate-cases n inp s c e l a =
        elim (Bool-cases
          (ltb 0 inp.freeze_limit && leb inp.freeze_limit (counted_failures inp s))) [
            | inl g ↦ inl (ground (arith, g, l, c inp e), rw g refl)
            | inr g ↦ inr (
              rw g (with_state-Fails env err broken inp (begun inp s) a),
              ground (arith, g, l, c inp e, positive),
            )
          ]

    step-stops :
        (n : ℕ) (inputs : List Input) (inp : Input) (s : Loop)
        → ((t : Loop)
            → Counts (suc n) t
            → suc n ≤ limit
            → ((run_loop env inputs t).0 ≡ froze)
              × (suc n + length (run_loop env inputs t).2 ≡ limit))
        → Counts n s
        → n ≤ limit
        → inp.challenge ≡ challenge
        → ((limit ≤ n) × (iterate env inp s ≡ (froze, begun inp s)))
          ⊎ (Fails (begun inp s) (iterate env inp s) × (n < limit))
        → ((run_loop env (inp ∷ inputs) s).0 ≡ froze)
          × (n + length (run_loop env (inp ∷ inputs) s).2 ≡ limit)
    unfolding run_loop
    step-stops n inputs inp s ih c le e (inl (reached, stops)) =
        rw stops (refl, omega (arith, reached, le))
    step-stops n inputs inp s ih c le e (inr (fails, below)) =
        let turn = iterate env inp s in
        let (ends, long) = ih turn.1 (Fails-Counts n inp s turn c e fails) (omega (arith, below)) in
        rw (go_on-continues s.world turn (run_loop env inputs turn.1) fails.ends)
          (ends, omega (arith, long))

    run_loop-stops :
        (inputs : List Input) (n : ℕ) (s : Loop)
        → AllAsk inputs
        → n ≤ limit
        → limit < n + length inputs
        → Counts n s
        → ((run_loop env inputs s).0 ≡ froze) × (n + length (run_loop env inputs s).2 ≡ limit)
    run_loop-stops [] n s all le more c = absurd (omega (arith, le, more))
    run_loop-stops (inp ∷ inputs) n s all le more c =
        let (e, l, a) = all.0 in
        step-stops n inputs inp s
          (λ t d below. run_loop-stops inputs (suc n) t all.1 below (omega (arith, more)) d) c le e
          (iterate-cases n inp s c e l a)

    -- If no benchmark ever builds, whatever the model, the agent and the server answer, then a run that
    -- starts with the counter at 0, and whose iterations have one challenge and one positive limit and
    -- all get as far as asking for code, is ended by the freeze guard, after exactly as many iterations
    -- as the limit.
    pub broken_benchmark_freezes :
        (inputs : List Input) (s : Loop)
        → AllAsk inputs
        → limit < length inputs
        → s.bench_failures ≡ 0
        → ((run_loop env inputs s).0 ≡ froze) × (length (run_loop env inputs s).2 ≡ limit)
    broken_benchmark_freezes inputs s all more zeroed =
        let (ends, long) =
          run_loop-stops inputs 0 s all (omega arith) (omega (arith, more))
            (λ inp e. ground (arith, zeroed)) in
        (ends, omega (arith, long))
