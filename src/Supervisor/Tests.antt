-- ===== src/Supervisor/Tests.antt =====
-- A supervisor that starts, restarts and stops fleets.
use tig_swarm_demo.Prelude.{◌≡◌, refl, true, false, List, [], ◌∷◌}
use tig_swarm_demo.Supervisor.{
  Supervisor, done, raised, said, listed, find_fleet, is_live, Op, start, stop, ask,
  running_usernames, exits,
}
use tig_swarm_demo.Supervisor.Refinement.{IsSound, run}
use tig_swarm_demo.Supervisor.Steps.{RunRefines, run_refines}

abbrev fresh : Supervisor
fresh = record { fleets = []; next = 0; live = [] }

fresh-IsSound : IsSound fresh
unfolding find_fleet is_live
fresh-IsSound = record {
  unique = tt;
  issued = λ u h e. absurd (cc (e));
  owned = λ u v h e e'. absurd (cc (e));
  no_orphan = λ h e. absurd (cc (e));
}

abbrev calls : List Op
calls =
    start 1 true
    ∷ start 2 true
    ∷ start 1 true
    ∷ running_usernames
    ∷ exits 2
    ∷ ask 2
    ∷ stop 2
    ∷ start 1 false
    ∷ ask 1
    ∷ []

-- stop answers true for a fleet that has ended by itself.
answers :
    (run calls fresh).0
    ≡ done
      ∷ done
      ∷ done
      ∷ listed (2 ∷ 1 ∷ [])
      ∷ done
      ∷ said false
      ∷ said true
      ∷ raised
      ∷ said false
      ∷ []
unfolding run
answers = refl

run_refines_example : RunRefines calls fresh
run_refines_example = run_refines calls fresh fresh-IsSound
