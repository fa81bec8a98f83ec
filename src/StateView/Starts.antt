-- ===== src/StateView/Starts.antt =====
-- Where the code of a fresh trajectory comes from (seed_for_agent in server/server.py, with
-- list_trajectory_bests of server/db.py).
use tig_swarm_demo.Prelude.{
  ℕ, zero, suc, ◌%◌, ◌≡◌, refl, subst, sym, ap, inl, inr, ℤ, true, false, none, List, [], ◌∷◌,
  arith, IsIn, Bool-cases, length, get_or,
}
use tig_swarm_demo.Db.Rows.{Direction, maximise, minimise, AgentState, TrajectoryBest, Seed, Db}
use tig_swarm_demo.Db.States.{is_better}
use tig_swarm_demo.Db.Seeds.{list_seeds}
use tig_swarm_demo.Reset.Launching.{Source, Start, seed, peer, stub, choice}
use tig_swarm_demo.StateView.Peers.{
  Peer, peer_of, is_peer, insert_by_score, list_peers, list_trajectory_bests,
}
use tig_swarm_demo.StateView.Seeding.{
  Seeding, needs_seed, stub_source, seed_source, peer_source, seed_for_agent, best_peer, drawn_seed,
}

pub better_asym : (d : Direction) (a b : ℤ) → is_better d a b ≡ true → is_better d b a ≡ false
unfolding is_better
better_asym maximise a b h = ground arith
better_asym minimise a b h = ground arith

pub worse_trans :
    (d : Direction) (x q p : ℤ)
    → is_better d x q ≡ false
    → is_better d q p ≡ false
    → is_better d x p ≡ false
unfolding is_better
worse_trans maximise x q p h k = ground arith
worse_trans minimise x q p h k = ground arith

pub better_irrefl : (d : Direction) (a : ℤ) → is_better d a a ≡ false
unfolding is_better
better_irrefl maximise a = ground arith
better_irrefl minimise a = ground arith

module _ (d : Direction) (states : List AgentState) (challenge agent_id cutoff_ts : ℕ) where
  -- A stored best that the query may return.
  abbrev pub IsEligible : TrajectoryBest → Type 0
  IsEligible b = is_peer states challenge agent_id cutoff_ts b ≡ true

  -- The first peer is an eligible best that no eligible best beats; without one nobody is eligible.
  abbrev pub Leads : List TrajectoryBest → List Peer → Type 0
  Leads bests [] = (b : TrajectoryBest) → IsIn b bests → ¬ IsEligible b
  Leads bests (p ∷ peers) =
      (b : TrajectoryBest) × IsIn b bests
      × IsEligible b
      × (p ≡ peer_of b)
      × ((x : TrajectoryBest) → IsIn x bests → IsEligible x → is_better d x.score b.score ≡ false)

  -- What holds of the new row and of every old one holds of all.
  eligible_cons :
      (b : TrajectoryBest) (bests : List TrajectoryBest) (P : TrajectoryBest → Type 0)
      → P b
      → ((x : TrajectoryBest) → IsIn x bests → IsEligible x → P x)
      → (x : TrajectoryBest) → IsIn x (b ∷ bests)
      → IsEligible x
      → P x
  eligible_cons b bests P new old x (inl e) ok = subst P (sym e) new
  eligible_cons b bests P new old x (inr i) ok = old x i ok

  insert-Leads :
      (b : TrajectoryBest) (bests : List TrajectoryBest) (peers : List Peer)
      → IsEligible b
      → Leads bests peers
      → Leads (b ∷ bests) (insert_by_score d (peer_of b) peers)
  unfolding insert_by_score peer_of
  insert-Leads b bests [] ok nobody = (
    b,
    inl refl,
    ok,
    refl,
    eligible_cons b bests (λ x. is_better d x.score b.score ≡ false) (better_irrefl d b.score)
        (λ x i e. absurd (nobody x i e)),
  )
  insert-Leads b bests (q ∷ peers) ok (b₀, i, e₀, at, leads) =
      let score_at : q.score ≡ b₀.score = ap (λ (p : Peer). p.score) at in
      elim (Bool-cases (is_better d q.score b.score)) [
        | inl ahead ↦ rw ahead (
          b₀,
          inr i,
          e₀,
          at,
          eligible_cons b bests (λ x. is_better d x.score b₀.score ≡ false)
              (better_asym d b₀.score b.score (rw score_at at ahead)) leads,
        )
        | inr behind ↦ rw behind (
          b,
          inl refl,
          ok,
          refl,
          eligible_cons b bests (λ x. is_better d x.score b.score ≡ false) (better_irrefl d b.score)
              (λ x j e.
                worse_trans d x.score b₀.score b.score (leads x j e) (rw score_at at behind)),
        )
      ]

  eligible_skip :
      (b : TrajectoryBest) (bests : List TrajectoryBest) (P : TrajectoryBest → Type 0)
      → is_peer states challenge agent_id cutoff_ts b ≡ false
      → ((x : TrajectoryBest) → IsIn x bests → IsEligible x → P x)
      → (x : TrajectoryBest) → IsIn x (b ∷ bests)
      → IsEligible x
      → P x
  eligible_skip b bests P out old x (inl e) ok =
      absurd (cc (ap (is_peer states challenge agent_id cutoff_ts) e, ok, out))
  eligible_skip b bests P out old x (inr i) ok = old x i ok

  skip-Leads :
      (b : TrajectoryBest) (bests : List TrajectoryBest) (peers : List Peer)
      → is_peer states challenge agent_id cutoff_ts b ≡ false
      → Leads bests peers
      → Leads (b ∷ bests) peers
  skip-Leads b bests [] out nobody = eligible_skip b bests (λ _. ⊥) out nobody
  skip-Leads b bests (q ∷ peers) out (b₀, i, e₀, at, leads) = (
    b₀,
    inr i,
    e₀,
    at,
    eligible_skip b bests (λ x. is_better d x.score b₀.score ≡ false) out leads,
  )

  list_peers-Leads :
      (bests : List TrajectoryBest)
      → Leads bests (list_peers d states challenge agent_id cutoff_ts bests)
  unfolding list_peers
  list_peers-Leads [] = λ b i ok. absurd i
  list_peers-Leads (b ∷ bests) = elim (Bool-cases (is_peer states challenge agent_id cutoff_ts b)) [
    | inl e ↦ rw e (insert-Leads b bests _ e (list_peers-Leads bests))
    | inr e ↦ rw e (skip-Leads b bests _ e (list_peers-Leads bests))
  ]

-- What each way to start gives: to an agent that is to be seeded, a stored seed of the challenge with all
-- its files, or, where no seed is stored, the code of the best active peer, without its files; or the stub.
abbrev pub Starts : Seeding → Db → ℕ → ℕ → Direction → Source → Start → Type 0
Starts s db agent_id challenge d source seed =
    (needs_seed s ≡ true)
    × ((x : Seed) × IsIn x (list_seeds db challenge) × (source ≡ seed_source x))
Starts s db agent_id challenge d source peer =
    (needs_seed s ≡ true)
    × (list_seeds db challenge ≡ [])
    × ((b : TrajectoryBest) × IsIn b db.trajectory_bests
        × IsEligible d db.agent_states challenge agent_id s.cutoff_ts b
        × (source.algorithm_code ≡ b.algorithm_code)
        × (source.algorithm_files ≡ none)
        × ((x : TrajectoryBest)
            → IsIn x db.trajectory_bests
            → IsEligible d db.agent_states challenge agent_id s.cutoff_ts x
            → is_better d x.score b.score ≡ false))
Starts s db agent_id challenge d source stub =
    (source ≡ stub_source s)
    × (needs_seed s ≡ true
        → (list_seeds db challenge ≡ [])
          × ((b : TrajectoryBest)
              → IsIn b db.trajectory_bests
              → ¬ IsEligible d db.agent_states challenge agent_id s.cutoff_ts b))

get_or-IsIn : (i : ℕ) (x : Seed) (xs : List Seed) → IsIn (get_or xs i x) (x ∷ xs)
get_or-IsIn i x [] = inl refl
get_or-IsIn zero x (y ∷ xs) = inr (inl refl)
get_or-IsIn (suc i) x (y ∷ xs) = elim (get_or-IsIn i x xs) [ inl e ↦ inl e | inr j ↦ inr (inr j) ]

choice-IsIn : (draw : ℕ) (x : Seed) (xs : List Seed) → IsIn (choice draw x xs) (x ∷ xs)
choice-IsIn draw x xs = elim (get_or-IsIn (draw % length (x ∷ xs)) x (x ∷ xs)) [
  | inl e ↦ inl e
  | inr j ↦ j
]

module _ (s : Seeding) (db : Db) (agent_id challenge : ℕ) (d : Direction) where
  best_peer-Starts :
      (needs_seed s ≡ true)
      → list_seeds db challenge ≡ []
      → (peers : List Peer)
      → Leads d db.agent_states challenge agent_id s.cutoff_ts db.trajectory_bests peers
      → Starts s db agent_id challenge d (best_peer s peers).0 (best_peer s peers).1
  unfolding peer_source peer_of
  best_peer-Starts needs empty [] nobody = (refl, λ _. (empty, nobody))
  best_peer-Starts needs empty (p ∷ peers) (b, i, e, at, leads) =
      (needs, empty, (b, i, e, ap (λ (q : Peer). q.algorithm_code) at, refl, leads))

  drawn-Starts :
      (needs_seed s ≡ true)
      → (seeds : List Seed) → list_seeds db challenge ≡ seeds
      → (let peers = list_trajectory_bests db challenge d agent_id s.cutoff_ts in
          Starts s db agent_id challenge d
            (drawn_seed s seeds peers).0
            (drawn_seed s seeds peers).1)
  unfolding list_trajectory_bests
  drawn-Starts needs [] at =
      best_peer-Starts needs at _
        (list_peers-Leads d db.agent_states challenge agent_id s.cutoff_ts db.trajectory_bests)
  drawn-Starts needs (x ∷ seeds) at =
      (needs, (choice s.seed_draw x seeds, rw at (choice-IsIn s.seed_draw x seeds), refl))

  -- Where the code of a fresh trajectory comes from, on every branch. Only an agent that is to be seeded gets
  -- a seed or a peer's code. A seed start hands out a feasible
  -- stored seed of the challenge, files included. A peer start happens only without such seeds; its code
  -- is that of a feasible best of another agent active on the challenge, none of these being better,
  -- and it never carries the other files of a multi-file algorithm. A stub start hands out the initial
  -- algorithm, and if the agent was to be seeded, then there was neither a seed nor an eligible peer.
  pub seed_for_agent_lem :
      Starts s db agent_id challenge d
        (seed_for_agent s db agent_id challenge d).0
        (seed_for_agent s db agent_id challenge d).1
  unfolding seed_for_agent
  seed_for_agent_lem = elim (Bool-cases (needs_seed s)) [
    | inl e ↦ rw e (drawn-Starts e (list_seeds db challenge) refl)
    | inr e ↦ rw e (refl, λ needs. absurd (cc (e, needs)))
  ]
