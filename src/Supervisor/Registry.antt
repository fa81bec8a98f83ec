-- ===== src/Supervisor/Registry.antt =====
-- The lookups in the registry and the live processes after each primitive of runner/supervisor.py.
use tig_swarm_demo.Prelude.{
  ℕ, ◌≡◌, ◌≢◌, refl, ap, subst, ◌∙◌, Bool, true, false, not, ◌&&◌, Option, none, some, List, [],
  ◌∷◌, ◌++◌, arith, ◌==◌, eqb_refl, Bool-cases, inl, inr, if◌then◌else◌,
}
use tig_swarm_demo.Supervisor.{find_fleet, pop_fleet, is_live, kill, running_in, stop_handles}

pub find-pop :
    (u v : ℕ) (fleets : List (ℕ × ℕ))
    → find_fleet v (pop_fleet u fleets) ≡ (if u == v then none else find_fleet v fleets)
unfolding find_fleet pop_fleet
find-pop u v [] = ground arith
find-pop u v ((w, g) ∷ fleets) = ground (arith, find-pop u v fleets)

pub find-set :
    (u v h : ℕ) (fleets : List (ℕ × ℕ))
    → find_fleet v (pop_fleet u fleets ++ (u, h) ∷ [])
      ≡ (if u == v then some h else find_fleet v fleets)
unfolding find_fleet pop_fleet
find-set u v h [] = ground arith
find-set u v h ((w, g) ∷ fleets) = ground (arith, find-set u v h fleets)

pub live-kill :
    (live : List ℕ) (h g : ℕ) → is_live (kill live h) g ≡ (is_live live g && not (g == h))
unfolding is_live kill
live-kill [] h g = refl
live-kill (k ∷ live) h g = ground (arith, live-kill live h g)

pub live-stop_handles :
    (live : List ℕ) (fleets : List (ℕ × ℕ)) (g : ℕ)
    → is_live (stop_handles live fleets) g ≡ true
    → is_live live g ≡ true
unfolding stop_handles
live-stop_handles live [] g e = e
live-stop_handles live ((u, h) ∷ fleets) g e =
    ground (arith, live-kill live h g, live-stop_handles (kill live h) fleets g e)

-- Every registered handle is dead after the loop.
pub stopped_is_dead :
    (live : List ℕ) (fleets : List (ℕ × ℕ)) (u g : ℕ)
    → find_fleet u fleets ≡ some g
    → is_live (stop_handles live fleets) g ≡ false
unfolding stop_handles find_fleet
stopped_is_dead live [] u g e = absurd (cc (e))
stopped_is_dead live ((v, h) ∷ fleets) u g e =
    elim (Bool-cases (is_live (stop_handles (kill live h) fleets) g)) [
      | inr dead ↦ dead
      | inl alive ↦ (elim (Bool-cases (v == u)) [
        | inl same ↦
            ground
              (arith, same, e, live-kill live h g, live-stop_handles (kill live h) fleets g alive)
        | inr other ↦ stopped_is_dead (kill live h) fleets u g (rw other at e)
      ])
    ]

-- No two entries of one user.
abbrev pub IsUnique : List (ℕ × ℕ) → Type 0
IsUnique [] = Unit
IsUnique ((u, h) ∷ fleets) = (find_fleet u fleets ≡ none) × IsUnique fleets

pub pop-IsUnique : (u : ℕ) (fleets : List (ℕ × ℕ)) → IsUnique fleets → IsUnique (pop_fleet u fleets)
unfolding pop_fleet
pop-IsUnique u [] h = tt
pop-IsUnique u ((v, g) ∷ fleets) h = elim (Bool-cases (v == u)) [
  | inl same ↦ rw same (pop-IsUnique u fleets h.1)
  | inr other ↦ rw other (ground (arith, other, find-pop u v fleets, h), pop-IsUnique u fleets h.1)
]

-- Entering a fleet behind the others, for a user without one.
append-find :
    (u h w : ℕ) (fleets : List (ℕ × ℕ))
    → find_fleet w fleets ≡ none
    → w ≢ u
    → find_fleet w (fleets ++ (u, h) ∷ []) ≡ none
unfolding find_fleet
append-find u h w [] e apart = ground (arith, apart)
append-find u h w ((v, g) ∷ fleets) e apart = ground (arith, append-find u h w fleets)

append-IsUnique :
    (u h : ℕ) (fleets : List (ℕ × ℕ))
    → IsUnique fleets
    → find_fleet u fleets ≡ none
    → IsUnique (fleets ++ (u, h) ∷ [])
unfolding find_fleet
append-IsUnique u h [] k e = (refl, tt)
append-IsUnique u h ((v, g) ∷ fleets) k e = elim (Bool-cases (v == u)) [
  | inl same ↦ absurd (cc (rw same at e))
  | inr other ↦ (
    append-find u h v fleets k.0 (λ p. ground (arith, other, p)),
    append-IsUnique u h fleets k.1 (rw other at e),
  )
]

pub set-IsUnique :
    (u h : ℕ) (fleets : List (ℕ × ℕ))
    → IsUnique fleets
    → IsUnique (pop_fleet u fleets ++ (u, h) ∷ [])
set-IsUnique u h fleets k =
    append-IsUnique u h (pop_fleet u fleets) (pop-IsUnique u fleets k)
      (rw find-pop (rw (eqb_refl u) refl))

-- Whether a registered handle is live.
abbrev pub runs : List ℕ → Option ℕ → Bool
runs live none = false
runs live (some h) = is_live live h

-- The users of the listing are those whose registered handle is live.
pub is_listed :
    (live : List ℕ) (fleets : List (ℕ × ℕ)) (v : ℕ)
    → IsUnique fleets
    → is_live (running_in live fleets) v ≡ runs live (find_fleet v fleets)
unfolding running_in find_fleet is_live
is_listed live [] v k = refl
is_listed live ((u, h) ∷ fleets) v k = elim (Bool-cases (u == v)) [
  | inl same ↦
      let at : u ≡ v = ground (arith, same) in
      let nobody : find_fleet v fleets ≡ none = subst (λ w. find_fleet w fleets ≡ none) at k.0 in
      let gone : is_live (running_in live fleets) v ≡ false =
        is_listed live fleets v k.1 ∙ ap (runs live) nobody in
      rw same (listed_head (is_live live h) gone (ground (arith, at)))
  | inr other ↦ rw other (listed_rest (is_live live h) (is_listed live fleets v k.1) other)
]
  where
    listed_head :
        (alive : Bool)
        → is_live (running_in live fleets) v ≡ false
        → (u == v) ≡ true
        → is_live (if alive then u ∷ running_in live fleets else running_in live fleets) v ≡ alive
    listed_head true gone same = rw (same) refl
    listed_head false gone same = gone

    listed_rest :
        (alive : Bool)
        → is_live (running_in live fleets) v ≡ runs live (find_fleet v fleets)
        → (u == v) ≡ false
        → is_live (if alive then u ∷ running_in live fleets else running_in live fleets) v
          ≡ runs live (find_fleet v fleets)
    listed_rest true e other = rw other e
    listed_rest false e other = e
