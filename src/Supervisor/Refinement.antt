-- ===== src/Supervisor/Refinement.antt =====
-- What the supervisor (runner/supervisor.py) promises: one fleet for each user, running or finished.
use tig_swarm_demo.Prelude.{
  ℕ, ◌<◌, ◌≡◌, ◌≢◌, refl, sym, ap, ◌∙◌, inl, inr, Bool, true, false, not, ◌&&◌, Option, none, some,
  List, [], ◌∷◌, ◌++◌, arith, ◌==◌, eqb_refl, Bool-cases, Option-cases, if◌then◌else◌, is_some,
  map_option,
}
use tig_swarm_demo.Supervisor.{
  Supervisor, find_fleet, pop_fleet, is_live, kill, stop_existing, Answer, done, raised, said,
  listed, Op, start, stop, ask, running_usernames, stop_all, exits, step,
}
use tig_swarm_demo.Supervisor.Registry.{find-pop, find-set, live-kill, IsUnique}

-- A user has no fleet, a finished one, or a running one.
abbrev pub Registry : Type 0
Registry = ℕ → Option Bool

-- What a client sees, with the set of users in place of a list.
pub data Seen : Type 0 where
  finished failed : Seen
  told : Bool → Seen
  members : (ℕ → Bool) → Seen

abbrev pub runs_now : Option Bool → Bool
runs_now none = false
runs_now (some b) = b

-- the specification of each call
unfoldable pub spec : Op → Registry → Seen × Registry
spec (start u true) f = (finished, λ v. if u == v then some true else f v)
spec (start u false) f = (failed, λ v. if u == v then none else f v)
spec (stop u) f = (told (is_some (f u)), λ v. if u == v then none else f v)
spec (ask u) f = (told (runs_now (f u)), f)
spec running_usernames f = (members (λ v. runs_now (f v)), f)
spec stop_all f = (finished, λ v. none)
spec (exits u) f = (finished, λ v. if u == v then map_option (λ _. false) (f v) else f v)

unfoldable pub spec_run : List Op → Registry → List Seen × Registry
unfolding spec
spec_run [] f = ([], f)
spec_run (op ∷ ops) f =
    let (seen, g) = spec op f in let (rest, last) = spec_run ops g in (seen ∷ rest, last)

-- the calls one after the other
unfoldable pub run : List Op → Supervisor → List Answer × Supervisor
unfolding step
run [] s = ([], s)
run (op ∷ ops) s =
    let (answer, t) = step op s in let (rest, last) = run ops t in (answer ∷ rest, last)

unfoldable pub view : Supervisor → Registry
unfolding find_fleet is_live
view s v = map_option (is_live s.live) (find_fleet v s.fleets)

unfoldable pub seen_of : Answer → Seen
seen_of done = finished
seen_of raised = failed
seen_of (said b) = told b
seen_of (listed users) = members (is_live users)

unfoldable pub seen_all : List Answer → List Seen
unfolding seen_of
seen_all [] = []
seen_all (a ∷ answers) = seen_of a ∷ seen_all answers

-- Handles are issued, belong to one user each, and no process runs that is not registered.
pub record IsSound (s : Supervisor) : Type 0 where
  pub unique : IsUnique s.fleets
  pub issued : (u h : ℕ) → find_fleet u s.fleets ≡ some h → h < s.next
  pub owned : (u v h : ℕ) → find_fleet u s.fleets ≡ some h → find_fleet v s.fleets ≡ some h → u ≡ v
  pub no_orphan : (h : ℕ) → is_live s.live h ≡ true → (u : ℕ) × (find_fleet u s.fleets ≡ some h)

-- A call agrees with its specification and keeps the supervisor sound.
pub record Refines (op : Op) (s : Supervisor) : Type 0 where
  pub answer : seen_of (step op s).0 ≡ (spec op (view s)).0
  pub registry : view (step op s).1 ≡ (spec op (view s)).1
  pub sound : IsSound (step op s).1

module _ (s : Supervisor) (k : IsSound s) where
  -- Killing the handle of one user does not touch the fleets of the others.
  others_live :
      (u v h : ℕ)
      → (u == v) ≡ false
      → find_fleet u s.fleets ≡ some h
      → map_option (is_live (kill s.live h)) (find_fleet v s.fleets) ≡ view s v
  unfolding view
  others_live u v h apart e = elim (Option-cases (find_fleet v s.fleets)) [
    | inl none_there ↦ rw none_there refl
    | inr (g, there) ↦
        rw there
          (ap some (live-kill s.live h g ∙ spared (is_live s.live g) (g == h) (distinct g there)))
  ]
    where
      spared : (live same : Bool) → same ≡ false → (live && not same) ≡ live
      spared true same d = rw d refl
      spared false same d = refl

      distinct : (g : ℕ) → find_fleet v s.fleets ≡ some g → (g == h) ≡ false
      distinct g there = elim (Bool-cases (g == h)) [
        | inr no_same ↦ no_same
        | inl same ↦
            let at : g ≡ h = ground (arith, same) in
            absurd (ground (arith, apart, k.owned u v h e (there ∙ ap some at)))
      ]

  abbrev pub stopped : ℕ → List ℕ
  stopped u = stop_existing s.live (find_fleet u s.fleets)

  pub others_stopped :
      (u v : ℕ)
      → (u == v) ≡ false
      → map_option (is_live (stopped u)) (find_fleet v s.fleets) ≡ view s v
  unfolding view
  others_stopped u v apart = elim (Option-cases (find_fleet u s.fleets)) [
    | inl e ↦ rw e refl
    | inr (h, e) ↦ rw e (others_live u v h apart e)
  ]

  pub view-pop :
      (u v : ℕ)
      → map_option (is_live (stopped u)) (find_fleet v (pop_fleet u s.fleets))
        ≡ (if u == v then none else view s v)
  view-pop u v = elim (Bool-cases (u == v)) [
    | inl same ↦ rw (find-pop u v s.fleets, same) refl
    | inr apart ↦ rw (find-pop u v s.fleets, apart) (others_stopped u v apart)
  ]

  -- The new handle is not one of the registered ones.
  skip_new :
      (v : ℕ) (live : List ℕ)
      → map_option (is_live (s.next ∷ live)) (find_fleet v s.fleets)
        ≡ map_option (is_live live) (find_fleet v s.fleets)
  unfolding is_live
  skip_new v live = elim (Option-cases (find_fleet v s.fleets)) [
    | inl e ↦ rw e refl
    | inr (h, e) ↦ rw e (ground (arith, k.issued v h e))
  ]

  pub view-set :
      (u v : ℕ)
      → map_option
          (is_live (s.next ∷ stopped u))
          (find_fleet v (pop_fleet u s.fleets ++ (u, s.next) ∷ []))
        ≡ (if u == v then some true else view s v)
  unfolding is_live
  view-set u v = elim (Bool-cases (u == v)) [
    | inl same ↦ rw (find-set u v s.next s.fleets, same) (rw (eqb_refl s.next) refl)
    | inr apart ↦
        rw (find-set u v s.next s.fleets, apart) (skip_new v (stopped u) ∙ others_stopped u v apart)
  ]

  -- A process that outlives the stop of one user belongs to another.
  pub survivor :
      (u h : ℕ)
      → is_live (stopped u) h ≡ true
      → (v : ℕ) × ((u == v) ≡ false) × (find_fleet v s.fleets ≡ some h)
  survivor u h alive = elim (Option-cases (find_fleet u s.fleets)) [
    | inl e ↦
        let (v, there) = k.no_orphan h (rw e at alive) in
        (v, apart_of u v h (λ same. cc (e, there, ap (λ w. find_fleet w s.fleets) same)), there)
    | inr (g, e) ↦
        let kept : is_live (kill s.live g) h ≡ true = rw e at alive in
        let (v, there) = k.no_orphan h (ground (arith, kept, live-kill s.live g h)) in
        (
          v,
          apart_of u v h (λ same.
              killed_apart g h kept
                (some_inj g h (sym e ∙ (ap (λ w. find_fleet w s.fleets) same ∙ there)))),
          there,
        )
  ]
    where
      apart_of : (u v h : ℕ) → ¬ (u ≡ v) → (u == v) ≡ false
      apart_of u v h no_same = ground (arith, no_same)

      some_inj : (g h : ℕ) → some g ≡ some h → g ≡ h
      some_inj g h e = ground (arith, e)

      killed_apart : (g h : ℕ) → is_live (kill s.live g) h ≡ true → g ≢ h
      killed_apart g h kept same = ground (arith, kept, live-kill s.live g h, same)
