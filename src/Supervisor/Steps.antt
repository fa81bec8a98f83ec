-- ===== src/Supervisor/Steps.antt =====
-- Each call of the supervisor (runner/supervisor.py) refines its specification, and so does every
-- sequence of calls.
use mathlib.Core.Path.{fun_ext}
use tig_swarm_demo.Prelude.{
  ℕ, ◌+◌, ◌<◌, ◌≡◌, ◌⊎◌, refl, sym, ap, ◌∙◌, subst, inl, inr, true, false, ◌||◌, none, some, List,
  [], ◌∷◌, ◌++◌, arith, ◌==◌, eqb_refl, Bool-cases, Option-cases, if◌then◌else◌, map_option,
}
use tig_swarm_demo.Supervisor.{
  Supervisor, find_fleet, pop_fleet, is_live, Answer, said, start_fleet, stop_fleet, is_running,
  stop_handles, Op, start, stop, ask, running_usernames, stop_all, exits, step,
}
use tig_swarm_demo.Supervisor.Registry.{
  find-pop, find-set, live-kill, live-stop_handles, stopped_is_dead, pop-IsUnique, set-IsUnique,
  runs, is_listed,
}
use tig_swarm_demo.Supervisor.Refinement.{
  told, members, spec, spec_run, run, view, seen_of, seen_all, IsSound, Refines, view-pop, view-set,
  survivor, others_stopped, stopped, runs_now,
}

module _ (s : Supervisor) (k : IsSound s) where
  -- A fleet that is found after a pop was there before, for another user.
  found_after_pop :
      (u v h : ℕ) → find_fleet v (pop_fleet u s.fleets) ≡ some h → find_fleet v s.fleets ≡ some h
  found_after_pop u v h e = elim (Bool-cases (u == v)) [
    | inl same ↦
        absurd
          (cc (e, find-pop u v s.fleets, ap (λ b. if b then none else find_fleet v s.fleets) same))
    | inr apart ↦ sym (find-pop u v s.fleets ∙ rw apart refl) ∙ e
  ]

  still_there :
      (u v h : ℕ)
      → (u == v) ≡ false
      → find_fleet v s.fleets ≡ some h
      → find_fleet v (pop_fleet u s.fleets) ≡ some h
  still_there u v h apart e = find-pop u v s.fleets ∙ rw apart e

  popped-IsSound :
      (u : ℕ) → IsSound (record s { fleets = pop_fleet u s.fleets; live = stopped s k u })
  popped-IsSound u = record {
    unique = pop-IsUnique u s.fleets k.unique;
    issued = λ v h e. k.issued v h (found_after_pop u v h e);
    owned = λ v w h e e'. k.owned v w h (found_after_pop u v h e) (found_after_pop u w h e');
    no_orphan = λ h alive.
        let (v, apart, there) = survivor s k u h alive in (v, still_there u v h apart there);
  }

  -- What is found after a start: the new handle for its user, the old ones for the others.
  found_after_set :
      (u v h : ℕ)
      → find_fleet v (pop_fleet u s.fleets ++ (u, s.next) ∷ []) ≡ some h
      → ((u ≡ v) × (h ≡ s.next)) ⊎ (find_fleet v s.fleets ≡ some h)
  found_after_set u v h e = elim (Bool-cases (u == v)) [
    | inl same ↦ inl (ground (arith, same, e, find-set u v s.next s.fleets))
    | inr apart ↦ inr (sym (find-set u v s.next s.fleets ∙ rw apart refl) ∙ e)
  ]

  set-IsSound :
      (u : ℕ)
      → IsSound (record {
        fleets = pop_fleet u s.fleets ++ (u, s.next) ∷ [];
        next = s.next + 1;
        live = s.next ∷ stopped s k u;
      })
  unfolding is_live
  set-IsSound u = record {
    unique = set-IsUnique u s.next s.fleets k.unique;
    issued = λ v h e. issued_now v h (found_after_set u v h e);
    owned = λ v w h e e'. owned_now v w h (found_after_set u v h e) (found_after_set u w h e');
    no_orphan = λ h alive. orphan_free h (Bool-cases (s.next == h)) alive;
  }
    where
      issued_now :
          (v h : ℕ) → ((u ≡ v) × (h ≡ s.next)) ⊎ (find_fleet v s.fleets ≡ some h) → h < s.next + 1
      issued_now v h (inl (at, new)) = omega (arith, new)
      issued_now v h (inr e) = omega (arith, k.issued v h e)

      owned_now :
          (v w h : ℕ)
          → ((u ≡ v) × (h ≡ s.next)) ⊎ (find_fleet v s.fleets ≡ some h)
          → ((u ≡ w) × (h ≡ s.next)) ⊎ (find_fleet w s.fleets ≡ some h)
          → v ≡ w
      owned_now v w h (inl (a, new)) (inl (b, new')) = sym a ∙ b
      owned_now v w h (inl (a, new)) (inr e) = absurd (omega (arith, new, k.issued w h e))
      owned_now v w h (inr e) (inl (b, new)) = absurd (omega (arith, new, k.issued v h e))
      owned_now v w h (inr e) (inr e') = k.owned v w h e e'

      orphan_free :
          (h : ℕ)
          → ((s.next == h) ≡ true) ⊎ ((s.next == h) ≡ false)
          → (s.next == h || is_live (stopped s k u) h) ≡ true
          → (v : ℕ) × (find_fleet v (pop_fleet u s.fleets ++ (u, s.next) ∷ []) ≡ some h)
      orphan_free h (inl new) alive =
          (u, find-set u u s.next s.fleets ∙ rw (eqb_refl u) (ground (arith, new)))
      orphan_free h (inr old) alive =
          let (v, apart, there) = survivor s k u h (rw old at alive) in
          (v, find-set u v s.next s.fleets ∙ rw apart there)

  exited-IsSound : (u : ℕ) → IsSound (record s { live = stopped s k u })
  exited-IsSound u = record {
    unique = k.unique;
    issued = k.issued;
    owned = k.owned;
    no_orphan = λ h alive. let (v, apart, there) = survivor s k u h alive in (v, there);
  }

  cleared-IsSound : IsSound (record s { fleets = []; live = stop_handles s.live s.fleets })
  unfolding find_fleet
  cleared-IsSound = record {
    unique = tt;
    issued = λ u h e. absurd (cc (e));
    owned = λ u v h e e'. absurd (cc (e));
    no_orphan = λ h alive.
        let (v, there) = k.no_orphan h (live-stop_handles s.live s.fleets h alive) in
        absurd (cc (alive, stopped_is_dead s.live s.fleets v h there));
  }

  absent :
      (u : ℕ)
      → find_fleet u s.fleets ≡ none
      → (v : ℕ) → view s v ≡ (if u == v then none else view s v)
  unfolding view
  absent u e v = elim (Bool-cases (u == v)) [
    | inl same ↦
        let at : u ≡ v = ground (arith, same) in
        rw same (ap (map_option (is_live s.live)) (subst (λ w. find_fleet w s.fleets ≡ none) at e))
    | inr apart ↦ rw apart refl
  ]

  refine_by :
      (op : Op) (r : Answer × Supervisor)
      → step op s ≡ r
      → seen_of r.0 ≡ (spec op (view s)).0
      → view r.1 ≡ (spec op (view s)).1
      → IsSound r.1
      → Refines op s
  refine_by op r e a b c = record {
    answer = ap (λ (x : Answer × Supervisor). seen_of x.0) e ∙ a;
    registry = ap (λ (x : Answer × Supervisor). view x.1) e ∙ b;
    sound = subst (λ (x : Answer × Supervisor). IsSound x.1) (sym e) c;
  }

  stop_unknown : (u : ℕ) → find_fleet u s.fleets ≡ none → step (stop u) s ≡ (said false, s)
  unfolding step stop_fleet
  stop_unknown u e = rw (stop_fleet, e) refl

  stop_known :
      (u h : ℕ)
      → find_fleet u s.fleets ≡ some h
      → step (stop u) s
        ≡ (said true, record s { fleets = pop_fleet u s.fleets; live = stopped s k u })
  unfolding step stop_fleet
  stop_known u h e = rw (stop_fleet, e) refl

  stop-Refines : (u : ℕ) → Refines (stop u) s
  unfolding spec seen_of view
  stop-Refines u = elim (Option-cases (find_fleet u s.fleets)) [
    | inl e ↦
        refine_by (stop u) (said false, s) (stop_unknown u e) (rw e refl) (fun_ext (absent u e)) k
    | inr (h, e) ↦
        refine_by (stop u) _ (stop_known u h e) (rw e refl) (fun_ext (view-pop s k u))
          (popped-IsSound u)
  ]

  exited_own :
      (u : ℕ)
      → map_option (is_live (stopped s k u)) (find_fleet u s.fleets)
        ≡ map_option (λ _. false) (view s u)
  unfolding view
  exited_own u = elim (Option-cases (find_fleet u s.fleets)) [
    | inl e ↦ rw e refl
    | inr (h, e) ↦ rw e (ap some (live-kill s.live h h ∙ ground (arith)))
  ]

  runs_view : (v : ℕ) → runs s.live (find_fleet v s.fleets) ≡ runs_now (view s v)
  unfolding view
  runs_view v = elim (Option-cases (find_fleet v s.fleets)) [
    | inl e ↦ rw e refl
    | inr (h, e) ↦ rw e refl
  ]

  asked : (u : ℕ) → is_running s u ≡ runs s.live (find_fleet u s.fleets)
  unfolding is_running
  asked u = elim (Option-cases (find_fleet u s.fleets)) [
    | inl e ↦ rw (is_running, e) refl
    | inr (h, e) ↦ rw (is_running, e) refl
  ]

  exited_view :
      (u v : ℕ)
      → map_option (is_live (stopped s k u)) (find_fleet v s.fleets)
        ≡ (if u == v then map_option (λ _. false) (view s v) else view s v)
  unfolding view
  exited_view u v = elim (Bool-cases (u == v)) [
    | inr apart ↦ rw apart (others_stopped s k u v apart)
    | inl same ↦
        let at : u ≡ v = ground (arith, same) in
        rw same (
          subst
            (λ w.
              map_option (is_live (stopped s k u)) (find_fleet w s.fleets)
              ≡ map_option (λ _. false) (view s w))
            at (exited_own u))
  ]

  step-Refines : (op : Op) → Refines op s
  unfolding step spec seen_of view start_fleet is_running
  step-Refines (start u true) = record {
    answer = refl;
    registry = fun_ext (view-set s k u);
    sound = set-IsSound u;
  }
  step-Refines (start u false) = record {
    answer = refl;
    registry = fun_ext (view-pop s k u);
    sound = popped-IsSound u;
  }
  step-Refines (stop u) = stop-Refines u
  step-Refines (ask u) = record {
    answer = ap told (asked u ∙ runs_view u);
    registry = refl;
    sound = k;
  }
  step-Refines running_usernames = record {
    answer = ap members (fun_ext (λ v. is_listed s.live s.fleets v k.unique ∙ runs_view v));
    registry = refl;
    sound = k;
  }
  step-Refines stop_all = record { answer = refl; registry = refl; sound = cleared-IsSound }
  step-Refines (exits u) = record {
    answer = refl;
    registry = fun_ext (λ v. exited_view u v);
    sound = exited-IsSound u;
  }

-- What a sequence of calls promises.
pub record RunRefines (ops : List Op) (s : Supervisor) : Type 0 where
  pub answers : seen_all (run ops s).0 ≡ (spec_run ops (view s)).0
  pub registry : view (run ops s).1 ≡ (spec_run ops (view s)).1
  pub sound : IsSound (run ops s).1

-- The supervisor refines a map from users to running or finished fleets. Over any sequence of calls
-- that do not overlap, with launches that fail and processes that end by themselves in between, every
-- answer is that of the map: a start replaces the user's fleet by a running one, or removes it if the
-- launch fails; a stop removes it and says whether there was one, running or finished; a question and the
-- listing tell the users whose fleet runs. And after every sequence each running process belongs to a
-- registered user, and to one only.
pub run_refines : (ops : List Op) (s : Supervisor) → IsSound s → RunRefines ops s
unfolding run spec_run seen_all
run_refines [] s k = record { answers = refl; registry = refl; sound = k }
run_refines (op ∷ ops) s k =
    let one = step-Refines s k op in
    let rest = run_refines ops (step op s).1 one.sound in
    record {
      answers =
          ap (λ a. a ∷ seen_all (run ops (step op s).1).0) one.answer
          ∙ ap (λ rest'. (spec op (view s)).0 ∷ rest')
              (rest.answers ∙ ap (λ f. (spec_run ops f).0) one.registry);
      registry = rest.registry ∙ ap (λ f. (spec_run ops f).1) one.registry;
      sound = rest.sound;
    }
