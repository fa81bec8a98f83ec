-- ===== src/Enrollment/Admitted.antt =====
-- The limits on hosted fleets: what a plan that runner/validation.py accepts has, and what the writes of
-- runner/store.py keep.
use tig_swarm_demo.Prelude.{
  ℕ, ◌+◌, ◌≤◌, ◌≡◌, refl, sym, ap, subst, inl, inr, true, false, Option, none, some, List, [], ◌∷◌,
  ◌++◌, String, str_eq, arith, Bool-cases, Option-cases, length, All, All-append, All-update,
  All-delete, select_all, delete,
}
use tig_swarm_demo.Enrollment.{
  HostedAgent, Python, Caps, agentic_providers, is_one_of, is_local_api_base, refuse_agent,
  refuse_agents, agents_of, validate_plan,
}
use tig_swarm_demo.Enrollment.Counts.{
  count-append, count-delete, count-select-delete, count-select-delete_same, select_all-append,
  count-update, select_all-update,
}
use tig_swarm_demo.Enrollment.Service.{Enrolment, is_of, set_status, count_agents, Setting}

-- What a hosted agent must be: an API provider, an endpoint that the runner can reach, and cloud compute.
pub record IsHostable (py : Python) (a : HostedAgent) : Type 0 where
  pub provider : is_one_of agentic_providers (py.strip a.provider) ≡ false
  pub endpoint : is_local_api_base py (py.strip a.api_base) ≡ some false
  pub compute : str_eq (py.strip a.compute) "c3" ≡ true

-- Within the limits: of the runner, of each contributor, and on each agent.
pub record IsWithin (env : Setting) (rows : List Enrolment) : Type 0 where
  pub total : count_agents rows ≤ env.caps.total
  pub each : (u : ℕ) → count_agents (select_all (is_of u) rows) ≤ env.caps.per_contributor
  pub hosted : All (λ r. All (IsHostable env.py) (agents_of r.config)) rows

refuse_agent-IsHostable :
    (py : Python) (a : HostedAgent) → refuse_agent py a ≡ none → IsHostable py a
unfolding refuse_agent
refuse_agent-IsHostable py a e = record {
  provider = ground (arith, e);
  endpoint = ground (arith, e);
  compute = ground (arith, e);
}

refuse_agents-All :
    (py : Python) (agents : List HostedAgent)
    → refuse_agents py agents ≡ none
    → All (IsHostable py) agents
unfolding refuse_agents
refuse_agents-All py [] e = tt
refuse_agents-All py (a ∷ agents) e = elim (Option-cases (refuse_agent py a)) [
  | inl f ↦
      (refuse_agent-IsHostable py a f, refuse_agents-All py agents (rw (f, refuse_agents) at e))
  | inr (r, f) ↦ absurd (cc (rw (f, refuse_agents) at e))
]

pub validate_plan_lem :
    (py : Python) (caps : Caps) (config : Option (List HostedAgent)) (others : ℕ)
    → validate_plan py caps config others ≡ none
    → (length (agents_of config) ≤ caps.per_contributor)
      × (others + length (agents_of config) ≤ caps.total)
      × (refuse_agents py (agents_of config) ≡ none)
unfolding validate_plan
validate_plan_lem py caps config others e =
    (ground (arith, e), ground (arith, e), ground (arith, e))

-- A row of a plan that passed takes the place of the user's rows.
pub stored-IsWithin :
    (env : Setting) (rows : List Enrolment) (r : Enrolment)
    → validate_plan env.py env.caps r.config (count_agents (delete (is_of r.username) rows)) ≡ none
    → IsWithin env rows
    → IsWithin env (delete (is_of r.username) rows ++ r ∷ [])
unfolding count_agents select_all
stored-IsWithin env rows r e within = record {
  total = omega (arith, count-append others (r ∷ []), passed.1);
  each = λ v. elim (Bool-cases (is_of v r)) [
    | inl same ↦ omega (
      arith,
      ap count_agents (select_all-append (is_of v) others (r ∷ [])),
      count-append (select_all (is_of v) others) (select_all (is_of v) (r ∷ [])),
      one v same,
      none_left v same,
      passed.0,
    )
    | inr other ↦ omega (
      arith,
      ap count_agents (select_all-append (is_of v) others (r ∷ [])),
      count-append (select_all (is_of v) others) (select_all (is_of v) (r ∷ [])),
      zero_left v other,
      count-select-delete (is_of r.username) (is_of v) rows,
      within.each v,
    )
  ];
  hosted =
      All-append (λ x. All (IsHostable env.py) (agents_of x.config)) others (r ∷ [])
        (All-delete _ (is_of r.username) rows within.hosted)
        (refuse_agents-All env.py (agents_of r.config) passed.2, tt);
}
  where
    others : List Enrolment
    others = delete (is_of r.username) rows

    passed :
        (length (agents_of r.config) ≤ env.caps.per_contributor)
        × (count_agents others + length (agents_of r.config) ≤ env.caps.total)
        × (refuse_agents env.py (agents_of r.config) ≡ none)
    passed = validate_plan_lem env.py env.caps r.config (count_agents others) e

    one :
        (v : ℕ)
        → is_of v r ≡ true
        → count_agents (select_all (is_of v) (r ∷ [])) ≡ length (agents_of r.config)
    one v same = ground arith

    zero_left : (v : ℕ) → is_of v r ≡ false → count_agents (select_all (is_of v) (r ∷ [])) ≡ 0
    zero_left v other = ground arith

    none_left : (v : ℕ) → is_of v r ≡ true → count_agents (select_all (is_of v) others) ≡ 0
    none_left v same =
        subst (λ u. count_agents (select_all (is_of u) others) ≡ 0) (sym (ground (arith, same)))
          (count-select-delete_same (is_of r.username) rows)

pub set_status-IsWithin :
    (env : Setting) (u : ℕ) (status : String) (now : ℕ) (error : Option String)
    (rows : List Enrolment)
    → IsWithin env rows
    → IsWithin env (set_status u status now error rows)
unfolding set_status
set_status-IsWithin env u status now error rows within = record {
  total = omega (arith, count-update f (λ r. refl) (is_of u) rows, within.total);
  each = λ v.
      omega (
        arith,
        select_all-update f (λ r. refl) (is_of u) (is_of v) rows (λ r. refl),
        within.each v,
      );
  hosted = All-update _ (is_of u) f rows (λ r h. h) within.hosted;
}
  where
    f : Enrolment → Enrolment
    f r = record r { status = status; last_error = error; updated_at = now }

pub delete-IsWithin :
    (env : Setting) (u : ℕ) (rows : List Enrolment)
    → IsWithin env rows
    → IsWithin env (delete (is_of u) rows)
delete-IsWithin env u rows within = record {
  total = omega (arith, count-delete (is_of u) rows, within.total);
  each = λ v. omega (arith, count-select-delete (is_of u) (is_of v) rows, within.each v);
  hosted = All-delete _ (is_of u) rows within.hosted;
}
