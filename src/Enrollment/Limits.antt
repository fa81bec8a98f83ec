-- ===== src/Enrollment/Limits.antt =====
-- The limits on hosted fleets, over any sequence of calls to the runner (runner/service.py).
use tig_swarm_demo.Prelude.{
  ℕ, ◌≡◌, refl, inl, inr, true, false, Option, none, some, List, [], ◌∷◌, String, Option-cases,
  if◌then◌else◌, delete,
}
use tig_swarm_demo.Enrollment.{
  HostedAgent, Refusal, no_agents, over_cap, at_capacity, agentic, local_endpoint, wrong_compute,
  crashed, validate_plan,
}
use tig_swarm_demo.Enrollment.Service.{
  is_of, Fetched, unavailable, upsert_enrollment, count_agents, Runner, auth_error, fetched,
  Response, Request, Setting, launch_fleet, settle_enroll, enroll_with, enroll, unenroll,
  admin_revoke,
}
use tig_swarm_demo.Enrollment.Admitted.{
  IsWithin, stored-IsWithin, set_status-IsWithin, delete-IsWithin,
}

-- the calls that change the enrollments
pub data RunnerCall : Type 0 where
  enrolls : Request → RunnerCall
  leaves : ℕ → RunnerCall
  revokes : Option ℕ → Option ℕ → RunnerCall

unfoldable pub serve_call : Setting → RunnerCall → Runner → Response × Runner
unfolding enroll unenroll admin_revoke
serve_call env (enrolls req) s = enroll env req s
serve_call env (leaves username) s = unenroll username s
serve_call env (revokes status username) s = admin_revoke status username s

unfoldable pub serve_all : Setting → List RunnerCall → Runner → List Response × Runner
unfolding serve_call
serve_all env [] s = ([], s)
serve_all env (call ∷ calls) s =
    let (response, t) = serve_call env call s in
    let (rest, last) = serve_all env calls t in (response ∷ rest, last)

launch_fleet-IsWithin :
    (env : Setting) (req : Request) (keys : List (String × String))
    (config : Option (List HostedAgent)) (s : Runner)
    → validate_plan env.py env.caps config (count_agents (delete (is_of req.username) s.rows))
      ≡ none
    → IsWithin env s.rows
    → IsWithin env (launch_fleet env req keys config s).1.rows
unfolding launch_fleet upsert_enrollment
launch_fleet-IsWithin env req keys config s e within = elim (Option-cases req.start_error) [
  | inl ok ↦ rw ok (set_status-IsWithin env req.username _ req.now _ _ stored)
  | inr (text, failed) ↦ rw failed (set_status-IsWithin env req.username _ req.now _ _ stored)
]
  where
    stored :
        IsWithin env (upsert_enrollment req.username (env.encrypt_map keys) config req.now s.rows)
    stored = stored-IsWithin env s.rows _ e within

settle_enroll-IsWithin :
    (env : Setting) (req : Request) (keys : List (String × String))
    (config : Option (List HostedAgent)) (checked : Option Refusal) (missing : List String)
    (s : Runner)
    → validate_plan env.py env.caps config (count_agents (delete (is_of req.username) s.rows))
      ≡ checked
    → IsWithin env s.rows
    → IsWithin env (settle_enroll env req keys config checked missing s).1.rows
unfolding settle_enroll
settle_enroll-IsWithin env req keys config (some crashed) missing s e within = within
settle_enroll-IsWithin env req keys config (some no_agents) missing s e within = within
settle_enroll-IsWithin env req keys config (some over_cap) missing s e within = within
settle_enroll-IsWithin env req keys config (some at_capacity) missing s e within = within
settle_enroll-IsWithin env req keys config (some (agentic a b)) missing s e within = within
settle_enroll-IsWithin env req keys config (some (local_endpoint a b)) missing s e within = within
settle_enroll-IsWithin env req keys config (some (wrong_compute a b)) missing s e within = within
settle_enroll-IsWithin env req keys config none (m ∷ ms) s e within = within
settle_enroll-IsWithin env req keys config none [] s e within =
    launch_fleet-IsWithin env req keys config s e within

enroll_with-IsWithin :
    (env : Setting) (req : Request) (keys : Option (List (String × String))) (fetch : Fetched)
    (s : Runner)
    → IsWithin env s.rows
    → IsWithin env (enroll_with env req keys fetch s).1.rows
unfolding enroll_with
enroll_with-IsWithin env req none fetch s within = within
enroll_with-IsWithin env req (some keys) (auth_error status) s within = within
enroll_with-IsWithin env req (some keys) (fetched config) s within =
    settle_enroll-IsWithin env req keys config _ _ s refl within

enroll-IsWithin :
    (env : Setting) (req : Request) (s : Runner)
    → IsWithin env s.rows
    → IsWithin env (enroll env req s).1.rows
unfolding enroll
enroll-IsWithin env req s within =
    elim env.vault_available
      as (λ b. IsWithin env (if b then served else (unavailable, s)).1.rows) [
        | true ↦ enroll_with-IsWithin env req req.keys req.config s within
        | false ↦ within
      ]
  where
    served : Response × Runner
    served = enroll_with env req req.keys req.config s

serve_call-IsWithin :
    (env : Setting) (call : RunnerCall) (s : Runner)
    → IsWithin env s.rows
    → IsWithin env (serve_call env call s).1.rows
unfolding serve_call unenroll admin_revoke
serve_call-IsWithin env (enrolls req) s within = enroll-IsWithin env req s within
serve_call-IsWithin env (leaves username) s within = delete-IsWithin env username s.rows within
serve_call-IsWithin env (revokes (some status) username) s within = within
serve_call-IsWithin env (revokes none none) s within = within
serve_call-IsWithin env (revokes none (some username)) s within =
    delete-IsWithin env username s.rows within

-- Over any sequence of calls to enroll, unenroll and admin_revoke, from enrollments that are within the
-- limits: the store never holds more agents than the runner's limit, nor for one contributor more than
-- the contributor's, and each of them uses an API provider, an endpoint that is not local, and cloud compute.
pub serve_all-IsWithin :
    (env : Setting) (calls : List RunnerCall) (s : Runner)
    → IsWithin env s.rows
    → IsWithin env (serve_all env calls s).1.rows
unfolding serve_all
serve_all-IsWithin env [] s within = within
serve_all-IsWithin env (call ∷ calls) s within =
    serve_all-IsWithin env calls (serve_call env call s).1 (serve_call-IsWithin env call s within)
