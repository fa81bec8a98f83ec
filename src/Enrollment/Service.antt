-- ===== src/Enrollment/Service.antt =====
-- runner/store.py, and the calls of runner/service.py that change the enrollments: enroll, unenroll and
-- admin_revoke. The text of an exception is an input of the call that may raise.
use tig_swarm_demo.Prelude.{
  ℕ, ◌+◌, Bool, not, Option, none, some, List, [], ◌∷◌, ◌++◌, map, String, ◌==◌, if◌then◌else◌,
  is_some, length, map_option, or_else, select, update, delete,
}
use tig_swarm_demo.Supervisor.{
  Supervisor, find_fleet, pop_fleet, kill, Answer, start_fleet, stop_fleet,
}
use tig_swarm_demo.Enrollment.{
  HostedAgent, Python, Caps, Refusal, crashed, agents_of, validate_plan, required_env_vars,
  missing_from,
}

-- a row of the table enrollments, its config as the value that its JSON text encodes
pub record Enrolment : Type 0 where
  pub username : ℕ
  pub encrypted_keys : String
  pub config : Option (List HostedAgent)
  pub status : String
  pub last_error : Option String
  pub created_at : ℕ
  pub updated_at : ℕ

abbrev pub is_of : ℕ → Enrolment → Bool
is_of username r = username == r.username

-- upsert_enrollment
unfoldable pub upsert_enrollment :
    ℕ → String → Option (List HostedAgent) → ℕ → List Enrolment → List Enrolment
unfolding select delete
upsert_enrollment username encrypted_keys config timestamp rows =
    let existing = select (is_of username) rows in
    delete (is_of username) rows
    ++ record {
      username = username;
      encrypted_keys = encrypted_keys;
      config = config;
      status = or_else (map_option (λ r. r.status) existing) "stopped";
      last_error = elim existing [ none ↦ none | some r ↦ r.last_error ];
      created_at = or_else (map_option (λ r. r.created_at) existing) timestamp;
      updated_at = timestamp;
    }
      ∷ []

-- set_status
unfoldable pub set_status : ℕ → String → ℕ → Option String → List Enrolment → List Enrolment
unfolding update
set_status username status timestamp error rows =
    update (is_of username)
      (λ r. record r { status = status; last_error = error; updated_at = timestamp }) rows

-- sum(len((store.config_of(r) or {}).get("agents") or []) for r in rows)
unfoldable pub count_agents : List Enrolment → ℕ
count_agents [] = 0
count_agents (r ∷ rows) = length (agents_of r.config) + count_agents rows

-- the runner: its store and its supervisor
pub record Runner : Type 0 where
  pub rows : List Enrolment
  pub supervisor : Supervisor

-- auth.fetch_contributor_config: an AuthError's status, or the config
pub data Fetched : Type 0 where
  auth_error : ℕ → Fetched
  fetched : Option (List HostedAgent) → Fetched

-- the answer to a call; a status carries the reason that its detail spells out
pub data Response : Type 0 where
  unavailable keys_invalid : Response
  auth_failed : ℕ → Response
  refused : Refusal → Response
  missing_keys : List String → Response
  start_failed : Response
  server_error : Response
  enrolled : ℕ → Response
  unenrolled : Response
  revoked : Answer → Response
  username_required : Response

-- the body of enroll: the key names and values, or `none` where the value is not a name→value object
pub record Request : Type 0 where
  pub username : ℕ
  pub keys : Option (List (String × String))
  pub config : Fetched
  pub start_error : Option String
  pub now : ℕ

-- what the code is given: Python's text functions, the limits, and the vault
pub record Setting : Type 0 where
  pub py : Python
  pub caps : Caps
  pub vault_available : Bool
  pub encrypt_map : List (String × String) → String

-- enroll, from the store on
unfoldable pub launch_fleet :
    Setting
    → Request
    → List (String × String)
    → Option (List HostedAgent)
    → Runner
    → Response × Runner
unfolding upsert_enrollment set_status select delete update start_fleet find_fleet pop_fleet kill
launch_fleet env req keys config s =
    let rows = upsert_enrollment req.username (env.encrypt_map keys) config req.now s.rows in
    let supervisor = (start_fleet s.supervisor req.username (not (is_some req.start_error))).1 in
    elim req.start_error [
      | none ↦ (
        enrolled (length (agents_of config)),
        record {
          rows = set_status req.username "running" req.now none rows;
          supervisor = supervisor;
        },
      )
      | some e ↦ (
        start_failed,
        record {
          rows = set_status req.username "error" req.now (some (env.py.first 300 e)) rows;
          supervisor = supervisor;
        },
      )
    ]

-- enroll, from what validate_plan raises and the missing keys on
unfoldable pub settle_enroll :
    Setting
    → Request
    → List (String × String)
    → Option (List HostedAgent)
    → Option Refusal
    → List String
    → Runner
    → Response × Runner
unfolding launch_fleet
settle_enroll env req keys config (some crashed) missing s = (server_error, s)
settle_enroll env req keys config (some r) missing s = (refused r, s)
settle_enroll env req keys config none (m ∷ ms) s = (missing_keys (m ∷ ms), s)
settle_enroll env req keys config none [] s = launch_fleet env req keys config s

-- enroll, from the keys and the config on
unfoldable pub enroll_with :
    Setting → Request → Option (List (String × String)) → Fetched → Runner → Response × Runner
unfolding settle_enroll validate_plan count_agents required_env_vars missing_from delete
enroll_with env req none fetch s = (keys_invalid, s)
enroll_with env req (some keys) (auth_error status) s = (auth_failed status, s)
enroll_with env req (some keys) (fetched config) s =
    let others = count_agents (delete (is_of req.username) s.rows) in
    settle_enroll env req keys config (validate_plan env.py env.caps config others)
      (missing_from (map (λ k. k.0) keys) (required_env_vars env.py (agents_of config))) s

-- POST /api/runner/enroll
unfoldable pub enroll : Setting → Request → Runner → Response × Runner
unfolding enroll_with
enroll env req s =
    if env.vault_available then enroll_with env req req.keys req.config s else (unavailable, s)

-- DELETE /api/runner/enroll
unfoldable pub unenroll : ℕ → Runner → Response × Runner
unfolding stop_fleet find_fleet pop_fleet kill delete
unenroll username s = (
  unenrolled,
  record {
    rows = delete (is_of username) s.rows;
    supervisor = (stop_fleet s.supervisor username).1;
  },
)

-- POST /api/runner/admin/revoke: the status of verify_admin's AuthError, if any, and the name given
unfoldable pub admin_revoke : Option ℕ → Option ℕ → Runner → Response × Runner
unfolding stop_fleet find_fleet pop_fleet kill delete
admin_revoke (some status) username s = (auth_failed status, s)
admin_revoke none none s = (username_required, s)
admin_revoke none (some username) s = (
  revoked (stop_fleet s.supervisor username).0,
  record {
    rows = delete (is_of username) s.rows;
    supervisor = (stop_fleet s.supervisor username).1;
  },
)
