-- ===== src/Enrollment.antt =====
-- runner/validation.py, runner/store.py and the calls of runner/service.py that enrol a contributor and
-- undo it. A username is a number, as in Supervisor. The rows of the store are the contents of the table
-- enrollments, in no order. Parameters: the text functions of Python, the two limits that the environment
-- sets, the vault's encryption, and what the coordination server answers.
use tig_swarm_demo.Prelude.{
  ℕ, ◌+◌, Bool, true, false, not, ◌&&◌, ◌||◌, Option, none, some, List, [], ◌∷◌, ◌++◌, String,
  str_eq, ◌==◌, ltb, if◌then◌else◌, length, or_else,
}
use tig_swarm_demo.Supervisor.{Supervisor, find_fleet, pop_fleet, kill, start_fleet, stop_fleet}
pub mod Service
pub mod Counts
pub mod Admitted
pub mod Limits
mod Tests

-- an entry of the plan's "agents"; a field left out is the empty text
pub record HostedAgent : Type 0 where
  pub name : String
  pub provider : String
  pub api_base : String
  pub compute : String
  pub api_key_env : String

-- ipaddress.ip_address(...)
pub record IpAddress : Type 0 where
  pub is_loopback : Bool
  pub is_private : Bool
  pub is_link_local : Bool

-- the text functions that the code calls; hostname is urllib's, `none` where urlsplit raises and empty
-- for no host
pub record Python : Type 0 where
  pub strip : String → String
  pub lower : String → String
  pub contains : String → String → Bool
  pub endswith : String → String → Bool
  pub concat : String → String → String
  pub hostname : String → Option String
  pub ip_address : String → Option IpAddress
  pub first : ℕ → String → String

-- RUNNER_MAX_AGENTS_PER_CONTRIBUTOR and RUNNER_MAX_TOTAL_AGENTS
pub record Caps : Type 0 where
  pub per_contributor : ℕ
  pub total : ℕ

unfoldable pub is_one_of : List String → String → Bool
is_one_of [] s = false
is_one_of (t ∷ ts) s = str_eq t s || is_one_of ts s

abbrev pub agentic_providers : List String
agentic_providers = "claude-code" ∷ "claude-code-agentic" ∷ "codex-agentic" ∷ []

abbrev pub local_host_suffixes : List String
local_host_suffixes = ".local" ∷ ".internal" ∷ ".lan" ∷ ".home.arpa" ∷ []

unfoldable pub ends_with_any : Python → List String → String → Bool
ends_with_any py [] s = false
ends_with_any py (t ∷ ts) s = py.endswith s t || ends_with_any py ts s

unfoldable pub is_local_ip : Option IpAddress → Bool
is_local_ip none = false
is_local_ip (some ip) = ip.is_loopback || ip.is_private || ip.is_link_local

-- _is_local_api_base, from the host on
unfoldable pub is_local_host : Python → String → Bool
unfolding ends_with_any is_local_ip
is_local_host py host =
    if str_eq host ""
    then false
    else str_eq host "localhost"
      || ends_with_any py local_host_suffixes host
      || is_local_ip (py.ip_address host)

-- _is_local_api_base; `none` where urlsplit raises
unfoldable pub is_local_api_base : Python → String → Option Bool
unfolding is_local_host
is_local_api_base py api_base =
    let raw = py.strip api_base in
    let url = if py.contains raw "://" then raw else py.concat "http://" raw in
    if str_eq raw "" then some false else elim (py.hostname url) [
      | none ↦ none
      | some host ↦ some (is_local_host py (py.lower (py.strip host)))
    ]

-- the ways a plan is refused: the reasons of EnrollmentError, and any other exception
pub data Refusal : Type 0 where
  no_agents over_cap at_capacity : Refusal
  agentic local_endpoint wrong_compute : String → String → Refusal
  crashed : Refusal

-- `x or d`
abbrev pub or_text : String → String → String
or_text s d = if str_eq s "" then d else s

-- the body of validate_plan's loop
unfoldable pub refuse_agent : Python → HostedAgent → Option Refusal
unfolding is_one_of is_local_api_base
refuse_agent py a =
    let name = or_text a.name "?" in
    let provider = py.strip a.provider in
    let api_base = py.strip a.api_base in
    let compute = py.strip a.compute in
    if is_one_of agentic_providers provider
    then some (agentic name provider)
    else elim (is_local_api_base py api_base) [
      | none ↦ some crashed
      | some true ↦ some (local_endpoint name api_base)
      | some false ↦
          if str_eq compute "c3" then none else some (wrong_compute name (or_text compute "local"))
    ]

-- validate_plan's loop
unfoldable pub refuse_agents : Python → List HostedAgent → Option Refusal
unfolding refuse_agent
refuse_agents py [] = none
refuse_agents py (a ∷ agents) =
    let rest = refuse_agents py agents in elim (refuse_agent py a) [ some r ↦ some r | none ↦ rest ]

-- (config or {}).get("agents") or []
abbrev pub agents_of : Option (List HostedAgent) → List HostedAgent
agents_of config = or_else config []

-- validate_plan: `none` where it returns the agents
unfoldable pub validate_plan : Python → Caps → Option (List HostedAgent) → ℕ → Option Refusal
unfolding refuse_agents
validate_plan py caps config existing_total_agents =
    let agents = agents_of config in
    if length agents == 0
    then some no_agents
    else if ltb caps.per_contributor (length agents)
    then some over_cap
    else if ltb caps.total (existing_total_agents + length agents)
    then some at_capacity
    else refuse_agents py agents

-- names.add(env), a set as a list without repetition
unfoldable pub add_name : String → List String → List String
unfolding is_one_of
add_name env names = if is_one_of names env then names else names ++ env ∷ []

-- required_env_vars, from the names that are there
unfoldable pub add_env_vars : Python → List HostedAgent → List String → List String
unfolding add_name
add_env_vars py [] names = names
add_env_vars py (a ∷ agents) names =
    let env = py.strip a.api_key_env in
    add_env_vars py agents (if str_eq env "" then names else add_name env names)

unfoldable pub required_env_vars : Python → List HostedAgent → List String
unfolding add_env_vars
required_env_vars py agents = add_env_vars py agents ("C3_API_KEY" ∷ [])

-- required_env_vars(agents) - set(keys)
unfoldable pub missing_from : List String → List String → List String
unfolding is_one_of
missing_from given [] = []
missing_from given (n ∷ names) =
    let rest = missing_from given names in if is_one_of given n then rest else n ∷ rest
