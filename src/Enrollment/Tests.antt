-- ===== src/Enrollment/Tests.antt =====
-- Contributors that enrol at a runner for two agents each and three in all.
use tig_swarm_demo.Prelude.{
  ℕ, ◌≡◌, refl, arith, true, false, none, some, List, [], ◌∷◌, String, str_eq, select_all,
}
use tig_swarm_demo.Supervisor.{said}
use tig_swarm_demo.Enrollment.{
  HostedAgent, Python, at_capacity, over_cap, no_agents, agentic, wrong_compute, local_endpoint,
}
use tig_swarm_demo.Enrollment.Service.{
  count_agents, Runner, Request, Setting, fetched, refused, missing_keys, start_failed,
  server_error, enrolled, unenrolled, revoked,
}
use tig_swarm_demo.Enrollment.Admitted.{IsWithin}
use tig_swarm_demo.Enrollment.Limits.{
  RunnerCall, enrolls, leaves, revokes, serve_all, serve_all-IsWithin,
}

-- text functions that are enough for the texts below
abbrev python : Python
python = record {
  strip = λ s. s;
  lower = λ s. s;
  contains = λ s t. str_eq s "http://localhost";
  endswith = λ s t. false;
  concat = λ s t. t;
  hostname = λ s. elim (str_eq s "[") [
    | true ↦ none
    | false ↦ some (elim (str_eq s "http://localhost") [ true ↦ "localhost" | false ↦ s ])
  ];
  ip_address = λ s. none;
  first = λ n s. s;
}

abbrev setting : Setting
setting = record {
  py = python;
  caps = record { per_contributor = 2; total = 3 };
  vault_available = true;
  encrypt_map = λ keys. "token";
}

abbrev agent : String → String → String → HostedAgent
agent provider api_base compute = record {
  name = "";
  provider = provider;
  api_base = api_base;
  compute = compute;
  api_key_env = "LLM_KEY";
}

abbrev good : HostedAgent
good = agent "openai" "" "c3"

abbrev asks : ℕ → List HostedAgent → Request
asks username agents = record {
  username = username;
  keys = some (("C3_API_KEY", "a") ∷ ("LLM_KEY", "b") ∷ []);
  config = fetched (some agents);
  start_error = none;
  now = 5;
}

abbrev calls : List RunnerCall
calls =
    enrolls (asks 1 (good ∷ good ∷ []))
    ∷ enrolls (asks 2 (good ∷ good ∷ []))
    ∷ enrolls (asks 2 (good ∷ good ∷ good ∷ []))
    ∷ enrolls (asks 2 [])
    ∷ enrolls (asks 2 (agent "codex-agentic" "" "c3" ∷ []))
    ∷ enrolls (asks 2 (agent "openai" "http://localhost" "c3" ∷ []))
    ∷ enrolls (asks 2 (agent "openai" "[" "c3" ∷ []))
    ∷ enrolls (asks 2 (agent "openai" "" "" ∷ []))
    ∷ enrolls (record (asks 2 (good ∷ [])) { keys = some (("C3_API_KEY", "a") ∷ []) })
    ∷ enrolls (record (asks 2 (good ∷ [])) { start_error = some "full" })
    ∷ revokes none (some 1)
    ∷ enrolls (asks 2 (good ∷ good ∷ []))
    ∷ leaves 2
    ∷ []

abbrev fresh : Runner
fresh = record { rows = []; supervisor = record { fleets = []; next = 0; live = [] } }

-- An endpoint that urlsplit rejects, here "[", is an error of the server and not a refusal.
answers :
    (serve_all setting calls fresh).0
    ≡ enrolled 2
      ∷ refused at_capacity
      ∷ refused over_cap
      ∷ refused no_agents
      ∷ refused (agentic "?" "codex-agentic")
      ∷ refused (local_endpoint "?" "http://localhost")
      ∷ server_error
      ∷ refused (wrong_compute "?" "local")
      ∷ missing_keys ("LLM_KEY" ∷ [])
      ∷ start_failed
      ∷ revoked (said true)
      ∷ enrolled 2
      ∷ unenrolled
      ∷ []
unfolding serve_all
answers = refl

fresh-IsWithin : IsWithin setting []
unfolding count_agents select_all
fresh-IsWithin = record { total = omega arith; each = λ u. omega arith; hosted = tt }

serve_all-IsWithin_example : IsWithin setting (serve_all setting calls fresh).1.rows
serve_all-IsWithin_example = serve_all-IsWithin setting calls fresh fresh-IsWithin
