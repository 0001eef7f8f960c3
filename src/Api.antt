-- ===== src/Api.antt =====
-- api/main.py: the REST gateway. This file has the payloads, as the gateway reads them, the responses, and
-- the handlers that pass a payload on; Template and Narrative have the operator's sentence, Telemetry the snapshot and
-- the series of the workloads.
pub mod Template
pub mod Narrative
pub mod Telemetry
use Prim.Native.String
use abb_accelerator_aiops.Prelude.{
  ℕ, ◌-◌, Bool, true, false, ◌&&◌, String, str_eq, Option, none, some, List, [], ◌∷◌, map, ltb,
  length, take, if◌then◌else◌,
}
use abb_accelerator_aiops.Names.{split, join}

-- What a request to another service comes to: its JSON, or an exception with its text.
pub data Fetched (A : Type 0) : Type 0 where
  fetched : A → Fetched A
  failed : String → Fetched A

-- What a handler comes to: a body with status 200, or an `HTTPException`.
pub data Response (A : Type 0) : Type 0 where
  ok : A → Response A
  http_error : ℕ → String → Response A

-- An entry `.get(k)` of a dict, or one that may be null, is an option.
pub record Root (F : Type 0) : Type 0 where
  pub pod : String
  pub score : Option F
  pub onset_s : Option F

pub record Link (F : Type 0) : Type 0 where
  pub src : String
  pub dst : String
  pub r : F
  pub lag_s : ℕ
  pub evidence : List String
  pub confidence : Option F
  pub state : Option String
  pub render_weight : Option F
  pub source : Option String

pub record Victim (F : Type 0) : Type 0 where
  pub pod : String
  pub impact : F
  pub eta_s : ℕ

pub record Flagged (F : Type 0) : Type 0 where
  pub pod : String
  pub shape : Option String
  pub onset_s : Option F
  pub severity : Option F

-- The entries of `meta` that the gateway reads.
pub record Meta : Type 0 where
  pub signal : Option String
  pub pods : Option ℕ
  pub case_register : Option String

-- The graph, of the engine and of the gateway; a list that the engine leaves out is empty.
pub record Verdict (F : Type 0) : Type 0 where
  pub root : List (Root F)
  pub edges : List (Link F)
  pub blast_radius : List (Victim F)
  pub findings : List (Flagged F)
  pub meta : Meta

-- `workload`
unfoldable pub workload : String → String
workload pod =
    let parts = split pod in
    if ltb 2 (length parts) then join (take (length parts - 2) parts) else pod

-- A handler behind one request: an exception is status 503, with what was not reached.
unfoldable pub relayed : {A B : Type 0} → String → (A → Response B) → Fetched A → Response B
relayed what body (fetched a) = body a
relayed what body (failed e) = http_error 503 (String.◌++◌ what (String.◌++◌ " unreachable: " e))

module _ {F : Type 0} where
  -- The verdict with the names of workloads in place of those of pods.
  unfoldable pub normalized : Verdict F → Verdict F
  normalized g = record {
    root = map (λ (x : Root F). record x { pod = workload x.pod }) g.root;
    edges = map (λ (x : Link F). record x { src = workload x.src; dst = workload x.dst }) g.edges;
    blast_radius = map (λ (x : Victim F). record x { pod = workload x.pod }) g.blast_radius;
    findings = map (λ (x : Flagged F). record x { pod = workload x.pod }) g.findings;
    meta = g.meta;
  }

  unfoldable pub graph : Fetched (Verdict F) → Response (Verdict F)
  unfolding relayed normalized
  graph reply = relayed "engine" (λ g. ok (normalized g)) reply

-- `events`
unfoldable pub events : {E : Type 0} → Fetched (List E) → Response (List E)
unfolding relayed
events reply = relayed "aggregator" ok reply

-- `health`: whether each service answers, and whether both do.
pub record Health : Type 0 where
  pub aggregator : Bool
  pub engine : Bool
  pub all_up : Bool

is_up : {A : Type 0} → Fetched A → Bool
is_up (fetched _) = true
is_up (failed _) = false

unfoldable pub health : {A : Type 0} → Fetched A → Fetched A → Health
unfolding is_up
health agg engine = record {
  aggregator = is_up agg;
  engine = is_up engine;
  all_up = is_up agg && is_up engine;
}

-- The catalogue of fault scenarios.
pub record Scenario : Type 0 where
  pub id : String
  pub name : String
  pub mechanism : String
  pub triggerable : Bool

abbrev pub scenarios : List Scenario
scenarios =
    record {
      id = "S0";
      name = "Steady-state control";
      mechanism = "10 min idle; expect no causal edges";
      triggerable = false;
    }
    ∷ record {
      id = "S1";
      name = "PVC I/O contention cascade";
      mechanism = "sustained fio on a shared volume";
      triggerable = true;
    }
    ∷ record {
      id = "S2";
      name = "Large-file I/O starvation";
      mechanism = "bulk archive read/write";
      triggerable = false;
    }
    ∷ record {
      id = "S3";
      name = "CPU throttle interference";
      mechanism = "CPU-bound burst under a constrained limit";
      triggerable = false;
    }
    ∷ record {
      id = "S4";
      name = "Network degradation + retry amplification";
      mechanism = "injected egress latency";
      triggerable = false;
    }
    ∷ record {
      id = "S5";
      name = "Memory leak + OOM termination";
      mechanism = "unbounded growth to the memory limit";
      triggerable = false;
    }
    ∷ []

-- `trigger`, with `str.upper` and the outcome of the POST to the cooling monitor; the body names the
-- scenario that is armed.
unfoldable pub trigger : (String → String) → Fetched String → String → Response String
unfolding relayed
trigger upper posted sid =
    let id = upper sid in
    if str_eq id "S1"
    then relayed "cooling-monitor" (λ (_ : String). ok "S1") posted
    else http_error 501 (
        String.◌++◌ id (
          String.◌++◌ " is not triggerable via the API yet — use scenarios/"
            (String.◌++◌ id "/trigger.sh")))
