-- ===== src/System.antt =====
-- The gateway in front of the others: this file has the dict that correlation/service.py answers a request
-- with, as `_get` and `graph` of api/main.py read it; Storm has the triggers of the cooling monitor.
pub mod Stored
pub mod Outage
pub mod Storm
use abb_accelerator_aiops.Prelude.{ℕ, String, Option, none, some, List, [], ◌∷◌, map}
use abb_accelerator_aiops.Gate.{Evidence, Edge, stat, temporal, write, ebpf, psi, pvc}
use abb_accelerator_aiops.Graph.{
  Finding, RootCause, Impact, Shape, saturation, burst, leak, flap, shift,
}
use abb_accelerator_aiops.Memory.{EdgeState, active, confirming, steady, decaying, hidden}
use abb_accelerator_aiops.Memory.Cases.{Promotion, Register, recurrence, variant, novel}
use abb_accelerator_aiops.Memory.Render.{Rendered, RenderedEdge, Held, Source, live, memory}
use abb_accelerator_aiops.Api.{Fetched, fetched, failed, Root, Link, Victim, Flagged, Meta, Verdict}
use abb_accelerator_aiops.Service.{
  Published, bootstrapped, passed, broken, Reply, text, json, Service, do_get,
}

-- The texts that stand for the constructors.
abbrev evidence_name : Evidence → String
evidence_name stat = "stat"
evidence_name temporal = "temporal"
evidence_name write = "write"
evidence_name ebpf = "ebpf"
evidence_name psi = "psi"
evidence_name pvc = "pvc"

abbrev shape_name : Shape → String
shape_name saturation = "saturation"
shape_name burst = "burst"
shape_name leak = "leak"
shape_name flap = "flap"
shape_name shift = "shift"

abbrev state_name : EdgeState → String
state_name active = "active"
state_name confirming = "confirming"
state_name steady = "steady"
state_name decaying = "decaying"
state_name hidden = "hidden"

abbrev source_name : Source → String
source_name live = "live"
source_name memory = "memory"

abbrev register_name : Register → String
register_name recurrence = "recurrence"
register_name variant = "variant"
register_name novel = "novel"

-- An entry that only some dicts have.
abbrev entry : {A B : Type 0} → (A → B) → Option A → Option B
entry of none = none
entry of (some a) = some (of a)

abbrev no_meta : Meta
no_meta = record { signal = none; pods = none; case_register = none }

module _ {F : Type 0} where
  abbrev pub link_of : RenderedEdge F → Link F
  link_of h = record {
    src = h.edge.src;
    dst = h.edge.dst;
    r = h.edge.r;
    lag_s = h.edge.lag_s;
    evidence = map evidence_name h.edge.evidence;
    confidence = entry (λ (k : Held F). k.confidence) h.held;
    state = entry (λ (k : Held F). state_name k.state) h.held;
    render_weight = entry (λ (k : Held F). k.render_weight) h.held;
    source = entry (λ (k : Held F). source_name k.source) h.held;
  }

  -- The lists of a rendered graph, with an entry `meta`.
  abbrev pub verdict_of : Meta → Rendered F → Verdict F
  verdict_of meta g = record {
    root =
        map (λ (c : RootCause F). record { pod = c.pod; score = some c.score; onset_s = c.onset_s })
          g.root_cause_ranking;
    edges = map link_of g.edges;
    blast_radius =
        map (λ (b : Impact F). record { pod = b.pod; impact = b.impact; eta_s = b.eta_s })
          g.blast_radius;
    findings =
        map
          (λ (d : Finding F). record {
            pod = d.pod;
            shape = some (shape_name d.shape);
            onset_s = some d.onset_s;
            severity = some d.severity;
          })
          g.findings;
    meta = meta;
  }

  -- What the gateway reads of the dict that the engine publishes for a signal. The dict of an exception has no
  -- lists, and neither it nor the one before the first pass has these entries of `meta`.
  unfoldable pub read_graph : String → Published F → Verdict F
  read_graph signal (bootstrapped g _) = verdict_of no_meta g
  read_graph signal (passed meta g promotion _) =
      verdict_of
        (record {
          signal = some signal;
          pods = some meta.pods;
          case_register = entry (λ (p : Promotion F). register_name p.case_register) promotion;
        })
        g
  read_graph signal (broken e) = record {
    root = [];
    edges = [];
    blast_radius = [];
    findings = [];
    meta = no_meta;
  }

  -- `_get` of a reply; the text of the exception for one that is no JSON is that of urllib or of json.
  unfoldable pub get_of : (ℕ → String → String) → String → Reply (Published F) → Fetched (Verdict F)
  unfolding read_graph
  get_of refusal signal (text status body) = failed (refusal status body)
  get_of refusal signal (json status g) = fetched (read_graph signal g)

  -- `_get(ENGINE + "/graph")`
  unfoldable pub ask : (ℕ → String → String) → String → Service F → Fetched (Verdict F)
  unfolding get_of
  ask refusal signal s = get_of refusal signal (do_get "/graph" s)
