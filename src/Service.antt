-- ===== src/Service.antt =====
-- correlation/service.py: the loop of the engine. Inputs has the vectors, the witness and the breaches made of
-- the aggregator's replies; this file has the pass over them and what is served.
pub mod Inputs
pub mod Steps
pub mod Storage
pub mod Total
use Prim.Native.String
use abb_accelerator_aiops.Prelude.{
  ℕ, String, str_eq, Option, none, some, List, [], ◌∷◌, map, has, Dict, if◌then◌else◌,
}
use abb_accelerator_aiops.Float.{Float}
use abb_accelerator_aiops.Graph.{CausalGraph}
use abb_accelerator_aiops.Ranking.{DiGraph}
use abb_accelerator_aiops.Pipeline.{PassInput, PassMeta, Numerics, pass_meta, run_pass}
use abb_accelerator_aiops.Memory.{MemoryConfig}
use abb_accelerator_aiops.Memory.Baselines.{baseline_threshold}
use abb_accelerator_aiops.Memory.Similarity.{CaseKey}
use abb_accelerator_aiops.Memory.Cases.{Promotion}
use abb_accelerator_aiops.Memory.Passes.{Memory, Stage, observe, observe_until}
use abb_accelerator_aiops.Memory.Render.{Rendered, Stats, render, bootstrap_graph, stats}
use abb_accelerator_aiops.Window.{Window}
use abb_accelerator_aiops.Api.{Fetched, fetched, failed}
use abb_accelerator_aiops.Service.Inputs.{Event, Observed, ServiceConfig, build_inputs, workload}

-- What `/graph` serves: the graph of the memory before any pass, the graph of a pass, or the text of an
-- exception.
pub data Published (F : Type 0) : Type 0 where
  bootstrapped : Rendered F → Stats → Published F
  passed : PassMeta → Rendered F → Option (Promotion F) → Stats → Published F
  broken : String → Published F

-- The memory and `_graph`.
pub record Service (F : Type 0) : Type 0 where
  pub memory : Memory F
  pub graph : Published F

-- Where an exception ends a round whose requests succeeded, with its text: before the memory writes, between
-- its writes, or after them, while the graph is rendered.
pub data Fault : Type 0 where
  in_pass : String → Fault
  in_memory : Stage → String → Fault
  in_render : String → Fault

-- What one round of the loop is given: the replies, the time when the memory observes the pass and when it
-- renders the graph, and the exception if there is one.
pub record Round (F : Type 0) : Type 0 where
  pub window : Fetched (Window F)
  pub events : Fetched (List Event)
  pub ts : F
  pub now : F
  pub fault : Option Fault

-- The functions of other packages, the limits of the ranking's loops, and the count of open mistakes.
pub record Surroundings (F : Type 0) : Type 1 where
  pub np : Numerics F
  pub nx : DiGraph F
  pub digest : CaseKey → String
  pub epoch : String → Option F
  pub fuel : ℕ
  pub open_mistakes : ℕ

module _ {F : Type 0} ⦃f : Float F⦄ (cfg : MemoryConfig F) (svc : ServiceConfig F)
    (by : Surroundings F) where
  -- `_graph` at the start
  unfoldable pub started : F → Memory F → Option (Service F)
  started ts mem = elim (bootstrap_graph cfg by.nx by.fuel ts mem.edge_memory) [
    | none ↦ none
    | some g ↦ some (record {
      memory = mem;
      graph = bootstrapped g (stats mem.edge_memory mem.library.cases by.open_mistakes);
    })
  ]

  -- The arguments of `run_pass`.
  abbrev pub pass_input : Memory F → Observed F → PassInput F
  pass_input mem i = record {
    vectors = i.vectors;
    witness = i.witness;
    slo_breach = i.breach;
    caps = [];
    window = some svc.analysis_window;
    write_vectors = i.write_vectors;
    baselines = some (
        map (λ (e : String × List F). (e.0, baseline_threshold cfg (workload e.0) mem.baselines))
          i.vectors);
  }

  pod_names : Dict (List F) → List String
  pod_names vectors = map (λ (e : String × List F). e.0) vectors

  -- The memory after the pass, and its graph as it is served.
  unfoldable pub served :
      PassMeta → Memory F × Option (Promotion F) → Option (Rendered F) → Option (Service F)
  served meta after none = none
  served meta (mem, promotion) (some g) = some (record {
    memory = mem;
    graph = passed meta g promotion (stats mem.edge_memory mem.library.cases by.open_mistakes);
  })

  -- The memory observes the graph of the pass, and the rendered graph is served.
  unfoldable pub observed :
      Memory F → Observed F → F → F → Option (CausalGraph F) → Option (Service F)
  unfolding pod_names served
  observed mem i ts now none = none
  observed mem i ts now (some graph) =
      let after = observe cfg by.np.quantiles by.digest graph i.vectors (some i.witness) ts mem in
      served (pass_meta by.np (pass_input mem i)) after
        (render cfg by.nx by.fuel now graph (pod_names i.vectors) after.0.edge_memory)

  -- The memory has made its writes up to a stage, or all of them, and an exception is served.
  unfoldable pub abandoned :
      String
      → Memory F
      → Observed F
      → F
      → Option Stage
      → Option (CausalGraph F)
      → Option (Service F)
  abandoned e mem i ts stage none = none
  abandoned e mem i ts (some stage) (some graph) = some (record {
    memory =
        observe_until cfg by.np.quantiles by.digest stage graph i.vectors (some i.witness) ts mem;
    graph = broken e;
  })
  abandoned e mem i ts none (some graph) = some (record {
    memory = (observe cfg by.np.quantiles by.digest graph i.vectors (some i.witness) ts mem).0;
    graph = broken e;
  })

  -- `if vectors:`, else the round changes nothing
  unfoldable pub if_any : Dict (List F) → Service F → Option (Service F) → Option (Service F)
  if_any [] s s' = some s
  if_any (_ ∷ _) s s' = s'

  unfoldable pub processed : Service F → Observed F → F → F → Option Fault → Option (Service F)
  unfolding observed abandoned if_any
  processed s i ts now none =
      if_any i.vectors s
        (observed s.memory i ts now (run_pass by.np (pass_input s.memory i) by.nx by.fuel))
  processed s i ts now (some (in_pass e)) = some (record s { graph = broken e })
  processed s i ts now (some (in_memory stage e)) = if_any i.vectors s (
      abandoned e s.memory i ts (some stage) (run_pass by.np (pass_input s.memory i) by.nx by.fuel))
  processed s i ts now (some (in_render e)) =
      if_any i.vectors s
        (abandoned e s.memory i ts none (run_pass by.np (pass_input s.memory i) by.nx by.fuel))

  -- One round of `loop`; `none` means that a loop of the ranking ran out of fuel.
  unfoldable pub round_of :
      Service F
      → Fetched (Window F)
      → Fetched (List Event)
      → F
      → F
      → Option Fault
      → Option (Service F)
  unfolding processed
  round_of s (failed e) events ts now fault = some (record s { graph = broken e })
  round_of s (fetched window) (failed e) ts now fault = some (record s { graph = broken e })
  round_of s (fetched window) (fetched events) ts now fault =
      processed s (build_inputs svc by.np.arrays by.epoch window events) ts now fault

  unfoldable pub loop : List (Round F) → Option (Service F) → Option (Service F)
  unfolding round_of
  loop rounds none = none
  loop [] (some s) = some s
  loop (r ∷ rounds) (some s) = loop rounds (round_of s r.window r.events r.ts r.now r.fault)

-- `do_GET`, up to the JSON of the graph.
pub data Reply (A : Type 0) : Type 0 where
  text : ℕ → String → Reply A
  json : ℕ → A → Reply A

-- `self.path.rstrip("/")`
rstrip_slashes : String → String
rstrip_slashes String.[] = String.[]
rstrip_slashes (String.◌∷◌ c s) =
    let rest = rstrip_slashes s in
    if str_eq (String.◌∷◌ c rest) "/" then String.[] else String.◌∷◌ c rest

unfoldable pub do_get : {F : Type 0} → String → Service F → Reply (Published F)
unfolding rstrip_slashes
do_get path s =
    if str_eq path "/healthz"
    then text 200 "ok\n"
    else if has (rstrip_slashes path) ("" ∷ "/graph" ∷ [])
    then json 200 s.graph
    else text 404 "not found\n"
