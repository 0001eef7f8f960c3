-- ===== src/Service/Storage/Rounds.antt =====
-- The rounds of `loop` in correlation/service.py keep the storage workloads in the memory and in what is
-- served.
use mathlib.Core.Path.{subst}
use abb_accelerator_aiops.Prelude.{
  ◌≡◌, refl, String, Option, none, some, List, [], ◌∷◌, All, All-map, Dict, Option-cases, inl, inr,
}
use abb_accelerator_aiops.Float.{Float}
use abb_accelerator_aiops.Graph.{CausalGraph}
use abb_accelerator_aiops.Pipeline.{PassMeta, pass_edges, run_pass}
use abb_accelerator_aiops.Pipeline.Result.{run_pass-edges}
use abb_accelerator_aiops.Pipeline.Witnessed.{pass_edges-IsCoupled}
use abb_accelerator_aiops.Memory.{MemoryConfig}
use abb_accelerator_aiops.Memory.Cases.{Promotion}
use abb_accelerator_aiops.Memory.Edges.Rows.{SeedsPair}
use abb_accelerator_aiops.Memory.Passes.{
  Memory, Stage, baselined, edged, promoted, present, observe, observe_until,
}
use abb_accelerator_aiops.Memory.Passes.Kept.{observe_edges-All}
use abb_accelerator_aiops.Memory.Render.{Rendered, bootstrap_graph}
use abb_accelerator_aiops.Window.{Window}
use abb_accelerator_aiops.Api.{Fetched, fetched, failed}
use abb_accelerator_aiops.Service.Inputs.{Event, Observed, ServiceConfig, build_inputs}
use abb_accelerator_aiops.Service.{
  Fault, in_pass, in_memory, in_render, Published, bootstrapped, passed, broken, started, served,
  abandoned, if_any, Service, Round, Surroundings, pass_input, observed, processed, round_of, loop,
}
use abb_accelerator_aiops.Service.Storage.{
  IsStoredRow, IsStoredEdge, AreStoredEdges, IsStoredRow-IsKept, shared_pairs-AreStored,
  Coupled-IsStored, render-AreStored, bootstrap-AreStored,
}

module _ {F : Type 0} ⦃f : Float F⦄ (cfg : MemoryConfig F) (svc : ServiceConfig F)
    (by : Surroundings F) where
  -- Every edge of the served graph joins pods of storage workloads.
  abbrev pub ServesStorage : Published F → Type 0
  ServesStorage (bootstrapped g _) = AreStoredEdges svc.storage g.edges
  ServesStorage (passed _ g _ _) = AreStoredEdges svc.storage g.edges
  ServesStorage (broken e) = Unit

  abbrev pub HasStorage : Memory F → Type 0
  HasStorage mem = All (IsStoredRow svc.storage) mem.edge_memory

  abbrev pub KeepsStorage : Option (Service F) → Type 0
  KeepsStorage none = Unit
  KeepsStorage (some s) = HasStorage s.memory × ServesStorage s.graph

  -- The witness and the graph of a pass are of storage workloads.
  abbrev IsSeedable : Observed F → Type 0
  IsSeedable i = All (SeedsPair (IsStoredRow-IsKept svc.storage cfg)) i.witness.shared_relation

  abbrev IsStoredGraph : Option (CausalGraph F) → Type 0
  IsStoredGraph none = Unit
  IsStoredGraph (some g) = All (IsStoredEdge svc.storage) g.edges

  observe-HasStorage :
      (graph : CausalGraph F) (i : Observed F) (ts : F) (mem : Memory F)
      → IsSeedable i
      → All (IsStoredEdge svc.storage) graph.edges
      → HasStorage mem
      → HasStorage (observe cfg by.np.quantiles by.digest graph i.vectors (some i.witness) ts mem).0
  unfolding observe
  observe-HasStorage graph i ts mem seeds good h =
      observe_edges-All (IsStoredRow-IsKept svc.storage cfg) graph.edges (present i.vectors)
        (some i.witness) ts mem.edge_memory good seeds h

  observe_until-HasStorage :
      (stage : Stage) (graph : CausalGraph F) (i : Observed F) (ts : F) (mem : Memory F)
      → IsSeedable i
      → All (IsStoredEdge svc.storage) graph.edges
      → HasStorage mem
      → HasStorage (
          observe_until cfg by.np.quantiles by.digest stage graph i.vectors (some i.witness) ts mem)
  unfolding observe_until
  observe_until-HasStorage baselined graph i ts mem seeds good h = h
  observe_until-HasStorage edged graph i ts mem seeds good h =
      observe_edges-All (IsStoredRow-IsKept svc.storage cfg) graph.edges (present i.vectors)
        (some i.witness) ts mem.edge_memory good seeds h
  observe_until-HasStorage promoted graph i ts mem seeds good h =
      observe_edges-All (IsStoredRow-IsKept svc.storage cfg) graph.edges (present i.vectors)
        (some i.witness) ts mem.edge_memory good seeds h

  served-KeepsStorage :
      (meta : PassMeta) (after : Memory F × Option (Promotion F)) (g : Option (Rendered F))
      → HasStorage after.0
      → ((r : Rendered F) → g ≡ some r → AreStoredEdges svc.storage r.edges)
      → KeepsStorage (served cfg svc by meta after g)
  unfolding served
  served-KeepsStorage meta after none h k = tt
  served-KeepsStorage meta (mem, promotion) (some g) h k = (h, k g refl)

  observed-KeepsStorage :
      (mem : Memory F) (i : Observed F) (ts now : F) (graph : Option (CausalGraph F))
      → IsSeedable i
      → IsStoredGraph graph
      → HasStorage mem
      → KeepsStorage (observed cfg svc by mem i ts now graph)
  unfolding observed
  observed-KeepsStorage mem i ts now none seeds good h = tt
  observed-KeepsStorage mem i ts now (some graph) seeds good h =
      let rows = observe-HasStorage graph i ts mem seeds good h in
      served-KeepsStorage _ _ _ rows
        (λ r e. render-AreStored svc.storage cfg by.nx by.fuel now graph _ _ r good rows e)

  abandoned-KeepsStorage :
      (e : String) (mem : Memory F) (i : Observed F) (ts : F) (stage : Option Stage)
      (graph : Option (CausalGraph F))
      → IsSeedable i
      → IsStoredGraph graph
      → HasStorage mem
      → KeepsStorage (abandoned cfg svc by e mem i ts stage graph)
  unfolding abandoned
  abandoned-KeepsStorage e mem i ts stage none seeds good h = tt
  abandoned-KeepsStorage e mem i ts (some stage) (some graph) seeds good h =
      (observe_until-HasStorage stage graph i ts mem seeds good h, tt)
  abandoned-KeepsStorage e mem i ts none (some graph) seeds good h =
      (observe-HasStorage graph i ts mem seeds good h, tt)

  if_any-KeepsStorage :
      (vectors : Dict (List F)) (s : Service F) (s' : Option (Service F))
      → KeepsStorage (some s)
      → KeepsStorage s'
      → KeepsStorage (if_any cfg svc by vectors s s')
  unfolding if_any
  if_any-KeepsStorage [] s s' h k = h
  if_any-KeepsStorage (_ ∷ _) s s' h k = k

  processed-KeepsStorage :
      (s : Service F) (i : Observed F) (ts now : F) (fault : Option Fault)
      → IsSeedable i
      → IsStoredGraph (run_pass by.np (pass_input cfg svc by s.memory i) by.nx by.fuel)
      → KeepsStorage (some s)
      → KeepsStorage (processed cfg svc by s i ts now fault)
  unfolding processed
  processed-KeepsStorage s i ts now none seeds good (h, k) =
      if_any-KeepsStorage i.vectors s _ (h, k)
        (observed-KeepsStorage s.memory i ts now _ seeds good h)
  processed-KeepsStorage s i ts now (some (in_pass e)) seeds good (h, k) = (h, tt)
  processed-KeepsStorage s i ts now (some (in_memory stage e)) seeds good (h, k) =
      if_any-KeepsStorage i.vectors s _ (h, k)
        (abandoned-KeepsStorage e s.memory i ts (some stage) _ seeds good h)
  processed-KeepsStorage s i ts now (some (in_render e)) seeds good (h, k) =
      if_any-KeepsStorage i.vectors s _ (h, k)
        (abandoned-KeepsStorage e s.memory i ts none _ seeds good h)

  module _ (window : Window F) (events : List Event) where
    abbrev inputs : Observed F
    inputs = build_inputs svc by.np.arrays by.epoch window events

    inputs-IsSeedable : IsSeedable inputs
    unfolding build_inputs
    inputs-IsSeedable = shared_pairs-AreStored cfg svc by.np.arrays inputs.vectors

    run_pass-IsStoredGraph :
        (mem : Memory F) (graph : Option (CausalGraph F))
        → run_pass by.np (pass_input cfg svc by mem inputs) by.nx by.fuel ≡ graph
        → IsStoredGraph graph
    unfolding build_inputs
    run_pass-IsStoredGraph mem none e = tt
    run_pass-IsStoredGraph mem (some graph) e =
        let i = pass_input cfg svc by mem inputs in
        let good : All (IsStoredEdge svc.storage) (pass_edges by.np i) =
          All-map (λ e h. Coupled-IsStored cfg svc by.np.arrays inputs.vectors e h)
            (pass_edges by.np i) (pass_edges-IsCoupled by.np i) in
        subst (All (IsStoredEdge svc.storage)) (run_pass-edges by.np i by.nx by.fuel graph e) good

  round_of-KeepsStorage :
      (s : Service F) (window : Fetched (Window F)) (events : Fetched (List Event)) (ts now : F)
      (fault : Option Fault)
      → KeepsStorage (some s)
      → KeepsStorage (round_of cfg svc by s window events ts now fault)
  unfolding round_of
  round_of-KeepsStorage s (failed e) events ts now fault (h, k) = (h, tt)
  round_of-KeepsStorage s (fetched window) (failed e) ts now fault (h, k) = (h, tt)
  round_of-KeepsStorage s (fetched window) (fetched events) ts now fault h =
      processed-KeepsStorage s (inputs window events) ts now fault (inputs-IsSeedable window events)
        (run_pass-IsStoredGraph window events s.memory _ refl) h

  loop-KeepsStorage :
      (rounds : List (Round F)) (s : Option (Service F))
      → KeepsStorage s
      → KeepsStorage (loop cfg svc by rounds s)
  unfolding loop
  loop-KeepsStorage rounds none h = tt
  loop-KeepsStorage [] (some s) h = h
  loop-KeepsStorage (r ∷ rounds) (some s) h =
      loop-KeepsStorage rounds (round_of cfg svc by s r.window r.events r.ts r.now r.fault)
        (round_of-KeepsStorage s r.window r.events r.ts r.now r.fault h)

  started-KeepsStorage :
      (ts : F) (mem : Memory F) → HasStorage mem → KeepsStorage (started cfg svc by ts mem)
  unfolding started
  started-KeepsStorage ts mem h =
      elim (Option-cases (bootstrap_graph cfg by.nx by.fuel ts mem.edge_memory)) [
        | inl e ↦ rw (e, KeepsStorage) tt
        | inr (g, e) ↦
            rw (e, KeepsStorage)
              (h, bootstrap-AreStored svc.storage cfg by.nx by.fuel ts mem.edge_memory g h e)
      ]

  -- From the start on a memory whose rows are of storage workloads, an empty one for example, and
  -- after any rounds of the loop, whatever the aggregator replies and wherever an exception ends
  -- a pass: every row of edge_memory is of two storage workloads, and every edge of the served
  -- graph, live or held, joins pods of storage workloads; unless a loop of the ranking runs out
  -- of fuel.
  pub served_edges-AreStored :
      (rounds : List (Round F)) (ts : F) (mem : Memory F)
      → HasStorage mem
      → KeepsStorage (loop cfg svc by rounds (started cfg svc by ts mem))
  served_edges-AreStored rounds ts mem h =
      loop-KeepsStorage rounds (started cfg svc by ts mem) (started-KeepsStorage ts mem h)
