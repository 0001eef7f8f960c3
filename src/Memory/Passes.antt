-- ===== src/Memory/Passes.antt =====
-- `GraphMemory.observe` of correlation/engine/state.py: what one pass writes to the memory. The
-- rendered graph that it returns reads the tables and writes none.
pub mod Kept
pub mod Light
pub mod Reachable
pub mod Refines
use abb_accelerator_aiops.Prelude.{String, Option, none, some, List, [], ◌∷◌, ◌++◌, map, Dict}
use abb_accelerator_aiops.Float.{Float}
use abb_accelerator_aiops.Names.{stable_workload}
use abb_accelerator_aiops.Gate.{Edge, Witness}
use abb_accelerator_aiops.Graph.{CausalGraph}
use abb_accelerator_aiops.Memory.{MemoryConfig, EdgeRow}
use abb_accelerator_aiops.Memory.Edges.{
  Key, edge_key, confirm_edges, decay_absent_edges, seed_structural,
}
use abb_accelerator_aiops.Memory.Baselines.{Quantiles, BaselineRow, update_baselines}
use abb_accelerator_aiops.Memory.Similarity.{CaseKey}
use abb_accelerator_aiops.Memory.Cases.{CaseLibrary, Promotion, promote_case}

-- The tables that `observe` writes.
pub record Memory (F : Type 0) : Type 0 where
  pub edge_memory : List (EdgeRow F)
  pub library : CaseLibrary F
  pub graph_snapshots : List (F × CausalGraph F)
  pub baselines : List (BaselineRow F)

-- The tables of a new database.
abbrev pub empty_memory : {F : Type 0} → Memory F
empty_memory = record {
  edge_memory = [];
  library = record { cases = []; observations = [] };
  graph_snapshots = [];
  baselines = [];
}

-- The workloads of the vectors.
abbrev pub present : {F : Type 0} → Dict (List F) → List String
present {F = F} vectors = map (λ (e : String × List F). stable_workload e.0) vectors

-- `if witness is not None`
abbrev pub shared_pairs : Option Witness → List (String × String)
shared_pairs none = []
shared_pairs (some w) = w.shared_relation

-- The last group of writes of a call of `observe` that an exception ends.
pub data Stage : Type 0 where
  baselined edged promoted : Stage

-- What one call of `observe` is given.
pub record Seen (F : Type 0) : Type 0 where
  pub graph : CausalGraph F
  pub vectors : Dict (List F)
  pub witness : Option Witness
  pub ts : F

module _ {F : Type 0} ⦃f : Float F⦄ (cfg : MemoryConfig F) where
  -- The three writes to edge_memory, in their order.
  unfoldable pub observe_edges :
      List (Edge F) → List String → Option Witness → F → List (EdgeRow F) → List (EdgeRow F)
  observe_edges edges pods_present witness ts rows =
      decay_absent_edges cfg (map (edge_key cfg) edges) pods_present ts (
        confirm_edges cfg edges ts
          (seed_structural cfg (shared_pairs witness) pods_present ts rows))

  -- `if current_edges`: a pass without edges leaves no snapshot.
  abbrev snapshot :
      CausalGraph F → F → List (Edge F) → List (F × CausalGraph F) → List (F × CausalGraph F)
  snapshot graph ts [] snapshots = snapshots
  snapshot graph ts (_ ∷ _) snapshots = snapshots ++ (ts, graph) ∷ []

  module _ (np : Quantiles F) (digest : CaseKey → String) where
    -- The memory after a pass, and the promotion that goes into the rendered graph's meta.
    unfoldable pub observe :
        CausalGraph F
        → Dict (List F)
        → Option Witness
        → F
        → Memory F
        → Memory F × Option (Promotion F)
    unfolding observe_edges
    observe graph vectors witness ts mem =
        let promoted = promote_case cfg digest graph ts mem.library in
        (
          record {
            edge_memory = observe_edges graph.edges (present vectors) witness ts mem.edge_memory;
            library = promoted.0;
            graph_snapshots = snapshot graph ts graph.edges mem.graph_snapshots;
            baselines = update_baselines cfg np vectors ts mem.baselines;
          },
          promoted.1,
        )

    -- What a call that is ended after these writes has written. The connection keeps them, and a later
    -- commit saves them.
    unfoldable pub observe_until :
        Stage → CausalGraph F → Dict (List F) → Option Witness → F → Memory F → Memory F
    unfolding observe_edges
    observe_until baselined graph vectors witness ts mem = record mem {
      baselines = update_baselines cfg np vectors ts mem.baselines;
    }
    observe_until edged graph vectors witness ts mem = record mem {
      baselines = update_baselines cfg np vectors ts mem.baselines;
      edge_memory = observe_edges graph.edges (present vectors) witness ts mem.edge_memory;
    }
    observe_until promoted graph vectors witness ts mem = record mem {
      baselines = update_baselines cfg np vectors ts mem.baselines;
      edge_memory = observe_edges graph.edges (present vectors) witness ts mem.edge_memory;
      library = (promote_case cfg digest graph ts mem.library).0;
    }

    -- The calls of the service's loop, one after the other.
    unfoldable pub observe_all : List (Seen F) → Memory F → Memory F
    unfolding observe
    observe_all [] mem = mem
    observe_all (s ∷ seen) mem = observe_all seen (observe s.graph s.vectors s.witness s.ts mem).0
