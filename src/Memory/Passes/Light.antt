-- ===== src/Memory/Passes/Light.antt =====
-- The rows that a pass of correlation/engine/state.py writes hold correlations of at most 1, if the edges do.
use abb_accelerator_aiops.Prelude.{String, Option, none, some, List, All, All-always, Dict}
use abb_accelerator_aiops.Float.{Float, lit, abs}
use abb_accelerator_aiops.Float.Laws.{◌≼◌}
use abb_accelerator_aiops.Gate.{Edge, Witness}
use abb_accelerator_aiops.Graph.{CausalGraph}
use abb_accelerator_aiops.Lagcorr.Light.{RoundsWithin}
use abb_accelerator_aiops.Ranking.Built.{IsLight}
use abb_accelerator_aiops.Memory.{MemoryConfig, EdgeRow}
use abb_accelerator_aiops.Memory.Baselines.{Quantiles}
use abb_accelerator_aiops.Memory.Similarity.{CaseKey}
use abb_accelerator_aiops.Memory.Edges.{confirmed, decayed, seeded}
use abb_accelerator_aiops.Memory.Edges.Rows.{IsKept}
use abb_accelerator_aiops.Memory.Passes.{
  Memory, Stage, baselined, edged, promoted, present, observe_until, observe_edges, shared_pairs,
}
use abb_accelerator_aiops.Memory.Passes.Kept.{observe_edges-All}

module _ {F : Type 0} ⦃f : Float F⦄ where
  abbrev pub IsLightRow : EdgeRow F → Type 0
  IsLightRow row = abs row.r ≼ lit 1 0

  -- The memory holds correlations.
  abbrev pub IsLightMemory : Memory F → Type 0
  IsLightMemory mem = All IsLightRow mem.edge_memory

  module _ (cfg : MemoryConfig F) (within : RoundsWithin F) where
    IsLightRow-IsKept : IsKept cfg IsLightRow IsLight (λ _ _. Unit {0})
    unfolding confirmed decayed seeded
    IsLightRow-IsKept = record {
      confirm = λ old edge ts light h. elim old as (λ o. IsLightRow (confirmed cfg o edge ts)) [
        | none ↦ light
        | some row ↦ light
      ];
      decay = λ ts row h. h;
      raise = λ row h. h;
      seed = λ a b ts _. within.zero;
    }

    pub edges-IsLight :
        (edges : List (Edge F)) (pods : List String) (witness : Option Witness) (ts : F)
        (rows : List (EdgeRow F))
        → All IsLight edges
        → All IsLightRow rows
        → All IsLightRow (observe_edges cfg edges pods witness ts rows)
    edges-IsLight edges pods witness ts rows light h =
        observe_edges-All IsLightRow-IsKept edges pods witness ts rows light
          (All-always (λ _. tt) (shared_pairs witness)) h

    pub observe_until-IsLight :
        (np : Quantiles F) (digest : CaseKey → String) (stage : Stage) (graph : CausalGraph F)
        (vectors : Dict (List F)) (witness : Option Witness) (ts : F) (mem : Memory F)
        → All IsLight graph.edges
        → IsLightMemory mem
        → IsLightMemory (observe_until cfg np digest stage graph vectors witness ts mem)
    unfolding observe_until
    observe_until-IsLight np digest baselined graph vectors witness ts mem light h = h
    observe_until-IsLight np digest edged graph vectors witness ts mem light h =
        edges-IsLight graph.edges (present vectors) witness ts mem.edge_memory light h
    observe_until-IsLight np digest promoted graph vectors witness ts mem light h =
        edges-IsLight graph.edges (present vectors) witness ts mem.edge_memory light h
