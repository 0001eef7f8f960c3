-- ===== src/Memory/Passes/Refines.antt =====
-- Any run of passes in correlation/engine/state.py, as a run over a map from keys to beliefs.
use abb_accelerator_aiops.Prelude.{String, ◌≡◌, refl, ◌∙◌, ap, List, [], ◌∷◌}
use abb_accelerator_aiops.Float.{Float}
use abb_accelerator_aiops.Memory.{MemoryConfig}
use abb_accelerator_aiops.Memory.Edges.View.{View, view_of, observe_view}
use abb_accelerator_aiops.Memory.Edges.View.Refines.{observe_edges_refines}
use abb_accelerator_aiops.Memory.Baselines.{Quantiles}
use abb_accelerator_aiops.Memory.Similarity.{CaseKey}
use abb_accelerator_aiops.Memory.Passes.{
  Memory, Seen, present, shared_pairs, observe, observe_edges, observe_all,
}

module _ {F : Type 0} ⦃f : Float F⦄ (cfg : MemoryConfig F) where
  -- The same passes on the map alone.
  abbrev pub observe_all_view : List (Seen F) → View F → View F
  observe_all_view [] v = v
  observe_all_view (s ∷ seen) v =
      observe_all_view seen
        (observe_view cfg s.graph.edges (present s.vectors) (shared_pairs s.witness) s.ts v)

  module _ (np : Quantiles F) (digest : CaseKey → String) where
    observe_refines :
        (s : Seen F) (mem : Memory F)
        → view_of (observe cfg np digest s.graph s.vectors s.witness s.ts mem).0.edge_memory
          ≡ observe_view cfg s.graph.edges
              (present s.vectors)
              (shared_pairs s.witness)
              s.ts
              (view_of mem.edge_memory)
    unfolding observe observe_edges
    observe_refines s mem =
        observe_edges_refines cfg s.graph.edges (present s.vectors) (shared_pairs s.witness) s.ts
          mem.edge_memory

    -- The passes that `observe` is given, in any number and from any memory, change edge_memory
    -- as the specification changes a map from keys to rows: each pass seeds, confirms and
    -- decays the map, and reads it by key only. The order of the rows and the way that the
    -- statements replace them do not show.
    pub observe_all_refines :
        (seen : List (Seen F)) (mem : Memory F)
        → view_of (observe_all cfg np digest seen mem).edge_memory
          ≡ observe_all_view seen (view_of mem.edge_memory)
    unfolding observe_all
    observe_all_refines [] mem = refl
    observe_all_refines (s ∷ seen) mem =
        observe_all_refines seen (observe cfg np digest s.graph s.vectors s.witness s.ts mem).0
        ∙ ap (observe_all_view seen) (observe_refines s mem)
