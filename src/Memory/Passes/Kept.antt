-- ===== src/Memory/Passes/Kept.antt =====
-- What the three writes of `observe` in correlation/engine/state.py keep of every row of edge_memory.
use abb_accelerator_aiops.Prelude.{String, Option, List, map, All}
use abb_accelerator_aiops.Float.{Float}
use abb_accelerator_aiops.Gate.{Edge, Witness}
use abb_accelerator_aiops.Memory.{MemoryConfig, EdgeRow}
use abb_accelerator_aiops.Memory.Edges.{edge_key, confirm_edges, seed_structural}
use abb_accelerator_aiops.Memory.Edges.Rows.{
  IsKept, SeedsPair, confirm_edges-All, decay_absent_edges-All, seed_structural-All,
}
use abb_accelerator_aiops.Memory.Passes.{shared_pairs, observe_edges}

module _ {F : Type 0} ⦃f : Float F⦄ {cfg : MemoryConfig F} {P : EdgeRow F → Type 0}
    {Good : Edge F → Type 0} {Seeds : String → String → Type 0}
    (kept : IsKept cfg P Good Seeds) where
  pub observe_edges-All :
      (edges : List (Edge F)) (pods_present : List String) (witness : Option Witness) (ts : F)
      (rows : List (EdgeRow F))
      → All Good edges
      → All (SeedsPair kept) (shared_pairs witness)
      → All P rows
      → All P (observe_edges cfg edges pods_present witness ts rows)
  unfolding observe_edges
  observe_edges-All edges ps witness ts rows good seeds h =
      let seeded = seed_structural cfg (shared_pairs witness) ps ts rows in
      decay_absent_edges-All kept (map (edge_key cfg) edges) ps ts
        (confirm_edges cfg edges ts seeded)
        (confirm_edges-All kept edges ts seeded good
          (seed_structural-All kept (shared_pairs witness) ps ts rows seeds h))
