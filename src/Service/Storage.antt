-- ===== src/Service/Storage.antt =====
-- What correlation/service.py serves: every edge joins pods of the storage workloads, whether the pass saw it
-- or the memory holds it.
pub mod Rounds
use mathlib.Core.Path.{subst}
use abb_accelerator_aiops.Prelude.{
  ℕ, ◌≡◌, refl, sym, true, ◌&&◌, String, none, some, List, [], map, str_lt, has, filter-All, arith,
  All, All-map, All-at, Dict, Bool-cases, inl, inr,
}
use abb_accelerator_aiops.Float.{Float}
use abb_accelerator_aiops.Names.{stable_workload}
use abb_accelerator_aiops.Gate.{Edge}
use abb_accelerator_aiops.Gate.Clauses.{Coupled}
use abb_accelerator_aiops.Graph.{CausalGraph}
use abb_accelerator_aiops.Detectors.{Arrays}
use abb_accelerator_aiops.Ranking.{DiGraph}
use abb_accelerator_aiops.Pipeline.Edges.{combinations}
use abb_accelerator_aiops.Memory.{MemoryConfig, EdgeRow}
use abb_accelerator_aiops.Memory.Edges.{smaller, larger, confirmed, decayed, seeded}
use abb_accelerator_aiops.Memory.Edges.Rows.{IsKept, SeedsPair}
use abb_accelerator_aiops.Memory.Render.{
  Rendered, RenderedEdge, held_edges, render, bootstrap_graph, no_graph,
}
use abb_accelerator_aiops.Memory.Render.Ghosts.{held_edges-IsBacked}
use abb_accelerator_aiops.Memory.Render.Drawn.{render-All}
use abb_accelerator_aiops.Service.Inputs.{ServiceConfig, on_disk, witness_of, workload}

-- The two copies of the function agree.
workload-eq-stable_workload : (pod : String) → workload pod ≡ stable_workload pod
unfolding workload stable_workload
workload-eq-stable_workload pod = refl

module _ (storage : List String) where
  -- The workload is in the list.
  abbrev pub Stored : String → Type 0
  Stored wl = has wl storage ≡ true

  abbrev pub AreStored : String → String → Type 0
  AreStored a b = Stored a × Stored b

  smaller-larger-Stored :
      (a b : String) → Stored a → Stored b → AreStored (smaller a b) (larger a b)
  smaller-larger-Stored a b h k = elim (Bool-cases (str_lt b a)) [
    | inl e ↦ rw e (k, h)
    | inr e ↦ rw e (h, k)
  ]

module _ {F : Type 0} ⦃f : Float F⦄ (storage : List String) where
  abbrev pub IsStoredRow : EdgeRow F → Type 0
  IsStoredRow row = Stored storage row.src × Stored storage row.dst

  abbrev pub IsStoredEdge : Edge F → Type 0
  IsStoredEdge e = Stored storage (stable_workload e.src) × Stored storage (stable_workload e.dst)

  abbrev pub AreStoredEdges : List (RenderedEdge F) → Type 0
  AreStoredEdges edges = All (λ (h : RenderedEdge F). IsStoredEdge h.edge) edges

  pub IsStoredRow-IsKept :
      (cfg : MemoryConfig F) → IsKept cfg IsStoredRow IsStoredEdge (AreStored storage)
  unfolding confirmed decayed seeded
  IsStoredRow-IsKept cfg = record {
    confirm = λ old edge ts e h. elim old as (λ o. IsStoredRow (confirmed cfg o edge ts)) [
      | none ↦ e
      | some row ↦ e
    ];
    decay = λ ts row h. h;
    raise = λ row h. h;
    seed = λ a b ts h. h;
  }

  -- A held edge joins pods of the workloads of its row.
  held_edges-AreStored :
      (cfg : MemoryConfig F) (now : F) (pods : List String) (edges : List (Edge F))
      (rows : List (EdgeRow F))
      → All IsStoredRow rows
      → AreStoredEdges (held_edges cfg now pods edges rows)
  held_edges-AreStored cfg now pods edges rows stored =
      All-map
        (λ h (row, (m, _, _), (_, src), (_, dst)).
          let (s, d) = All-at IsStoredRow rows stored row m in
          (subst (Stored storage) (sym src) s, subst (Stored storage) (sym dst) d))
        (held_edges cfg now pods edges rows) (held_edges-IsBacked cfg pods edges rows now)

  pub render-AreStored :
      (cfg : MemoryConfig F) (nx : DiGraph F) (fuel : ℕ) (now : F) (graph : CausalGraph F)
      (pods : List String) (rows : List (EdgeRow F)) (g : Rendered F)
      → All IsStoredEdge graph.edges
      → All IsStoredRow rows
      → render cfg nx fuel now graph pods rows ≡ some g
      → AreStoredEdges g.edges
  render-AreStored cfg nx fuel now graph pods rows g good stored e =
      render-All cfg IsStoredEdge nx fuel now graph pods rows g good
        (held_edges-AreStored cfg now pods graph.edges rows stored) e

  pub bootstrap-AreStored :
      (cfg : MemoryConfig F) (nx : DiGraph F) (fuel : ℕ) (now : F) (rows : List (EdgeRow F))
      (g : Rendered F)
      → All IsStoredRow rows
      → bootstrap_graph cfg nx fuel now rows ≡ some g
      → AreStoredEdges g.edges
  unfolding bootstrap_graph
  bootstrap-AreStored cfg nx fuel now rows g stored e =
      render-AreStored cfg nx fuel now (no_graph cfg nx) [] rows g tt stored e

module _ {F : Type 0} ⦃f : Float F⦄ (cfg : MemoryConfig F) (svc : ServiceConfig F)
    (np : Arrays F) where
  -- The pairs that the witness puts on the disk are of storage workloads.
  witness_of-shared :
      (vectors : Dict (List F))
      → All
          (λ (p : String × String). (on_disk svc np p.0 ≡ true) × (on_disk svc np p.1 ≡ true))
          (witness_of svc np vectors).shared_relation
  unfolding witness_of
  witness_of-shared vectors =
      All-map (λ p (m, h). (ground (arith, h), ground (arith, h))) _
        (filter-All (λ (p : String × String). on_disk svc np p.0 && on_disk svc np p.1)
          (combinations (map (λ (e : String × List F). e.0) vectors)))

  on_disk-Stored :
      (pod : String) → on_disk svc np pod ≡ true → has (stable_workload pod) svc.storage ≡ true
  on_disk-Stored pod h = subst (λ w. has w svc.storage ≡ true) (workload-eq-stable_workload pod) h

  -- An edge between pods that the witness couples joins storage workloads.
  pub Coupled-IsStored :
      (vectors : Dict (List F)) (e : Edge F)
      → Coupled (witness_of svc np vectors) e.src e.dst
      → IsStoredEdge svc.storage e
  unfolding witness_of
  Coupled-IsStored vectors e (inl (inl m)) = elim m [ ]
  Coupled-IsStored vectors e (inl (inr m)) = elim m [ ]
  Coupled-IsStored vectors e (inr (inl m)) =
      let (s, d) = All-at _ _ (witness_of-shared vectors) (e.src, e.dst) m in
      (on_disk-Stored e.src s, on_disk-Stored e.dst d)
  Coupled-IsStored vectors e (inr (inr m)) =
      let (d, s) = All-at _ _ (witness_of-shared vectors) (e.dst, e.src) m in
      (on_disk-Stored e.src s, on_disk-Stored e.dst d)

  -- The pairs of the witness seed rows of storage workloads.
  pub shared_pairs-AreStored :
      (vectors : Dict (List F))
      → All
          (SeedsPair (IsStoredRow-IsKept svc.storage cfg))
          (witness_of svc np vectors).shared_relation
  shared_pairs-AreStored vectors =
      All-map
        (λ p (s, d).
          smaller-larger-Stored svc.storage _ _ (on_disk-Stored p.0 s) (on_disk-Stored p.1 d))
        _ (witness_of-shared vectors)
