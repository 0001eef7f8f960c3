-- ===== src/Memory/Render/Drawn.antt =====
-- The edges that `_render` of correlation/engine/state.py draws are those of the pass and the held ones.
use mathlib.Core.Path.{subst}
use abb_accelerator_aiops.Prelude.{
  [], ◌∷◌, ℕ, ◌≡◌, String, Option, none, some, List, ◌++◌, arith, All, In, Dict, get, All-append,
  All-of_map, All-map, Option-cases, inl, inr,
}
use abb_accelerator_aiops.Float.{Float, round}
use abb_accelerator_aiops.Gate.{Edge}
use abb_accelerator_aiops.Graph.{CausalGraph}
use abb_accelerator_aiops.Ranking.{DiGraph}
use abb_accelerator_aiops.Memory.{MemoryConfig, EdgeRow}
use abb_accelerator_aiops.Memory.Render.{
  RenderedEdge, Rendered, pods_by_workload, kept_rows, held_edge, held_from, enriched, live_edges,
  held_edges, reranked, render,
}
use abb_accelerator_aiops.Memory.Render.Ghosts.{kept_rows-IsCandidate}

module _ {F : Type 0} ⦃f : Float F⦄ (cfg : MemoryConfig F) where
  -- What `_render` draws.
  abbrev pub drawn : F → List (Edge F) → List String → List (EdgeRow F) → List (RenderedEdge F)
  drawn now edges pods rows = live_edges cfg rows edges ++ held_edges cfg now pods edges rows

module _ {F : Type 0} ⦃f : Float F⦄ (cfg : MemoryConfig F) (P : Edge F → Type 0) where
  enriched-edge : (e : Edge F) (row : Option (EdgeRow F)) → P e → P (enriched cfg e row).edge
  unfolding enriched
  enriched-edge e none h = h
  enriched-edge e (some row) h = h

  -- What holds of the edges of the pass and of the held ones holds of every edge that is drawn.
  pub drawn-All :
      (now : F) (edges : List (Edge F)) (pods : List String) (rows : List (EdgeRow F))
      → All P edges
      → All (λ (h : RenderedEdge F). P h.edge) (held_edges cfg now pods edges rows)
      → All (λ (h : RenderedEdge F). P h.edge) (drawn cfg now edges pods rows)
  unfolding live_edges
  drawn-All now edges pods rows live held =
      All-append (λ (h : RenderedEdge F). P h.edge) (live_edges cfg rows edges) _
        (All-of_map (λ (h : RenderedEdge F). P h.edge) _ edges
          (All-map (λ e h. enriched-edge e _ h) edges live))
        held

  pub render-All :
      (nx : DiGraph F) (fuel : ℕ) (now : F) (graph : CausalGraph F) (pods : List String)
      (rows : List (EdgeRow F)) (g : Rendered F)
      → All P graph.edges
      → All (λ (h : RenderedEdge F). P h.edge) (held_edges cfg now pods graph.edges rows)
      → render cfg nx fuel now graph pods rows ≡ some g
      → All (λ (h : RenderedEdge F). P h.edge) g.edges
  unfolding render
  render-All nx fuel now graph pods rows g live held e =
      let shown = drawn cfg now graph.edges pods rows in
      elim (Option-cases (reranked cfg nx fuel graph graph.findings shown)) [
        | inl stuck ↦ absurd (ground (arith, e, stuck))
        | inr ((ranking, blast), r) ↦
            let same : shown ≡ g.edges = ground (arith, e, r) in
            subst (All (λ (h : RenderedEdge F). P h.edge)) same
              (drawn-All now graph.edges pods rows live held)
      ]

  -- What holds of the edge that any row would be drawn as holds of every held edge.
  module _ (pods : List String) (edges : List (Edge F)) (rows : List (EdgeRow F))
      (h : (row : EdgeRow F) (src dst : String)
        → In row rows
        → P (record {
          src = src;
          dst = dst;
          r = round 3 row.r;
          lag_s = row.lag_s;
          evidence = row.evidence;
        })) where
    held_edge-All :
        (now : F) (row : EdgeRow F) (src dst : Option String)
        → In row rows
        → All (λ (e : RenderedEdge F). P e.edge) (held_edge cfg now row src dst)
    unfolding held_edge
    held_edge-All now row (some p) (some q) m = (h row p q m, tt)
    held_edge-All now row none q m = tt
    held_edge-All now row (some p) none m = tt

    held_from-All :
        (now : F) (wl_pod : Dict String) (kept : List (EdgeRow F))
        → All (λ row. In row rows) kept
        → All (λ (e : RenderedEdge F). P e.edge) (held_from cfg now wl_pod kept)
    unfolding held_from
    held_from-All now wl_pod [] _ = tt
    held_from-All now wl_pod (row ∷ kept) (m, ms) =
        All-append (λ (e : RenderedEdge F). P e.edge)
          (held_edge cfg now row (get row.src wl_pod) (get row.dst wl_pod)) _
          (held_edge-All now row (get row.src wl_pod) (get row.dst wl_pod) m)
          (held_from-All now wl_pod kept ms)

    pub held_edges-All :
        (now : F) → All (λ (e : RenderedEdge F). P e.edge) (held_edges cfg now pods edges rows)
    unfolding held_edges
    held_edges-All now = held_from-All now (pods_by_workload [] pods) (kept_rows cfg edges rows) (
        All-map (λ row c. c.0) (kept_rows cfg edges rows)
          (kept_rows-IsCandidate cfg pods edges rows))
