-- ===== src/Memory/Render/Total.antt =====
-- `_render` of correlation/engine/state.py comes to one graph, with any fuel that is enough for the number of
-- its edges.
use abb_accelerator_aiops.Prelude.{
  ℕ, ◌≤◌, ◌<◌, ◌≡◌, refl, String, some, List, [], ◌∷◌, map, arith, length, All, Option-cases, inl,
  inr,
}
use abb_accelerator_aiops.Float.{Float}
use abb_accelerator_aiops.Float.Laws.{IsOrdered, IsRounded}
use abb_accelerator_aiops.Gate.{Edge}
use abb_accelerator_aiops.Graph.{Finding, RootCause, Impact, CausalGraph}
use abb_accelerator_aiops.Ranking.{DiGraph, build_graph, rank_root_causes, blast_radius}
use abb_accelerator_aiops.Ranking.Ends.{Fades}
use abb_accelerator_aiops.Ranking.Once.{blast_radius_ends}
use abb_accelerator_aiops.Ranking.Returns.{rank_root_causes_ends}
use abb_accelerator_aiops.Ranking.Fuel.{rank_root_causes_more, blast_radius_more}
use abb_accelerator_aiops.Ranking.Built.{
  IsDiGraph, IsLight, need, build_graph-IsBounded, build_graph-AreNodes, build_graph_sized,
}
use abb_accelerator_aiops.Memory.{MemoryConfig, EdgeRow}
use abb_accelerator_aiops.Memory.Render.Drawn.{drawn}
use abb_accelerator_aiops.Memory.Render.{
  RenderedEdge, Rendered, held_edges, onsets_from, reranked, render,
}

module _ {F : Type 0} ⦃f : Float F⦄ (cfg : MemoryConfig F) (nx : DiGraph F) where
  abbrev Ranked : Type 0
  Ranked = List (RootCause F) × List (Impact F)

  abbrev edges_of : List (RenderedEdge F) → List (Edge F)
  edges_of es = map (λ (e : RenderedEdge F). e.edge) es

  reranked_more :
      (fuel more : ℕ) (graph : CausalGraph F) (ds : List (Finding F)) (es : List (RenderedEdge F))
      (result : Ranked)
      → fuel ≤ more
      → reranked cfg nx fuel graph ds es ≡ some result
      → reranked cfg nx more graph ds es ≡ some result
  unfolding reranked
  reranked_more fuel more graph [] es result le_m e = e
  reranked_more fuel more graph (d ∷ ds) [] result le_m e = e
  reranked_more fuel more graph (d ∷ ds) (x ∷ es) result le_m e =
      let g = build_graph nx (edges_of (x ∷ es)) in
      let seeds = map (λ (d : Finding F). d.pod) (d ∷ ds) in
      let onsets = onsets_from cfg [] (d ∷ ds) in
      elim (Option-cases (rank_root_causes nx g fuel seeds onsets)) [
        | inl stuck ↦ absurd (ground (arith, e, stuck))
        | inr ([], p) ↦
            let p' = rank_root_causes_more nx g fuel more seeds onsets [] le_m p in
            ground (arith, e, p, p')
        | inr (first ∷ rest, p) ↦
            let p' = rank_root_causes_more nx g fuel more seeds onsets (first ∷ rest) le_m p in
            elim (Option-cases (blast_radius nx g fuel first.pod)) [
              | inl stuck ↦ absurd (ground (arith, e, p, stuck))
              | inr (blast, q) ↦
                  let q' = blast_radius_more nx g fuel more first.pod blast le_m q in
                  ground (arith, e, p, q, p', q')
            ]
      ]

  module _ (o : IsOrdered F) (l : IsRounded F) (n : ℕ) (fades : Fades F n) (laws : IsDiGraph nx)
      (pos : 0 < n) where
    reranked_ends :
        (fuel : ℕ) (graph : CausalGraph F) (ds : List (Finding F)) (es : List (RenderedEdge F))
        → All IsLight (edges_of es)
        → need n (length (edges_of es)) ≤ fuel
        → (result : Ranked) × (reranked cfg nx fuel graph ds es ≡ some result)
    unfolding reranked
    reranked_ends fuel graph [] es light enough = (_, refl)
    reranked_ends fuel graph (d ∷ ds) [] light enough = (_, refl)
    reranked_ends fuel graph (d ∷ ds) (x ∷ es) light enough =
        let edges = edges_of (x ∷ es) in
        let g = build_graph nx edges in
        let (ranking, p) =
          rank_root_causes_ends o l (length edges) n fades nx g fuel pos
            (build_graph-IsBounded nx laws edges light o l n fades) (omega arith)
            (map (λ (d : Finding F). d.pod) (d ∷ ds)) (onsets_from cfg [] (d ∷ ds)) in
        elim ranking
            as (λ r.
              rank_root_causes nx g fuel (map (λ (d : Finding F). d.pod) (d ∷ ds))
                  (onsets_from cfg [] (d ∷ ds))
                ≡ some r
              → (result : Ranked) × (reranked cfg nx fuel graph (d ∷ ds) (x ∷ es) ≡ some result)) [
                | [] ↦ λ q. (([], []), ground (arith, q))
                | first ∷ rest ↦ λ q.
                    let (blast, b) =
                      blast_radius_ends nx g fuel first.pod
                        (build_graph-AreNodes nx laws edges light)
                        (omega (arith, build_graph_sized nx laws edges light)) in
                    ((first ∷ rest, blast), ground (arith, q, b))
              ]
          p

    abbrev pub shown : F → List (Edge F) → List String → List (EdgeRow F) → List (Edge F)
    shown now edges pods rows = edges_of (drawn cfg now edges pods rows)

    -- Fuel that is enough to render the edges of a pass with those of the rows.
    abbrev pub render_need : F → List (Edge F) → List String → List (EdgeRow F) → ℕ
    render_need now edges pods rows = need n (length (shown now edges pods rows))

    pub render_total :
        (now : F) (graph : CausalGraph F) (pods : List String) (rows : List (EdgeRow F))
        → All IsLight (shown now graph.edges pods rows)
        → (g : Rendered F) × ((fuel : ℕ)
            → render_need now graph.edges pods rows ≤ fuel
            → render cfg nx fuel now graph pods rows ≡ some g)
    unfolding render
    render_total now graph pods rows light =
        let es = drawn cfg now graph.edges pods rows in
        let fuel = render_need now graph.edges pods rows in
        let ((ranking, blast), e) =
          reranked_ends fuel graph graph.findings es light (omega arith) in
        (
          record {
            findings = graph.findings;
            edges = es;
            root_cause_ranking = ranking;
            blast_radius = blast;
            held_edges = length (held_edges cfg now pods graph.edges rows);
          },
          λ more enough.
              let e' = reranked_more fuel more graph graph.findings es (ranking, blast) enough e in
              ground (arith, e'),
        )
