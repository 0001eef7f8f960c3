-- ===== src/Pipeline/Total.antt =====
-- `run_pass` of correlation/engine/pipeline.py comes to one graph, with any fuel that is enough for the
-- number of its edges.
use abb_accelerator_aiops.Prelude.{
  ℕ, ◌≤◌, ◌<◌, ◌≡◌, some, List, [], ◌∷◌, arith, length, All, Option-cases, inl, inr,
}
use abb_accelerator_aiops.Float.{Float}
use abb_accelerator_aiops.Float.Laws.{IsOrdered, IsRounded}
use abb_accelerator_aiops.Graph.{RootCause, Impact, CausalGraph}
use abb_accelerator_aiops.Ranking.{DiGraph, build_graph, rank_root_causes}
use abb_accelerator_aiops.Ranking.Ends.{Fades}
use abb_accelerator_aiops.Ranking.Fuel.{rank_root_causes_more, blast_radius_more}
use abb_accelerator_aiops.Ranking.Built.{
  IsDiGraph, IsLight, need, build_graph-IsBounded, build_graph-AreNodes, build_graph_sized,
}
use abb_accelerator_aiops.Pipeline.{
  PassInput, Numerics, pass_findings, pass_edges, onsets_of, seeds, victims, run_pass,
}
use abb_accelerator_aiops.Pipeline.Returns.{run_pass_ends}

module _ {F : Type 0} ⦃f : Float F⦄ (nx : DiGraph F) where
  victims_more :
      (fuel more : ℕ) (g : nx.Graph) (ranking : List (RootCause F)) (result : List (Impact F))
      → fuel ≤ more
      → victims nx fuel g ranking ≡ some result
      → victims nx more g ranking ≡ some result
  victims_more fuel more g [] result le_m e = e
  victims_more fuel more g (first ∷ _) result le_m e =
      blast_radius_more nx g fuel more first.pod result le_m e

  module _ (np : Numerics F) (i : PassInput F) where
    run_pass_more :
        (fuel more : ℕ) (result : CausalGraph F)
        → fuel ≤ more
        → run_pass np i nx fuel ≡ some result
        → run_pass np i nx more ≡ some result
    unfolding run_pass
    run_pass_more fuel more result le_m e =
        let g = build_graph nx (pass_edges np i) in
        let onsets = onsets_of (pass_findings np i) in
        elim (Option-cases (rank_root_causes nx g fuel (seeds np i) onsets)) [
          | inl stuck ↦ absurd (ground (arith, e, stuck))
          | inr (ranking, p) ↦ elim (Option-cases (victims nx fuel g ranking)) [
            | inl stuck ↦ absurd (ground (arith, e, p, stuck))
            | inr (blast, q) ↦
                let p' = rank_root_causes_more nx g fuel more (seeds np i) onsets ranking le_m p in
                let q' = victims_more fuel more g ranking blast le_m q in
                ground (arith, e, p, q, p', q')
          ]
        ]

    -- A pass whose correlations are at most 1 comes to one graph.
    pub run_pass_total :
        (o : IsOrdered F) (l : IsRounded F) (n : ℕ) (fades : Fades F n) (laws : IsDiGraph nx)
        → 0 < n
        → All IsLight (pass_edges np i)
        → (graph : CausalGraph F) × ((fuel : ℕ)
            → need n (length (pass_edges np i)) ≤ fuel
            → run_pass np i nx fuel ≡ some graph)
    run_pass_total o l n fades laws pos lights =
        let edges = pass_edges np i in
        let fuel = need n (length edges) in
        let (graph, e) =
          run_pass_ends o l (length edges) n fades nx np i fuel pos
            (build_graph-IsBounded nx laws edges lights o l n fades)
            (build_graph-AreNodes nx laws edges lights) (omega arith)
            (omega (arith, build_graph_sized nx laws edges lights)) in
        (graph, λ more enough. run_pass_more fuel more graph enough e)
