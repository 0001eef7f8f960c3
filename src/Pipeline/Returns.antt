-- ===== src/Pipeline/Returns.antt =====
-- `run_pass` of correlation/engine/pipeline.py returns.
use abb_accelerator_aiops.Prelude.{ℕ, ◌+◌, ◌≤◌, ◌<◌, ◌≡◌, refl, String, some, List, [], ◌∷◌, length}
use abb_accelerator_aiops.Float.{Float}
use abb_accelerator_aiops.Float.Laws.{IsOrdered, IsRounded}
use abb_accelerator_aiops.Graph.{RootCause, Impact, CausalGraph}
use abb_accelerator_aiops.Ranking.{DiGraph, build_graph}
use abb_accelerator_aiops.Ranking.Ends.{cost, Fades, IsBounded}
use abb_accelerator_aiops.Ranking.Once.{AreNodes, blast_radius_ends}
use abb_accelerator_aiops.Ranking.Returns.{rank_root_causes_ends}
use abb_accelerator_aiops.Pipeline.{
  PassInput, Numerics, pass_findings, pass_edges, onsets_of, seeds, victims, run_pass,
}

module _ {F : Type 0} ⦃f : Float F⦄ (o : IsOrdered F) (l : IsRounded F) (b n : ℕ)
    (fades : Fades F n) (nx : DiGraph F) (np : Numerics F) (i : PassInput F) (fuel : ℕ) where
  victims_end :
      (ranking : List (RootCause F))
      → ((u : String)
          → AreNodes nx
              (build_graph nx (pass_edges np i))
              (nx.out_edges (build_graph nx (pass_edges np i)) u))
      → length (nx.nodes (build_graph nx (pass_edges np i))) + 1 ≤ fuel
      → (blast : List (Impact F)) × (victims nx fuel (build_graph nx (pass_edges np i)) ranking
          ≡ some blast)
  victims_end [] nodes enough = ([], refl)
  victims_end (first ∷ _) nodes enough =
      blast_radius_ends nx (build_graph nx (pass_edges np i)) fuel first.pod nodes enough

  -- `run_pass` returns a graph, with fuel of 1 + b + … + b^(n-1) and of one more than the number
  -- of nodes, or more: if every node of the graph of its edges has at most b edges out, each of
  -- weight at most 1 and leading to a node, n fades fall below the cut, n is positive, and the
  -- arithmetic obeys `IsOrdered` and `IsRounded`.
  pub run_pass_ends :
      0 < n
      → IsBounded o l b n fades nx (build_graph nx (pass_edges np i))
      → ((u : String)
          → AreNodes nx
              (build_graph nx (pass_edges np i))
              (nx.out_edges (build_graph nx (pass_edges np i)) u))
      → cost b n ≤ fuel
      → length (nx.nodes (build_graph nx (pass_edges np i))) + 1 ≤ fuel
      → (graph : CausalGraph F) × (run_pass np i nx fuel ≡ some graph)
  unfolding run_pass
  run_pass_ends pos bounded nodes deep wide =
      let g = build_graph nx (pass_edges np i) in
      let (ranking, e) =
        rank_root_causes_ends o l b n fades nx g fuel pos bounded deep (seeds np i)
          (onsets_of (pass_findings np i)) in
      let (blast, e') = victims_end ranking nodes wide in rw (e, e', run_pass) (_, refl)
