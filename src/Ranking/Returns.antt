-- ===== src/Ranking/Returns.antt =====
-- `rank_root_causes` of correlation/engine/ranking.py returns: it runs one worklist from every node.
use abb_accelerator_aiops.Prelude.{
  ℕ, ◌≤◌, ◌<◌, ◌≡◌, refl, Bool, String, some, List, [], ◌∷◌, Dict, ◌==◌, Bool-cases, inl, inr,
}
use abb_accelerator_aiops.Float.{Float}
use abb_accelerator_aiops.Float.Laws.{IsOrdered, IsRounded}
use abb_accelerator_aiops.Graph.{RootCause}
use abb_accelerator_aiops.Ranking.{DiGraph, score_nodes, in_seeds, rank_root_causes}
use abb_accelerator_aiops.Ranking.Ends.{cost, Fades, IsBounded, forward_impact_ends}

module _ {F : Type 0} ⦃f : Float F⦄ (o : IsOrdered F) (l : IsRounded F) (b n : ℕ)
    (fades : Fades F n) (nx : DiGraph F) (g : nx.Graph) (fuel : ℕ) (pos : 0 < n)
    (bounded : IsBounded o l b n fades nx g) (enough : cost b n ≤ fuel) where
  score_nodes_ends :
      (is_seed : String → Bool) (ns : List String)
      → (scores : Dict F) × (score_nodes nx g fuel is_seed ns ≡ some scores)
  unfolding score_nodes
  score_nodes_ends is_seed [] = ([], refl)
  score_nodes_ends is_seed (m ∷ ns) =
      let (imp, e) = forward_impact_ends o l b n fades nx g fuel m pos bounded enough in
      let (scores, e') = score_nodes_ends is_seed ns in rw (e, e', score_nodes) (_, refl)

  -- `rank_root_causes` returns, from any seeds and onsets, with fuel 1 + b + … + b^(n-1) or more:
  -- if every node has at most b edges out, every weight is at most 1, n fades fall below the cut,
  -- n is positive, and the arithmetic obeys `IsOrdered` and `IsRounded`.
  pub rank_root_causes_ends :
      (seeds : List String) (onset_s : Dict F)
      → (ranking : List (RootCause F)) × (rank_root_causes nx g fuel seeds onset_s ≡ some ranking)
  unfolding rank_root_causes
  rank_root_causes_ends seeds onset_s = elim (Bool-cases (nx.number_of_edges g == 0)) [
    | inl e ↦ ([], rw e refl)
    | inr e ↦
        let (scores, s) = score_nodes_ends (in_seeds nx g seeds) (nx.nodes g) in rw (e, s) (_, refl)
  ]
