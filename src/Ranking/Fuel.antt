-- ===== src/Ranking/Fuel.antt =====
-- The worklists of correlation/engine/ranking.py: a result does not depend on the fuel, and more fuel than
-- enough gives the same.
use abb_accelerator_aiops.Prelude.{
  ℕ, zero, suc, ◌≤◌, ◌≡◌, Bool, String, some, List, [], ◌∷◌, arith, Dict, ◌==◌, has, Bool-cases,
  Option-cases, inl, inr,
}
use abb_accelerator_aiops.Float.{Float}
use abb_accelerator_aiops.Graph.{RootCause, Impact}
use abb_accelerator_aiops.Ranking.Blast.{start}
use abb_accelerator_aiops.Ranking.{
  DiGraph, Wave, spread, blast_edges, forward_loop, forward_impact, score_nodes, in_seeds,
  blast_loop, blast_radius, rank_root_causes,
}

module _ {F : Type 0} ⦃f : Float F⦄ (nx : DiGraph F) (g : nx.Graph) where
  forward_loop_more :
      (fuel more : ℕ) (frontier : List (String × F)) (imp result : Dict F)
      → fuel ≤ more
      → forward_loop nx g fuel (record { frontier = frontier; impact = imp }) ≡ some result
      → forward_loop nx g more (record { frontier = frontier; impact = imp }) ≡ some result
  unfolding forward_loop
  forward_loop_more zero zero frontier imp result le_m e = e
  forward_loop_more zero (suc more) [] imp result le_m e = e
  forward_loop_more zero (suc more) (x ∷ rest) imp result le_m e = cc
  forward_loop_more (suc fuel) zero frontier imp result le_m e = absurd (omega arith)
  forward_loop_more (suc fuel) (suc more) [] imp result le_m e = e
  forward_loop_more (suc fuel) (suc more) ((node, w) ∷ rest) imp result le_m e =
      let s' = spread w (nx.out_edges g node) (record { frontier = rest; impact = imp }) in
      forward_loop_more fuel more s'.frontier s'.impact result (omega arith) e

  forward_impact_more :
      (fuel more : ℕ) (root : String) (result : Dict F)
      → fuel ≤ more
      → forward_impact nx g fuel root ≡ some result
      → forward_impact nx g more root ≡ some result
  unfolding forward_impact
  forward_impact_more fuel more root result le_m e = forward_loop_more fuel more _ _ result le_m e

  score_nodes_more :
      (fuel more : ℕ) (is_seed : String → Bool) (ns : List String) (result : Dict F)
      → fuel ≤ more
      → score_nodes nx g fuel is_seed ns ≡ some result
      → score_nodes nx g more is_seed ns ≡ some result
  unfolding score_nodes
  score_nodes_more fuel more is_seed [] result le_m e = e
  score_nodes_more fuel more is_seed (n ∷ ns) result le_m e =
      elim (Option-cases (forward_impact nx g fuel n)) [
        | inl stuck ↦ absurd (ground (arith, e, stuck))
        | inr (imp, p) ↦ elim (Option-cases (score_nodes nx g fuel is_seed ns)) [
          | inl stuck ↦ absurd (ground (arith, e, p, stuck))
          | inr (rest, q) ↦
              let p' = forward_impact_more fuel more n imp le_m p in
              let q' = score_nodes_more fuel more is_seed ns rest le_m q in
              ground (arith, e, p, q, p', q')
        ]
      ]

  pub rank_root_causes_more :
      (fuel more : ℕ) (seeds : List String) (onset_s : Dict F) (result : List (RootCause F))
      → fuel ≤ more
      → rank_root_causes nx g fuel seeds onset_s ≡ some result
      → rank_root_causes nx g more seeds onset_s ≡ some result
  unfolding rank_root_causes
  rank_root_causes_more fuel more seeds onset_s result le_m e =
      elim (Bool-cases (nx.number_of_edges g == 0)) [
        | inl none ↦ ground (arith, e, none)
        | inr edges ↦
            elim (Option-cases (score_nodes nx g fuel (in_seeds nx g seeds) (nx.nodes g))) [
              | inl stuck ↦ absurd (ground (arith, e, edges, stuck))
              | inr (scores, p) ↦
                  let q =
                    score_nodes_more fuel more (in_seeds nx g seeds) (nx.nodes g) scores le_m p in
                  ground (arith, e, edges, p, q)
            ]
      ]

  blast_loop_more :
      (fuel more : ℕ) (frontier : List (Wave F)) (seen : List String) (out result : List (Impact F))
      → fuel ≤ more
      → blast_loop nx g fuel (record { frontier = frontier; seen = seen; out = out }) ≡ some result
      → blast_loop nx g more (record { frontier = frontier; seen = seen; out = out }) ≡ some result
  unfolding blast_loop
  blast_loop_more zero zero frontier seen out result le_m e = e
  blast_loop_more zero (suc more) [] seen out result le_m e = e
  blast_loop_more zero (suc more) (x ∷ rest) seen out result le_m e = cc
  blast_loop_more (suc fuel) zero frontier seen out result le_m e = absurd (omega arith)
  blast_loop_more (suc fuel) (suc more) [] seen out result le_m e = e
  blast_loop_more (suc fuel) (suc more) (wave ∷ rest) seen out result le_m e =
      let s' =
        blast_edges wave (nx.out_edges g wave.node)
          (record { frontier = rest; seen = seen; out = out }) in
      blast_loop_more fuel more s'.frontier s'.seen s'.out result (omega arith) e

  pub blast_radius_more :
      (fuel more : ℕ) (root : String) (result : List (Impact F))
      → fuel ≤ more
      → blast_radius nx g fuel root ≡ some result
      → blast_radius nx g more root ≡ some result
  unfolding blast_radius
  blast_radius_more fuel more root result le_m e = elim (Bool-cases (has root (nx.nodes g))) [
    | inr absent ↦ ground (arith, e, absent)
    | inl present ↦ elim (Option-cases (blast_loop nx g fuel (start nx g root))) [
      | inl stuck ↦ absurd (ground (arith, e, present, stuck))
      | inr (out, p) ↦
          let s = start nx g root in
          let q = blast_loop_more fuel more s.frontier s.seen s.out out le_m p in
          ground (arith, e, present, p, q)
    ]
  ]
