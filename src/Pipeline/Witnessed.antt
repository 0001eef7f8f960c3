-- ===== src/Pipeline/Witnessed.antt =====
-- The edges that a pass of correlation/engine/pipeline.py returns.
use abb_accelerator_aiops.Prelude.{◌≤◌, ◌≡◌, String, List, [], ◌∷◌, All, Dict}
use abb_accelerator_aiops.Float.{Float}
use abb_accelerator_aiops.Gate.Clauses.{Coupled}
use abb_accelerator_aiops.Pipeline.{PassInput, Numerics, correlated, pass_findings, pass_edges}
use abb_accelerator_aiops.Pipeline.Edges.{combinations, sorted_keys}
use abb_accelerator_aiops.Pipeline.Edges.Idle.{psi_edges_idle, source_edges_idle, settled_idle}
use abb_accelerator_aiops.Pipeline.Edges.Deduped.{edges_between, edges_between-settled}
use abb_accelerator_aiops.Pipeline.Edges.Rule.{settled-All, psi_edges-All, source_edges-All}
use abb_accelerator_aiops.Pipeline.Edges.Light.{writer_edge-IsLight, accept_edge-IsLight}
use abb_accelerator_aiops.Lagcorr.Light.{AreCoefficients, RoundsWithin}
use abb_accelerator_aiops.Ranking.Built.{IsLight}
use abb_accelerator_aiops.Pipeline.Edges.Coupled.{
  IsCoupled, psi_edges-IsCoupled, source_edges-IsCoupled,
}

module _ {F : Type 0} ⦃f : Float F⦄ (np : Numerics F) (i : PassInput F) where
  -- Every edge of a pass joins two pods that the witness has in a network dependency or on a
  -- shared disk, with or without write vectors.
  pub pass_edges-IsCoupled : All (λ e. Coupled i.witness e.src e.dst) (pass_edges np i)
  unfolding pass_edges
  pass_edges-IsCoupled =
      settled-All (IsCoupled i.witness) i.write_vectors _ _
        (psi_edges-IsCoupled np.stats i.witness _ _ _ (combinations (sorted_keys i.vectors)))
        (source_edges-IsCoupled np.stats i.witness _ _ _ _ _ _
          (sorted_keys (correlated np i i.write_vectors)))

  -- A pass in which no pod is disturbed has no edge, whatever its signals correlate.
  pub pass_edges_idle : pass_findings np i ≡ [] → pass_edges np i ≡ []
  unfolding pass_edges
  pass_edges_idle quiet =
      rw
        (
          quiet,
          psi_edges_idle np.stats i.witness [] (correlated np i i.vectors)
              (combinations (sorted_keys i.vectors)),
          source_edges_idle np.stats i.witness [] _ _ _ _ _,
        )
        (settled_idle i.write_vectors)

  -- With write vectors, a pass has at most one edge between any two pods, in either direction.
  pub pass_edges_once :
      (a b : String) (v : String × List F) (vs : Dict (List F))
      → i.write_vectors ≡ v ∷ vs
      → edges_between a b (pass_edges np i) ≤ 1
  unfolding pass_edges
  pass_edges_once a b v vs h = edges_between-settled a b i.write_vectors v vs _ _ h

  -- Every edge of a pass has a correlation of at most 1, if those of scipy are and rounding respects it.
  pub pass_edges-AreLight :
      RoundsWithin F → AreCoefficients np.stats → All IsLight (pass_edges np i)
  unfolding pass_edges
  pass_edges-AreLight within scipy =
      settled-All IsLight i.write_vectors _ _
        (psi_edges-All IsLight np.stats i.witness _ _ _ (combinations (sorted_keys i.vectors))
          (accept_edge-IsLight within np.stats scipy i.witness _))
        (source_edges-All IsLight np.stats i.witness _ _ _ _ _ _
          (writer_edge-IsLight within np.stats scipy i.witness)
          (sorted_keys (correlated np i i.write_vectors)))
