-- ===== src/Pipeline/Edges/Light.antt =====
-- The edges of a pass in correlation/engine/pipeline.py have correlations of at most 1.
use mathlib.Core.Path.{subst}
use abb_accelerator_aiops.Prelude.{
  ℕ, ◌≡◌, true, String, Option, some, List, [], ◌∷◌, arith, if_rule, Dict, if◌then◌else◌,
}
use abb_accelerator_aiops.Float.{Float, lit, lt, abs, round}
use abb_accelerator_aiops.Float.Laws.{◌≼◌}
use abb_accelerator_aiops.Lagcorr.{Stats, Profile, best_directed, lag_profile}
use abb_accelerator_aiops.Lagcorr.Light.{
  AreCoefficients, RoundsWithin, AreLight, lag_profile-AreLight, best_directed-Light,
}
use abb_accelerator_aiops.Gate.{Evidence, Edge, Witness, couples, accept_edge}
use abb_accelerator_aiops.Gate.Clauses.{accept_edge_iff}
use abb_accelerator_aiops.Ranking.Built.{IsLight}
use abb_accelerator_aiops.Pipeline.Edges.{largest_from, writer_edge_of, writer_edge}

module _ {F : Type 0} ⦃f : Float F⦄ where
  largest_from-Light :
      (b : ℕ × F) (p : Profile F)
      → abs b.1 ≼ lit 1 0
      → AreLight p
      → abs (largest_from b p).1 ≼ lit 1 0
  unfolding largest_from
  largest_from-Light b [] h _ = h
  largest_from-Light b (e ∷ p) h (k, ks) =
      largest_from-Light (if lt b.1 e.1 then e else b) p
        (if_rule (λ (x : ℕ × F). abs x.1 ≼ lit 1 0) (lt b.1 e.1) k h) ks

  module _ (within : RoundsWithin F) where
    writer_edge_of-IsLight :
        (src dst : String) (ks : List Evidence) (prof : Profile F) (w v : Option F) (e : Edge F)
        → AreLight prof
        → writer_edge_of src dst ks prof w v ≡ some e
        → IsLight e
    unfolding writer_edge_of
    writer_edge_of-IsLight src dst [] prof w v e light h = cc
    writer_edge_of-IsLight src dst (k ∷ ks) [] w v e light h = cc
    writer_edge_of-IsLight src dst (k ∷ ks) (x ∷ p) w v e (l, ls) h =
        let peak = (largest_from x p).1 in
        let made : round 3 peak ≡ e.r = ground (arith, h) in
        subst (λ r. abs r ≼ lit 1 0) made (within.rounded peak (largest_from-Light x p l ls))

    module _ (st : Stats F) (scipy : AreCoefficients st) (w : Witness) where
      pub writer_edge-IsLight :
          (src dst : String) (x y : List F) (a b : Option F) (e : Edge F)
          → couples w src dst ≡ true
          → writer_edge st src dst x y w a b ≡ some e
          → IsLight e
      unfolding writer_edge
      writer_edge-IsLight src dst x y a b e _ h =
          writer_edge_of-IsLight src dst _ (lag_profile st x y) a b e
            (lag_profile-AreLight within st scipy x y) h

      pub accept_edge-IsLight :
          (onset_s : Dict F) (src dst : String) (x y : List F) (e : Edge F)
          → let d = best_directed st x y in
            accept_edge src dst d.r d.lag_s d.profile w onset_s ≡ some e → IsLight e
      accept_edge-IsLight onset_s src dst x y e h =
          let d = best_directed st x y in
          let (_, made) = (accept_edge_iff src dst d.r d.lag_s d.profile w onset_s e).0 h in
          subst IsLight made (within.rounded d.r (best_directed-Light within st scipy x y))
