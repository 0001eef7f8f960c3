-- ===== src/Pipeline/Edges/Idle.antt =====
-- The edges of a pass of correlation/engine/pipeline.py in which no pod is disturbed.
use abb_accelerator_aiops.Prelude.{
  ◌≡◌, refl, String, Option, none, some, List, [], ◌∷◌, arith, Dict, get,
}
use abb_accelerator_aiops.Float.{Float}
use abb_accelerator_aiops.Lagcorr.{Stats}
use abb_accelerator_aiops.Gate.{Witness}
use abb_accelerator_aiops.Pipeline.Edges.{
  psi_edge, psi_edges, source_edge, victims_edges, source_edges, settled, choose_all, if_started,
}

module _ {F : Type 0} ⦃f : Float F⦄ (st : Stats F) (w : Witness) (onset_s : Dict F) where
  pub psi_edges_idle :
      (cvec : Dict (List F)) (pairs : List (String × String))
      → psi_edges st w [] onset_s cvec pairs ≡ []
  unfolding psi_edges psi_edge
  psi_edges_idle cvec [] = refl
  psi_edges_idle cvec ((a, b) ∷ pairs) = ground (arith, psi_edges_idle cvec pairs)

  module _ (max_abs : List F → F) (write_cvec cvec : Dict (List F)) (write_onset_s : Dict F) where
    victims_edges_idle :
        (src : String) (vs : List String)
        → victims_edges st w [] onset_s max_abs write_cvec cvec write_onset_s src vs ≡ []
    unfolding victims_edges source_edge
    victims_edges_idle src [] = refl
    victims_edges_idle src (v ∷ vs) = ground (arith, victims_edges_idle src vs)

    if_started_nil : (onset : Option F) → if_started {F = F} onset [] ≡ []
    if_started_nil none = refl
    if_started_nil (some _) = refl

    pub source_edges_idle :
        (ws : List String)
        → source_edges st w [] onset_s max_abs write_cvec cvec write_onset_s ws ≡ []
    unfolding source_edges
    source_edges_idle [] = refl
    source_edges_idle (src ∷ ws) =
        rw (victims_edges_idle src _, if_started_nil (get src write_onset_s)) (source_edges_idle ws)

pub settled_idle :
    {F : Type 0} ⦃f : Float F⦄ (vectors : Dict (List F)) → settled {F = F} vectors [] [] ≡ []
unfolding settled choose_all
settled_idle [] = refl
settled_idle (_ ∷ _) = refl
