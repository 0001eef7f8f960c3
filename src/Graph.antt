-- ===== src/Graph.antt =====
-- The causal graph that a pass returns: the records behind the dicts that correlation/engine/ranking.py
-- and correlation/engine/pipeline.py write.
use abb_accelerator_aiops.Prelude.{ℕ, String, Option, List}
use abb_accelerator_aiops.Gate.{Edge}

-- An entry of `root_cause_ranking`.
pub record RootCause (F : Type 0) : Type 0 where
  pub pod : String
  pub score : F
  pub onset_s : Option F

-- An entry of `blast_radius`.
pub record Impact (F : Type 0) : Type 0 where
  pub pod : String
  pub impact : F
  pub eta_s : ℕ

-- The shapes that `classify` tells apart.
pub data Shape : Type 0 where
  saturation burst leak flap shift : Shape

-- An entry of `findings`.
pub record Finding (F : Type 0) : Type 0 where
  pub pod : String
  pub shape : Shape
  pub onset_s : F
  pub severity : F
  pub n_onsets : ℕ

pub record CausalGraph (F : Type 0) : Type 0 where
  pub findings : List (Finding F)
  pub edges : List (Edge F)
  pub root_cause_ranking : List (RootCause F)
  pub blast_radius : List (Impact F)
