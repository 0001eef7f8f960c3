-- ===== src/Pipeline/Edges/Deduped.antt =====
-- The deduplication of edges in `run_pass` of correlation/engine/pipeline.py.
use mathlib.Core.Path.{subst}
use abb_accelerator_aiops.Prelude.{ℕ, ◌≤◌, ◌≡◌, sym, Bool, String, List, [], ◌∷◌, ◌++◌, arith, Dict}
use abb_accelerator_aiops.Prelude.Choice.{count, count-choose_all, count-sorted}
use abb_accelerator_aiops.Float.{Float}
use abb_accelerator_aiops.Gate.{Edge, same_set}
use abb_accelerator_aiops.Gate.Pairs.{between-IsClass}
use abb_accelerator_aiops.Pipeline.Edges.{same_pods, choose_all, is_preferred, settled, edge_lt}

module _ {F : Type 0} where
  abbrev pub ends : Edge F → String × String
  ends e = (e.src, e.dst)

  -- The edge joins the two pods, in one direction or the other.
  abbrev pub joins : String → String → Edge F → Bool
  joins a b e = same_set a b (ends e)

  -- How many edges join the two pods.
  abbrev pub edges_between : String → String → List (Edge F) → ℕ
  edges_between a b edges = count (joins a b) edges

module _ {F : Type 0} ⦃f : Float F⦄ (a b : String) where
  pub edges_between-choose_all :
      (edges chosen : List (Edge F))
      → edges_between a b chosen ≤ 1
      → edges_between a b (choose_all edges chosen) ≤ 1
  unfolding choose_all
  edges_between-choose_all edges chosen h =
      count-choose_all same_pods is_preferred (joins a b) (between-IsClass ends a b) edges chosen h

  pub edges_between-settled :
      (vectors : Dict (List F)) (v : String × List F) (vs : Dict (List F))
      (edges sources : List (Edge F))
      → vectors ≡ v ∷ vs
      → edges_between a b (settled vectors edges sources) ≤ 1
  unfolding settled
  edges_between-settled vectors v vs edges sources h =
      subst (λ written. edges_between a b (settled written edges sources) ≤ 1) (sym h)
        (omega (
          arith,
          count-sorted edge_lt (joins a b) (choose_all (edges ++ sources) []),
          edges_between-choose_all (edges ++ sources) [] (omega arith),
        ))
