-- ===== src/Pipeline/Edges/Preferred.antt =====
-- Which edge the deduplication of `run_pass` in correlation/engine/pipeline.py keeps.
use abb_accelerator_aiops.Prelude.{
  ◌≤◌, ◌≡◌, ap, Bool, true, false, ◌&&◌, String, List, [], ◌∷◌, arith, any, All, In, Bool-cases,
  inl, inr,
}
use abb_accelerator_aiops.Prelude.Choice.{IsRanked, Covers, choose_all-Covers}
use abb_accelerator_aiops.Float.{Float}
use abb_accelerator_aiops.Gate.{Edge}
use abb_accelerator_aiops.Gate.Pairs.{between-IsClass, same_ends-IsRanked}
use abb_accelerator_aiops.Pipeline.Edges.{is_write, edge_pref, is_preferred, same_pods, choose_all}
use abb_accelerator_aiops.Pipeline.Edges.Deduped.{
  ends, joins, edges_between, edges_between-choose_all,
}

module _ {F : Type 0} ⦃f : Float F⦄ where
  abbrev pub has_write : Edge F → Bool
  has_write e = any is_write e.evidence

  -- A write-evidenced edge of the two pods stands in the list.
  abbrev pub wins : String → String → Edge F → Bool
  wins a b e = joins a b e && has_write e

  preferred-has_write :
      (e c : Edge F) → is_preferred e c ≡ true → has_write c ≡ true → has_write e ≡ true
  unfolding is_preferred edge_pref
  preferred-has_write e c p h = ground arith

  kept-has_write :
      (e c : Edge F) → is_preferred e c ≡ false → has_write e ≡ true → has_write c ≡ true
  unfolding is_preferred edge_pref
  kept-has_write e c p h = ground arith

  -- Write evidence is what the choice prefers.
  abbrev AsWritten : Edge F → Edge F → Type 0
  AsWritten e c = has_write e ≡ true → has_write c ≡ true

  pods-IsRanked : IsRanked same_pods is_preferred AsWritten
  pods-IsRanked =
      same_ends-IsRanked ends is_preferred AsWritten (λ e h. h) (λ e c d h k w. k (h w))
        preferred-has_write kept-has_write

  In-any :
      (test : Edge F → Bool) (e : Edge F) (edges : List (Edge F))
      → In e edges
      → test e ≡ true
      → any test edges ≡ true
  In-any test e [] m h = elim m [ ]
  In-any test e (c ∷ edges) (inl s) h = ground (arith, ap test s, h)
  In-any test e (c ∷ edges) (inr m) h = ground (arith, In-any test e edges m h)

  module _ (a b : String) where
    -- An edge of the list that wins has one that wins among the chosen.
    Covers-wins :
        (edges chosen : List (Edge F))
        → All (Covers same_pods is_preferred AsWritten pods-IsRanked chosen) edges
        → any (wins a b) edges ≡ true
        → any (wins a b) chosen ≡ true
    Covers-wins [] chosen _ h = cc
    Covers-wins (e ∷ edges) chosen ((best, m, s, l), cs) h = elim (Bool-cases (wins a b e)) [
      | inl w ↦
          In-any (wins a b) best chosen m
            (ground (arith, w, l, (between-IsClass ends a b).respects e best s))
      | inr w ↦ Covers-wins edges chosen cs (rw w at h)
    ]

    -- If one of the edges between two pods has write evidence, the deduplication of the edges
    -- keeps an edge between them with write evidence, and no other edge between them.
    pub choose_all-wins_once :
        (edges : List (Edge F))
        → any (wins a b) edges ≡ true
        → (any (wins a b) (choose_all edges []) ≡ true)
          × (edges_between a b (choose_all edges []) ≤ 1)
    unfolding choose_all
    choose_all-wins_once edges h = (
      Covers-wins edges (choose_all edges [])
          (choose_all-Covers same_pods is_preferred AsWritten pods-IsRanked edges []) h,
      edges_between-choose_all a b edges [] (omega arith),
    )
