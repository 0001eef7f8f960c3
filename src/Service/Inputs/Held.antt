-- ===== src/Service/Inputs/Held.antt =====
-- The sample-and-hold of `build_inputs` in correlation/service.py: what the cells of the grid hold.
use abb_accelerator_aiops.Prelude.{
  ℕ, zero, suc, ◌≡◌, refl, ap, Option, none, some, List, [], ◌∷◌, map, length, All, In, Bool-cases,
  inl, inr, if_rule,
}
use abb_accelerator_aiops.Float.{Float, lit, ◌⊕◌, ◌⊖◌, ◌⊘◌, le, abs}
use abb_accelerator_aiops.Float.Laws.{◌≼◌}
use abb_accelerator_aiops.Service.Inputs.{Point, advance, cell, resample, or_zero, grid}

module _ {F : Type 0} ⦃f : Float F⦄ where
  -- The cell of an instant: empty, or the value of a sample that is near.
  abbrev pub IsCell : F → List (Point F) → F → Option F → Type 0
  IsCell step pts gt none = Unit
  IsCell step pts gt (some v) = (p : Point F) × In p pts × (v ≡ p.1) × (abs (p.0 ⊖ gt) ≼ step)

  -- One cell for each instant, in their order.
  abbrev pub IsHeld : F → List (Point F) → List F → List (Option F) → Type 0
  IsHeld step pts [] [] = Unit
  IsHeld step pts (gt ∷ gts) (v ∷ vs) = IsCell step pts gt v × IsHeld step pts gts vs
  IsHeld step pts _ _ = ⊥

  -- The pointer stays among the points.
  advance-In :
      (pts : List (Point F)) (limit : F) (cur : Point F) (rest : List (Point F))
      → In cur pts
      → All (λ p. In p pts) rest
      → In (advance limit cur rest).0 pts × All (λ p. In p pts) (advance limit cur rest).1
  unfolding advance
  advance-In pts limit cur [] m _ = (m, tt)
  advance-In pts limit cur (next ∷ rest) m (n, ms) =
      if_rule (λ (at : Point F × List (Point F)). In at.0 pts × All (λ p. In p pts) at.1)
        (le next.0 limit) (advance-In pts limit next rest n ms) (m, (n, ms))

  cell-IsCell :
      (step gt : F) (pts : List (Point F)) (cur : Point F)
      → In cur pts
      → IsCell step pts gt (cell step gt cur)
  cell-IsCell step gt pts cur m = elim (Bool-cases (le (abs (cur.0 ⊖ gt)) step)) [
    | inl e ↦ rw e (cur, m, refl, e)
    | inr e ↦ rw e tt
  ]

  pub resample-IsHeld :
      (step : F) (pts : List (Point F)) (gts : List F) (cur : Point F) (rest : List (Point F))
      → In cur pts
      → All (λ p. In p pts) rest
      → IsHeld step pts gts (resample step gts cur rest)
  unfolding resample
  resample-IsHeld step pts [] cur rest m ms = tt
  resample-IsHeld step pts (gt ∷ gts) cur rest m ms =
      let at = advance (gt ⊕ step ⊘ lit 2 0) cur rest in
      let (here, there) = advance-In pts (gt ⊕ step ⊘ lit 2 0) cur rest m ms in
      (cell-IsCell step gt pts at.0 here, resample-IsHeld step pts gts at.0 at.1 here there)

  pub length-IsHeld :
      (step : F) (pts : List (Point F)) (gts : List F) (cells : List (Option F))
      → IsHeld step pts gts cells
      → length (map or_zero cells) ≡ length gts
  length-IsHeld step pts [] [] _ = refl
  length-IsHeld step pts [] (v ∷ vs) h = elim h [ ]
  length-IsHeld step pts (gt ∷ gts) [] h = elim h [ ]
  length-IsHeld step pts (gt ∷ gts) (v ∷ vs) (_, h) = ap suc (length-IsHeld step pts gts vs h)

  pub length-grid : (latest step : F) (n : ℕ) → length (grid latest step n) ≡ n
  unfolding grid
  length-grid latest step zero = refl
  length-grid latest step (suc n) = ap suc (length-grid latest step n)
