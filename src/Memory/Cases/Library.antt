-- ===== src/Memory/Cases/Library.antt =====
-- What a promotion does to the case library: which case is the nearest, which register an incident
-- gets, and what is added to the tables.
use mathlib.Core.Path.{subst}
use abb_accelerator_aiops.Prelude.{
  ◌≡◌, refl, sym, ◌⊎◌, inl, inr, Option, none, some, List, [], ◌∷◌, All, All-In, In, Bool-cases,
}
use abb_accelerator_aiops.Float.{Float, lit, lt}
use abb_accelerator_aiops.Float.Laws.{IsOrdered, ◌≼◌, le_of_lt, le_of_not-lt}
use abb_accelerator_aiops.Memory.Similarity.{
  CaseKey, CaseRow, case_sim, nearest, nearest_from, nearer,
}

module _ {F : Type 0} ⦃f : Float F⦄ where
  -- What the search returns: no case and similarity 0, or a case of the table with its similarity.
  abbrev pub Found : CaseKey → List (CaseRow F) → Option (CaseRow F) × F → Type 0
  Found fp rows (none, sim) = sim ≡ lit 0 0
  Found fp rows (some best, sim) = In best rows × (case_sim fp best.key ≡ sim)

  Found-nearer :
      (fp : CaseKey) (b : Option (CaseRow F) × F) (crow : CaseRow F)
      → (nearer fp b crow ≡ b) ⊎ (nearer fp b crow ≡ (some crow, case_sim fp crow.key))
  unfolding nearer
  Found-nearer fp b crow = elim (Bool-cases (lt b.1 (case_sim fp crow.key))) [
    | inl e ↦ inr (rw e refl)
    | inr e ↦ inl (rw e refl)
  ]

  Found-cons :
      (fp : CaseKey) (row : CaseRow F) (rows : List (CaseRow F)) (b : Option (CaseRow F) × F)
      → Found fp rows b
      → Found fp (row ∷ rows) b
  Found-cons fp row rows (none, sim) h = h
  Found-cons fp row rows (some best, sim) (m, e) = (inr m, e)

  nearest_from-Found :
      (fp : CaseKey) (all : List (CaseRow F)) (b : Option (CaseRow F) × F) (rows : List (CaseRow F))
      → Found fp all b
      → All (λ row. In row all) rows
      → Found fp all (nearest_from fp b rows)
  unfolding nearest_from
  nearest_from-Found fp all b [] h _ = h
  nearest_from-Found fp all b (crow ∷ rows) h (m, ms) =
      nearest_from-Found fp all (nearer fp b crow) rows
        (elim (Found-nearer fp b crow) [
          | inl e ↦ subst (Found fp all) (sym e) h
          | inr e ↦ subst (Found fp all) (sym e) (m, refl)
        ])
        ms

module _ {F : Type 0} ⦃f : Float F⦄ (o : IsOrdered F) where
  abbrev pub AtMost : CaseKey → F → List (CaseRow F) → Type 0
  AtMost fp sim rows = All (λ (row : CaseRow F). case_sim fp row.key ≼ sim) rows

  nearer-ge :
      (fp : CaseKey) (b : Option (CaseRow F) × F) (crow : CaseRow F)
      → (b.1 ≼ (nearer fp b crow).1) × (case_sim fp crow.key ≼ (nearer fp b crow).1)
  unfolding nearer
  nearer-ge fp b crow =
      let s = case_sim fp crow.key in
      elim (Bool-cases (lt b.1 s)) [
        | inl e ↦ rw e (le_of_lt o _ _ e, o.le_refl s)
        | inr e ↦ rw e (o.le_refl b.1, le_of_not-lt o _ _ e)
      ]

  nearest_from-ge :
      (fp : CaseKey) (b : Option (CaseRow F) × F) (rows : List (CaseRow F))
      → (b.1 ≼ (nearest_from fp b rows).1) × AtMost fp (nearest_from fp b rows).1 rows
  unfolding nearest_from
  nearest_from-ge fp b [] = (o.le_refl b.1, tt)
  nearest_from-ge fp b (crow ∷ rows) =
      let (up, all) = nearest_from-ge fp (nearer fp b crow) rows in
      let (left, right) = nearer-ge fp b crow in
      (o.le_trans _ _ _ left up, (o.le_trans _ _ _ right up, all))

  -- The search returns a case of the table with its similarity, or none at similarity 0, and no
  -- case of the table is more similar to the incident. The order obeys `IsOrdered`.
  pub nearest-IsNearest :
      (fp : CaseKey) (rows : List (CaseRow F))
      → Found fp rows (nearest fp rows) × AtMost fp (nearest fp rows).1 rows
  unfolding nearest
  nearest-IsNearest fp rows = (
    nearest_from-Found fp rows (none, lit 0 0) rows refl (All-In rows),
    (nearest_from-ge fp (none, lit 0 0) rows).1,
  )
