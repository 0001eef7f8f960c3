-- ===== src/Memory/Cases/Outcome.antt =====
-- What `_promote_case` leaves in the tables `cases` and `case_observations`, on every branch.
use mathlib.Core.Path.{subst}
use abb_accelerator_aiops.Prelude.{
  ◌≡◌, refl, ◌∙◌, sym, ap, inl, inr, true, String, str_eq, str_eq_iff, Option, none, some, List, [],
  ◌∷◌, ◌++◌, map, arith, any, In, Bool-cases, if◌then◌else◌, if_rule,
}
use abb_accelerator_aiops.Float.{Float, le}
use abb_accelerator_aiops.Float.Laws.{IsOrdered}
use abb_accelerator_aiops.Names.{stable_workload}
use abb_accelerator_aiops.Gate.{Edge}
use abb_accelerator_aiops.Graph.{CausalGraph, RootCause}
use abb_accelerator_aiops.Memory.{MemoryConfig}
use abb_accelerator_aiops.Memory.Similarity.{CaseKey, CaseRow, nearest}
use abb_accelerator_aiops.Memory.Cases.{
  CaseLibrary, Promotion, Observation, Register, recurrence, variant, novel, fold_into,
  insert_or_ignore, opened, family_of, open_case, merge_case, settle, promote_victims, promote_from,
  promote_case, key_of_incident,
}
use abb_accelerator_aiops.Memory.Cases.Library.{Found, nearest-IsNearest}

module _ {F : Type 0} where
  abbrev pub ids : List (CaseRow F) → List String
  ids rows = map (λ (row : CaseRow F). row.id) rows

-- The ids after an incident: a recurrence adds none, and any other register at most its own.
abbrev pub grown : Register → String → List String → List String
grown recurrence id known = known
grown _ id known = if any (λ k. str_eq k id) known then known else known ++ id ∷ []

module _ {F : Type 0} where
  pub record IsRecorded (lib lib' : CaseLibrary F) (q : Promotion F) : Type 0 where
    pub cases : ids lib'.cases ≡ grown q.case_register q.case_id (ids lib.cases)
    pub known : In q.case_id (ids lib'.cases)
    pub observed :
        (seen : Observation F) × (lib'.observations ≡ lib.observations ++ seen ∷ [])
        × (seen.case_id ≡ q.case_id)

  -- Without a promotion nothing is written.
  abbrev pub Outcome : CaseLibrary F → CaseLibrary F × Option (Promotion F) → Type 0
  Outcome lib (lib', none) = lib' ≡ lib
  Outcome lib (lib', some q) = IsRecorded lib lib' q

module _ {F : Type 0} ⦃f : Float F⦄ where
  ids-fold_into :
      (best : CaseRow F) (ts : F) (lead : Option F) (rows : List (CaseRow F))
      → ids (fold_into best ts lead rows) ≡ ids rows
  unfolding fold_into
  ids-fold_into best ts lead [] = refl
  ids-fold_into best ts lead (row ∷ rows) = ground (arith, ids-fold_into best ts lead rows)

  any-ids :
      (id : String) (rows : List (CaseRow F))
      → any (λ (r : CaseRow F). str_eq r.id id) rows ≡ any (λ k. str_eq k id) (ids rows)
  any-ids id [] = refl
  any-ids id (row ∷ rows) = ground (arith, any-ids id rows)

  ids-append :
      (rows : List (CaseRow F)) (row : CaseRow F) → ids (rows ++ row ∷ []) ≡ ids rows ++ row.id ∷ []
  ids-append [] row = refl
  ids-append (r ∷ rows) row = ap (◌∷◌ r.id) (ids-append rows row)

  ids-insert_or_ignore :
      (row : CaseRow F) (rows : List (CaseRow F))
      → ids (insert_or_ignore row rows)
        ≡ (if any (λ k. str_eq k row.id) (ids rows) then ids rows else ids rows ++ row.id ∷ [])
  unfolding insert_or_ignore
  ids-insert_or_ignore row rows = elim (Bool-cases (any (λ k. str_eq k row.id) (ids rows))) [
    | inl e ↦ rw (any-ids row.id rows ∙ e, e) refl
    | inr e ↦ rw (any-ids row.id rows ∙ e, e) (ids-append rows row)
  ]

In-of_any : (id : String) (known : List String) → any (λ k. str_eq k id) known ≡ true → In id known
In-of_any id [] h = absurd (ground arith)
In-of_any id (k ∷ known) h = elim (Bool-cases (str_eq k id)) [
  | inl e ↦ inl (sym ((str_eq_iff k id).0 e))
  | inr e ↦ inr (In-of_any id known (ground arith))
]

In-last : (id : String) (known : List String) → In id (known ++ id ∷ [])
In-last id [] = inl refl
In-last id (k ∷ known) = inr (In-last id known)

In-grown :
    (id : String) (known : List String)
    → In id (if any (λ k. str_eq k id) known then known else known ++ id ∷ [])
In-grown id known = elim (Bool-cases (any (λ k. str_eq k id) known)) [
  | inl e ↦ rw e (In-of_any id known e)
  | inr e ↦ rw e (In-last id known)
]

In-ids :
    {F : Type 0} (best : CaseRow F) (rows : List (CaseRow F)) → In best rows → In best.id (ids rows)
In-ids best [] h = elim h [ ]
In-ids best (row ∷ rows) (inl e) = inl (ap (λ (r : CaseRow _). r.id) e)
In-ids best (row ∷ rows) (inr m) = inr (In-ids best rows m)

module _ {F : Type 0} ⦃f : Float F⦄ (cfg : MemoryConfig F) (digest : CaseKey → String) where
  abbrev Grown : List (CaseRow F) → List (CaseRow F) × Promotion F → Type 0
  Grown cases (cases', q) =
      (ids cases' ≡ grown q.case_register q.case_id (ids cases)) × In q.case_id (ids cases')

  module _ (key : CaseKey) (edges : List (Edge F)) (ts : F) (lead : Option F) (sim : F)
      (cases : List (CaseRow F)) where
    inserted :
        (family : String)
        → let cases' = insert_or_ignore (opened (digest key) key edges ts lead family) cases in
          (ids cases' ≡ grown novel (digest key) (ids cases)) × In (digest key) (ids cases')
    unfolding opened
    inserted family =
        let e = ids-insert_or_ignore (opened (digest key) key edges ts lead family) cases in
        (e, subst (In (digest key)) (sym e) (In-grown (digest key) (ids cases)))

    settle-Grown :
        (best : Option (CaseRow F))
        → Found key cases (best, sim)
        → Grown cases (settle cfg digest key edges ts lead (best, sim) cases)
    unfolding settle
    settle-Grown none h = inserted (digest key)
    settle-Grown (some best) (m, e) =
        if_rule (Grown cases) (le cfg.tau_merge sim)
          {x = merge_case cfg digest ts lead sim best cases}
          (
            ids-fold_into best ts _ cases,
            subst (In best.id) (sym (ids-fold_into best ts _ cases)) (In-ids best cases m),
          )
          (if_rule (Grown cases) (le cfg.tau_family sim)
            {x = open_case cfg digest key edges ts lead sim variant (family_of best) cases}
            {y = open_case cfg digest key edges ts lead sim novel (digest key) cases}
            (inserted (family_of best)) (inserted (digest key)))

  promote_victims-Outcome :
      (o : IsOrdered F) (graph : CausalGraph F) (ts : F) (root : String) (victims : List String)
      (lib : CaseLibrary F)
      → Outcome lib (promote_victims cfg digest graph ts root victims lib)
  unfolding promote_victims
  promote_victims-Outcome o graph ts root [] lib = refl
  promote_victims-Outcome o graph ts root (v ∷ vs) lib =
      let key = key_of_incident cfg digest root (v ∷ vs) graph in
      let (sizes, known) =
        settle-Grown key graph.edges ts _ (nearest key lib.cases).1 lib.cases
          (nearest key lib.cases).0 (nearest-IsNearest o key lib.cases).0 in
      record { cases = sizes; known = known; observed = (_, refl, refl) }

  promote_from-Outcome :
      (o : IsOrdered F) (roots : List (RootCause F)) (edges : List (Edge F)) (graph : CausalGraph F)
      (ts : F) (lib : CaseLibrary F)
      → Outcome lib (promote_from cfg digest roots edges graph ts lib)
  unfolding promote_from
  promote_from-Outcome o (r ∷ roots) (e ∷ edges) graph ts lib =
      promote_victims-Outcome o graph ts (stable_workload r.pod) _ lib
  promote_from-Outcome o _ _ graph ts lib = refl

  -- A pass that promotes nothing leaves both tables as they are. A promotion appends one
  -- observation, under the id that it returns, and that id is in the case table: a recurrence
  -- adds no case, and a variant or a novel case adds its id at the end, unless it is there
  -- already. The order obeys `IsOrdered`.
  pub promote_case-Outcome :
      (o : IsOrdered F) (graph : CausalGraph F) (ts : F) (lib : CaseLibrary F)
      → Outcome lib (promote_case cfg digest graph ts lib)
  unfolding promote_case
  promote_case-Outcome o graph ts lib =
      promote_from-Outcome o graph.root_cause_ranking graph.edges graph ts lib
