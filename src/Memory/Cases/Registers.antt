-- ===== src/Memory/Cases/Registers.antt =====
-- Which register an incident gets from `_promote_case`, in terms of every case of the library.
use mathlib.Core.Path.{subst}
use abb_accelerator_aiops.Prelude.{
  ◌≡◌, refl, sym, inl, inr, String, Option, none, some, List, [], ◌∷◌, arith, All, All-map, In,
  Bool-cases,
}
use abb_accelerator_aiops.Float.{Float, lit, le}
use abb_accelerator_aiops.Float.Laws.{IsOrdered, ◌≼◌, ◌≺◌, lt_of_le_of_lt}
use abb_accelerator_aiops.Names.{stable_workload}
use abb_accelerator_aiops.Gate.{Edge}
use abb_accelerator_aiops.Graph.{CausalGraph, RootCause}
use abb_accelerator_aiops.Memory.{MemoryConfig}
use abb_accelerator_aiops.Memory.Similarity.{CaseKey, CaseRow, case_sim, nearest}
use abb_accelerator_aiops.Memory.Cases.{
  CaseLibrary, Promotion, Register, recurrence, variant, novel, family_of, settle, promote_victims,
  promote_from, promote_case, victims_of, key_of_incident,
}
use abb_accelerator_aiops.Memory.Cases.Library.{Found, AtMost, nearest-IsNearest}

-- Every case is less similar to the incident than the bound.
abbrev pub AllBelow : {F : Type 0} ⦃f : Float F⦄ → F → CaseKey → List (CaseRow F) → Type 0
AllBelow tau key cases = All (λ (row : CaseRow _). case_sim key row.key ≺ tau) cases

module _ {F : Type 0} ⦃f : Float F⦄ (cfg : MemoryConfig F) where
  -- What a register says of the incident: a recurrence has a case of the library at `tau_merge` or
  -- more, whose id and family it takes; a variant has none there, but one at `tau_family` or more, whose
  -- family it takes; and a novel incident has none at `tau_family` or more, nor at `tau_merge`.
  abbrev pub Justified : CaseKey → List (CaseRow F) → Register → String → String → Type 0
  Justified key cases recurrence id family =
      (best : CaseRow F) × In best cases
      × (cfg.tau_merge ≼ case_sim key best.key)
      × (best.id ≡ id)
      × (family_of best ≡ family)
  Justified key cases variant id family =
      (best : CaseRow F) × In best cases
      × (cfg.tau_family ≼ case_sim key best.key)
      × (family_of best ≡ family)
      × AllBelow cfg.tau_merge key cases
  Justified key cases novel id family =
      AllBelow cfg.tau_family key cases × AllBelow cfg.tau_merge key cases × (family ≡ id)

  abbrev pub JustifiedBy : CaseKey → List (CaseRow F) → Option (Promotion F) → Type 0
  JustifiedBy key cases none = Unit
  JustifiedBy key cases (some q) = Justified key cases q.case_register q.case_id q.case_family

module _ {F : Type 0} ⦃f : Float F⦄ (o : IsOrdered F) (cfg : MemoryConfig F)
    (digest : CaseKey → String) (positive : lit 0 0 ≺ cfg.tau_family)
    (merging : lit 0 0 ≺ cfg.tau_merge) where
  below :
      (tau : F) (key : CaseKey) (sim : F) (cases : List (CaseRow F))
      → AtMost o key sim cases
      → sim ≺ tau
      → AllBelow tau key cases
  below tau key sim cases h k = All-map (λ row m. lt_of_le_of_lt o _ _ _ m k) cases h

  settle-Justified :
      (key : CaseKey) (edges : List (Edge F)) (ts : F) (lead : Option F) (best : Option (CaseRow F))
      (sim : F) (cases : List (CaseRow F))
      → Found key cases (best, sim)
      → AtMost o key sim cases
      → JustifiedBy cfg key cases (some (settle cfg digest key edges ts lead (best, sim) cases).1)
  unfolding settle
  settle-Justified key edges ts lead none sim cases h all = (
    below cfg.tau_family key sim cases all (subst (λ s. s ≺ cfg.tau_family) (sym h) positive),
    below cfg.tau_merge key sim cases all (subst (λ s. s ≺ cfg.tau_merge) (sym h) merging),
    refl,
  )
  settle-Justified key edges ts lead (some best) sim cases (m, e) all =
      elim (Bool-cases (le cfg.tau_merge sim)) [
        | inl p ↦ rw p (best, m, subst (λ s. cfg.tau_merge ≼ s) (sym e) p, refl, refl)
        | inr p ↦
            let apart =
              below cfg.tau_merge key sim cases all
                (ground (arith, o.lt-eq-not-le sim cfg.tau_merge)) in
            elim (Bool-cases (le cfg.tau_family sim)) [
              | inl q ↦ rw (p, q) (best, m, subst (λ s. cfg.tau_family ≼ s) (sym e) q, refl, apart)
              | inr q ↦
                  let far =
                    below cfg.tau_family key sim cases all
                      (ground (arith, o.lt-eq-not-le sim cfg.tau_family)) in
                  rw (p, q) (far, apart, refl)
            ]
      ]

  promote_victims-Justified :
      (graph : CausalGraph F) (ts : F) (root : String) (victims : List String) (lib : CaseLibrary F)
      → JustifiedBy cfg
          (key_of_incident cfg digest root victims graph)
          lib.cases
          (promote_victims cfg digest graph ts root victims lib).1
  unfolding promote_victims
  promote_victims-Justified graph ts root [] lib = tt
  promote_victims-Justified graph ts root (v ∷ vs) lib =
      let key = key_of_incident cfg digest root (v ∷ vs) graph in
      let (found, most) = nearest-IsNearest o key lib.cases in
      settle-Justified key graph.edges ts _ (nearest key lib.cases).0 (nearest key lib.cases).1
        lib.cases found most

  promote_from-Justified :
      (r : RootCause F) (roots : List (RootCause F)) (edges : List (Edge F)) (graph : CausalGraph F)
      (ts : F) (lib : CaseLibrary F)
      → let root = stable_workload r.pod in
        JustifiedBy cfg
          (key_of_incident cfg digest root (victims_of root graph) graph)
          lib.cases
          (promote_from cfg digest (r ∷ roots) edges graph ts lib).1
  unfolding promote_from
  promote_from-Justified r roots [] graph ts lib = tt
  promote_from-Justified r roots (e ∷ edges) graph ts lib =
      promote_victims-Justified graph ts (stable_workload r.pod)
        (victims_of (stable_workload r.pod) graph) lib

  -- The register of a promotion is justified by the whole library as it was, for the incident
  -- with the workload of the first root cause and its victims: a recurrence has a case at
  -- `tau_merge` or more, whose id and family it takes; a variant has one at `tau_family` or more,
  -- whose family it takes, and none at `tau_merge` or more; a novel incident has none at
  -- `tau_family` or more and none at `tau_merge` or more. The order obeys `IsOrdered`, and
  -- `tau_family` and `tau_merge` are positive.
  pub promote_case-Justified :
      (graph : CausalGraph F) (ts : F) (lib : CaseLibrary F) (r : RootCause F)
      (roots : List (RootCause F))
      → graph.root_cause_ranking ≡ r ∷ roots
      → let root = stable_workload r.pod in
        JustifiedBy cfg
          (key_of_incident cfg digest root (victims_of root graph) graph)
          lib.cases
          (promote_case cfg digest graph ts lib).1
  unfolding promote_case
  promote_case-Justified graph ts lib r roots h =
      simp h (promote_from-Justified r roots graph.edges graph ts lib)
