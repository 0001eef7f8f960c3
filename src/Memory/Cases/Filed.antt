-- ===== src/Memory/Cases/Filed.antt =====
-- The rows that `_promote_case` writes to `cases` and `case_observations`, for every id.
use abb_accelerator_aiops.Prelude.{
  ◌≡◌, refl, ◌∙◌, sym, ap, inl, inr, String, str_eq, str_eq_iff, Option, none, some, List, [], ◌∷◌,
  ◌++◌, any, In, ◌⊎◌, if_rule, Bool-cases, Option-cases, if◌then◌else◌,
}
use abb_accelerator_aiops.Float.{Float, le}
use abb_accelerator_aiops.Float.Laws.{IsOrdered}
use abb_accelerator_aiops.Names.{stable_workload}
use abb_accelerator_aiops.Gate.{Edge}
use abb_accelerator_aiops.Graph.{CausalGraph, RootCause}
use abb_accelerator_aiops.Memory.{MemoryConfig}
use abb_accelerator_aiops.Memory.Similarity.{CaseKey, CaseRow, nearest, lead_time}
use abb_accelerator_aiops.Memory.Cases.{
  CaseLibrary, Promotion, Observation, Register, variant, novel, merged_lead, insert_or_ignore,
  opened, family_of, open_case, merge_case, settle, promote_victims, promote_from, promote_case,
  key_of_incident, victims_of,
}
use abb_accelerator_aiops.Memory.Cases.Library.{Found, nearest-IsNearest}
use abb_accelerator_aiops.Memory.Cases.Written.{
  case_of, mean_with, IsOpened, IsFiled, after, case_of-fold_into, case_of-any, any-case_of,
  case_of-append, case_of-In,
}

module _ {F : Type 0} ⦃f : Float F⦄ where
  merged_lead-mean :
      (best : CaseRow F) (lead : Option F)
      → merged_lead best lead ≡ mean_with best.occurrences best.typical_lead_time_s lead
  unfolding merged_lead
  merged_lead-mean best none = refl
  merged_lead-mean best (some lead) = elim (Option-cases best.typical_lead_time_s) [
    | inl e ↦ rw e refl
    | inr (old, e) ↦ rw e refl
  ]

module _ {F : Type 0} ⦃f : Float F⦄ (cfg : MemoryConfig F) (digest : CaseKey → String)
    (key : CaseKey) (edges : List (Edge F)) (ts : F) (lead : Option F) (sim : F)
    (cases : List (CaseRow F)) where
  abbrev Files : List (CaseRow F) × Promotion F → Type 0
  Files (cases', q) = IsFiled key ts lead cases cases' q

  merge_case-IsFiled :
      (best : CaseRow F) → In best cases → Files (merge_case cfg digest ts lead sim best cases)
  unfolding merge_case
  merge_case-IsFiled best m =
      let (old, e, same) = case_of-In best cases m in
      record {
        row = after best ts (merged_lead best lead) old;
        rows = λ id.
            case_of-fold_into best ts (merged_lead best lead) id cases
            ∙ elim (Bool-cases (str_eq best.id id)) [
              | inl q ↦
                  let there : case_of id cases ≡ some old =
                    ap (λ i. case_of i cases) (sym ((str_eq_iff best.id id).0 q)) ∙ e in
                  rw (q, there) refl
              | inr q ↦ rw q refl
            ];
        written = rw e (record {
          best = best;
          known = m;
          same = same;
          row_of = ap (λ l. after best ts l old) (merged_lead-mean best lead);
        });
      }

  -- The row that is there stays, or the row of the incident is appended.
  abbrev Inserts : List (CaseRow F) × Promotion F → CaseRow F → Type 0
  Inserts (cases', q) row =
      ((id : String)
        → case_of id cases' ≡ (if str_eq q.case_id id then some row else case_of id cases))
      × (((case_of q.case_id cases ≡ none) × IsOpened key ts lead q row)
          ⊎ (case_of q.case_id cases ≡ some row))

  open_case-Inserts :
      (register : Register) (family : String)
      → (row : CaseRow F) × Inserts
          (open_case cfg digest key edges ts lead sim register family cases)
          row
  unfolding open_case opened insert_or_ignore
  open_case-Inserts register family =
      let id = digest key in
      elim (Bool-cases (any (λ (r : CaseRow F). str_eq r.id id) cases)) [
        | inl there ↦
            let (old, e) = any-case_of id cases there in
            rw there (
              old,
              (
                λ i. elim (Bool-cases (str_eq id i)) [
                  | inl q ↦ rw q (ap (λ j. case_of j cases) (sym ((str_eq_iff id i).0 q)) ∙ e)
                  | inr q ↦ rw q refl
                ],
                inr e,
              ),
            )
        | inr absent ↦
            let e = case_of-any id cases absent in
            rw absent (
              opened id key edges ts lead family,
              (
                λ i. case_of-append i cases (opened id key edges ts lead family) e,
                inl (
                  e,
                  record {
                    id = refl;
                    incident = refl;
                    occurrences = refl;
                    first_seen = refl;
                    last_seen = refl;
                    lead_time = refl;
                    family = refl;
                  },
                ),
              ),
            )
      ]

  open_case-IsFiled :
      (family : String)
      → Files (open_case cfg digest key edges ts lead sim novel family cases)
        × Files (open_case cfg digest key edges ts lead sim variant family cases)
  unfolding open_case
  open_case-IsFiled family =
      let (row, (rows, how)) = open_case-Inserts novel family in
      let (row', (rows', how')) = open_case-Inserts variant family in
      (
        record {
          row = row;
          rows = rows;
          written = elim how [ inl (e, h) ↦ rw e h | inr e ↦ rw e refl ];
        },
        record {
          row = row';
          rows = rows';
          written = elim how' [ inl (e, h) ↦ rw e h | inr e ↦ rw e refl ];
        },
      )

  settle-IsFiled :
      (best : Option (CaseRow F))
      → Found key cases (best, sim)
      → Files (settle cfg digest key edges ts lead (best, sim) cases)
  unfolding settle
  settle-IsFiled none h = (open_case-IsFiled (digest key)).0
  settle-IsFiled (some best) (m, _) =
      if_rule Files (le cfg.tau_merge sim) {x = merge_case cfg digest ts lead sim best cases}
        (merge_case-IsFiled best m)
        (if_rule Files (le cfg.tau_family sim)
          {x = open_case cfg digest key edges ts lead sim variant (family_of best) cases}
          {y = open_case cfg digest key edges ts lead sim novel (digest key) cases}
          (open_case-IsFiled (family_of best)).1 (open_case-IsFiled (digest key)).0)

module _ {F : Type 0} ⦃f : Float F⦄ (cfg : MemoryConfig F) (digest : CaseKey → String)
    (o : IsOrdered F) (graph : CausalGraph F) (ts : F) (lib : CaseLibrary F) where
  -- The incident of the pass: its root and its victims are those of the observation, and the row of the
  -- promotion's id is of its key and lead time.
  abbrev pub IsPromoted : CaseLibrary F × Option (Promotion F) → Type 0
  IsPromoted (lib', none) = lib' ≡ lib
  IsPromoted (lib', some q) =
      (seen : Observation F) × (lib'.observations ≡ lib.observations ++ seen ∷ [])
      × (seen.case_id ≡ q.case_id)
      × (seen.ts ≡ ts)
      × (seen.graph ≡ graph)
      × IsFiled (key_of_incident cfg digest seen.root seen.victims graph) ts (lead_time graph)
          lib.cases lib'.cases q

  promote_victims-IsPromoted :
      (root : String) (victims : List String)
      → IsPromoted (promote_victims cfg digest graph ts root victims lib)
  unfolding promote_victims
  promote_victims-IsPromoted root [] = refl
  promote_victims-IsPromoted root (v ∷ vs) =
      let key = key_of_incident cfg digest root (v ∷ vs) graph in
      (
        _,
        refl,
        refl,
        refl,
        refl,
        settle-IsFiled cfg digest key graph.edges ts (lead_time graph) (nearest key lib.cases).1
            lib.cases (nearest key lib.cases).0 (nearest-IsNearest o key lib.cases).0,
      )

  promote_from-IsPromoted :
      (roots : List (RootCause F)) (edges : List (Edge F))
      → IsPromoted (promote_from cfg digest roots edges graph ts lib)
  unfolding promote_from
  promote_from-IsPromoted (r ∷ roots) (e ∷ edges) =
      promote_victims-IsPromoted (stable_workload r.pod) (victims_of (stable_workload r.pod) graph)
  promote_from-IsPromoted _ _ = refl

  -- A pass that promotes nothing leaves both case tables as they are. A promotion appends one
  -- observation, with the pass's time and graph, under the id that it returns. In the case table
  -- that id then has a row, and every other id the row that it had. The row of a recurrence is
  -- the old row, seen at this time, with one more occurrence than the library's case of that id
  -- and the mean of the lead times; the row of a variant or a novel incident, if the id had none,
  -- is of this incident, with one occurrence, first and last seen at this time, and otherwise the
  -- old row. The order obeys `IsOrdered`.
  pub promote_case-IsPromoted : IsPromoted (promote_case cfg digest graph ts lib)
  unfolding promote_case
  promote_case-IsPromoted = promote_from-IsPromoted graph.root_cause_ranking graph.edges
