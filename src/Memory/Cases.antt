-- ===== src/Memory/Cases.antt =====
-- `_promote_case` of correlation/engine/state.py: an incident is folded into the nearest case, grouped
-- into its family, or opens a case of its own. The digest of a case's key, `sha1(json(key))[:16]`, is
-- a parameter.
pub mod Library
pub mod Outcome
pub mod Written
pub mod Filed
pub mod Registers
use abb_accelerator_aiops.Prelude.{
  ℕ, ◌+◌, Bool, true, false, not, String, str_eq, Option, none, some, List, [], ◌∷◌, ◌++◌, map,
  filter, any, str_lt, sorted, if◌then◌else◌, dedup,
}
use abb_accelerator_aiops.Float.{Float, lit, ◌⊕◌, ◌⊗◌, ◌⊘◌, le, round}
use abb_accelerator_aiops.Names.{stable_workload}
use abb_accelerator_aiops.Gate.{Edge}
use abb_accelerator_aiops.Graph.{CausalGraph, Impact, RootCause}
use abb_accelerator_aiops.Memory.{MemoryConfig}
use abb_accelerator_aiops.Memory.Similarity.{
  Arrow, CaseKey, CaseRow, arrow_eq, arrow_lt, dominant_witness, lead_time, nearest,
}

-- A row of `case_observations`.
pub record Observation (F : Type 0) : Type 0 where
  pub ts : F
  pub case_id : String
  pub root : String
  pub victims : List String
  pub graph : CausalGraph F

-- The tables `cases` and `case_observations`.
pub record CaseLibrary (F : Type 0) : Type 0 where
  pub cases : List (CaseRow F)
  pub observations : List (Observation F)

pub data Register : Type 0 where
  recurrence variant novel : Register

-- The dict that a promotion returns.
pub record Promotion (F : Type 0) : Type 0 where
  pub case_id : String
  pub case_family : String
  pub case_register : Register
  pub case_sim : F

-- A set of names, sorted
abbrev name_set : List String → List String
name_set names = sorted str_lt (dedup str_eq names)

put_lag : Arrow → ℕ → List (Arrow × ℕ) → List (Arrow × ℕ)
put_lag a lag [] = (a, lag) ∷ []
put_lag a lag ((b, l) ∷ lags) =
    if arrow_eq b a then (b, lag) ∷ lags else (b, l) ∷ put_lag a lag lags

is_empty : {A : Type 0} → List A → Bool
is_empty [] = true
is_empty _ = false

module _ {F : Type 0} ⦃f : Float F⦄ where
  -- `stable_workload(...)` of the ends of an edge
  abbrev pub arrow_of : Edge F → Arrow
  arrow_of e = (stable_workload e.src, stable_workload e.dst)

  -- The victims other than the root: those of the blast radius, and failing any, the targets.
  unfoldable pub victims_of : String → CausalGraph F → List String
  unfolding is_empty sorted
  victims_of root graph =
      let is_victim = λ (w : String). not (str_eq w root) in
      let pods =
        filter (λ p. not (str_eq p "")) (map (λ (b : Impact F). b.pod) graph.blast_radius) in
      let struck = name_set (filter is_victim (map stable_workload pods)) in
      let targets =
        name_set (filter is_victim (map (λ (e : Edge F). stable_workload e.dst) graph.edges)) in
      if is_empty struck then targets else struck

  lag_structure_from : List (Arrow × ℕ) → List (Edge F) → List (Arrow × ℕ)
  lag_structure_from lags [] = lags
  lag_structure_from lags (e ∷ edges) = lag_structure_from (put_lag (arrow_of e) e.lag_s lags) edges

  -- The row that an incident with no near case opens.
  opened : String → CaseKey → List (Edge F) → F → Option F → String → CaseRow F
  unfolding lag_structure_from put_lag
  opened case_id key edges ts lead family_id = record {
    id = case_id;
    key = key;
    lag_structure = lag_structure_from [] edges;
    occurrences = 1;
    first_seen_ts = ts;
    last_seen_ts = ts;
    typical_lead_time_s = lead;
    family_id = some family_id;
  }

  -- The lead time of a case after one more occurrence: the running mean.
  merged_lead : CaseRow F → Option F → Option F
  merged_lead best none = best.typical_lead_time_s
  merged_lead best (some lead) = elim best.typical_lead_time_s [
    | none ↦ some lead
    | some old ↦ some ((old ⊗ lit best.occurrences 0 ⊕ lead) ⊘ lit (best.occurrences + 1) 0)
  ]

  -- UPDATE cases SET occurrences=?, last_seen_ts=?, typical_lead_time_s=? WHERE id=?
  unfoldable pub fold_into : CaseRow F → F → Option F → List (CaseRow F) → List (CaseRow F)
  fold_into best ts lead [] = []
  fold_into best ts lead (row ∷ rows) =
      (if str_eq row.id best.id
        then record row {
          occurrences = best.occurrences + 1;
          last_seen_ts = ts;
          typical_lead_time_s = lead;
        }
        else row)
      ∷ fold_into best ts lead rows

  -- INSERT OR IGNORE INTO cases
  unfoldable pub insert_or_ignore : CaseRow F → List (CaseRow F) → List (CaseRow F)
  insert_or_ignore row rows =
      if any (λ (r : CaseRow F). str_eq r.id row.id) rows then rows else rows ++ row ∷ []

  -- `family_id or id` (an empty family_id counts as none)
  abbrev pub family_of : CaseRow F → String
  family_of row = elim row.family_id [
    | none ↦ row.id
    | some family ↦ if str_eq family "" then row.id else family
  ]

  module _ (cfg : MemoryConfig F) (digest : CaseKey → String) where
    -- The `else` branch: a case of its own, in a family.
    open_case :
        CaseKey
        → List (Edge F)
        → F
        → Option F
        → F
        → Register
        → String
        → List (CaseRow F)
        → List (CaseRow F) × Promotion F
    unfolding opened insert_or_ignore
    open_case key edges ts lead sim register family cases = (
      insert_or_ignore (opened (digest key) key edges ts lead family) cases,
      record {
        case_id = digest key;
        case_family = family;
        case_register = register;
        case_sim = round 3 sim;
      },
    )

    -- The `if` branch: one more occurrence of the nearest case.
    merge_case : F → Option F → F → CaseRow F → List (CaseRow F) → List (CaseRow F) × Promotion F
    unfolding fold_into merged_lead
    merge_case ts lead sim best cases = (
      fold_into best ts (merged_lead best lead) cases,
      record {
        case_id = best.id;
        case_family = family_of best;
        case_register = recurrence;
        case_sim = round 3 sim;
      },
    )

    settle :
        CaseKey
        → List (Edge F)
        → F
        → Option F
        → Option (CaseRow F) × F
        → List (CaseRow F)
        → List (CaseRow F) × Promotion F
    unfolding open_case merge_case
    settle key edges ts lead (none, sim) cases =
        open_case key edges ts lead sim novel (digest key) cases
    settle key edges ts lead (some best, sim) cases =
        if le cfg.tau_merge sim
        then merge_case ts lead sim best cases
        else if le cfg.tau_family sim
        then open_case key edges ts lead sim variant (family_of best) cases
        else open_case key edges ts lead sim novel (digest key) cases

    -- The key of an incident with this root and these victims.
    unfoldable pub key_of_incident : String → List String → CausalGraph F → CaseKey
    key_of_incident root victims graph = record {
      stressors = root ∷ [];
      victims = victims;
      signal = cfg.signal;
      witness_kind = dominant_witness graph.edges;
      motif = sorted arrow_lt (map arrow_of graph.edges);
    }

    promote_victims :
        CausalGraph F
        → F
        → String
        → List String
        → CaseLibrary F
        → CaseLibrary F × Option (Promotion F)
    unfolding settle key_of_incident
    promote_victims graph ts root [] lib = (lib, none)
    promote_victims graph ts root (v ∷ vs) lib =
        let key = key_of_incident root (v ∷ vs) graph in
        let (cases, promotion) =
          settle key graph.edges ts (lead_time graph) (nearest key lib.cases) lib.cases in
        let seen : Observation F = record {
          ts = ts;
          case_id = promotion.case_id;
          root = root;
          victims = v ∷ vs;
          graph = graph;
        } in
        (record { cases = cases; observations = lib.observations ++ seen ∷ [] }, some promotion)

    promote_from :
        List (RootCause F)
        → List (Edge F)
        → CausalGraph F
        → F
        → CaseLibrary F
        → CaseLibrary F × Option (Promotion F)
    unfolding promote_victims victims_of
    promote_from (r ∷ roots) (e ∷ edges) graph ts lib =
        let root = stable_workload r.pod in
        promote_victims graph ts root (victims_of root graph) lib
    promote_from _ _ graph ts lib = (lib, none)

    -- `_promote_case`
    unfoldable pub promote_case :
        CausalGraph F → F → CaseLibrary F → CaseLibrary F × Option (Promotion F)
    unfolding promote_from
    promote_case graph ts lib = promote_from graph.root_cause_ranking graph.edges graph ts lib
