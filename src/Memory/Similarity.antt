-- ===== src/Memory/Similarity.antt =====
-- The case library of correlation/engine/state.py: its rows, and the similarity of an incident to a
-- stored case (`_jaccard`, `_case_sim`, `_dominant_witness`, `_lead_time`).
use abb_accelerator_aiops.Prelude.{
  ℕ, ◌+◌, Bool, true, false, not, ◌&&◌, ◌||◌, String, str_eq, Option, none, some, List, [], ◌∷◌,
  ◌++◌, map, length, filter, any, str_lt, sorted, ltb, ◌==◌, if◌then◌else◌, dedup,
}
use abb_accelerator_aiops.Float.{Float, lit, ◌⊕◌, ◌⊗◌, ◌⊘◌, lt}
use abb_accelerator_aiops.Gate.{Evidence, stat, temporal, write, ebpf, psi, pvc, Edge}
use abb_accelerator_aiops.Graph.{CausalGraph, Impact}

abbrev pub Arrow : Type 0
Arrow = String × String

-- What identifies a case: the dict behind key_json.
pub record CaseKey : Type 0 where
  pub stressors : List String
  pub victims : List String
  pub signal : String
  pub witness_kind : Option Evidence
  pub motif : List Arrow

-- A row of `cases`; the columns that the engine never writes are left out.
pub record CaseRow (F : Type 0) : Type 0 where
  pub id : String
  pub key : CaseKey
  pub lag_structure : List (Arrow × ℕ)
  pub occurrences : ℕ
  pub first_seen_ts : F
  pub last_seen_ts : F
  pub typical_lead_time_s : Option F
  pub family_id : Option String

abbrev pub arrow_eq : Arrow → Arrow → Bool
arrow_eq (a, b) (x, y) = str_eq a x && str_eq b y

-- `(item["src"], item["dst"])` in order
abbrev pub arrow_lt : Arrow → Arrow → Bool
arrow_lt (a, b) (x, y) = str_lt a x || (str_eq a x && str_lt b y)

-- `json.dumps` and `sha1` write a name for a witness; names come in the order ebpf, psi, pvc.
evidence_eq : Evidence → Evidence → Bool
evidence_eq stat stat = true
evidence_eq temporal temporal = true
evidence_eq write write = true
evidence_eq ebpf ebpf = true
evidence_eq psi psi = true
evidence_eq pvc pvc = true
evidence_eq _ _ = false

evidence_lt : Evidence → Evidence → Bool
evidence_lt ebpf psi = true
evidence_lt ebpf pvc = true
evidence_lt psi pvc = true
evidence_lt _ _ = false

kind_eq : Option Evidence → Option Evidence → Bool
unfolding evidence_eq
kind_eq none none = true
kind_eq (some a) (some b) = evidence_eq a b
kind_eq _ _ = false

-- `ev in ("stat", "temporal", "write")`
abbrev is_statistical : Evidence → Bool
is_statistical stat = true
is_statistical temporal = true
is_statistical write = true
is_statistical _ = false

-- `counts[ev] = counts.get(ev, 0) + 1`
bump : Evidence → List (Evidence × ℕ) → List (Evidence × ℕ)
unfolding evidence_eq
bump ev [] = (ev, 1) ∷ []
bump ev ((k, n) ∷ counts) =
    if evidence_eq k ev then (k, n + 1) ∷ counts else (k, n) ∷ bump ev counts

count_evidence : List Evidence → List (Evidence × ℕ) → List (Evidence × ℕ)
unfolding bump
count_evidence [] counts = counts
count_evidence (ev ∷ evs) counts =
    count_evidence evs (if is_statistical ev then counts else bump ev counts)

count_edges : {F : Type 0} → List (Edge F) → List (Evidence × ℕ) → List (Evidence × ℕ)
unfolding count_evidence
count_edges [] counts = counts
count_edges (e ∷ edges) counts = count_edges edges (count_evidence e.evidence counts)

-- `sorted(counts.items(), key=lambda kv: (-kv[1], kv[0]))[0][0]`
unfoldable pub dominant_witness : {F : Type 0} → List (Edge F) → Option Evidence
unfolding count_edges evidence_lt sorted
dominant_witness edges =
    elim (sorted (λ a b. ltb b.1 a.1 || (a.1 == b.1 && evidence_lt a.0 b.0))
      (count_edges edges [])) [ [] ↦ none | kv ∷ _ ↦ some kv.0 ]

module _ {F : Type 0} ⦃f : Float F⦄ where
  -- `len(a & b) / len(a | b)` of two sets, kept as lists without duplicates
  unfoldable pub jaccard : {A : Type 0} → (A → A → Bool) → List A → List A → F
  jaccard eq a b =
      let both = filter (λ x. any (eq x) b) a in
      let union = a ++ filter (λ x. not (any (eq x) a)) b in
      if length union == 0 then lit 1 0 else lit (length both) 0 ⊘ lit (length union) 0

  unfoldable pub case_sim : CaseKey → CaseKey → F
  unfolding jaccard kind_eq
  case_sim fp c =
      if not (str_eq fp.signal c.signal) || not (kind_eq fp.witness_kind c.witness_kind)
      then lit 0 0
      else lit 40 2 ⊗ jaccard str_eq (dedup str_eq fp.victims) (dedup str_eq c.victims)
        ⊕ lit 20 2 ⊗ jaccard str_eq (dedup str_eq fp.stressors) (dedup str_eq c.stressors)
        ⊕ lit 40 2 ⊗ jaccard arrow_eq (dedup arrow_eq fp.motif) (dedup arrow_eq c.motif)

  sum_of : F → List F → F
  sum_of acc [] = acc
  sum_of acc (x ∷ xs) = sum_of (acc ⊕ x) xs

  abbrev mean_of : List F → Option F
  mean_of [] = none
  mean_of (x ∷ xs) = some (sum_of (lit 0 0) (x ∷ xs) ⊘ lit (length (x ∷ xs)) 0)

  unfoldable pub lead_time : CausalGraph F → Option F
  unfolding sum_of
  lead_time graph =
      let lags =
        map (λ (e : Edge F). lit e.lag_s 0) (filter (λ (e : Edge F). ltb 0 e.lag_s) graph.edges) in
      elim (mean_of (map (λ (b : Impact F). lit b.eta_s 0) graph.blast_radius)) [
        | some m ↦ some m
        | none ↦ mean_of lags
      ]

  -- One round of the search for the nearest case: `if s > best_sim`.
  unfoldable pub nearer : CaseKey → Option (CaseRow F) × F → CaseRow F → Option (CaseRow F) × F
  nearer fp best crow = let s = case_sim fp crow.key in if lt best.1 s then (some crow, s) else best

  unfoldable pub nearest_from :
      CaseKey → Option (CaseRow F) × F → List (CaseRow F) → Option (CaseRow F) × F
  unfolding nearer
  nearest_from fp best [] = best
  nearest_from fp best (crow ∷ rows) = nearest_from fp (nearer fp best crow) rows

  unfoldable pub nearest : CaseKey → List (CaseRow F) → Option (CaseRow F) × F
  nearest fp rows = nearest_from fp (none, lit 0 0) rows
