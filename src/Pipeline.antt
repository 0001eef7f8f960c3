-- ===== src/Pipeline.antt =====
-- `run_pass` of correlation/engine/pipeline.py: signal vectors in, causal graph out. Events has the
-- steps up to the event's centre, Edges the edges between coupled pods.
pub mod Events
pub mod Edges
pub mod Witnessed
pub mod Returns
pub mod Result
pub mod Total
use abb_accelerator_aiops.Prelude.{
  ℕ, Bool, String, Option, none, some, List, [], ◌∷◌, ◌++◌, map, length, sorted, str_lt,
  if◌then◌else◌, Dict,
}
use abb_accelerator_aiops.Float.{Float, lt, abs}
use abb_accelerator_aiops.Lagcorr.{Stats}
use abb_accelerator_aiops.Gate.{Edge, Witness}
use abb_accelerator_aiops.Graph.{Finding, RootCause, Impact, CausalGraph}
use abb_accelerator_aiops.Detectors.{Arrays}
use abb_accelerator_aiops.Memory.Baselines.{Quantiles}
use abb_accelerator_aiops.Ranking.{DiGraph, build_graph, rank_root_causes, blast_radius}
use abb_accelerator_aiops.Pipeline.Events.{
  Disturbed, raw_onsets, centre_of, finding_of, write_onsets, slice,
}
use abb_accelerator_aiops.Pipeline.Edges.{
  combinations, sorted_keys, psi_edges, source_edges, settled,
}

-- The arguments of `run_pass`; an absent dict of vectors or of limits is empty.
pub record PassInput (F : Type 0) : Type 0 where
  pub vectors : Dict (List F)
  pub witness : Witness
  pub slo_breach : List String
  pub caps : Dict F
  pub window : Option ℕ
  pub write_vectors : Dict (List F)
  pub baselines : Option (Dict (Option F))

-- The entry `meta` of the result.
pub record PassMeta : Type 0 where
  pub pods : ℕ
  pub active : ℕ
  pub accepted_edges : ℕ

-- The functions of numpy and scipy that a pass calls.
pub record Numerics (F : Type 0) : Type 0 where
  pub arrays : Arrays F
  pub quantiles : Quantiles F
  pub stats : Stats F

-- `len(next(iter(vectors.values())))`
length_of_first : {F : Type 0} → Dict (List F) → ℕ
length_of_first [] = 0
length_of_first ((_, v) ∷ _) = length v

module _ {F : Type 0} ⦃f : Float F⦄ where
  abbrev pods_of : List (Finding F) → List String
  pods_of findings = map (λ (d : Finding F). d.pod) findings

  abbrev onsets_of : List (Finding F) → Dict F
  onsets_of findings = map (λ (d : Finding F). (d.pod, d.onset_s)) findings

  -- Every vector, cut down to the event.
  abbrev sliced : Option ℕ → Option ℕ → ℕ → Dict (List F) → Dict (List F)
  sliced window centre n vectors =
      map (λ (e : String × List F). (e.0, slice window centre n e.1)) vectors

  -- `blast_radius(g, ranking[0]["pod"]) if ranking else []`
  abbrev pub victims :
      (nx : DiGraph F) → ℕ → nx.Graph → List (RootCause F) → Option (List (Impact F))
  victims nx fuel g [] = some []
  victims nx fuel g (first ∷ _) = blast_radius nx g fuel first.pod

  module _ (np : Numerics F) (i : PassInput F) where
    abbrev pub raw : List (Disturbed F)
    raw = raw_onsets np.arrays np.quantiles i.baselines i.vectors

    abbrev pub centre : Option ℕ
    centre = centre_of i.witness raw

    -- `findings.values()`
    unfoldable pub pass_findings : List (Finding F)
    pass_findings = map (finding_of np.arrays i.caps centre) raw

    abbrev correlated : Dict (List F) → Dict (List F)
    correlated vectors = sliced i.window centre (length_of_first i.vectors) vectors

    -- The edges that the gate accepts, and the writers' edges; without write vectors there are none.
    unfoldable pub pass_edges : List (Edge F)
    unfolding length_of_first
    pass_edges =
        let active = pods_of pass_findings in
        let onset_s = onsets_of pass_findings in
        let cvec = correlated i.vectors in
        let write_cvec = correlated i.write_vectors in
        let edges =
          psi_edges np.stats i.witness active onset_s cvec (combinations (sorted_keys i.vectors)) in
        let sources =
          source_edges np.stats i.witness active onset_s (λ wv. np.arrays.maximum (map abs wv))
            write_cvec cvec (write_onsets np.arrays centre i.write_vectors)
            (sorted_keys write_cvec) in
        settled i.write_vectors edges sources

    -- `slo_breach or sorted(active)`
    abbrev seeds : List String
    seeds = elim i.slo_breach [ [] ↦ sorted str_lt (pods_of pass_findings) | s ∷ ss ↦ s ∷ ss ]

    -- The graph of the pass; `none` means that a loop of the ranking ran out of fuel. Its
    -- entry `meta` is `pass_meta`.
    unfoldable pub run_pass : DiGraph F → ℕ → Option (CausalGraph F)
    run_pass nx fuel =
        let g = build_graph nx pass_edges in
        elim (rank_root_causes nx g fuel seeds (onsets_of pass_findings)) [
          | none ↦ none
          | some ranking ↦ elim (victims nx fuel g ranking) [
            | none ↦ none
            | some blast ↦ some (record {
              findings = sorted (λ a b. lt a.onset_s b.onset_s) pass_findings;
              edges = pass_edges;
              root_cause_ranking = ranking;
              blast_radius = blast;
            })
          ]
        ]

    unfoldable pub pass_meta : PassMeta
    unfolding pass_findings pass_edges
    pass_meta = record {
      pods = length i.vectors;
      active = length pass_findings;
      accepted_edges = length pass_edges;
    }
