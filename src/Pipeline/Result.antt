-- ===== src/Pipeline/Result.antt =====
-- What `run_pass` of correlation/engine/pipeline.py puts into its result.
use mathlib.Core.Path.{subst}
use abb_accelerator_aiops.Prelude.{
  ℕ, ◌≡◌, Bool, false, some, List, [], ◌∷◌, arith, Option-cases, inl, inr, ◌==◌, All, In, In-sorted,
  IsSorted, sorted, sorted-IsSorted, length, length-sorted,
}
use abb_accelerator_aiops.Float.{Float, lt, neg}
use abb_accelerator_aiops.Float.Laws.{IsOrdered, lt_asym, not-lt_trans}
use abb_accelerator_aiops.Graph.{Finding, RootCause, Impact, CausalGraph}
use abb_accelerator_aiops.Gate.Clauses.{Coupled}
use abb_accelerator_aiops.Ranking.{DiGraph, build_graph, rank_root_causes}
use abb_accelerator_aiops.Ranking.Blast.{IsReached, blast_radius-IsReached}
use abb_accelerator_aiops.Ranking.Causes.{IsCause, rank_root_causes-IsCause}
use abb_accelerator_aiops.Ranking.Top.{IsTop, rank_root_causes-IsTop}
use abb_accelerator_aiops.Pipeline.{
  PassInput, Numerics, pass_findings, pass_edges, onsets_of, seeds, victims, run_pass,
}
use abb_accelerator_aiops.Pipeline.Witnessed.{pass_edges-IsCoupled}

module _ {F : Type 0} ⦃f : Float F⦄ (np : Numerics F) (i : PassInput F) where
  -- The edges of the result are those that were accepted.
  pub run_pass-edges :
      (nx : DiGraph F) (fuel : ℕ) (graph : CausalGraph F)
      → run_pass np i nx fuel ≡ some graph
      → pass_edges np i ≡ graph.edges
  unfolding run_pass
  run_pass-edges nx fuel graph h =
      let g = build_graph nx (pass_edges np i) in
      elim (Option-cases
        (rank_root_causes nx g fuel (seeds np i) (onsets_of (pass_findings np i)))) [
          | inl e ↦ absurd (ground (arith, h, e))
          | inr (ranking, e) ↦ elim (Option-cases (victims nx fuel g ranking)) [
            | inl e' ↦ absurd (ground (arith, h, e, e'))
            | inr (blast, e') ↦ ground (arith, h, e, e')
          ]
        ]

module _ {F : Type 0} ⦃f : Float F⦄ (np : Numerics F) (i : PassInput F) (nx : DiGraph F)
    (fuel : ℕ) where
  -- The victims are those of the first root cause.
  abbrev pub AreVictims : nx.Graph → List (RootCause F) → List (Impact F) → Type 0
  AreVictims g [] blast = blast ≡ []
  AreVictims g (first ∷ _) blast = All (IsReached nx g first.pod) blast

  abbrev pub earlier : Finding F → Finding F → Bool
  earlier a b = lt a.onset_s b.onset_s

  pub record IsExplained (graph : CausalGraph F) : Type 0 where
    pub edges : All (λ e. Coupled i.witness e.src e.dst) graph.edges
    -- The findings are those of the pass, in the order of their onsets.
    pub ordered : IsSorted earlier graph.findings
    pub found : (d : Finding F) → In d (pass_findings np i) → In d graph.findings
    pub number : length graph.findings ≡ length (pass_findings np i)
    pub causes :
        All
          (IsCause nx
            (build_graph nx graph.edges)
            fuel
            (seeds np i)
            (onsets_of (pass_findings np i)))
          graph.root_cause_ranking
    pub top :
        (nx.number_of_edges (build_graph nx graph.edges) == 0) ≡ false
        → IsTop nx
            (build_graph nx graph.edges)
            fuel
            (seeds np i)
            (onsets_of (pass_findings np i))
            graph.root_cause_ranking
    pub victims :
        AreVictims (build_graph nx graph.edges) graph.root_cause_ranking graph.blast_radius

  victims-AreVictims :
      (g : nx.Graph) (ranking : List (RootCause F)) (blast : List (Impact F))
      → victims nx fuel g ranking ≡ some blast
      → AreVictims g ranking blast
  victims-AreVictims g [] blast e = ground (arith, e)
  victims-AreVictims g (first ∷ rest) blast e = blast_radius-IsReached nx g first.pod fuel blast e

  -- In a result of `run_pass` every edge joins two pods that the witness couples; the findings
  -- are sorted by onset, have every finding of the pass, and are as many; every root cause is a
  -- node of the graph of the edges that explains a positive part of the symptoms, with its onset;
  -- if that graph has edges, the ranking is in order and complete, as `IsTop` says; and every
  -- victim is reached from the first root cause, or there is none without root causes. The order
  -- obeys `IsOrdered`, and negation reverses it.
  pub run_pass-IsExplained :
      (o : IsOrdered F) (flips : (a b : F) → lt (neg a) (neg b) ≡ lt b a) (graph : CausalGraph F)
      → run_pass np i nx fuel ≡ some graph
      → IsExplained graph
  unfolding run_pass
  run_pass-IsExplained o flips graph h =
      let g = build_graph nx (pass_edges np i) in
      elim (Option-cases
        (rank_root_causes nx g fuel (seeds np i) (onsets_of (pass_findings np i)))) [
          | inl e ↦ absurd (ground (arith, h, e))
          | inr (ranking, e) ↦ elim (Option-cases (victims nx fuel g ranking)) [
            | inl e' ↦ absurd (ground (arith, h, e, e'))
            | inr (blast, e') ↦
                let result : CausalGraph F = record {
                  findings = sorted earlier (pass_findings np i);
                  edges = pass_edges np i;
                  root_cause_ranking = ranking;
                  blast_radius = blast;
                } in
                let same : result ≡ graph = ground (arith, h, e, e') in
                subst IsExplained same (record {
                  edges = pass_edges-IsCoupled np i;
                  ordered =
                      sorted-IsSorted earlier (λ a b. lt_asym o a.onset_s b.onset_s)
                        (λ a b c. not-lt_trans o a.onset_s b.onset_s c.onset_s)
                        (pass_findings np i);
                  found = λ d m. In-sorted earlier d (pass_findings np i) m;
                  number = length-sorted earlier (pass_findings np i);
                  causes = (rank_root_causes-IsCause nx g fuel _ _ ranking e).1;
                  top = λ some_edges.
                      rank_root_causes-IsTop nx g fuel _ _ o flips ranking some_edges e;
                  victims = victims-AreVictims g ranking blast e';
                })
          ]
        ]
