-- ===== src/Tests/Passes.antt =====
-- Runs of `run_pass` in correlation/engine/pipeline.py on two pods of one disk.
use mathlib.Core.Path.{subst}
use abb_accelerator_aiops.Prelude.{
  ◌≤◌, ◌≡◌, refl, none, List, [], ◌∷◌, All, get, put, sorted, sym, length, String, ◌+◌, some, arith,
}
use abb_accelerator_aiops.Float.{max, min, abs, lit}
use abb_accelerator_aiops.Float.Milli.{ℤ, pos, milli, milli-IsOrdered, milli-IsRounded, milli_flips}
use abb_accelerator_aiops.Lagcorr.{adjacent_support, best_directed, lag_profile, strongest}
use abb_accelerator_aiops.Detectors.{classify}
use abb_accelerator_aiops.Pipeline.Edges.{combinations, psi_edges, settled}
use abb_accelerator_aiops.Gate.{
  Edge, couples, kinds, out_of_order, accept_edge, stat, pvc, temporal,
}
use abb_accelerator_aiops.Pipeline.{PassInput, Numerics, pass_findings, pass_edges, run_pass}
use abb_accelerator_aiops.Pipeline.Events.{raw_onsets, centre_of, event_of, finding_of, slice}
use abb_accelerator_aiops.Pipeline.Edges.Deduped.{edges_between}
use abb_accelerator_aiops.Pipeline.Witnessed.{pass_edges_once}
use abb_accelerator_aiops.Float.Laws.{◌≼◌}
use abb_accelerator_aiops.Graph.{CausalGraph}
use abb_accelerator_aiops.Ranking.{Attr, build_graph}
use abb_accelerator_aiops.Ranking.Ends.{IsBounded}
use abb_accelerator_aiops.Ranking.Once.{AreNodes}
use abb_accelerator_aiops.Pipeline.Returns.{run_pass_ends}
use abb_accelerator_aiops.Pipeline.Result.{IsExplained, run_pass-IsExplained}
use abb_accelerator_aiops.Tests.Graphs.{fades, out_of_rule}
use abb_accelerator_aiops.Tests.Fixtures.{stats, arrays, quantiles, disk, digraph}

abbrev numerics : Numerics ℤ
numerics = record { arrays = arrays; quantiles = quantiles; stats = stats }

abbrev flat : List ℤ
flat =
    pos 100
    ∷ pos 100
    ∷ pos 100
    ∷ pos 100
    ∷ pos 100
    ∷ pos 100
    ∷ pos 100
    ∷ pos 100
    ∷ pos 100
    ∷ pos 100
    ∷ pos 100
    ∷ pos 100
    ∷ pos 100
    ∷ pos 100
    ∷ pos 100
    ∷ pos 100
    ∷ pos 100
    ∷ []

abbrev input : PassInput ℤ
input = record {
  vectors = ("log-archiver-7d9f-x1", flat) ∷ ("timescaledb-5c4b-q2", flat) ∷ [];
  witness = disk;
  slo_breach = [];
  caps = [];
  window = none;
  write_vectors = ("log-archiver-7d9f-x1", flat) ∷ [];
  baselines = none;
}

pass_edges_once_example :
    edges_between "timescaledb-5c4b-q2" "log-archiver-7d9f-x1" (pass_edges numerics input) ≤ 1
pass_edges_once_example =
    pass_edges_once numerics input "timescaledb-5c4b-q2" "log-archiver-7d9f-x1"
      ("log-archiver-7d9f-x1", flat) [] refl

-- Fourteen flat samples and six of a storm.
abbrev storm : List ℤ
storm =
    pos 100
    ∷ pos 100
    ∷ pos 100
    ∷ pos 100
    ∷ pos 100
    ∷ pos 100
    ∷ pos 100
    ∷ pos 100
    ∷ pos 100
    ∷ pos 100
    ∷ pos 100
    ∷ pos 100
    ∷ pos 100
    ∷ pos 100
    ∷ pos 5000
    ∷ pos 9000
    ∷ pos 9500
    ∷ pos 9400
    ∷ pos 9300
    ∷ pos 9000
    ∷ []

abbrev stormy : PassInput ℤ
stormy = record input {
  vectors = ("log-archiver-7d9f-x1", storm) ∷ ("timescaledb-5c4b-q2", storm) ∷ [];
  write_vectors = [];
}

abbrev storm_edge : Edge ℤ
storm_edge = record {
  src = "log-archiver-7d9f-x1";
  dst = "timescaledb-5c4b-q2";
  r = pos 900;
  lag_s = 0;
  evidence = stat ∷ pvc ∷ temporal ∷ [];
}

stormy_edges : pass_edges numerics stormy ≡ storm_edge ∷ []
unfolding pass_edges settled psi_edges combinations couples kinds pass_findings raw_onsets max min
    abs finding_of accept_edge best_directed strongest lag_profile get slice adjacent_support
    out_of_order sorted centre_of event_of classify
stormy_edges = refl

one-IsBounded :
    IsBounded milli-IsOrdered milli-IsRounded 1 6 fades digraph
      (build_graph digraph (storm_edge ∷ []))
unfolding build_graph abs get put
one-IsBounded = record {
  degree =
      out_of_rule (λ edges. length edges ≤ 1) (build_graph digraph (storm_edge ∷ [])) (omega arith)
        (omega arith, (omega arith, tt));
  light =
      out_of_rule (All (λ (e : String × Attr ℤ). e.1.weight ≼ lit 1 0))
        (build_graph digraph (storm_edge ∷ [])) tt ((refl, tt), (tt, tt));
}

one-AreNodes :
    let g = build_graph digraph (storm_edge ∷ []) in
    (u : String) → AreNodes digraph g (digraph.out_edges g u)
unfolding build_graph abs get put
one-AreNodes =
    let g = build_graph digraph (storm_edge ∷ []) in
    out_of_rule (AreNodes digraph g) g tt ((refl, tt), (tt, tt))

one_sized : length (digraph.nodes (build_graph digraph (storm_edge ∷ []))) + 1 ≤ 6
unfolding build_graph abs get put
one_sized = omega arith

-- The graph of the storm.
abbrev stormy_graph : digraph.Graph
stormy_graph = build_graph digraph (pass_edges numerics stormy)

stormy-IsBounded : IsBounded milli-IsOrdered milli-IsRounded 1 6 fades digraph stormy_graph
stormy-IsBounded =
    subst
      (λ edges.
        IsBounded milli-IsOrdered milli-IsRounded 1 6 fades digraph (build_graph digraph edges))
      (sym stormy_edges) one-IsBounded

stormy-AreNodes : (u : String) → AreNodes digraph stormy_graph (digraph.out_edges stormy_graph u)
stormy-AreNodes =
    subst
      (λ edges.
        (u : String)
        → AreNodes digraph (build_graph digraph edges)
            (digraph.out_edges (build_graph digraph edges) u))
      (sym stormy_edges) one-AreNodes

stormy_sized : length (digraph.nodes stormy_graph) + 1 ≤ 6
stormy_sized =
    subst (λ edges. length (digraph.nodes (build_graph digraph edges)) + 1 ≤ 6) (sym stormy_edges)
      one_sized

-- The result of the pass.
stormy_result : (graph : CausalGraph ℤ) × (run_pass numerics stormy digraph 6 ≡ some graph)
stormy_result =
    run_pass_ends milli-IsOrdered milli-IsRounded 1 6 fades digraph numerics stormy 6 (omega arith)
      stormy-IsBounded stormy-AreNodes (omega arith) stormy_sized

run_pass-IsExplained_example : IsExplained numerics stormy digraph 6 stormy_result.0
run_pass-IsExplained_example =
    run_pass-IsExplained numerics stormy digraph 6 milli-IsOrdered milli_flips stormy_result.0
      stormy_result.1
