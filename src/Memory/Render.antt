-- ===== src/Memory/Render.antt =====
-- `_render`, `stats` and `bootstrap_graph` of correlation/engine/state.py: the graph that the dashboard
-- gets, the live edges of a pass and the held edges of the memory.
pub mod Drawn
pub mod Ghosts
pub mod Strongest
pub mod Total
use abb_accelerator_aiops.Prelude.{
  ℕ, ◌+◌, Bool, true, false, not, ◌&&◌, ◌||◌, String, str_eq, Option, none, some, List, [], ◌∷◌,
  ◌++◌, map, length, filter, any, if◌then◌else◌, Dict, get, put, dedup,
}
use abb_accelerator_aiops.Prelude.Choice.{choose_all}
use abb_accelerator_aiops.Float.{Float, lit, ◌⊖◌, lt, round}
use abb_accelerator_aiops.Names.{stable_workload}
use abb_accelerator_aiops.Gate.{Evidence, Edge, same_set}
use abb_accelerator_aiops.Graph.{Finding, RootCause, Impact, CausalGraph}
use abb_accelerator_aiops.Ranking.{DiGraph, build_graph, rank_root_causes, blast_radius}
use abb_accelerator_aiops.Memory.{MemoryConfig, EdgeRow, EdgeState}
use abb_accelerator_aiops.Memory.Edges.{find}
use abb_accelerator_aiops.Memory.Similarity.{CaseRow}
use abb_accelerator_aiops.Memory.Cases.{family_of}

pub data Source : Type 0 where
  live memory : Source

-- What the memory adds to the dict of an edge.
pub record Held (F : Type 0) : Type 0 where
  pub confidence : F
  pub state : EdgeState
  pub hits : ℕ
  pub render_weight : F
  pub source : Source
  -- of an edge from the memory only
  pub base_conf : Option F
  pub last_seen_s : Option F

pub record RenderedEdge (F : Type 0) : Type 0 where
  pub edge : Edge F
  pub held : Option (Held F)

-- The graph with the edges of the memory; `held_edges` is its entry of `meta`.
pub record Rendered (F : Type 0) : Type 0 where
  pub findings : List (Finding F)
  pub edges : List (RenderedEdge F)
  pub root_cause_ranking : List (RootCause F)
  pub blast_radius : List (Impact F)
  pub held_edges : ℕ

-- The counts of `stats`.
pub record Stats : Type 0 where
  pub edge_memory : ℕ
  pub visible_memory_edges : ℕ
  pub cases : ℕ
  pub families : ℕ
  pub open_mistakes : ℕ

-- `{stable_workload(p): p for p in vectors}`: the last pod of a workload stays.
unfoldable pub pods_by_workload : Dict String → List String → Dict String
pods_by_workload acc [] = acc
pods_by_workload acc (p ∷ pods) = pods_by_workload (put (stable_workload p) p acc) pods

module _ {F : Type 0} ⦃f : Float F⦄ (cfg : MemoryConfig F) where
  enriched : Edge F → Option (EdgeRow F) → RenderedEdge F
  enriched e none = record { edge = e; held = none }
  enriched e (some row) = record {
    edge = e;
    held = some (record {
      confidence = round 3 row.confidence;
      state = row.state;
      hits = row.hits;
      render_weight = round 3 row.confidence;
      source = live;
      base_conf = none;
      last_seen_s = none;
    });
  }

  -- The live edges, each with the belief of its workloads.
  unfoldable pub live_edges : List (EdgeRow F) → List (Edge F) → List (RenderedEdge F)
  unfolding enriched find
  live_edges rows edges =
      map
        (λ (e : Edge F).
          enriched e (find (stable_workload e.src, stable_workload e.dst, cfg.signal) rows))
        edges

  -- `pair in live_pairs`
  abbrev pub is_live : List (Edge F) → EdgeRow F → Bool
  is_live edges row =
      any (λ (e : Edge F). same_set row.src row.dst (stable_workload e.src, stable_workload e.dst))
        edges

  -- WHERE signal=? AND (visible=1 OR base_conf>0)
  abbrev pub is_shown : EdgeRow F → Bool
  is_shown row = str_eq row.signal cfg.signal && (row.visible || lt (lit 0 0) row.base_conf)

  -- The same unordered pair of workloads, and `row["confidence"] > by_pair[pair]["confidence"]`.
  abbrev pub same_workloads : EdgeRow F → EdgeRow F → Bool
  same_workloads row best = same_set row.src row.dst (best.src, best.dst)

  abbrev pub stronger : EdgeRow F → EdgeRow F → Bool
  stronger row best = lt best.confidence row.confidence

  abbrev pub candidates : List (Edge F) → List (EdgeRow F) → List (EdgeRow F)
  candidates edges rows = filter (λ row. is_shown row && not (is_live edges row)) rows

  -- `by_pair`, in the order of insertion: the strongest row of each unordered pair.
  unfoldable pub kept_rows : List (Edge F) → List (EdgeRow F) → List (EdgeRow F)
  unfolding choose_all
  kept_rows edges rows = choose_all same_workloads stronger (candidates edges rows) []

  -- A row between the pods that run now; without both of them there is no edge to show.
  unfoldable pub held_edge : F → EdgeRow F → Option String → Option String → List (RenderedEdge F)
  held_edge now row (some src_pod) (some dst_pod) =
      record {
        edge = record {
          src = src_pod;
          dst = dst_pod;
          r = round 3 row.r;
          lag_s = row.lag_s;
          evidence = row.evidence;
        };
        held = some (record {
          confidence = round 3 row.confidence;
          state = row.state;
          hits = row.hits;
          render_weight = round 3 row.confidence;
          source = memory;
          base_conf = some (round 3 row.base_conf);
          last_seen_s = some (round 1 (now ⊖ row.last_seen_ts));
        });
      }
      ∷ []
  held_edge now row _ _ = []

  unfoldable pub held_from : F → Dict String → List (EdgeRow F) → List (RenderedEdge F)
  unfolding held_edge
  held_from now wl_pod [] = []
  held_from now wl_pod (row ∷ rows) =
      held_edge now row (get row.src wl_pod) (get row.dst wl_pod) ++ held_from now wl_pod rows

  unfoldable pub held_edges :
      F → List String → List (Edge F) → List (EdgeRow F) → List (RenderedEdge F)
  unfolding held_from kept_rows pods_by_workload
  held_edges now pods edges rows = held_from now (pods_by_workload [] pods) (kept_rows edges rows)

  -- `{f["pod"]: f.get("onset_s") for f in findings}`
  onsets_from : Dict F → List (Finding F) → Dict F
  onsets_from acc [] = acc
  onsets_from acc (d ∷ findings) = onsets_from (put d.pod d.onset_s acc) findings

  module _ (nx : DiGraph F) where
    -- The ranking and the blast radius of the rendered edges; those of the pass without findings or
    -- without edges.
    reranked :
        ℕ
        → CausalGraph F
        → List (Finding F)
        → List (RenderedEdge F)
        → Option (List (RootCause F) × List (Impact F))
    unfolding onsets_from
    reranked fuel graph (d ∷ ds) (e ∷ es) =
        let g = build_graph nx (map (λ (e : RenderedEdge F). e.edge) (e ∷ es)) in
        let seeds = map (λ (d : Finding F). d.pod) (d ∷ ds) in
        elim (rank_root_causes nx g fuel seeds (onsets_from [] (d ∷ ds))) [
          | none ↦ none
          | some ranking ↦
              let victims : Option (List (Impact F)) = elim ranking [
                | [] ↦ some []
                | first ∷ _ ↦ blast_radius nx g fuel first.pod
              ] in
              elim victims [ none ↦ none | some blast ↦ some (ranking, blast) ]
        ]
    reranked fuel graph _ _ = some (graph.root_cause_ranking, graph.blast_radius)

    -- `_render`; `none` means that a loop of the ranking ran out of fuel.
    unfoldable pub render :
        ℕ → F → CausalGraph F → List String → List (EdgeRow F) → Option (Rendered F)
    unfolding live_edges held_edges reranked
    render fuel now graph pods rows =
        let held = held_edges now pods graph.edges rows in
        let edges = live_edges rows graph.edges ++ held in
        elim (reranked fuel graph graph.findings edges) [
          | none ↦ none
          | some (ranking, blast) ↦ some (record {
            findings = graph.findings;
            edges = edges;
            root_cause_ranking = ranking;
            blast_radius = blast;
            held_edges = length held;
          })
        ]

    -- The graph of a pass without samples.
    abbrev pub no_graph : CausalGraph F
    no_graph = record { findings = []; edges = []; root_cause_ranking = []; blast_radius = [] }

    -- `bootstrap_graph`, whose `meta` has the status "bootstrapped_from_memory" and `stats`.
    unfoldable pub bootstrap_graph : ℕ → F → List (EdgeRow F) → Option (Rendered F)
    unfolding render
    bootstrap_graph fuel now rows = render fuel now no_graph [] rows

module _ {F : Type 0} where
  -- COALESCE(family_id, id)
  abbrev family_column : CaseRow F → String
  family_column row = elim row.family_id [ none ↦ row.id | some family ↦ family ]

  -- `stats`, with the number of open mistakes
  unfoldable pub stats : List (EdgeRow F) → List (CaseRow F) → ℕ → Stats
  stats rows cases open_mistakes = record {
    edge_memory = length rows;
    visible_memory_edges = length (filter (λ (r : EdgeRow F). r.visible) rows);
    cases = length cases;
    families = length (dedup str_eq (map family_column cases));
    open_mistakes = open_mistakes;
  }
