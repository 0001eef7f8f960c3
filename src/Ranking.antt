-- ===== src/Ranking.antt =====
-- correlation/engine/ranking.py: the causal graph, the reach of a root and the ranking of root causes.
-- networkx's DiGraph is a parameter: its operations as the module calls them, and no other property
-- of it than the laws that a theorem names.
pub mod Ends
pub mod Blast
pub mod Best
pub mod Counts
pub mod Once
pub mod Fuel
pub mod Built
pub mod Order
pub mod Top
pub mod Returns
pub mod Causes
use abb_accelerator_aiops.Prelude.{
  ℕ, zero, suc, ◌+◌, Bool, true, false, not, ◌&&◌, ◌||◌, String, str_eq, Option, none, some, List,
  [], ◌∷◌, ◌++◌, map, filter, take, has, sorted, ltb, ◌==◌, if◌then◌else◌, Dict, get, put,
}
use abb_accelerator_aiops.Float.{Float, lit, ◌⊕◌, ◌⊗◌, ◌⊘◌, neg, le, lt, abs, round}
use abb_accelerator_aiops.Gate.{Evidence, Edge}
use abb_accelerator_aiops.Graph.{RootCause, Impact}

-- The attributes of an edge of the graph.
pub record Attr (F : Type 0) : Type 0 where
  pub weight : F
  pub lag_s : ℕ
  pub evidence : List Evidence

-- networkx.DiGraph, as far as the module calls it.
pub record DiGraph (F : Type 0) : Type 1 where
  pub Graph : Type 0
  pub empty : Graph
  pub add_edge : String → String → Attr F → Graph → Graph
  pub nodes : Graph → List String
  pub out_edges : Graph → String → List (String × Attr F)
  pub in_degree : Graph → String → ℕ
  pub number_of_edges : Graph → ℕ

-- The frontier and the best impacts of `_forward_impact`.
pub record Reach (F : Type 0) : Type 0 where
  pub frontier : List (String × F)
  pub impact : Dict F

-- An entry of the queue of `blast_radius`: a node, its impact and its time of arrival.
pub record Wave (F : Type 0) : Type 0 where
  pub node : String
  pub w : F
  pub eta : ℕ

pub record Blasting (F : Type 0) : Type 0 where
  pub frontier : List (Wave F)
  pub seen : List String
  pub out : List (Impact F)

module _ {F : Type 0} ⦃f : Float F⦄ where
  abbrev pub fade : F
  fade = lit 7 1

  abbrev pub cut : F
  cut = lit 15 2

  abbrev pub upstream_penalty : F
  upstream_penalty = lit 5 1

  -- `nw = w * data["weight"] * DECAY`
  abbrev pub carried : F → Attr F → F
  carried w attr = w ⊗ attr.weight ⊗ fade

  -- `impact.get(nxt, 0.0)`
  abbrev pub best_impact : Dict F → String → F
  best_impact impact nxt = elim (get nxt impact) [ none ↦ lit 0 0 | some v ↦ v ]

  -- An impact below the cut, or no better than the node's best, is dropped.
  unfoldable pub offer : String → F → Reach F → Reach F
  offer nxt nw s =
      if lt nw cut || le nw (best_impact s.impact nxt)
      then s
      else record { frontier = s.frontier ++ (nxt, nw) ∷ []; impact = put nxt nw s.impact }

  -- The inner loop over the edges out of a node of impact `w`.
  unfoldable pub spread : F → List (String × Attr F) → Reach F → Reach F
  unfolding offer
  spread w [] s = s
  spread w ((nxt, attr) ∷ edges) s = spread w edges (offer nxt (carried w attr) s)

  -- A node that was seen, or an impact below the cut, is dropped.
  unfoldable pub strike : String → F → ℕ → Blasting F → Blasting F
  strike nxt nw neta s = if has nxt s.seen || lt nw cut then s else record {
    frontier = s.frontier ++ record { node = nxt; w = nw; eta = neta } ∷ [];
    seen = nxt ∷ s.seen;
    out = s.out ++ record { pod = nxt; impact = round 3 nw; eta_s = neta } ∷ [];
  }

  -- The inner loop over the edges out of a node.
  unfoldable pub blast_edges : Wave F → List (String × Attr F) → Blasting F → Blasting F
  unfolding strike
  blast_edges from [] s = s
  blast_edges from ((nxt, attr) ∷ edges) s =
      blast_edges from edges (strike nxt (carried from.w attr) (from.eta + attr.lag_s) s)

  module _ (nx : DiGraph F) where
    open nx use {Graph, empty, add_edge, nodes, out_edges, in_degree, number_of_edges}

    add_edges : List (Edge F) → Graph → Graph
    add_edges [] g = g
    add_edges (e ∷ edges) g = add_edges edges (
        add_edge e.src e.dst (record { weight = abs e.r; lag_s = e.lag_s; evidence = e.evidence })
          g)

    unfoldable pub build_graph : List (Edge F) → Graph
    unfolding add_edges
    build_graph edges = add_edges edges empty

    -- `while frontier:`; `none` means that the fuel ran out.
    unfoldable pub forward_loop : Graph → ℕ → Reach F → Option (Dict F)
    forward_loop g zero s = elim s.frontier [ [] ↦ some s.impact | _ ∷ _ ↦ none ]
    forward_loop g (suc fuel) s = elim s.frontier [
      | [] ↦ some s.impact
      | (node, w) ∷ rest ↦
          forward_loop g fuel
            (spread w (out_edges g node) (record { frontier = rest; impact = s.impact }))
    ]

    -- `_forward_impact`
    unfoldable pub forward_impact : Graph → ℕ → String → Option (Dict F)
    unfolding forward_loop spread
    forward_impact g fuel root =
        forward_loop g fuel (record { frontier = (root, lit 1 0) ∷ []; impact = [] })

    unfoldable pub blast_loop : Graph → ℕ → Blasting F → Option (List (Impact F))
    blast_loop g zero s = elim s.frontier [ [] ↦ some s.out | _ ∷ _ ↦ none ]
    blast_loop g (suc fuel) s = elim s.frontier [
      | [] ↦ some s.out
      | wave ∷ rest ↦ blast_loop g fuel (
          blast_edges wave (out_edges g wave.node)
            (record { frontier = rest; seen = s.seen; out = s.out }))
    ]

    -- `sorted(out, key=lambda d: -d["impact"])`
    abbrev pub stronger_first : Impact F → Impact F → Bool
    stronger_first a b = lt (neg a.impact) (neg b.impact)

    unfoldable pub blast_radius : Graph → ℕ → String → Option (List (Impact F))
    unfolding blast_loop blast_edges sorted
    blast_radius g fuel root =
        if not (has root (nodes g))
        then some []
        else elim (blast_loop g fuel (record {
          frontier = record { node = root; w = lit 1 0; eta = 0 } ∷ [];
          seen = root ∷ [];
          out = [];
        })) [ none ↦ none | some out ↦ some (sorted stronger_first out) ]

    -- `s in seed_set`: the seeds that are nodes, and every node if none is.
    pub in_seeds : Graph → List String → String → Bool
    in_seeds g seeds s = elim (filter (λ x. has x (nodes g)) seeds) [
      | [] ↦ has s (nodes g)
      | x ∷ xs ↦ has s (x ∷ xs)
    ]

    sum_impacts : (String → Bool) → F → Dict F → F
    sum_impacts is_seed acc [] = acc
    sum_impacts is_seed acc ((s, v) ∷ imp) =
        sum_impacts is_seed (if is_seed s then acc ⊕ v else acc) imp

    -- How much of the symptom set a node explains.
    unfoldable pub explain : Graph → (String → Bool) → String → Dict F → F
    unfolding sum_impacts
    explain g is_seed n imp =
        let reached = sum_impacts is_seed (lit 0 0) imp in
        let self = if is_seed n && in_degree g n == 0 then reached ⊕ lit 1 0 else reached in
        if ltb 0 (in_degree g n) then self ⊗ upstream_penalty else self

    unfoldable pub score_nodes : Graph → ℕ → (String → Bool) → List String → Option (Dict F)
    unfolding forward_impact explain
    score_nodes g fuel is_seed [] = some []
    score_nodes g fuel is_seed (n ∷ ns) = elim (forward_impact g fuel n) [
      | none ↦ none
      | some imp ↦ elim (score_nodes g fuel is_seed ns) [
        | none ↦ none
        | some scores ↦
            let sc = explain g is_seed n imp in
            some (if lt (lit 0 0) sc then (n, sc) ∷ scores else scores)
      ]
    ]

    pub total_of : F → Dict F → F
    total_of acc [] = acc
    total_of acc ((_, sc) ∷ scores) = total_of (acc ⊕ sc) scores

    -- The key `(-score, onset_s.get(pod, inf))` in order.
    pub onset_lt : Option F → Option F → Bool
    onset_lt (some a) (some b) = lt a b
    onset_lt (some a) none = true
    onset_lt none b = false

    unfoldable pub ranks_before : Dict F → String × F → String × F → Bool
    unfolding onset_lt
    ranks_before onset_s (p, a) (q, b) =
        lt (neg a) (neg b) || (not (lt (neg b) (neg a)) && onset_lt (get p onset_s) (get q onset_s))

    -- An entry of the ranking, of its pod and score.
    abbrev pub cause_of : F → Dict F → String × F → RootCause F
    cause_of total onset_s kv = record {
      pod = kv.0;
      score = round 3 (kv.1 ⊘ total);
      onset_s = get kv.0 onset_s;
    }

    -- `rank_root_causes`, with `top` = 3
    unfoldable pub rank_root_causes : Graph → ℕ → List String → Dict F → Option (List (RootCause F))
    unfolding score_nodes total_of ranks_before in_seeds
    rank_root_causes g fuel seeds onset_s =
        if number_of_edges g == 0
        then some []
        else elim (score_nodes g fuel (in_seeds g seeds) (nodes g)) [
          | none ↦ none
          | some scores ↦
              let total = total_of (lit 0 0) scores in
              some (map (cause_of total onset_s) (take 3 (sorted (ranks_before onset_s) scores)))
        ]
