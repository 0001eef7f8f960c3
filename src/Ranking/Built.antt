-- ===== src/Ranking/Built.antt =====
-- The graphs that `build_graph` of correlation/engine/ranking.py makes, with what networkx documents of a
-- DiGraph: adding an edge adds no other edge, and adds the ends of the edge to the nodes.
use mathlib.Core.Path.{subst}
use abb_accelerator_aiops.Prelude.{
  ℕ, suc, ◌+◌, ◌≤◌, ◌≡◌, true, String, List, [], ◌∷◌, arith, length, has, All, All-of_In, In, ◌⊎◌,
  inl, inr,
}
use abb_accelerator_aiops.Float.{Float, lit, abs}
use abb_accelerator_aiops.Float.Laws.{◌≼◌, IsOrdered, IsRounded}
use abb_accelerator_aiops.Gate.{Edge}
use abb_accelerator_aiops.Ranking.{Attr, DiGraph, add_edges, build_graph}
use abb_accelerator_aiops.Ranking.Ends.{cost, Fades, IsBounded}
use abb_accelerator_aiops.Ranking.Once.{AreNodes}

pub record IsDiGraph {F : Type 0} (nx : DiGraph F) : Type 0 where
  pub no_edges : (w : String) (e : String × Attr F) → In e (nx.out_edges nx.empty w) → ⊥
  pub no_degree : (w : String) → length (nx.out_edges nx.empty w) ≤ 0
  pub no_nodes : length (nx.nodes nx.empty) ≤ 0
  -- An edge of the larger graph is the new one or an old one.
  pub added :
      (u v : String) (a : Attr F) (g : nx.Graph) (w : String) (e : String × Attr F)
      → In e (nx.out_edges (nx.add_edge u v a g) w)
      → ((e.0 ≡ v) × (e.1 ≡ a)) ⊎ In e (nx.out_edges g w)
  pub degree :
      (u v : String) (a : Attr F) (g : nx.Graph) (w : String)
      → length (nx.out_edges (nx.add_edge u v a g) w) ≤ length (nx.out_edges g w) + 1
  pub target :
      (u v : String) (a : Attr F) (g : nx.Graph) → has v (nx.nodes (nx.add_edge u v a g)) ≡ true
  pub kept :
      (u v : String) (a : Attr F) (g : nx.Graph) (x : String)
      → has x (nx.nodes g) ≡ true
      → has x (nx.nodes (nx.add_edge u v a g)) ≡ true
  pub nodes :
      (u v : String) (a : Attr F) (g : nx.Graph)
      → length (nx.nodes (nx.add_edge u v a g)) ≤ length (nx.nodes g) + 2

-- The correlation of an edge is one: not above 1, in either direction.
abbrev pub IsLight : {F : Type 0} ⦃f : Float F⦄ → Edge F → Type 0
IsLight e = abs e.r ≼ lit 1 0

module _ {F : Type 0} ⦃f : Float F⦄ (nx : DiGraph F) (laws : IsDiGraph nx) where
  -- A graph of at most k edges.
  record IsSmall (k : ℕ) (g : nx.Graph) : Type 0 where
    degree : (w : String) → length (nx.out_edges g w) ≤ k
    light : (w : String) (e : String × Attr F) → In e (nx.out_edges g w) → e.1.weight ≼ lit 1 0
    known :
        (w : String) (e : String × Attr F) → In e (nx.out_edges g w) → has e.0 (nx.nodes g) ≡ true
    size : length (nx.nodes g) ≤ k + k

  empty-IsSmall : IsSmall 0 nx.empty
  empty-IsSmall = record {
    degree = laws.no_degree;
    light = λ w e m. absurd (laws.no_edges w e m);
    known = λ w e m. absurd (laws.no_edges w e m);
    size = omega (arith, laws.no_nodes);
  }

  add_edge-IsSmall :
      (k : ℕ) (u v : String) (a : Attr F) (g : nx.Graph)
      → a.weight ≼ lit 1 0
      → IsSmall k g
      → IsSmall (suc k) (nx.add_edge u v a g)
  add_edge-IsSmall k u v a g light h = record {
    degree = λ w. omega (arith, laws.degree u v a g w, h.degree w);
    light = λ w e m. elim (laws.added u v a g w e m) [
      | inl (_, same) ↦ rw same light
      | inr old ↦ h.light w e old
    ];
    known = λ w e m. elim (laws.added u v a g w e m) [
      | inl (same, _) ↦ rw same (laws.target u v a g)
      | inr old ↦ laws.kept u v a g e.0 (h.known w e old)
    ];
    size = omega (arith, laws.nodes u v a g, h.size);
  }

  add_edges-IsSmall :
      (k : ℕ) (edges : List (Edge F)) (g : nx.Graph)
      → All IsLight edges
      → IsSmall k g
      → IsSmall (length edges + k) (add_edges nx edges g)
  unfolding add_edges
  add_edges-IsSmall k [] g _ h = subst (λ n. IsSmall n g) (omega arith) h
  add_edges-IsSmall k (e ∷ edges) g (light, lights) h =
      let a : Attr F = record { weight = abs e.r; lag_s = e.lag_s; evidence = e.evidence } in
      let g' = nx.add_edge e.src e.dst a g in
      let moved : length edges + suc k ≡ suc (length edges) + k = omega arith in
      subst (λ n. IsSmall n (add_edges nx edges g')) moved
        (add_edges-IsSmall (suc k) edges g' lights (add_edge-IsSmall k e.src e.dst a g light h))

  module _ (edges : List (Edge F)) (lights : All IsLight edges) where
    build_graph-IsSmall : IsSmall (length edges) (build_graph nx edges)
    unfolding build_graph
    build_graph-IsSmall =
        let same : length edges + 0 ≡ length edges = omega arith in
        subst (λ n. IsSmall n (add_edges nx edges nx.empty)) same
          (add_edges-IsSmall 0 edges nx.empty lights empty-IsSmall)

    pub build_graph-IsBounded :
        (o : IsOrdered F) (l : IsRounded F) (n : ℕ) (fades : Fades F n)
        → IsBounded o l (length edges) n fades nx (build_graph nx edges)
    build_graph-IsBounded o l n fades = record {
      degree = build_graph-IsSmall.degree;
      light = λ u. All-of_In (nx.out_edges (build_graph nx edges) u) (build_graph-IsSmall.light u);
    }

    pub build_graph-AreNodes :
        (u : String) → AreNodes nx (build_graph nx edges) (nx.out_edges (build_graph nx edges) u)
    build_graph-AreNodes u =
        All-of_In (nx.out_edges (build_graph nx edges) u) (build_graph-IsSmall.known u)

    pub build_graph_sized : length (nx.nodes (build_graph nx edges)) ≤ length edges + length edges
    build_graph_sized = build_graph-IsSmall.size

-- Fuel that is enough for a graph of k edges, where n fades fall below the cut.
abbrev pub need : ℕ → ℕ → ℕ
need n k = cost k n + (k + k + 1)
