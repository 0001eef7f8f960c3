-- ===== src/Tests/Digraph.antt =====
-- The stand-in for networkx is a DiGraph.
use abb_accelerator_aiops.Prelude.{
  ◌+◌, ◌≤◌, ◌≡◌, refl, sym, ◌∙◌, ap, true, ◌||◌, String, str_eq, str_eq_iff, some, List, [], ◌∷◌,
  ◌++◌, map, arith, length, length-map, length-append, has, In, ◌⊎◌, inl, inr, Bool-cases,
  Option-cases, Dict, get, put, get-put, if◌then◌else◌,
}
use abb_accelerator_aiops.Float.Milli.{ℤ, milli}
use abb_accelerator_aiops.Ranking.{Attr}
use abb_accelerator_aiops.Ranking.Built.{IsDiGraph}
use abb_accelerator_aiops.Tests.Fixtures.{Adjacency, out_of, with_node, with_edge, names, digraph}

module _ {V : Type 0} where
  abbrev keys : Dict V → List String
  keys d = map (λ (e : String × V). e.0) d

  In-put :
      (k : String) (v : V) (d : Dict V) (e : String × V)
      → In e (put k v d)
      → ((e.0 ≡ k) × (e.1 ≡ v)) ⊎ In e d
  unfolding put
  In-put k v [] e (inl same) =
      inl (ap (λ (x : String × V). x.0) same, ap (λ (x : String × V). x.1) same)
  In-put k v [] e (inr none_left) = elim none_left [ ]
  In-put k v ((j, w) ∷ d) e m = elim (Bool-cases (str_eq j k)) [
    | inl same ↦ elim (rw same at m) [
      | inl new ↦ inl (ground (arith, new, same, str_eq_iff j k))
      | inr old ↦ inr (inr old)
    ]
    | inr other ↦ elim (rw other at m) [
      | inl first ↦ inr (inl first)
      | inr later ↦ elim (In-put k v d e later) [ inl new ↦ inl new | inr old ↦ inr (inr old) ]
    ]
  ]

  length-put : (k : String) (v : V) (d : Dict V) → length (put k v d) ≤ length d + 1
  unfolding put
  length-put k v [] = omega arith
  length-put k v ((j, w) ∷ d) = ground (arith, length-put k v d)

  keys-put : (k : String) (v : V) (d : Dict V) → has k (keys d) ≡ true → keys (put k v d) ≡ keys d
  unfolding put
  keys-put k v [] m = cc
  keys-put k v ((j, w) ∷ d) m = ground (arith, str_eq_iff j k, str_eq_iff k j, keys-put k v d)

  get-has : (k : String) (v : V) (d : Dict V) → get k d ≡ some v → has k (keys d) ≡ true
  unfolding get
  get-has k v [] e = cc
  get-has k v ((j, w) ∷ d) e = ground (arith, str_eq_iff j k, str_eq_iff k j, get-has k v d)

  has-added :
      (x k : String) (v : V) (d : Dict V)
      → has x (keys (d ++ (k, v) ∷ [])) ≡ has x (keys d) || str_eq x k
  has-added x k v [] = ground arith
  has-added x k v ((j, w) ∷ d) = ground (arith, has-added x k v d)

out_of-put :
    (u : String) (edges : Dict (Attr ℤ)) (g : Adjacency) (w : String)
    → out_of (put u edges g) w ≡ (if str_eq u w then edges else out_of g w)
out_of-put u edges g w = elim (Bool-cases (str_eq u w)) [
  | inl same ↦ rw (out_of, get-put u w edges g, same) refl
  | inr other ↦ rw (out_of, get-put u w edges g, other) refl
]

out_of-added : (v : String) (g : Adjacency) (w : String) → out_of (g ++ (v, []) ∷ []) w ≡ out_of g w
unfolding get
out_of-added v [] w = elim (Bool-cases (str_eq v w)) [
  | inl e ↦ rw (out_of, e) refl
  | inr e ↦ rw (out_of, e) refl
]
out_of-added v ((j, edges) ∷ g) w = elim (Bool-cases (str_eq j w)) [
  | inl e ↦ rw (out_of, e) refl
  | inr e ↦ rw (out_of, e) (out_of-added v g w)
]

-- A node is added at most once.
record IsGrown (v : String) (g h : Adjacency) : Type 0 where
  edges : (w : String) → out_of h w ≡ out_of g w
  size : length (names h) ≤ length (names g) + 1
  target : has v (names h) ≡ true
  kept : (x : String) → has x (names g) ≡ true → has x (names h) ≡ true

with_node-IsGrown : (v : String) (g : Adjacency) → IsGrown v g (with_node v g)
with_node-IsGrown v g = elim (Option-cases (get v g)) [
  | inl new ↦
      rw (with_node, new)
        (record {
          edges = out_of-added v g;
          size = omega (
            arith,
            length-map (λ (e : String × Dict (Attr ℤ)). e.0) g,
            length-map (λ (e : String × Dict (Attr ℤ)). e.0) (g ++ (v, []) ∷ []),
            length-append g ((v, []) ∷ []),
          );
          target = ground (arith, has-added v v [] g, str_eq_iff v v);
          kept = λ x m. rw (has-added x v [] g, m) refl;
        })
  | inr (old, e) ↦
      rw (with_node, e)
        (record {
          edges = λ w. refl;
          size = omega arith;
          target = get-has v old g e;
          kept = λ x m. m;
        })
]

node_in : (u v : String) (g : Adjacency) → has u (names (with_node v (with_node u g))) ≡ true
node_in u v g = (with_node-IsGrown v (with_node u g)).kept u ((with_node-IsGrown u g).target)

with_edge-names :
    (u v : String) (a : Attr ℤ) (g : Adjacency)
    → names (with_edge u v a g) ≡ names (with_node v (with_node u g))
with_edge-names u v a g = keys-put u _ (with_node v (with_node u g)) (node_in u v g)

grown-out :
    (u v : String) (g : Adjacency) (x : String)
    → out_of (with_node v (with_node u g)) x ≡ out_of g x
grown-out u v g x = (with_node-IsGrown v (with_node u g)).edges x ∙ (with_node-IsGrown u g).edges x

with_edge-out :
    (u v : String) (a : Attr ℤ) (g : Adjacency) (w : String)
    → out_of (with_edge u v a g) w ≡ (if str_eq u w then put v a (out_of g u) else out_of g w)
with_edge-out u v a g w =
    let h = with_node v (with_node u g) in
    out_of-put u (put v a (out_of h u)) h w ∙ rw (grown-out u v g u, grown-out u v g w) refl

with_edge-added :
    (u v : String) (a : Attr ℤ) (g : Adjacency) (w : String) (e : String × Attr ℤ)
    → In e (out_of (with_edge u v a g) w)
    → ((e.0 ≡ v) × (e.1 ≡ a)) ⊎ In e (out_of g w)
with_edge-added u v a g w e m =
    let m' : In e (if str_eq u w then put v a (out_of g u) else out_of g w) =
      rw (with_edge-out u v a g w) at m in
    elim (Bool-cases (str_eq u w)) [
      | inl same ↦ rw (sym ((str_eq_iff u w).0 same)) (In-put v a (out_of g u) e (rw same at m'))
      | inr other ↦ inr (rw other at m')
    ]

with_edge-degree :
    (u v : String) (a : Attr ℤ) (g : Adjacency) (w : String)
    → length (out_of (with_edge u v a g) w) ≤ length (out_of g w) + 1
with_edge-degree u v a g w = elim (Bool-cases (str_eq u w)) [
  | inl same ↦
      rw (with_edge-out u v a g w, same, (str_eq_iff u w).0 same) (length-put v a (out_of g w))
  | inr other ↦ rw (with_edge-out u v a g w, other) (omega arith)
]

pub digraph-IsDiGraph : IsDiGraph digraph
unfolding get
digraph-IsDiGraph = record {
  no_edges = λ w e m. m;
  no_degree = λ w. omega arith;
  no_nodes = omega arith;
  added = with_edge-added;
  degree = with_edge-degree;
  target = λ u v a g. rw (with_edge-names u v a g) ((with_node-IsGrown v (with_node u g)).target);
  kept = λ u v a g x m.
      rw (with_edge-names u v a g)
        ((with_node-IsGrown v (with_node u g)).kept x ((with_node-IsGrown u g).kept x m));
  nodes = λ u v a g.
      rw (with_edge-names u v a g)
        (omega (arith, (with_node-IsGrown v (with_node u g)).size, (with_node-IsGrown u g).size));
}
