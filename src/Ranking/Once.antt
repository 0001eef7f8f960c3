-- ===== src/Ranking/Once.antt =====
-- `blast_radius` of correlation/engine/ranking.py ends, and names no victim twice: each node is queued
-- at most once, when it is first seen.
use mathlib.Core.Path.{subst}
use abb_accelerator_aiops.Prelude.{
  ℕ, zero, suc, ◌+◌, ◌≤◌, ◌≡◌, refl, ap, true, ◌||◌, String, str_eq, some, List, [], ◌∷◌, arith,
  length, length-append, has, All, sorted, Bool-cases, inl, inr,
}
use abb_accelerator_aiops.Float.{Float, lt, round}
use abb_accelerator_aiops.Graph.{Impact}
use abb_accelerator_aiops.Ranking.{
  Attr, DiGraph, Wave, Blasting, cut, carried, strike, blast_edges, blast_loop, blast_radius,
  stronger_first,
}
use abb_accelerator_aiops.Ranking.Blast.{start, blast_radius-cases}
use abb_accelerator_aiops.Ranking.Counts.{
  count, count-append, count_of_not_has, pods, pods-append, count-sorted, unseen, unseen-cons,
  unseen-le,
}

module _ {F : Type 0} ⦃f : Float F⦄ (nx : DiGraph F) (g : nx.Graph) where
  -- The nodes that the loop can still pop.
  abbrev work : Blasting F → ℕ
  work s = unseen s.seen (nx.nodes g) + length s.frontier

  abbrev pub AreNodes : List (String × Attr F) → Type 0
  AreNodes edges = All (λ (e : String × Attr F). has e.0 (nx.nodes g) ≡ true) edges

  strike-work :
      (nxt : String) (nw : F) (neta : ℕ) (s : Blasting F)
      → has nxt (nx.nodes g) ≡ true
      → work (strike nxt nw neta s) ≤ work s
  unfolding strike
  strike-work nxt nw neta s node = elim (Bool-cases (has nxt s.seen || lt nw cut)) [
    | inl skip ↦ rw skip (omega arith)
    | inr go ↦ rw go (
        omega (
          arith,
          unseen-cons nxt s.seen (nx.nodes g) node (ground arith),
          length-append s.frontier (record { node = nxt; w = nw; eta = neta } ∷ []),
        ))
  ]

  blast_edges-work :
      (wave : Wave F) (edges : List (String × Attr F)) (s : Blasting F)
      → AreNodes edges
      → work (blast_edges wave edges s) ≤ work s
  unfolding blast_edges
  blast_edges-work wave [] s _ = omega arith
  blast_edges-work wave ((nxt, a) ∷ edges) s (node, rest) =
      let nw = carried wave.w a in
      let neta = wave.eta + a.lag_s in
      omega (
        arith,
        strike-work nxt nw neta s node,
        blast_edges-work wave edges (strike nxt nw neta s) rest,
      )

  blast_loop-ends :
      (fuel : ℕ) (frontier : List (Wave F)) (seen : List String) (out : List (Impact F))
      → ((u : String) → AreNodes (nx.out_edges g u))
      → unseen seen (nx.nodes g) + length frontier ≤ fuel
      → (result : List (Impact F)) × (blast_loop nx g fuel
            (record { frontier = frontier; seen = seen; out = out })
          ≡ some result)
  unfolding blast_loop
  blast_loop-ends zero [] seen out h le_fuel = (out, refl)
  blast_loop-ends zero (wave ∷ rest) seen out h le_fuel = absurd (omega arith)
  blast_loop-ends (suc fuel) [] seen out h le_fuel = (out, refl)
  blast_loop-ends (suc fuel) (wave ∷ rest) seen out h le_fuel =
      let s : Blasting F = record { frontier = rest; seen = seen; out = out } in
      let s' = blast_edges wave (nx.out_edges g wave.node) s in
      blast_loop-ends fuel s'.frontier s'.seen s'.out h
        (omega (arith, blast_edges-work wave (nx.out_edges g wave.node) s (h wave.node)))

  -- `blast_radius` returns with fuel of one more than the number of nodes, or more, from any
  -- root, if every edge out of a node leads to a node.
  pub blast_radius_ends :
      (fuel : ℕ) (root : String)
      → ((u : String) → AreNodes (nx.out_edges g u))
      → length (nx.nodes g) + 1 ≤ fuel
      → (result : List (Impact F)) × (blast_radius nx g fuel root ≡ some result)
  unfolding blast_radius
  blast_radius_ends fuel root h enough =
      let s = start nx g root in
      let (out, e) =
        blast_loop-ends fuel s.frontier s.seen s.out h
          (omega (arith, unseen-le (root ∷ []) (nx.nodes g))) in
      elim (Bool-cases (has root (nx.nodes g))) [
        | inl node ↦ (sorted (stronger_first nx) out, rw (node, e) refl)
        | inr absent ↦ ([], rw absent refl)
      ]

  module _ (root p : String) where
    record IsCounted (s : Blasting F) : Type 0 where
      once : count p s.seen ≤ 1
      all : count p s.seen ≡ count p (root ∷ []) + count p (pods s.out)

    strike-IsCounted :
        (nxt : String) (nw : F) (neta : ℕ) (s : Blasting F)
        → IsCounted s
        → IsCounted (strike nxt nw neta s)
    unfolding strike
    strike-IsCounted nxt nw neta s h = elim (Bool-cases (has nxt s.seen || lt nw cut)) [
      | inl skip ↦ rw skip h
      | inr go ↦
          let d : Impact F = record { pod = nxt; impact = round 3 nw; eta_s = neta } in
          rw go (record {
            once = elim (Bool-cases (str_eq nxt p)) [
              | inl e ↦ ground (arith, h.once, count_of_not_has p nxt s.seen)
              | inr e ↦ ground (arith, h.once)
            ];
            all = omega (
              arith,
              h.all,
              ap (count p) (pods-append s.out d),
              count-append p (pods s.out) (nxt ∷ []),
            );
          })
    ]

    blast_edges-IsCounted :
        (wave : Wave F) (edges : List (String × Attr F)) (s : Blasting F)
        → IsCounted s
        → IsCounted (blast_edges wave edges s)
    unfolding blast_edges
    blast_edges-IsCounted wave [] s h = h
    blast_edges-IsCounted wave ((nxt, a) ∷ edges) s h =
        blast_edges-IsCounted wave edges (strike nxt (carried wave.w a) (wave.eta + a.lag_s) s)
          (strike-IsCounted nxt (carried wave.w a) (wave.eta + a.lag_s) s h)

    blast_loop-once :
        (fuel : ℕ) (frontier : List (Wave F)) (seen : List String) (out result : List (Impact F))
        → IsCounted (record { frontier = frontier; seen = seen; out = out })
        → blast_loop nx g fuel (record { frontier = frontier; seen = seen; out = out })
          ≡ some result
        → count p (root ∷ []) + count p (pods result) ≤ 1
    unfolding blast_loop
    blast_loop-once zero [] seen out result h e =
        let same : out ≡ result = ground arith in
        omega (arith, h.once, h.all, ap (λ (r : List (Impact F)). count p (pods r)) same)
    blast_loop-once zero (wave ∷ rest) seen out result h e = absurd (cc)
    blast_loop-once (suc fuel) [] seen out result h e =
        let same : out ≡ result = ground arith in
        omega (arith, h.once, h.all, ap (λ (r : List (Impact F)). count p (pods r)) same)
    blast_loop-once (suc fuel) (wave ∷ rest) seen out result h e =
        let s : Blasting F = record { frontier = rest; seen = seen; out = out } in
        let s' = blast_edges wave (nx.out_edges g wave.node) s in
        blast_loop-once fuel s'.frontier s'.seen s'.out result
          (blast_edges-IsCounted wave (nx.out_edges g wave.node) s
            (record { once = h.once; all = h.all }))
          e

    -- Among the root and the victims of a result of `blast_radius` no node stands twice: each
    -- victim is named once, and the root is not its own victim.
    pub blast_radius_once :
        (fuel : ℕ) (result : List (Impact F))
        → blast_radius nx g fuel root ≡ some result
        → count p (root ∷ pods result) ≤ 1
    blast_radius_once fuel result h = elim (blast_radius-cases nx g root fuel result h) [
      | inl e ↦ subst (λ (r : List (Impact F)). count p (root ∷ pods r) ≤ 1) e (ground arith)
      | inr (out, e, same) ↦
          let s = start nx g root in
          subst (λ (r : List (Impact F)). count p (root ∷ pods r) ≤ 1) same
            (omega (
              arith,
              count-sorted (stronger_first nx) p out,
              blast_loop-once fuel s.frontier s.seen s.out out
                  (record { once = ground arith; all = omega arith }) e,
            ))
    ]
