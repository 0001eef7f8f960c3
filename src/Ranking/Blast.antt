-- ===== src/Ranking/Blast.antt =====
-- `blast_radius` of correlation/engine/ranking.py: each predicted victim is reached by a path of the
-- graph that carries its impact and its arrival time, and no victim is named twice.
use mathlib.Core.Path.{subst}
use abb_accelerator_aiops.Prelude.{
  ℕ, zero, suc, ◌+◌, ◌≡◌, refl, false, ◌||◌, String, some, List, [], ◌∷◌, arith, has, All,
  All-append, All-In, All-sorted, In, sorted, Bool-cases, Option-cases, ◌⊎◌, inl, inr,
}
use abb_accelerator_aiops.Float.{Float, lit, lt, round}
use abb_accelerator_aiops.Graph.{Impact}
use abb_accelerator_aiops.Ranking.{
  Attr, DiGraph, Wave, Blasting, cut, carried, strike, blast_edges, blast_loop, blast_radius,
  stronger_first,
}

module _ {F : Type 0} ⦃f : Float F⦄ (nx : DiGraph F) (g : nx.Graph) (root : String) where
  -- A path from the root to a node, with the impact that arrives and the time of arrival: the root has
  -- impact 1 at time 0, and an edge carries an impact on if what is left of it reaches the cut.
  pub data Carries : String → F → ℕ → Type 0 where
    origin : Carries root (lit 1 0) 0
    along :
        {u : String} {w : F} {eta : ℕ} (v : String) (a : Attr F)
        → Carries u w eta
        → In (v, a) (nx.out_edges g u)
        → lt (carried w a) cut ≡ false
        → Carries v (carried w a) (eta + a.lag_s)

  -- A predicted victim stands for a path to it.
  abbrev pub IsReached : Impact F → Type 0
  IsReached d = (w : F) × Carries d.pod w d.eta_s × (d.impact ≡ round 3 w)

  abbrev Arrives : Wave F → Type 0
  Arrives wave = Carries wave.node wave.w wave.eta

  record IsSound (s : Blasting F) : Type 0 where
    frontier : All Arrives s.frontier
    out : All IsReached s.out

  strike-IsSound :
      (nxt : String) (nw : F) (neta : ℕ) (s : Blasting F)
      → (lt nw cut ≡ false → Carries nxt nw neta)
      → IsSound s
      → IsSound (strike nxt nw neta s)
  unfolding strike
  strike-IsSound nxt nw neta s path h = elim (Bool-cases (has nxt s.seen || lt nw cut)) [
    | inl skip ↦ rw skip h
    | inr go ↦
        let c = path (ground arith) in
        rw go (record {
          frontier = All-append Arrives s.frontier _ h.frontier (c, tt);
          out = All-append IsReached s.out _ h.out ((nw, c, refl), tt);
        })
  ]

  blast_edges-IsSound :
      (wave : Wave F) (edges : List (String × Attr F)) (s : Blasting F)
      → Arrives wave
      → All (λ e. In e (nx.out_edges g wave.node)) edges
      → IsSound s
      → IsSound (blast_edges wave edges s)
  unfolding blast_edges
  blast_edges-IsSound wave [] s c _ h = h
  blast_edges-IsSound wave ((nxt, a) ∷ edges) s c (m, ms) h =
      blast_edges-IsSound wave edges (strike nxt (carried wave.w a) (wave.eta + a.lag_s) s) c ms
        (strike-IsSound nxt (carried wave.w a) (wave.eta + a.lag_s) s (λ k. along nxt a c m k) h)

  blast_loop-IsSound :
      (fuel : ℕ) (frontier : List (Wave F)) (seen : List String) (out result : List (Impact F))
      → IsSound (record { frontier = frontier; seen = seen; out = out })
      → blast_loop nx g fuel (record { frontier = frontier; seen = seen; out = out }) ≡ some result
      → All IsReached result
  unfolding blast_loop
  blast_loop-IsSound zero [] seen out result h e = subst (All IsReached) (ground arith) h.out
  blast_loop-IsSound zero (wave ∷ rest) seen out result h e = cc
  blast_loop-IsSound (suc fuel) [] seen out result h e = subst (All IsReached) (ground arith) h.out
  blast_loop-IsSound (suc fuel) (wave ∷ rest) seen out result h e =
      let s : Blasting F = record { frontier = rest; seen = seen; out = out } in
      let s' = blast_edges wave (nx.out_edges g wave.node) s in
      blast_loop-IsSound fuel s'.frontier s'.seen s'.out result
        (blast_edges-IsSound wave (nx.out_edges g wave.node) s h.frontier.0 (All-In _)
          (record { frontier = h.frontier.1; out = h.out }))
        e

  -- The state in which the loop starts.
  abbrev pub start : Blasting F
  start = record {
    frontier = record { node = root; w = lit 1 0; eta = 0 } ∷ [];
    seen = root ∷ [];
    out = [];
  }

  -- What a result is: nothing, for a root that is no node, or the sorted output of the loop.
  pub blast_radius-cases :
      (fuel : ℕ) (result : List (Impact F))
      → blast_radius nx g fuel root ≡ some result
      → ([] ≡ result)
        ⊎ ((out : List (Impact F)) × (blast_loop nx g fuel start ≡ some out)
            × (sorted (stronger_first nx) out ≡ result))
  unfolding blast_radius
  blast_radius-cases fuel result h = elim (Option-cases (blast_loop nx g fuel start)) [
    | inl stuck ↦ ground arith
    | inr (out, e) ↦ elim (Bool-cases (has root (nx.nodes g))) [
      | inl node ↦ inr (out, e, ground arith)
      | inr absent ↦ inl (ground arith)
    ]
  ]

  -- Every predicted victim of a result of `blast_radius` is reached from the root by a path of
  -- the graph along which the impact stays at the cut or above: its ETA is the sum of the lags on
  -- the path, and its impact the rounded impact that arrives.
  pub blast_radius-IsReached :
      (fuel : ℕ) (result : List (Impact F))
      → blast_radius nx g fuel root ≡ some result
      → All IsReached result
  blast_radius-IsReached fuel result h = elim (blast_radius-cases fuel result h) [
    | inl e ↦ subst (All IsReached) e tt
    | inr (out, e, same) ↦ subst (All IsReached) same (
        All-sorted (stronger_first nx) IsReached out (
          blast_loop-IsSound fuel start.frontier start.seen start.out out
            (record { frontier = (origin, tt); out = tt }) e))
  ]
