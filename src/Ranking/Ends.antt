-- ===== src/Ranking/Ends.antt =====
-- The worklist of `_forward_impact` in correlation/engine/ranking.py runs empty: an impact fades along
-- every path, so no node is queued more than N steps from the root, where N fades fall below the cut.
use mathlib.Core.Path.{subst}
use native.Mathlib.Nat.{mul-le-mul_right}
use abb_accelerator_aiops.Prelude.{
  ℕ, zero, suc, ◌+◌, ◌*◌, ◌-◌, ◌≤◌, ◌<◌, ◌≡◌, refl, sym, true, false, String, some, List, [], ◌∷◌,
  ◌++◌, arith, length, All, Bool-cases, inl, inr, Dict, ◌||◌,
}
use abb_accelerator_aiops.Float.{Float, lit, ◌⊗◌, le, lt}
use abb_accelerator_aiops.Float.Laws.{IsOrdered, IsRounded, ◌≼◌, le_of_not-lt, lt_of_le_of_lt}
use abb_accelerator_aiops.Ranking.{
  Attr, DiGraph, Reach, fade, cut, carried, best_impact, offer, spread, forward_loop,
  forward_impact,
}

-- The rounds that an entry can cost, itself included, if its impact can be carried `left` steps more
-- and every node has at most `b` edges out.
abbrev pub cost : ℕ → ℕ → ℕ
cost b zero = 0
cost b (suc left) = suc (b * cost b left)

module _ {F : Type 0} ⦃f : Float F⦄ where
  -- The impact after j fades at full weight.
  abbrev pub power : ℕ → F
  power zero = lit 1 0
  power (suc j) = power j ⊗ fade

-- The constants: 0 ≤ DECAY, 0 ≤ CUT, and N fades fall below the cut.
pub record Fades (F : Type 0) ⦃f : Float F⦄ (n : ℕ) : Type 0 where
  pub fade_nonneg : le {F = F} (lit 0 0) fade ≡ true
  pub cut_nonneg : le {F = F} (lit 0 0) cut ≡ true
  pub below : lt {F = F} (power {F = F} n) cut ≡ true

module _ {F : Type 0} ⦃f : Float F⦄ where
  -- A frontier whose entries cost `m` rounds in all.
  data Costs (b n : ℕ) : List (String × F) → ℕ → Type 0 where
    nil : Costs b n [] 0
    cons :
        {rest : List (String × F)} {m : ℕ} (node : String) (w : F) (j left : ℕ)
        → j + suc left ≡ n
        → lit 0 0 ≼ w
        → w ≼ power j
        → Costs b n rest m
        → Costs b n ((node, w) ∷ rest) (cost b (suc left) + m)

  Costs-append :
      {b n : ℕ} {xs ys : List (String × F)} {m k : ℕ}
      → Costs b n xs m
      → Costs b n ys k
      → (t : ℕ) × Costs b n (xs ++ ys) t × (t ≡ m + k)
  Costs-append {b} {n} {xs} {ys} {m} {k} nil c = (k, c, omega arith)
  Costs-append {b} (cons {m = m} node w j left e p q h) c =
      let (t, d, total) = Costs-append h c in
      (cost b (suc left) + t, cons node w j left e p q d, omega arith)

module _ {F : Type 0} ⦃f : Float F⦄ (o : IsOrdered F) (l : IsRounded F) (b n : ℕ)
    (fades : Fades F n) where
  abbrev IsLight : List (String × Attr F) → Type 0
  IsLight edges = All (λ (e : String × Attr F). e.1.weight ≼ lit 1 0) edges

  carried-le-power :
      (w : F) (a : Attr F) (j : ℕ)
      → lit 0 0 ≼ w
      → w ≼ power j
      → a.weight ≼ lit 1 0
      → carried w a ≼ power (suc j)
  carried-le-power w a j w0 wj light =
      l.mul_mono_left _ _ fade fades.fade_nonneg
        (o.le_trans _ _ _ (l.mul-le_left w a.weight w0 light) wj)

  -- No impact at the cut or above has faded n times.
  not_faded : (w : F) → w ≼ power n → lt w cut ≡ false → ⊥
  not_faded w h k = cc (lt_of_le_of_lt o w (power n) cut h fades.below)

  queued-Costs :
      (nxt : String) (nw : F) (j left : ℕ)
      → suc j + left ≡ n
      → nw ≼ power (suc j)
      → lt nw cut ≡ false
      → Costs b n ((nxt, nw) ∷ []) (cost b left)
  queued-Costs nxt nw j zero e h k =
      let last : suc j ≡ n = omega arith in
      absurd (not_faded nw (subst (λ i. nw ≼ power i) last h) k)
  queued-Costs nxt nw j (suc left) e h k =
      let same : cost b (suc left) + 0 ≡ cost b (suc left) = omega arith in
      subst (Costs b n ((nxt, nw) ∷ [])) same (
        cons nxt nw (suc j) left e (o.le_trans _ _ _ fades.cut_nonneg (le_of_not-lt o _ _ k)) h nil)

  offer-Costs :
      (nxt : String) (nw : F) (j left : ℕ) (s : Reach F) (m : ℕ)
      → suc j + left ≡ n
      → nw ≼ power (suc j)
      → Costs b n s.frontier m
      → (t : ℕ) × Costs b n (offer nxt nw s).frontier t × (t ≤ m + cost b left)
  unfolding offer
  offer-Costs nxt nw j left s m e h c =
      elim (Bool-cases (lt nw cut || le nw (best_impact s.impact nxt))) [
        | inl skip ↦ rw skip (m, c, omega arith)
        | inr keep ↦ rw keep (
            let (t, d, total) = Costs-append c (queued-Costs nxt nw j left e h (ground arith)) in
            (t, d, omega arith))
      ]

  spread-Costs :
      (w : F) (j left : ℕ) (edges : List (String × Attr F)) (s : Reach F) (m : ℕ)
      → j + suc left ≡ n
      → lit 0 0 ≼ w
      → w ≼ power j
      → IsLight edges
      → Costs b n s.frontier m
      → (t : ℕ) × Costs b n (spread w edges s).frontier t × (t ≤ m + length edges * cost b left)
  unfolding spread
  spread-Costs w j left [] s m e w0 wj _ c = (m, c, omega arith)
  spread-Costs w j left ((nxt, a) ∷ edges) s m e w0 wj (light, lights) c =
      let (t, d, le_t) =
        offer-Costs nxt (carried w a) j left s m (omega arith) (carried-le-power w a j w0 wj light)
          c in
      let (u, d', le_u) =
        spread-Costs w j left edges (offer nxt (carried w a) s) t e w0 wj lights d in
      (u, d', grind arith)

  module _ (nx : DiGraph F) (g : nx.Graph) where
    -- Every node has at most `b` edges out, and no weight passes 1.
    pub record IsBounded : Type 0 where
      pub degree : (u : String) → length (nx.out_edges g u) ≤ b
      pub light : (u : String) → IsLight (nx.out_edges g u)

    forward_loop-ends :
        (fuel : ℕ) (frontier : List (String × F)) (impact : Dict F) (m : ℕ)
        → IsBounded
        → Costs b n frontier m
        → m ≤ fuel
        → (imp : Dict F) × (forward_loop nx g fuel (record { frontier = frontier; impact = impact })
            ≡ some imp)
    unfolding forward_loop
    forward_loop-ends zero [] impact m h nil le_m = (impact, refl)
    forward_loop-ends (suc fuel) [] impact m h nil le_m = (impact, refl)
    forward_loop-ends zero (x ∷ rest) impact m h (cons node w j left e w0 wj c) le_m =
        absurd (omega arith)
    forward_loop-ends (suc fuel) (x ∷ rest) impact m h (cons {m = k} node w j left e w0 wj c) le_m =
        let edges = nx.out_edges g node in
        let start : Reach F = record { frontier = rest; impact = impact } in
        let (t, d, le_t) = spread-Costs w j left edges start k e w0 wj (h.light node) c in
        let few : length edges * cost b left ≤ b * cost b left =
          mul-le-mul_right (cost b left) (h.degree node) in
        forward_loop-ends fuel (spread w edges start).frontier (spread w edges start).impact t h d
          (omega arith)

    -- `_forward_impact` returns, with fuel 1 + b + … + b^(n-1) or more, from any root: if every
    -- node has at most b edges out, every weight is at most 1, n fades fall below the cut, n is
    -- positive, and the arithmetic obeys `IsOrdered` and `IsRounded`.
    pub forward_impact_ends :
        (fuel : ℕ) (root : String)
        → 0 < n
        → IsBounded
        → cost b n ≤ fuel
        → (imp : Dict F) × (forward_impact nx g fuel root ≡ some imp)
    unfolding forward_impact
    forward_impact_ends fuel root pos h enough =
        let whole : suc (n - 1) ≡ n = omega arith in
        let room : cost b n + 0 ≤ fuel = omega arith in
        forward_loop-ends fuel ((root, lit 1 0) ∷ []) [] (cost b (suc (n - 1)) + 0) h
          (cons root (lit 1 0) 0 (n - 1) (omega arith) l.zero-le-one (o.le_refl (lit 1 0)) nil)
          (subst (λ i. cost b i + 0 ≤ fuel) (sym whole) room)
