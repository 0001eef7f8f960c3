-- ===== src/Ranking/Best.antt =====
-- `_forward_impact` of correlation/engine/ranking.py finds the best impact at every node, although it
-- looks at the paths of the graph in the order of its queue.
pub mod Offers
pub mod Landings
use mathlib.Core.Path.{subst}
use abb_accelerator_aiops.Prelude.{
  ℕ, zero, suc, ◌≡◌, refl, sym, true, false, String, some, List, [], ◌∷◌, arith, All, All-map,
  All-at, All-In, In, Dict, get, ◌⊎◌, inl, inr,
}
use abb_accelerator_aiops.Float.{Float, lit, le, lt}
use abb_accelerator_aiops.Float.Laws.{IsOrdered, IsRounded, ◌≼◌, lt_of_le_of_lt}
use abb_accelerator_aiops.Ranking.{
  Attr, DiGraph, Reach, fade, cut, carried, spread, forward_loop, forward_impact,
}
use abb_accelerator_aiops.Ranking.Blast.{Carries, origin, along}
use abb_accelerator_aiops.Ranking.Best.Offers.{
  Reaches, Handled, Grows, Handled-mono, spread-Advances,
}
use abb_accelerator_aiops.Ranking.Best.Landings.{Lands, IsSound, spread-IsSound}

module _ {F : Type 0} ⦃f : Float F⦄ (nx : DiGraph F) (g : nx.Graph) (root : String) where
  -- The dict has a node exactly if an impact lands there, and then the best of them.
  pub record IsBest (imp : Dict F) : Type 0 where
    pub lands : (v : String) (w : F) → get v imp ≡ some w → Lands nx g root v w
    pub beats : (v : String) (w : F) → Lands nx g root v w → Reaches imp v w

  -- The root's own impact of 1, or an impact of the dict.
  abbrev Held : Dict F → String → F → Type 0
  Held imp v w = ((v ≡ root) × (w ≡ lit 1 0)) ⊎ (get v imp ≡ some w)

  abbrev Covered : Dict F → String → F → Type 0
  Covered imp v w =
      All (λ (e : String × Attr F). Handled imp e.0 (carried w e.1)) (nx.out_edges g v)

  -- What is held is still queued, or has been offered along every edge.
  abbrev IsClosed : Reach F → Type 0
  IsClosed s =
      (v : String) (w : F) → Held s.impact v w → In (v, w) s.frontier ⊎ Covered s.impact v w

  module _ (o : IsOrdered F) (positive : lt {F = F} (lit 0 0) cut ≡ true) where
    Covered-mono :
        (imp imp' : Dict F) (v : String) (w : F)
        → Grows imp imp'
        → Covered imp v w
        → Covered imp' v w
    Covered-mono imp imp' v w grows h =
        All-map (λ (e : String × Attr F) k. Handled-mono o imp imp' e.0 (carried w e.1) grows k)
          (nx.out_edges g v) h

    -- One round: the node that was popped is covered now.
    round-IsClosed :
        (node : String) (w : F) (rest : List (String × F)) (imp : Dict F)
        → IsClosed (record { frontier = (node, w) ∷ rest; impact = imp })
        → IsClosed (spread w (nx.out_edges g node) (record { frontier = rest; impact = imp }))
    round-IsClosed node w rest imp closed v x held =
        let s : Reach F = record { frontier = rest; impact = imp } in
        let s' = spread w (nx.out_edges g node) s in
        let (step, done) = spread-Advances o positive w (nx.out_edges g node) s in
        let old : Held imp v x → In (v, x) s'.frontier ⊎ Covered s'.impact v x = λ k.
          elim (closed v x k) [
            | inl (inl here) ↦
                inr (subst (λ (y : String × F). Covered s'.impact y.0 y.1) (sym here) done)
            | inl (inr later) ↦ inl (step.keeps (v, x) later)
            | inr c ↦ inr (Covered-mono imp s'.impact v x step.grows c)
          ] in
        elim held [
          | inl start ↦ old (inl start)
          | inr e ↦ elim (step.queued v x e) [ inl e' ↦ old (inr e') | inr m ↦ inl m ]
        ]

    -- The loop ends with an empty queue, where all that is held is covered.
    abbrev Settled : Dict F → Type 0
    Settled imp =
        ((v : String) (w : F) → Held imp v w → Covered imp v w)
        × ((v : String) (w : F) → get v imp ≡ some w → Lands nx g root v w)

    empty-Settled :
        (imp : Dict F)
        → IsClosed (record { frontier = []; impact = imp })
        → IsSound nx g root (record { frontier = []; impact = imp })
        → Settled imp
    empty-Settled imp closed sound =
        (λ v w held. elim (closed v w held) [ inl m ↦ elim m [ ] | inr c ↦ c ], sound.lands)

    forward_loop-Settled :
        (fuel : ℕ) (frontier : List (String × F)) (imp result : Dict F)
        → IsClosed (record { frontier = frontier; impact = imp })
        → IsSound nx g root (record { frontier = frontier; impact = imp })
        → forward_loop nx g fuel (record { frontier = frontier; impact = imp }) ≡ some result
        → Settled result
    unfolding forward_loop
    forward_loop-Settled zero [] imp result closed sound e =
        subst Settled (ground (arith, e)) (empty-Settled imp closed sound)
    forward_loop-Settled zero (x ∷ rest) imp result closed sound e = cc
    forward_loop-Settled (suc fuel) [] imp result closed sound e =
        subst Settled (ground (arith, e)) (empty-Settled imp closed sound)
    forward_loop-Settled (suc fuel) ((node, w) ∷ rest) imp result closed sound e =
        let s : Reach F = record { frontier = rest; impact = imp } in
        let s' = spread w (nx.out_edges g node) s in
        forward_loop-Settled fuel s'.frontier s'.impact result
          (round-IsClosed node w rest imp closed)
          (spread-IsSound nx g root node w (nx.out_edges g node) s sound.reached.0 (All-In _)
            (record { reached = sound.reached.1; lands = sound.lands }))
          e

    module _ (l : IsRounded F) (fade_nonneg : le {F = F} (lit 0 0) fade ≡ true)
        (weighted : (u : String)
          → All (λ (e : String × Attr F). lit 0 0 ≼ e.1.weight) (nx.out_edges g u)) where
      carried_mono : (w x : F) (a : Attr F) → lit 0 0 ≼ a.weight → w ≼ x → carried w a ≼ carried x a
      carried_mono w x a pos h =
          l.mul_mono_left _ _ fade fade_nonneg (l.mul_mono_left w x a.weight pos h)

      -- What an edge carries on from a better impact is as good.
      Covered-Reaches :
          (imp : Dict F) (u v : String) (w x : F) (a : Attr F)
          → w ≼ x
          → Covered imp u x
          → In (v, a) (nx.out_edges g u)
          → lt (carried w a) cut ≡ false
          → Reaches imp v (carried w a)
      Covered-Reaches imp u v w x a h covered m high =
          let more = carried_mono w x a (All-at _ (nx.out_edges g u) (weighted u) (v, a) m) h in
          elim (All-at _ (nx.out_edges g u) covered (v, a) m) [
            | inl low ↦ cc (lt_of_le_of_lt o (carried w a) (carried x a) cut more low)
            | inr (b, e, k) ↦ (b, e, o.le_trans _ _ _ more k)
          ]

      Carries-Held :
          (imp : Dict F) (u : String) (w : F) (eta : ℕ)
          → Settled imp
          → Carries nx g root u w eta
          → (x : F) × Held imp u x × (w ≼ x)
      Carries-Held imp u w eta h origin = (lit 1 0, inl (refl, refl), o.le_refl (lit 1 0))
      Carries-Held imp u w eta h (along {u = u'} {w = w'} {eta = eta'} v a path m high) =
          let (x, held, le_x) = Carries-Held imp u' w' eta' h path in
          let (b, e, k) = Covered-Reaches imp u' v w' x a le_x (h.0 u' x held) m high in
          (b, inr e, k)

      Settled-IsBest : (imp : Dict F) → Settled imp → IsBest imp
      Settled-IsBest imp h = record {
        lands = h.1;
        beats = λ v w landed.
            let (x, held, le_x) =
              Carries-Held imp landed.before landed.sent landed.eta h landed.path in
            subst (Reaches imp v) (sym landed.carried_on) (
              Covered-Reaches imp landed.before v landed.sent x landed.attr le_x
                (h.0 landed.before x held) landed.edge
                (subst (λ y. lt y cut ≡ false) landed.carried_on landed.kept));
      }

      -- A result of `_forward_impact` has a node exactly if a path of one edge or more brings
      -- it an impact that is at the cut or above at every node on the way, and then it has
      -- the best impact that such a path brings. No weight is negative, the cut is positive,
      -- the fade is not negative, and the arithmetic obeys `IsOrdered` and `IsRounded`.
      pub forward_impact-IsBest :
          (fuel : ℕ) (imp : Dict F) → forward_impact nx g fuel root ≡ some imp → IsBest imp
      unfolding forward_impact get
      forward_impact-IsBest fuel imp e = Settled-IsBest imp (
          forward_loop-Settled fuel ((root, lit 1 0) ∷ []) [] imp
            (λ v w held. elim held [
              | inl (here, one) ↦ inl (inl (ground (arith, here, one)))
              | inr found ↦ cc
            ])
            (record { reached = ((0, origin), tt); lands = λ v w found. cc }) e)
