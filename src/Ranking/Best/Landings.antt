-- ===== src/Ranking/Best/Landings.antt =====
-- The impacts that `_forward_impact` of correlation/engine/ranking.py can find: those that paths bring.
use mathlib.Core.Path.{subst}
use abb_accelerator_aiops.Prelude.{
  ℕ, ◌+◌, ◌≡◌, refl, sym, false, ◌||◌, String, str_eq, str_eq_iff, some, List, [], ◌∷◌, arith, All,
  All-append, In, get, get-put, Bool-cases, inl, inr,
}
use abb_accelerator_aiops.Float.{Float, le, lt}
use abb_accelerator_aiops.Ranking.{Attr, DiGraph, Reach, cut, carried, best_impact, offer, spread}
use abb_accelerator_aiops.Ranking.Blast.{Carries, along}

module _ {F : Type 0} ⦃f : Float F⦄ (nx : DiGraph F) (g : nx.Graph) (root : String) where
  -- An impact that a path of one edge or more brings to a node, at the cut or above all the way.
  pub record Lands (v : String) (w : F) : Type 0 where
    pub before : String
    pub sent : F
    pub eta : ℕ
    pub attr : Attr F
    pub path : Carries nx g root before sent eta
    pub edge : In (v, attr) (nx.out_edges g before)
    pub carried_on : w ≡ carried sent attr
    pub kept : lt w cut ≡ false

  abbrev pub Arrives : String × F → Type 0
  Arrives (v, w) = (eta : ℕ) × Carries nx g root v w eta

  pub record IsSound (s : Reach F) : Type 0 where
    pub reached : All Arrives s.frontier
    pub lands : (v : String) (w : F) → get v s.impact ≡ some w → Lands v w

  Lands-Arrives : (v : String) (w : F) → Lands v w → Arrives (v, w)
  Lands-Arrives v w h = (
    h.eta + h.attr.lag_s,
    subst (λ x. Carries nx g root v x (h.eta + h.attr.lag_s)) (sym h.carried_on)
        (along v h.attr h.path h.edge (subst (λ x. lt x cut ≡ false) h.carried_on h.kept)),
  )

  offer-IsSound :
      (nxt : String) (nw : F) (s : Reach F)
      → (lt nw cut ≡ false → Lands nxt nw)
      → IsSound s
      → IsSound (offer nxt nw s)
  unfolding offer
  offer-IsSound nxt nw s landing h =
      elim (Bool-cases (lt nw cut || le nw (best_impact s.impact nxt))) [
        | inl skip ↦ rw skip h
        | inr keep ↦
            let here = landing (ground arith) in
            rw keep (record {
              reached = All-append Arrives s.frontier _ h.reached (Lands-Arrives nxt nw here, tt);
              lands = λ v w e. elim (Bool-cases (str_eq nxt v)) [
                | inl same ↦
                    let value : nw ≡ w = ground (arith, e, same, get-put nxt v nw s.impact) in
                    subst (λ i. Lands i w) ((str_eq_iff nxt v).0 same)
                      (subst (Lands nxt) value here)
                | inr other ↦ h.lands v w (ground (arith, e, other, get-put nxt v nw s.impact))
              ];
            })
      ]

  pub spread-IsSound :
      (node : String) (w : F) (edges : List (String × Attr F)) (s : Reach F)
      → Arrives (node, w)
      → All (λ e. In e (nx.out_edges g node)) edges
      → IsSound s
      → IsSound (spread w edges s)
  unfolding spread
  spread-IsSound node w [] s path _ h = h
  spread-IsSound node w ((nxt, a) ∷ edges) s (eta, path) (m, ms) h =
      spread-IsSound node w edges (offer nxt (carried w a) s) (eta, path) ms
        (offer-IsSound nxt (carried w a) s
          (λ k. record {
            before = node;
            sent = w;
            eta = eta;
            attr = a;
            path = path;
            edge = m;
            carried_on = refl;
            kept = k;
          })
          h)
