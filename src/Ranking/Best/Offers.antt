-- ===== src/Ranking/Best/Offers.antt =====
-- The inner loop of `_forward_impact` in correlation/engine/ranking.py: what the offers of one node do to
-- the impacts and to the queue.
use mathlib.Core.Path.{subst}
use abb_accelerator_aiops.Prelude.{
  ◌≡◌, refl, sym, true, false, ◌||◌, String, str_eq, str_eq_iff, some, List, [], ◌∷◌, ◌++◌, arith,
  All, In, In-append_left, In-append_last, Dict, get, put, get-put, Bool-cases, Option-cases, ◌⊎◌,
  inl, inr,
}
use abb_accelerator_aiops.Float.{Float, lit, le, lt}
use abb_accelerator_aiops.Float.Laws.{IsOrdered, ◌≼◌, lt_of_le_of_lt}
use abb_accelerator_aiops.Ranking.{Attr, Reach, cut, carried, best_impact, offer, spread}

module _ {F : Type 0} ⦃f : Float F⦄ where
  -- An impact at a node of the dict, this one or a better one.
  abbrev pub Reaches : Dict F → String → F → Type 0
  Reaches imp v w = (best : F) × (get v imp ≡ some best) × (w ≼ best)

  -- An impact that is offered to a node falls below the cut, or the node has one as good.
  abbrev pub Handled : Dict F → String → F → Type 0
  Handled imp v w = (lt w cut ≡ true) ⊎ Reaches imp v w

  abbrev pub Grows : Dict F → Dict F → Type 0
  Grows imp imp' = (v : String) (w : F) → get v imp ≡ some w → Reaches imp' v w

  -- What an offer does to the worklist: impacts only improve, and each new one is queued.
  pub record Advances (s s' : Reach F) : Type 0 where
    pub grows : Grows s.impact s'.impact
    pub queued :
        (v : String) (w : F)
        → get v s'.impact ≡ some w
        → (get v s.impact ≡ some w) ⊎ In (v, w) s'.frontier
    pub keeps : (x : String × F) → In x s.frontier → In x s'.frontier

module _ {F : Type 0} ⦃f : Float F⦄ (o : IsOrdered F) where
  Reaches-mono :
      (imp imp' : Dict F) (v : String) (w : F) → Grows imp imp' → Reaches imp v w → Reaches imp' v w
  Reaches-mono imp imp' v w grows (b, e, h) =
      let (b', e', h') = grows v b e in (b', e', o.le_trans w b b' h h')

  pub Handled-mono :
      (imp imp' : Dict F) (v : String) (w : F) → Grows imp imp' → Handled imp v w → Handled imp' v w
  Handled-mono imp imp' v w grows (inl h) = inl h
  Handled-mono imp imp' v w grows (inr h) = inr (Reaches-mono imp imp' v w grows h)

  Advances-refl : (s : Reach F) → Advances s s
  Advances-refl s = record {
    grows = λ v w e. (w, e, o.le_refl w);
    queued = λ v w e. inl e;
    keeps = λ x m. m;
  }

  Advances-trans : (s t u : Reach F) → Advances s t → Advances t u → Advances s u
  Advances-trans s t u a b = record {
    grows = λ v w e. Reaches-mono t.impact u.impact v w b.grows (a.grows v w e);
    queued = λ v w e. elim (b.queued v w e) [
      | inl e' ↦ elim (a.queued v w e') [ inl e'' ↦ inl e'' | inr m ↦ inr (b.keeps (v, w) m) ]
      | inr m ↦ inr m
    ];
    keeps = λ x m. b.keeps x (a.keeps x m);
  }

  -- Where the offer is taken, what the node had is no better.
  taken-Grows :
      (nxt : String) (nw : F) (imp : Dict F)
      → (lt nw cut || le nw (best_impact imp nxt)) ≡ false
      → Grows imp (put nxt nw imp)
  taken-Grows nxt nw imp h v w e = elim (Bool-cases (str_eq nxt v)) [
    | inl same ↦
        let here : get nxt imp ≡ some w =
          subst (λ i. get i imp ≡ some w) (sym ((str_eq_iff nxt v).0 same)) e in
        (nw, rw (get-put nxt v nw imp) (rw same refl), ground (arith, h, here, o.le_total w nw))
    | inr other ↦ (w, rw (get-put nxt v nw imp) (rw other e), o.le_refl w)
  ]

  taken-queued :
      (nxt : String) (nw : F) (s : Reach F) (v : String) (w : F)
      → get v (put nxt nw s.impact) ≡ some w
      → (get v s.impact ≡ some w) ⊎ In (v, w) (s.frontier ++ (nxt, nw) ∷ [])
  taken-queued nxt nw s v w e = elim (Bool-cases (str_eq nxt v)) [
    | inl same ↦
        let value : nw ≡ w = ground (arith, e, same, get-put nxt v nw s.impact) in
        let entry : (nxt, nw) ≡ (v, w) = ground (arith, (str_eq_iff nxt v).0 same, value) in
        inr (
          subst (λ x. In x (s.frontier ++ (nxt, nw) ∷ [])) entry
            (In-append_last (nxt, nw) s.frontier))
    | inr other ↦ inl (ground (arith, e, other, get-put nxt v nw s.impact))
  ]

  module _ (positive : lt {F = F} (lit 0 0) cut ≡ true) where
    -- Where the offer is dropped, the impact is below the cut or the node has a better one.
    dropped :
        (nxt : String) (nw : F) (imp : Dict F)
        → (lt nw cut || le nw (best_impact imp nxt)) ≡ true
        → Handled imp nxt nw
    dropped nxt nw imp h = elim (Bool-cases (lt nw cut)) [
      | inl low ↦ inl low
      | inr high ↦ elim (Option-cases (get nxt imp)) [
        | inl e ↦
            let under : nw ≼ lit 0 0 = ground (arith, h, high, e) in
            inl (lt_of_le_of_lt o nw (lit 0 0) cut under positive)
        | inr (b, e) ↦ inr (b, e, ground (arith, h, high, e))
      ]
    ]

    offer-Advances :
        (nxt : String) (nw : F) (s : Reach F)
        → Advances s (offer nxt nw s) × Handled (offer nxt nw s).impact nxt nw
    unfolding offer
    offer-Advances nxt nw s = elim (Bool-cases (lt nw cut || le nw (best_impact s.impact nxt))) [
      | inl skip ↦ rw skip (Advances-refl s, dropped nxt nw s.impact skip)
      | inr keep ↦ rw keep (
        record {
          grows = taken-Grows nxt nw s.impact keep;
          queued = taken-queued nxt nw s;
          keeps = λ x m. In-append_left x s.frontier ((nxt, nw) ∷ []) m;
        },
        inr (
          nw,
          rw (get-put nxt nxt nw s.impact) (rw ((str_eq_iff nxt nxt).1 refl) refl),
          o.le_refl nw,
        ),
      )
    ]

    pub spread-Advances :
        (w : F) (edges : List (String × Attr F)) (s : Reach F)
        → Advances s (spread w edges s)
          × All (λ e. Handled (spread w edges s).impact e.0 (carried w e.1)) edges
    unfolding spread
    spread-Advances w [] s = (Advances-refl s, tt)
    spread-Advances w ((nxt, a) ∷ edges) s =
        let t = offer nxt (carried w a) s in
        let (step, here) = offer-Advances nxt (carried w a) s in
        let (rest, others) = spread-Advances w edges t in
        (
          Advances-trans s t (spread w edges t) step rest,
          (Handled-mono t.impact _ nxt (carried w a) rest.grows here, others),
        )
