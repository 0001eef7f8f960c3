-- ===== src/Ranking/Top.antt =====
-- `rank_root_causes` of correlation/engine/ranking.py: the order of a ranking, and what it leaves out.
use mathlib.Core.Path.{subst}
use abb_accelerator_aiops.Prelude.{
  ℕ, ◌≡◌, refl, ap, ◌∙◌, true, false, String, some, List, [], ◌∷◌, arith, length, length-map, map,
  take, All, All-map, All-zip, In-map, All-take, All-of_map, All-sorted, In, In-sorted, IsSorted,
  sorted, sorted-IsSorted, take-IsSorted, IsSorted-take, Dict, get, ◌==◌, Bool-cases, Option-cases,
  ◌⊎◌, inl, inr,
}
use abb_accelerator_aiops.Float.{Float, lit, ◌⊘◌, neg, lt, round}
use abb_accelerator_aiops.Float.Laws.{IsOrdered}
use abb_accelerator_aiops.Graph.{RootCause}
use abb_accelerator_aiops.Ranking.{
  DiGraph, forward_impact, explain, score_nodes, in_seeds, total_of, cause_of, onset_lt,
  ranks_before, rank_root_causes,
}
use abb_accelerator_aiops.Ranking.Order.{ranks_before_asym, ranks_before_trans}

module _ {F : Type 0} ⦃f : Float F⦄ (nx : DiGraph F) (g : nx.Graph) (fuel : ℕ) (seeds : List String)
    (onset_s : Dict F) where
  -- How much of the symptoms a node explains, by what it reaches.
  abbrev pub Scores : String → F → Type 0
  Scores n sc =
      (imp : Dict F) × (forward_impact nx g fuel n ≡ some imp)
      × (sc ≡ explain nx g (in_seeds nx g seeds) n imp)

  -- The first has the higher score, or as high a one and an onset that is not later; a node without
  -- an onset counts as later than any with one.
  abbrev pub NotAfter : String × F → String × F → Type 0
  NotAfter (p, a) (q, b) =
      (lt b a ≡ true) ⊎ ((lt a b ≡ false) × (onset_lt nx (get q onset_s) (get p onset_s) ≡ false))

  -- Whatever the two nodes score.
  abbrev pub Precedes : String → String → Type 0
  Precedes p q = (a b : F) → Scores p a → Scores q b → NotAfter (p, a) (q, b)

  abbrev pub InOrder : List (RootCause F) → Type 0
  InOrder [] = Unit
  InOrder (c ∷ cs) = All (λ (d : RootCause F). Precedes c.pod d.pod) cs × InOrder cs

  pub record IsTop (ranking : List (RootCause F)) : Type 0 where
    pub in_order : InOrder ranking
    -- Every node with a positive score is ranked, or three nodes precede it.
    pub complete :
        (n : String) (sc : F)
        → In n (nx.nodes g)
        → Scores n sc
        → lt (lit 0 0) sc ≡ true
        → In n (map (λ (c : RootCause F). c.pod) ranking)
          ⊎ ((length ranking ≡ 3) × All (λ (c : RootCause F). Precedes c.pod n) ranking)
    -- The scores are shown as shares of one total.
    pub shares :
        (total : F) × All
          (λ (c : RootCause F). (a : F) → Scores c.pod a → c.score ≡ round 3 (a ⊘ total))
          ranking

  Scores-unique : (n : String) (a b : F) → Scores n a → Scores n b → a ≡ b
  Scores-unique n a b (imp, e, p) (imp', e', q) =
      let same : imp ≡ imp' = ground (arith, e, e') in ground (arith, p, q, same)

  entry :
      (n' n : String) (y sc : F)
      → n' ≡ n
      → Scores n' y
      → Scores n sc
      → ◌≡◌ {A = String × F} (n', y) (n, sc)
  entry n' n y sc same s mine =
      let value = Scores-unique n y sc (subst (λ i. Scores i y) same s) mine in
      ground (arith, same, value)

  abbrev AreScored : Dict F → Type 0
  AreScored scores = All (λ (kv : String × F). Scores kv.0 kv.1) scores

  abbrev AreAll : List String → Dict F → Type 0
  AreAll ns scores =
      (n : String) (sc : F) → In n ns → Scores n sc → lt (lit 0 0) sc ≡ true → In (n, sc) scores

  score_nodes-lem :
      (ns : List String) (scores : Dict F)
      → score_nodes nx g fuel (in_seeds nx g seeds) ns ≡ some scores
      → AreScored scores × AreAll ns scores
  unfolding score_nodes
  score_nodes-lem [] scores h =
      let q : [] ≡ scores = ground (arith, h) in
      subst (λ s. AreScored s × AreAll [] s) q (tt, λ n sc m. elim m [ ])
  score_nodes-lem (n ∷ ns) scores h = elim (Option-cases (forward_impact nx g fuel n)) [
    | inl e ↦ absurd (ground (arith, e, h))
    | inr (imp, e) ↦ elim (Option-cases (score_nodes nx g fuel (in_seeds nx g seeds) ns)) [
      | inl e' ↦ absurd (ground (arith, e, e', h))
      | inr (rest, e') ↦
          let (scored, all) = score_nodes-lem ns rest e' in
          let sc = explain nx g (in_seeds nx g seeds) n imp in
          let mine : Scores n sc = (imp, e, refl) in
          elim (Bool-cases (lt (lit 0 0) sc)) [
            | inl p ↦
                let first : Dict F = (n, sc) ∷ rest in
                let q : first ≡ scores = ground (arith, e, e', p, h) in
                subst (λ s. AreScored s × AreAll (n ∷ ns) s) q
                  (
                    (mine, scored),
                    λ n' y m s pos. elim m [
                      | inl same ↦ inl (entry n' n y sc same s mine)
                      | inr later ↦ inr (all n' y later s pos)
                    ],
                  )
            | inr p ↦
                let q : rest ≡ scores = ground (arith, e, e', p, h) in
                subst (λ s. AreScored s × AreAll (n ∷ ns) s) q
                  (
                    scored,
                    λ n' y m s pos. elim m [
                      | inl same ↦
                          let y_is : y ≡ sc =
                            Scores-unique n y sc (subst (λ i. Scores i y) same s) mine in
                          cc (p, pos, y_is)
                      | inr later ↦ all n' y later s pos
                    ],
                  )
          ]
    ]
  ]

  module _ (o : IsOrdered F) (flips : (a b : F) → lt (neg a) (neg b) ≡ lt b a) where
    ranks_before-NotAfter : (x y : String × F) → ranks_before nx onset_s y x ≡ false → NotAfter x y
    unfolding ranks_before
    ranks_before-NotAfter (p, a) (q, b) h = elim (Bool-cases (lt b a)) [
      | inl above ↦ inl above
      | inr level ↦ inr (
        ground (arith, h, flips a b, flips b a, level),
        ground (arith, h, flips a b, flips b a, level),
      )
    ]

    NotAfter-Precedes :
        (x y : String × F) → Scores x.0 x.1 → Scores y.0 y.1 → NotAfter x y → Precedes x.0 y.0
    NotAfter-Precedes (p, a) (q, b) s s' h a' b' t t' =
        let left = Scores-unique p a a' s t in
        let right = Scores-unique q b b' s' t' in
        subst (λ z. NotAfter (p, z) (q, b')) left (subst (λ z. NotAfter (p, a) (q, z)) right h)

    InOrder-map :
        (total : F) (xs : Dict F)
        → AreScored xs
        → IsSorted (ranks_before nx onset_s) xs
        → InOrder (map (cause_of nx total onset_s) xs)
    InOrder-map total [] _ _ = tt
    InOrder-map total (x ∷ xs) (s, ss) (h, hs) = (
      All-of_map (λ d. Precedes x.0 d.pod) (cause_of nx total onset_s) xs
          (All-zip (λ y s' b. NotAfter-Precedes x y s s' (ranks_before-NotAfter x y b)) xs ss h),
      InOrder-map total xs ss hs,
    )

    -- What the first three of the sorted scores say of the ranking made of them.
    ranking-IsTop :
        (total : F) (scores : Dict F)
        → AreScored scores
        → AreAll (nx.nodes g) scores
        → IsTop (map (cause_of nx total onset_s) (take 3 (sorted (ranks_before nx onset_s) scores)))
    ranking-IsTop total scores scored all =
        let before = ranks_before nx onset_s in
        let ranked = sorted before scores in
        let top = take 3 ranked in
        let in_order : IsSorted before ranked =
          sorted-IsSorted before (ranks_before_asym o nx onset_s) (ranks_before_trans o nx onset_s)
            scores in
        let top_scored : AreScored top = All-take _ 3 ranked (All-sorted before _ scores scored) in
        record {
          in_order = InOrder-map total top top_scored (IsSorted-take before 3 ranked in_order);
          complete = λ n sc m s pos.
              elim (take-IsSorted before 3 ranked in_order (n, sc)
                (In-sorted before (n, sc) scores (all n sc m s pos))) [
                  | inl kept ↦ inl (
                      In-map (λ (c : RootCause F). c.pod) _ _
                        (In-map (cause_of nx total onset_s) _ top kept))
                  | inr (full, later) ↦ inr (
                    length-map (cause_of nx total onset_s) top ∙ full,
                    All-of_map (λ c. Precedes c.pod n) (cause_of nx total onset_s) top
                        (All-zip
                          (λ y s' b.
                            NotAfter-Precedes y (n, sc) s' s (ranks_before-NotAfter y (n, sc) b))
                          top top_scored later),
                  )
                ];
          shares = (
            total,
            All-of_map _ (cause_of nx total onset_s) top (
                All-map (λ y s a t. ap (λ z. round 3 (z ⊘ total)) (Scores-unique y.0 y.1 a s t)) top
                  top_scored),
          );
        }

    -- A ranking of a graph with edges is in order: of two entries the first has the higher
    -- score, or as high a one and an onset that is not later, where a node without an onset is
    -- later than any with one. A node with a positive score is in it, or the ranking has three
    -- entries and each of them is before that node in this order. The scores shown are the
    -- rounded shares of one total. The order obeys `IsOrdered`, and negation reverses it.
    pub rank_root_causes-IsTop :
        (ranking : List (RootCause F))
        → (nx.number_of_edges g == 0) ≡ false
        → rank_root_causes nx g fuel seeds onset_s ≡ some ranking
        → IsTop ranking
    unfolding rank_root_causes
    rank_root_causes-IsTop ranking e h =
        elim (Option-cases (score_nodes nx g fuel (in_seeds nx g seeds) (nx.nodes g))) [
          | inl s ↦ absurd (ground (arith, e, s, h))
          | inr (scores, s) ↦
              let total = total_of nx (lit 0 0) scores in
              let q : map (cause_of nx total onset_s)
                    (take 3 (sorted (ranks_before nx onset_s) scores))
                  ≡ ranking =
                ground (arith, e, s, h) in
              let (scored, all) = score_nodes-lem (nx.nodes g) scores s in
              subst IsTop q (ranking-IsTop total scores scored all)
        ]
