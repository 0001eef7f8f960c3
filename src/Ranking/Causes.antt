-- ===== src/Ranking/Causes.antt =====
-- What `rank_root_causes` of correlation/engine/ranking.py ranks.
use abb_accelerator_aiops.Prelude.{
  All-take, length-take, length-map, All-of_map, ℕ, ◌≤◌, ◌≡◌, refl, sym, Bool, true, String, some,
  List, [], ◌∷◌, map, arith, length, take, All, All-map, All-sorted, In, sorted, Dict, get, ◌==◌,
  Bool-cases, Option-cases, inl, inr,
}
use mathlib.Core.Path.{subst}
use abb_accelerator_aiops.Float.{Float, lit, lt}
use abb_accelerator_aiops.Graph.{RootCause}
use abb_accelerator_aiops.Ranking.{
  DiGraph, forward_impact, explain, score_nodes, in_seeds, total_of, cause_of, ranks_before,
  rank_root_causes,
}

module _ {F : Type 0} ⦃f : Float F⦄ (nx : DiGraph F) (g : nx.Graph) (fuel : ℕ)
    (is_seed : String → Bool) where
  -- The node explains a positive part of the symptoms by what it reaches.
  abbrev pub Explains : String → Type 0
  Explains n =
      (imp : Dict F) × (forward_impact nx g fuel n ≡ some imp)
      × (lt (lit 0 0) (explain nx g is_seed n imp) ≡ true)

  abbrev Scored : List String → Dict F → Type 0
  Scored ns scores = All (λ (kv : String × F). In kv.0 ns × Explains kv.0) scores

  score_nodes-Explains :
      (ns : List String) (scores : Dict F)
      → score_nodes nx g fuel is_seed ns ≡ some scores
      → Scored ns scores
  unfolding score_nodes
  score_nodes-Explains [] scores h =
      let q : [] ≡ scores = ground (arith, h) in subst (Scored []) q tt
  score_nodes-Explains (n ∷ ns) scores h = elim (Option-cases (forward_impact nx g fuel n)) [
    | inl e ↦ absurd (ground (arith, e, h))
    | inr (imp, e) ↦ elim (Option-cases (score_nodes nx g fuel is_seed ns)) [
      | inl e' ↦ absurd (ground (arith, e, e', h))
      | inr (rest, e') ↦
          let later : Scored (n ∷ ns) rest =
            All-map (λ kv (m, x). (inr m, x)) rest (score_nodes-Explains ns rest e') in
          elim (Bool-cases (lt (lit 0 0) (explain nx g is_seed n imp))) [
            | inl p ↦
                let first : Dict F = (n, explain nx g is_seed n imp) ∷ rest in
                let q : first ≡ scores = ground (arith, e, e', p, h) in
                subst (Scored (n ∷ ns)) q ((inl refl, (imp, e, p)), later)
            | inr p ↦
                let q : rest ≡ scores = ground (arith, e, e', p, h) in
                subst (Scored (n ∷ ns)) q later
          ]
    ]
  ]

module _ {F : Type 0} ⦃f : Float F⦄ (nx : DiGraph F) (g : nx.Graph) (fuel : ℕ) (seeds : List String)
    (onset_s : Dict F) where
  -- What a ranking says of each of its root causes.
  abbrev pub IsCause : RootCause F → Type 0
  IsCause c =
      In c.pod (nx.nodes g)
      × Explains nx g fuel (in_seeds nx g seeds) c.pod
      × (c.onset_s ≡ get c.pod onset_s)

  abbrev IsRanking : List (RootCause F) → Type 0
  IsRanking ranking = (length ranking ≤ 3) × All IsCause ranking

  ranked :
      (total : F) (scores : Dict F)
      → Scored nx g fuel (in_seeds nx g seeds) (nx.nodes g) scores
      → IsRanking
          (map (cause_of nx total onset_s) (take 3 (sorted (ranks_before nx onset_s) scores)))
  ranked total scores h =
      let top = take 3 (sorted (ranks_before nx onset_s) scores) in
      (
        subst (λ n. n ≤ 3) (sym (length-map (cause_of nx total onset_s) top)) (length-take 3 _),
        All-of_map IsCause (cause_of nx total onset_s) top (
            All-map (λ kv (m, x). (m, x, refl)) top
              (All-take _ 3 _ (All-sorted (ranks_before nx onset_s) _ scores h))),
      )

  -- A result of `rank_root_causes` has at most three entries, and each is a node of the graph for
  -- which `_forward_impact` returns, whose explanation of the symptoms is positive, and it has
  -- the node's onset.
  pub rank_root_causes-IsCause :
      (ranking : List (RootCause F))
      → rank_root_causes nx g fuel seeds onset_s ≡ some ranking
      → (length ranking ≤ 3) × All IsCause ranking
  unfolding rank_root_causes
  rank_root_causes-IsCause ranking h = elim (Bool-cases (nx.number_of_edges g == 0)) [
    | inl e ↦ let q : [] ≡ ranking = ground (arith, e, h) in subst IsRanking q (omega arith, tt)
    | inr e ↦ elim (Option-cases (score_nodes nx g fuel (in_seeds nx g seeds) (nx.nodes g))) [
      | inl s ↦ absurd (ground (arith, e, s, h))
      | inr (scores, s) ↦
          let total = total_of nx (lit 0 0) scores in
          let q : map (cause_of nx total onset_s) (take 3 (sorted (ranks_before nx onset_s) scores))
              ≡ ranking =
            ground (arith, e, s, h) in
          subst IsRanking q (
            ranked total scores
              (score_nodes-Explains nx g fuel (in_seeds nx g seeds) (nx.nodes g) scores s))
    ]
  ]
