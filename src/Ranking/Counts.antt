-- ===== src/Ranking/Counts.antt =====
-- Counts that the loop of `blast_radius` in correlation/engine/ranking.py is measured by: how often a
-- name stands among the victims, and how many nodes are not seen yet.
use abb_accelerator_aiops.Prelude.{
  ℕ, ◌+◌, ◌≤◌, ◌≡◌, refl, sym, ap, ◌∙◌, Bool, true, false, String, str_eq, str_eq_iff, List, [],
  ◌∷◌, ◌++◌, map, arith, length, has, sorted, insert, Bool-cases, inl, inr, if◌then◌else◌,
}
use abb_accelerator_aiops.Graph.{Impact}

-- How often a name stands in a list.
abbrev pub count : String → List String → ℕ
count p [] = 0
count p (x ∷ xs) = (if str_eq x p then 1 else 0) + count p xs

pub count-append : (p : String) (xs ys : List String) → count p (xs ++ ys) ≡ count p xs + count p ys
count-append p [] ys = omega arith
count-append p (x ∷ xs) ys = omega (arith, count-append p xs ys)

pub count_of_not_has :
    (p x : String) (xs : List String) → has x xs ≡ false → str_eq x p ≡ true → count p xs ≡ 0
count_of_not_has p x [] h e = refl
count_of_not_has p x (y ∷ ys) h e =
    ground (arith, count_of_not_has p x ys, str_eq_iff x p, str_eq_iff y p, str_eq_iff x y)

module _ {F : Type 0} where
  abbrev pub pods : List (Impact F) → List String
  pods out = map (λ (d : Impact F). d.pod) out

  pub pods-append :
      (out : List (Impact F)) (d : Impact F) → pods (out ++ d ∷ []) ≡ pods out ++ d.pod ∷ []
  pods-append [] d = refl
  pods-append (x ∷ out) d = ap (◌∷◌ x.pod) (pods-append out d)

  module _ (before : Impact F → Impact F → Bool) (p : String) where
    count-insert :
        (d : Impact F) (out : List (Impact F))
        → count p (pods (insert before d out)) ≡ count p (d.pod ∷ []) + count p (pods out)
    unfolding insert
    count-insert d [] = omega arith
    count-insert d (x ∷ out) = elim (Bool-cases (before x d)) [
      | inl e ↦ rw e (omega (arith, count-insert d out))
      | inr e ↦ rw e (omega arith)
    ]

    pub count-sorted :
        (out : List (Impact F)) → count p (pods (sorted before out)) ≡ count p (pods out)
    unfolding sorted
    count-sorted [] = refl
    count-sorted (d ∷ out) = omega (arith, count-insert d (sorted before out), count-sorted out)

-- The nodes that are not seen yet.
abbrev pub unseen : List String → List String → ℕ
unseen seen [] = 0
unseen seen (x ∷ nodes) = (if has x seen then 0 else 1) + unseen seen nodes

unseen_mono : (x : String) (seen nodes : List String) → unseen (x ∷ seen) nodes ≤ unseen seen nodes
unseen_mono x seen [] = omega arith
unseen_mono x seen (y ∷ nodes) = ground (arith, unseen_mono x seen nodes)

pub unseen-cons :
    (x : String) (seen nodes : List String)
    → has x nodes ≡ true
    → has x seen ≡ false
    → unseen (x ∷ seen) nodes + 1 ≤ unseen seen nodes
unseen-cons x seen [] h k = cc
unseen-cons x seen (y ∷ nodes) h k = elim (Bool-cases (str_eq x y)) [
  | inl e ↦
      let p = (str_eq_iff x y).0 e in
      let same : has y seen ≡ false = sym (ap (λ z. has z seen) p) ∙ k in
      ground (arith, unseen_mono x seen nodes, (str_eq_iff y x).1 (sym p))
  | inr e ↦ ground (arith, unseen-cons x seen nodes)
]

pub unseen-le : (seen nodes : List String) → unseen seen nodes ≤ length nodes
unseen-le seen [] = omega arith
unseen-le seen (y ∷ nodes) = ground (arith, unseen-le seen nodes)
