-- ===== src/Prelude/Choice.antt =====
-- One element for each class: a dict keyed by the class, whose entry a better element replaces.
use Prim.Native.Nat.{ℕ, ◌+◌, ◌≤◌}
use mathlib.Core.Path.{◌≡◌, refl, sym, ap, subst}
use mathlib.Core.Logic.{inl, inr}
use mathlib.Core.Bool.{Bool, true, false}
use mathlib.Core.List.{List, [], ◌∷◌}
use native.Mathlib.Omega.{arith}
use abb_accelerator_aiops.Prelude.Tests.{if◌then◌else◌, Bool-cases, if_rule}
use abb_accelerator_aiops.Prelude.Sort.{insert, sorted}
use abb_accelerator_aiops.Prelude.Lists.{All, In}

module _ {A : Type 0} (same better : A → A → Bool) where
  -- `if key not in d or better(x, d[key]): d[key] = x`
  unfoldable pub choose : A → List A → List A
  choose x [] = x ∷ []
  choose x (c ∷ chosen) =
      if same x c then (if better x c then x else c) ∷ chosen else c ∷ choose x chosen

  unfoldable pub choose_all : List A → List A → List A
  unfolding choose
  choose_all [] chosen = chosen
  choose_all (x ∷ xs) chosen = choose_all xs (choose x chosen)

  choose-All :
      (P : A → Type 0) (x : A) (chosen : List A) → P x → All P chosen → All P (choose x chosen)
  unfolding choose
  choose-All P x [] p _ = (p, tt)
  choose-All P x (c ∷ chosen) p (q, qs) =
      if_rule (All P) (same x c) (if_rule P (better x c) p q, qs) (q, choose-All P x chosen p qs)

  -- The choice is made among the elements.
  pub choose_all-All :
      (P : A → Type 0) (xs chosen : List A) → All P xs → All P chosen → All P (choose_all xs chosen)
  unfolding choose_all
  choose_all-All P [] chosen _ h = h
  choose_all-All P (x ∷ xs) chosen (p, ps) h =
      choose_all-All P xs (choose x chosen) ps (choose-All P x chosen p h)

-- How many elements pass a test.
abbrev pub count {ℓ} : {A : Type ℓ} → (A → Bool) → List A → ℕ
count q [] = 0
count q (x ∷ xs) = (if q x then 1 else 0) + count q xs

count-insert :
    {A : Type 0} (before : A → A → Bool) (c : A → Bool) (x : A) (xs : List A)
    → count c (insert before x xs) ≡ (if c x then 1 else 0) + count c xs
unfolding insert
count-insert before c x [] = refl
count-insert before c x (y ∷ ys) = ground (arith, count-insert before c x ys)

pub count-sorted :
    {A : Type 0} (before : A → A → Bool) (c : A → Bool) (xs : List A)
    → count c (sorted before xs) ≡ count c xs
unfolding sorted
count-sorted before c [] = refl
count-sorted before c (x ∷ xs) =
    ground (arith, count-insert before c x (sorted before xs), count-sorted before c xs)

-- A class of the relation: all or none of two related elements are in it, and any two in it are related.
pub record IsClass {A : Type 0} (same : A → A → Bool) (q : A → Bool) : Type 0 where
  pub respects : (x c : A) → same x c ≡ true → q x ≡ q c
  pub joins : (x c : A) → q x ≡ true → q c ≡ true → same x c ≡ true

module _ {A : Type 0} (same better : A → A → Bool) (q : A → Bool) (cls : IsClass same q) where
  count-choose_other :
      (x : A) (chosen : List A)
      → q x ≡ false
      → count q (choose same better x chosen) ≡ count q chosen
  unfolding choose
  count-choose_other x [] h = rw h
  count-choose_other x (c ∷ chosen) h = elim (Bool-cases (same x c)) [
    | inl s ↦ rw s (
        if_rule (λ y. count q (y ∷ chosen) ≡ count q (c ∷ chosen)) (better x c)
          (ap (λ t. (if t then 1 else 0) + count q chosen) (cls.respects x c s)) refl)
    | inr s ↦ rw s (ap (λ n. (if q c then 1 else 0) + n) (count-choose_other x chosen h))
  ]

  count-choose :
      (x : A) (chosen : List A) → count q chosen ≤ 1 → count q (choose same better x chosen) ≤ 1
  unfolding choose
  count-choose x [] h = ground arith
  count-choose x (c ∷ chosen) h = elim (Bool-cases (q x)) [
    | inl inside ↦ ground (arith, count-choose x chosen, cls.respects x c, cls.joins x c inside)
    | inr outside ↦ subst (λ n. n ≤ 1) (sym (count-choose_other x (c ∷ chosen) outside)) h
  ]

  -- At most one element of a class is chosen.
  pub count-choose_all :
      (xs chosen : List A) → count q chosen ≤ 1 → count q (choose_all same better xs chosen) ≤ 1
  unfolding choose_all
  count-choose_all [] chosen h = h
  count-choose_all (x ∷ xs) chosen h =
      count-choose_all xs (choose same better x chosen) (count-choose x chosen h)

-- The relation is an equivalence, and `better` is the strict part of a total order `le`.
pub record IsRanked {A : Type 0} (same better : A → A → Bool) (le : A → A → Type 0) : Type 0 where
  pub same_refl : (x : A) → same x x ≡ true
  pub same_trans : (x y z : A) → same x y ≡ true → same y z ≡ true → same x z ≡ true
  pub same_sym : (x y : A) → same x y ≡ true → same y x ≡ true
  pub le_refl : (x : A) → le x x
  pub le_trans : (x y z : A) → le x y → le y z → le x z
  pub le_of_better : (x c : A) → better x c ≡ true → le c x
  pub le_of_worse : (x c : A) → better x c ≡ false → le x c

module _ {A : Type 0} (same better : A → A → Bool) (le : A → A → Type 0)
    (r : IsRanked same better le) where
  -- An element of the same class that is at least as good stands in the list.
  abbrev pub Covers : List A → A → Type 0
  Covers chosen x = (best : A) × In best chosen × (same x best ≡ true) × le x best

  Covers-cons : (x c : A) (chosen : List A) → Covers chosen x → Covers (c ∷ chosen) x
  Covers-cons x c chosen (best, m, s, l) = (best, inr m, s, l)

  choose-Covers : (x : A) (chosen : List A) → Covers (choose same better x chosen) x
  unfolding choose
  choose-Covers x [] = (x, inl refl, r.same_refl x, r.le_refl x)
  choose-Covers x (c ∷ chosen) = elim (Bool-cases (same x c)) [
    | inl s ↦ elim (Bool-cases (better x c)) [
      | inl b ↦ rw (s, b) (x, inl refl, r.same_refl x, r.le_refl x)
      | inr b ↦ rw (s, b) (c, inl refl, s, r.le_of_worse x c b)
    ]
    | inr s ↦ rw s (Covers-cons x c (choose same better x chosen) (choose-Covers x chosen))
  ]

  choose-keeps :
      (x y : A) (chosen : List A) → Covers chosen y → Covers (choose same better x chosen) y
  unfolding choose
  choose-keeps x y [] (best, m, _, _) = elim m [ ]
  choose-keeps x y (c ∷ chosen) (best, m, s, l) = elim (Bool-cases (same x c)) [
    | inl e ↦ elim m [
      | inl h ↦
          let sc = subst (λ t. same y t ≡ true) h s in
          let lc = subst (le y) h l in
          elim (Bool-cases (better x c)) [
            | inl b ↦
                rw (e, b)
                  (
                    x,
                    inl refl,
                    r.same_trans y c x sc (r.same_sym x c e),
                    r.le_trans y c x lc (r.le_of_better x c b),
                  )
            | inr b ↦ rw (e, b) (c, inl refl, sc, lc)
          ]
      | inr h ↦ rw e (best, inr h, s, l)
    ]
    | inr e ↦ elim m [
      | inl h ↦ rw e (best, inl h, s, l)
      | inr h ↦
          rw e (
            Covers-cons y c (choose same better x chosen) (choose-keeps x y chosen (best, h, s, l)))
    ]
  ]

  choose_all-keeps :
      (y : A) (xs chosen : List A) → Covers chosen y → Covers (choose_all same better xs chosen) y
  unfolding choose_all
  choose_all-keeps y [] chosen h = h
  choose_all-keeps y (x ∷ xs) chosen h =
      choose_all-keeps y xs (choose same better x chosen) (choose-keeps x y chosen h)

  -- Every element is matched by a chosen one of its class that is at least as good.
  pub choose_all-Covers : (xs chosen : List A) → All (Covers (choose_all same better xs chosen)) xs
  unfolding choose_all
  choose_all-Covers [] chosen = tt
  choose_all-Covers (x ∷ xs) chosen = (
    choose_all-keeps x xs (choose same better x chosen) (choose-Covers x chosen),
    choose_all-Covers xs (choose same better x chosen),
  )
