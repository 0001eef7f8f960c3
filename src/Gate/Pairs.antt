-- ===== src/Gate/Pairs.antt =====
-- Unordered pairs, as correlation/engine compares them by `frozenset`: to have the same two ends is an
-- equivalence, and the things between two given ends are one of its classes.
use abb_accelerator_aiops.Prelude.{
  ◌≡◌, sym, ◌∙◌, ◌⊎◌, ◌↔◌, Bool, true, false, String, str_eq_iff, arith, Bool-cases, inl, inr,
  or_iff,
}
use abb_accelerator_aiops.Prelude.Choice.{IsClass, IsRanked}
use abb_accelerator_aiops.Gate.{same_set, same_pair}

Joins : String → String → String × String → Type 0
Joins a b p = ((p.0 ≡ a) × (p.1 ≡ b)) ⊎ ((p.0 ≡ b) × (p.1 ≡ a))

same_set_iff : (a b : String) (p : String × String) → (same_set a b p ≡ true) ↔ Joins a b p
unfolding Joins
same_set_iff a b p =
    or_iff (same_pair a b p) (same_pair b a p)
      (
        λ h. ground (arith, str_eq_iff p.0 a, str_eq_iff p.1 b),
        λ h. ground (arith, str_eq_iff p.0 a, str_eq_iff p.1 b),
      )
      (
        λ h. ground (arith, str_eq_iff p.0 b, str_eq_iff p.1 a),
        λ h. ground (arith, str_eq_iff p.0 b, str_eq_iff p.1 a),
      )

-- Two pairs that join the same ends join each other's.
same_set_both :
    (a b : String) (p q : String × String)
    → same_set a b p ≡ true
    → same_set a b q ≡ true
    → same_set p.0 p.1 q ≡ true
unfolding Joins
same_set_both a b p q h k =
    (same_set_iff p.0 p.1 q).1 (ground (arith, (same_set_iff a b p).0 h, (same_set_iff a b q).0 k))

same_set_forth :
    (a b : String) (p q : String × String)
    → same_set p.0 p.1 q ≡ true
    → same_set a b p ≡ true
    → same_set a b q ≡ true
unfolding Joins
same_set_forth a b p q h k =
    (same_set_iff a b q).1 (ground (arith, (same_set_iff a b p).0 k, (same_set_iff p.0 p.1 q).0 h))

same_set_self : (p : String × String) → same_set p.0 p.1 p ≡ true
same_set_self p = ground (arith, str_eq_iff p.0 p.0, str_eq_iff p.1 p.1)

same_set_sym : (p q : String × String) → same_set p.0 p.1 q ≡ true → same_set q.0 q.1 p ≡ true
same_set_sym p q h = same_set_both p.0 p.1 q p h (same_set_self p)

same_set_eq :
    (a b : String) (p q : String × String)
    → same_set p.0 p.1 q ≡ true
    → same_set a b p ≡ same_set a b q
same_set_eq a b p q s = elim (Bool-cases (same_set a b p)) [
  | inl h ↦ h ∙ sym (same_set_forth a b p q s h)
  | inr h ↦ elim (Bool-cases (same_set a b q)) [
    | inl k ↦ same_set_forth a b q p (same_set_sym p q s) k ∙ sym k
    | inr k ↦ h ∙ sym k
  ]
]

module _ {A : Type 0} (ends : A → String × String) where
  abbrev pub same_ends : A → A → Bool
  same_ends x c = same_set (ends x).0 (ends x).1 (ends c)

  -- The thing is between the two ends, in one direction or the other.
  abbrev pub between : String → String → A → Bool
  between a b x = same_set a b (ends x)

  pub between-IsClass : (a b : String) → IsClass same_ends (between a b)
  between-IsClass a b = record {
    respects = λ x c. same_set_eq a b (ends x) (ends c);
    joins = λ x c. same_set_both a b (ends x) (ends c);
  }

  pub same_ends-IsRanked :
      (better : A → A → Bool) (le : A → A → Type 0)
      → ((x : A) → le x x)
      → ((x y z : A) → le x y → le y z → le x z)
      → ((x c : A) → better x c ≡ true → le c x)
      → ((x c : A) → better x c ≡ false → le x c)
      → IsRanked same_ends better le
  same_ends-IsRanked better le le_refl le_trans over under = record {
    same_refl = λ x. same_set_self (ends x);
    same_trans = λ x y z h k. same_set_forth (ends x).0 (ends x).1 (ends y) (ends z) k h;
    same_sym = λ x y. same_set_sym (ends x) (ends y);
    le_refl = le_refl;
    le_trans = le_trans;
    le_of_better = over;
    le_of_worse = under;
  }
