-- ===== src/Float/Laws.antt =====
-- What the proofs use of the doubles without NaN: the order, and how the rounded operations respect
-- it. Rounding to nearest is monotone and fixes every double, and each law below follows from that.
-- No law says that an operation is exact, commutative or associative.
use abb_accelerator_aiops.Prelude.{◌≡◌, ◌⊎◌, true, false, not, arith}
use abb_accelerator_aiops.Float.{Float, lit, ◌⊕◌, ◌⊖◌, ◌⊗◌, le, lt, max}

infix 4 ◌≼◌ ◌≺◌
abbrev pub ◌≼◌ : {F : Type 0} ⦃f : Float F⦄ → F → F → Type 0
x ≼ y = le x y ≡ true

abbrev pub ◌≺◌ : {F : Type 0} ⦃f : Float F⦄ → F → F → Type 0
x ≺ y = lt x y ≡ true

pub record IsOrdered (F : Type 0) ⦃f : Float F⦄ : Type 0 where
  pub le_refl : (x : F) → x ≼ x
  pub le_trans : (x y z : F) → x ≼ y → y ≼ z → x ≼ z
  pub le_total : (x y : F) → (x ≼ y) ⊎ (y ≼ x)
  pub lt-eq-not-le : (x y : F) → lt x y ≡ not (le y x)

-- The unit interval: 0 and 1 are exact, and rounding does not leave it.
pub record IsRounded (F : Type 0) ⦃f : Float F⦄ : Type 0 where
  pub zero-le-one : le {F = F} (lit 0 0) (lit 1 0) ≡ true
  pub mul_mono_left : (x y z : F) → lit 0 0 ≼ z → x ≼ y → x ⊗ z ≼ y ⊗ z
  pub mul_nonneg : (x y : F) → lit 0 0 ≼ x → lit 0 0 ≼ y → lit 0 0 ≼ x ⊗ y
  pub mul-le_left : (x y : F) → lit 0 0 ≼ x → y ≼ lit 1 0 → x ⊗ y ≼ x
  pub mul-le_right : (x y : F) → lit 0 0 ≼ y → x ≼ lit 1 0 → x ⊗ y ≼ y
  pub sub_nonneg : (x y : F) → y ≼ x → lit 0 0 ≼ x ⊖ y
  pub sub-le : (x y : F) → lit 0 0 ≼ y → x ⊖ y ≼ x
  pub le-add : (x y : F) → lit 0 0 ≼ y → x ≼ x ⊕ y
  pub add_mono_right : (x y z : F) → y ≼ z → x ⊕ y ≼ x ⊕ z
  pub add_mono_left : (x y z : F) → y ≼ z → y ⊕ x ≼ z ⊕ x
  -- For 0 ≤ x ≤ 1 the rounded 1 - x is off by at most 2^-54, and 1 + 2^-54 rounds to 1.
  pub complement : (x : F) → lit 0 0 ≼ x → x ≼ lit 1 0 → x ⊕ (lit 1 0 ⊖ x) ≼ lit 1 0

module _ {F : Type 0} ⦃f : Float F⦄ (o : IsOrdered F) where
  pub le_of_lt : (x y : F) → x ≺ y → x ≼ y
  le_of_lt x y h = ground (arith, o.lt-eq-not-le x y, o.le_total x y)

  pub le_of_not-lt : (x y : F) → lt x y ≡ false → y ≼ x
  le_of_not-lt x y h = ground (arith, o.lt-eq-not-le x y)

  pub lt_irrefl : (x : F) → lt x x ≡ false
  lt_irrefl x = ground (arith, o.lt-eq-not-le x x, o.le_refl x)

  pub lt_asym : (x y : F) → x ≺ y → lt y x ≡ false
  lt_asym x y h = ground (arith, o.lt-eq-not-le x y, o.lt-eq-not-le y x, o.le_total x y)

  pub not-lt_trans : (x y z : F) → lt y x ≡ false → lt z y ≡ false → lt z x ≡ false
  not-lt_trans x y z h k =
      ground (arith, o.lt-eq-not-le y x, o.lt-eq-not-le z y, o.lt-eq-not-le z x, o.le_trans x y z)

  pub lt_of_lt_of_le : (x y z : F) → x ≺ y → y ≼ z → x ≺ z
  lt_of_lt_of_le x y z h k =
      ground (arith, o.lt-eq-not-le x y, o.lt-eq-not-le x z, o.le_trans y z x)

  pub lt_of_le_of_lt : (x y z : F) → x ≼ y → y ≺ z → x ≺ z
  lt_of_le_of_lt x y z h k =
      ground (arith, o.lt-eq-not-le y z, o.lt-eq-not-le x z, o.le_trans z x y)

  pub le-max_left : (x y : F) → x ≼ max x y
  unfolding max
  le-max_left x y = ground (arith, o.le_refl x, le_of_lt x y)

  pub le-max_right : (x y : F) → y ≼ max x y
  unfolding max
  le-max_right x y = ground (arith, o.le_refl y, le_of_not-lt x y)

  pub max-le : (x y z : F) → x ≼ z → y ≼ z → max x y ≼ z
  unfolding max
  max-le x y z h k = ground arith
