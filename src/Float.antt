-- ===== src/Float.antt =====
-- The arithmetic of Python's floats, as the engine uses it. The carrier and the operations are
-- parameters of the model: `lit m e` is the double nearest to m / 10^e, as a literal of the source
-- denotes it, and each operation is the rounded operation of IEEE 754. The values are the doubles
-- without NaN: the code replaces NaN where it reads samples (`nan_to_num`) and correlations
-- (`np.isnan`).
pub mod Laws
pub mod Milli
use abb_accelerator_aiops.Prelude.{ℕ, Bool, if◌then◌else◌}

pub record Float (F : Type 0) : Type 0 where
  pub lit : ℕ → ℕ → F
  pub add : F → F → F
  pub sub : F → F → F
  pub mul : F → F → F
  pub div : F → F → F
  pub neg : F → F
  pub le : F → F → Bool
  pub lt : F → F → Bool
  -- `round(x, n)`
  pub round : ℕ → F → F

module _ {F : Type 0} ⦃f : Float F⦄ where
  abbrev pub lit : ℕ → ℕ → F
  lit = f.lit

  infixl 65 ◌⊕◌ ◌⊖◌
  infixl 70 ◌⊗◌ ◌⊘◌
  abbrev pub ◌⊕◌ : F → F → F
  ◌⊕◌ = f.add

  abbrev pub ◌⊖◌ : F → F → F
  ◌⊖◌ = f.sub

  abbrev pub ◌⊗◌ : F → F → F
  ◌⊗◌ = f.mul

  abbrev pub ◌⊘◌ : F → F → F
  ◌⊘◌ = f.div

  abbrev pub neg : F → F
  neg = f.neg

  -- `a <= b` and `a < b`, as tests.
  abbrev pub le : F → F → Bool
  le = f.le

  abbrev pub lt : F → F → Bool
  lt = f.lt

  abbrev pub round : ℕ → F → F
  round = f.round

  -- `abs(x)`
  unfoldable pub abs : F → F
  abs x = if f.lt x (f.lit 0 0) then f.neg x else x

  -- `max(a, b)` and `min(a, b)`: the first argument unless the second is strictly better.
  unfoldable pub max : F → F → F
  max a b = if f.lt a b then b else a

  unfoldable pub min : F → F → F
  min a b = if f.lt b a then b else a
