-- ===== src/Float/Milli.antt =====
-- The laws can be met: signed thousandths, each operation rounded towards zero.
use abb_accelerator_aiops.Prelude.{
  ℕ, suc, ◌+◌, ◌-◌, ◌*◌, ◌/◌, ◌^◌, ◌≤◌, ◌≡◌, refl, true, arith, ltb, leb, if◌then◌else◌,
}
use abb_accelerator_aiops.Float.{Float}
use abb_accelerator_aiops.Float.Laws.{IsOrdered, IsRounded}

-- `negsuc n` is -(n + 1).
pub data ℤ : Type 0 where
  pos : ℕ → ℤ
  negsuc : ℕ → ℤ

abbrev pub pos_part : ℤ → ℕ
pos_part (pos n) = n
pos_part (negsuc n) = 0

abbrev pub neg_part : ℤ → ℕ
neg_part (pos n) = 0
neg_part (negsuc n) = suc n

abbrev pub sub_ℕ : ℕ → ℕ → ℤ
sub_ℕ a b = if leb b a then pos (a - b) else negsuc (b - a - 1)

abbrev pub negate : ℤ → ℤ
negate a = sub_ℕ (neg_part a) (pos_part a)

abbrev pub add_ℤ : ℤ → ℤ → ℤ
add_ℤ a b = sub_ℕ (pos_part a + pos_part b) (neg_part a + neg_part b)

abbrev pub scaled_mul : ℤ → ℤ → ℤ
scaled_mul (pos a) (pos b) = pos (a * b / 1000)
scaled_mul (pos a) (negsuc b) = sub_ℕ 0 (a * suc b / 1000)
scaled_mul (negsuc a) (pos b) = sub_ℕ 0 (suc a * b / 1000)
scaled_mul (negsuc a) (negsuc b) = pos (suc a * suc b / 1000)

abbrev pub scaled_div : ℤ → ℤ → ℤ
scaled_div (pos a) (pos b) = pos (a * 1000 / b)
scaled_div (pos a) (negsuc b) = sub_ℕ 0 (a * 1000 / suc b)
scaled_div (negsuc a) (pos b) = sub_ℕ 0 (suc a * 1000 / b)
scaled_div (negsuc a) (negsuc b) = pos (suc a * 1000 / suc b)

instance abbrev pub milli : Float ℤ
milli = record {
  lit = λ m e. pos (m * 1000 / 10 ^ e);
  add = add_ℤ;
  sub = λ a b. add_ℤ a (negate b);
  mul = scaled_mul;
  div = scaled_div;
  neg = negate;
  le = λ a b. leb (pos_part a + neg_part b) (pos_part b + neg_part a);
  lt = λ a b. ltb (pos_part a + neg_part b) (pos_part b + neg_part a);
  round = λ n a. a;
}

pub milli-IsOrdered : IsOrdered ℤ
milli-IsOrdered = record {
  le_refl = λ x. ground arith;
  le_trans = λ x y z h k. ground arith;
  le_total = λ x y. ground arith;
  lt-eq-not-le = λ x y. ground arith;
}

abbrev Nonneg : ℤ → Type 0
Nonneg x = milli.le (pos 0) x ≡ true

abbrev Le : ℤ → ℤ → Type 0
Le x y = milli.le x y ≡ true

div_mono : (a b : ℕ) → a ≤ b → a / 1000 ≤ b / 1000
div_mono a b h = omega arith

mul_mono : (a b c : ℕ) → a ≤ b → a * c ≤ b * c
mul_mono a b c h = grind arith

scaled-le : (a b : ℕ) → b ≤ 1000 → a * b / 1000 ≤ a
scaled-le a b h = let m : a * b ≤ a * 1000 = grind arith in omega arith

milli_mul_mono : (x y z : ℤ) → Nonneg z → Le x y → Le (scaled_mul x z) (scaled_mul y z)
milli_mul_mono (pos a) (pos b) (pos c) h k = grind (arith, div_mono, mul_mono)
milli_mul_mono (pos a) (negsuc b) (pos c) h k = absurd (ground arith)
milli_mul_mono (negsuc a) (pos b) (pos c) h k = ground arith
milli_mul_mono (negsuc a) (negsuc b) (pos c) h k =
    ground (arith, div_mono (suc b * c) (suc a * c), mul_mono (suc b) (suc a) c)
milli_mul_mono x y (negsuc c) h k = absurd (ground arith)

milli_mul-Nonneg : (x y : ℤ) → Nonneg x → Nonneg y → Nonneg (scaled_mul x y)
milli_mul-Nonneg (pos a) (pos b) h k = ground arith
milli_mul-Nonneg (pos a) (negsuc b) h k = absurd (ground arith)
milli_mul-Nonneg (negsuc a) y h k = absurd (ground arith)

milli_mul_le : (x y : ℤ) → Nonneg x → Le y (pos 1000) → Le (scaled_mul x y) x
milli_mul_le (pos a) (pos b) h k = ground (arith, scaled-le a b)
milli_mul_le (pos a) (negsuc b) h k = ground arith
milli_mul_le (negsuc a) y h k = absurd (ground arith)

milli_mul_comm : (x y : ℤ) → scaled_mul x y ≡ scaled_mul y x
milli_mul_comm (pos a) (pos b) = grind arith
milli_mul_comm (pos a) (negsuc b) = grind arith
milli_mul_comm (negsuc a) (pos b) = grind arith
milli_mul_comm (negsuc a) (negsuc b) = grind arith

pub milli-IsRounded : IsRounded ℤ
milli-IsRounded = record {
  zero-le-one = refl;
  mul_mono_left = milli_mul_mono;
  mul_nonneg = milli_mul-Nonneg;
  mul-le_left = milli_mul_le;
  mul-le_right = λ x y h k. rw (milli_mul_comm x y) (milli_mul_le y x h k);
  sub_nonneg = λ x y h. ground arith;
  sub-le = λ x y h. ground arith;
  le-add = λ x y h. ground arith;
  add_mono_right = λ x y z h. ground arith;
  add_mono_left = λ x y z h. ground arith;
  complement = λ x h k. ground arith;
}

pub milli_flips : (a b : ℤ) → milli.lt (negate a) (negate b) ≡ milli.lt b a
milli_flips (pos a) (pos b) = ground arith
milli_flips (pos a) (negsuc b) = ground arith
milli_flips (negsuc a) (pos b) = ground arith
milli_flips (negsuc a) (negsuc b) = ground arith
