-- ===== src/Base/Sample.antt =====
-- A float64 arithmetic to run the models with: whole numbers, with a quotient that is rounded down.
use native.Mathlib.Nat.{mul-le-mul_right, mul-div_cancel, le-div_iff_mul-le, div-mul-le_self}
use unet.Base.{ℕ, ◌+◌, ◌-◌, ◌*◌, ◌/◌, ◌≤◌, ◌<◌, ◌≡◌, refl, true, arith, ltb, leb}
use unet.Base.Int.{pos_part}
use unet.Base.Float.{Float64, IsRounding}

abbrev pub whole : Float64
whole = record {
  of = pos_part;
  add = λ x y. x + y;
  sub = λ x y. x - y;
  mul = λ x y. x * y;
  div = λ x y. x / y;
  less = ltb;
  leq = leb;
  int64 = λ x. x;
}

le→leb : (m n : ℕ) → m ≤ n → leb m n ≡ true
le→leb m n h = ground arith

leb→le : (m n : ℕ) → leb m n ≡ true → m ≤ n
leb→le m n h = ground arith

div_mono : (x y n : ℕ) → 0 < n → x ≤ y → x / n ≤ y / n
div_mono x y n k h = let q = div-mul-le_self x n in (le-div_iff_mul-le k).1 (omega (arith, q, h))

pub whole-IsRounding : IsRounding whole
whole-IsRounding = record {
  leq_trans = λ p q. ground arith;
  less_trans = λ p q. ground arith;
  not_less = λ p q h. ground arith;
  of_mono = λ m n h. ground arith;
  of_less = λ m n h k. ground arith;
  of_not_less = λ m n h. ground arith;
  add_mono = λ {x} {y} {a} {b} z0 z1 p q. ground arith;
  sub_mono = λ {x} {y} n p q. ground arith;
  mul_mono = λ {x} {y} n z p k q. le→leb (x * n) (y * n) (mul-le-mul_right n (leb→le x y p));
  div_mono = λ {x} {y} n z p k q. le→leb (x / n) (y / n) (div_mono x y n k (leb→le x y p));
  add_exact = λ m n h. refl;
  sub_exact = λ m n h k. refl;
  mul_exact = λ m n h. refl;
  div_exact = λ m n h k. mul-div_cancel m h;
}
