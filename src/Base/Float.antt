-- ===== src/Base/Float.antt =====
-- The float64 arithmetic of Go, which is no code of the repository: a number is its pattern, and the
-- operations are given, with the rounding that they have.
use unet.Base.{ℕ, ◌+◌, ◌-◌, ◌*◌, ◌^◌, ◌≤◌, ◌<◌, ◌≡◌, Bool, true, false}
use unet.Base.Int.{ℤ, pos}

-- The operations: of an integer, the four of arithmetic, `<`, `<=`, and the conversion to `int64`,
-- as its pattern.
pub record Float64 : Type 0 where
  pub of : ℤ → ℕ
  pub add : ℕ → ℕ → ℕ
  pub sub : ℕ → ℕ → ℕ
  pub mul : ℕ → ℕ → ℕ
  pub div : ℕ → ℕ → ℕ
  pub less : ℕ → ℕ → Bool
  pub leq : ℕ → ℕ → Bool
  pub int64 : ℕ → ℕ

-- IEEE 754 of the non-negative numbers: the order is transitive, rounding keeps the order of exact
-- results, and is exact on integers up to 2^53. `NaN` is not in the order.
pub record IsRounding (fl : Float64) : Type 0 where
  pub leq_trans : {x y z : ℕ} → fl.leq x y ≡ true → fl.leq y z ≡ true → fl.leq x z ≡ true
  pub less_trans : {x y z : ℕ} → fl.less x y ≡ true → fl.leq y z ≡ true → fl.less x z ≡ true
  pub not_less :
      {x y a b : ℕ}
      → fl.leq a x ≡ true
      → fl.leq b y ≡ true
      → fl.less x y ≡ false
      → fl.leq y x ≡ true
  pub of_mono : (m n : ℕ) → m ≤ n → fl.leq (fl.of (pos m)) (fl.of (pos n)) ≡ true
  pub of_less : (m n : ℕ) → m < n → n ≤ 2 ^ 53 → fl.less (fl.of (pos m)) (fl.of (pos n)) ≡ true
  pub of_not_less : (m n : ℕ) → n ≤ m → fl.less (fl.of (pos m)) (fl.of (pos n)) ≡ false
  pub add_mono :
      {x y a b : ℕ}
      → fl.leq (fl.of (pos 0)) a ≡ true
      → fl.leq (fl.of (pos 0)) b ≡ true
      → fl.leq a x ≡ true
      → fl.leq b y ≡ true
      → fl.leq (fl.add a b) (fl.add x y) ≡ true
  pub sub_mono :
      {x y : ℕ} (n : ℕ)
      → fl.leq x y ≡ true
      → n ≤ 2 ^ 53
      → fl.leq (fl.sub x (fl.of (pos n))) (fl.sub y (fl.of (pos n))) ≡ true
  pub mul_mono :
      {x y : ℕ} (n : ℕ)
      → fl.leq (fl.of (pos 0)) x ≡ true
      → fl.leq x y ≡ true
      → 0 < n
      → n ≤ 2 ^ 53
      → fl.leq (fl.mul x (fl.of (pos n))) (fl.mul y (fl.of (pos n))) ≡ true
  pub div_mono :
      {x y : ℕ} (n : ℕ)
      → fl.leq (fl.of (pos 0)) x ≡ true
      → fl.leq x y ≡ true
      → 0 < n
      → n ≤ 2 ^ 53
      → fl.leq (fl.div x (fl.of (pos n))) (fl.div y (fl.of (pos n))) ≡ true
  pub add_exact :
      (m n : ℕ) → m + n ≤ 2 ^ 53 → fl.add (fl.of (pos m)) (fl.of (pos n)) ≡ fl.of (pos (m + n))
  pub sub_exact :
      (m n : ℕ) → n ≤ m → m ≤ 2 ^ 53 → fl.sub (fl.of (pos m)) (fl.of (pos n)) ≡ fl.of (pos (m - n))
  pub mul_exact :
      (m n : ℕ) → m * n ≤ 2 ^ 53 → fl.mul (fl.of (pos m)) (fl.of (pos n)) ≡ fl.of (pos (m * n))
  pub div_exact :
      (m n : ℕ)
      → 0 < n
      → m * n ≤ 2 ^ 53
      → fl.div (fl.of (pos (m * n))) (fl.of (pos n)) ≡ fl.of (pos m)
