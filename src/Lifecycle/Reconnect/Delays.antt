-- ===== src/Lifecycle/Reconnect/Delays.antt =====
-- The delays of src/internal/lifecycle/health/reconnect.go: the doubling, its cap, and where the
-- 64-bit product gives out.
use unet.Base.{ℕ, zero, suc, ◌+◌, ◌-◌, ◌*◌, ◌^◌, ◌≤◌, ◌≡◌, refl, ap, ◌∙◌, arith, min}
use native.Mathlib.Nat.{pow-le-pow_right, pow-suc}
use unet.Lifecycle.Reconnect.{backoff_initial, backoff_cap, duration_of_power, base_delay}

-- Two seconds doubled with each attempt, a minute at most.
abbrev pub doubling : ℕ → ℕ
doubling n = min backoff_cap (backoff_initial * 2 ^ (n - 1))

pow_bound : (k : ℕ) → k ≤ 32 → 2 ^ k ≤ 2 ^ 32
pow_bound k h = pow-le-pow_right (omega arith) h

pow_split : (k j : ℕ) → k ≡ 54 + j → 2 ^ k ≡ 2 ^ 54 * 2 ^ j
pow_split k zero e = ap (λ x. 2 ^ x) (let e' : k ≡ 54 = omega (arith, e) in e')
pow_split k (suc j) e =
    let e' : k ≡ suc (54 + j) = omega (arith, e) in
    let a = ap (λ x. 2 ^ x) e' ∙ pow-suc 2 (54 + j) in
    let b = pow_split (54 + j) j refl in let c = pow-suc 2 j in omega (arith, a, b, c)

-- From the first failed attempt to the 33rd, the delay before the jitter is two seconds doubled
-- with each attempt, or a minute if that is less: the 64-bit product does not overflow.
pub base_delay-doubling : (large : ℕ → ℕ) (n : ℕ) → 1 ≤ n → n ≤ 33 → base_delay large n ≡ doubling n
unfolding base_delay duration_of_power
base_delay-doubling large n lo h = let b = pow_bound (n - 1) (omega (arith, h)) in ground (arith, b)

pub base_delay-vanishes : (large : ℕ → ℕ) (n : ℕ) → 55 ≤ n → n ≤ 63 → base_delay large n ≡ 0
unfolding base_delay duration_of_power
base_delay-vanishes large n lo hi =
    let split : 2 ^ (n - 1) ≡ 2 ^ 54 * 2 ^ (n - 55) =
      pow_split (n - 1) (n - 55) (omega (arith, lo)) in
    ground (arith, split)
