-- ===== src/Lifecycle/Prober/Streaks.antt =====
-- When the prober of src/internal/lifecycle/health/prober.go calls for a reconnection.
use unet.Base.{
  ℕ, zero, suc, ◌+◌, ◌%◌, ◌<◌, ◌≡◌, refl, sym, ap, ◌∙◌, Bool, true, ◌&&◌, ◌⊎◌, inl, inr, List, [],
  ◌∷◌, arith, ltb, ◌==◌, if◌then◌else◌, Bool-cases,
}
use native.Mathlib.Nat.{mod-lt, suc-mod, mod_self, mod-eq_of_lt, zero-mod}
use native.Mathlib.Numerals.{unary_clauses}
use unet.Lifecycle.Prober.{HealthSnapshot, ProberConfig, Prober, new_prober, process_snapshot, run}

-- The failures up to now since the host was last reached.
unfoldable pub streak : ℕ → HealthSnapshot → ℕ
streak n s = if s.vps_reachable then 0 else n + 1

-- A call is due at each full `t` failures in a row.
unfoldable pub is_due : ℕ → ℕ → Bool
is_due zero n = true
is_due (suc t) n = ltb 0 n && (n % suc t == 0)

unfoldable pub due : ℕ → ℕ → List HealthSnapshot → List Bool
due t n [] = []
due t n (s ∷ ss) = is_due t (streak n s) ∷ due t (streak n s) ss

-- A remainder either comes back to 0 or grows by one.
mod_step :
    (n t : ℕ)
    → ((n % suc t ≡ t) × ((n + 1) % suc t ≡ 0))
      ⊎ ((n % suc t < t) × ((n + 1) % suc t ≡ n % suc t + 1))
mod_step n t =
    let below = mod-lt n {m = suc t} (omega arith) in
    let next : (n + 1) % suc t ≡ (n % suc t + 1) % suc t = simp unary_clauses (suc-mod n (suc t)) in
    elim (Bool-cases (n % suc t == t)) [
      | inl e ↦
          let e' : n % suc t ≡ t = ground (arith, e) in
          let back : (n % suc t + 1) % suc t ≡ (t + 1) % suc t = ap (λ x. (x + 1) % suc t) e' in
          inl (e', next ∙ back ∙ simp unary_clauses (mod_self (suc t)))
      | inr e ↦
          let lt : n % suc t < t = ground (arith, e, below) in
          let small : n % suc t + 1 < suc t = omega (arith, lt) in
          inr (lt, next ∙ mod-eq_of_lt small)
    ]

process_snapshot-streak :
    (s : HealthSnapshot) (p : Prober) (n t : ℕ)
    → p.has_on_reconnect ≡ true
    → p.cfg.failure_threshold ≡ suc t
    → p.consecutive_fail ≡ n % suc t
    → ((process_snapshot s p).0.consecutive_fail ≡ streak n s % suc t)
      × ((process_snapshot s p).1 ≡ is_due (suc t) (streak n s))
      × ((process_snapshot s p).0.has_on_reconnect ≡ true)
      × ((process_snapshot s p).0.cfg.failure_threshold ≡ suc t)
unfolding process_snapshot streak is_due
process_snapshot-streak s p n t c f e =
    let z = zero-mod (suc t) in
    elim (Bool-cases s.vps_reachable) [
      | inl u ↦ (ground arith, ground arith, ground arith, ground arith)
      | inr u ↦ elim (mod_step n t) [
        | inl (a, b) ↦ (ground arith, ground arith, ground arith, ground arith)
        | inr (a, b) ↦ (ground arith, ground arith, ground arith, ground arith)
      ]
    ]

run-due :
    (ss : List HealthSnapshot) (p : Prober) (n t : ℕ)
    → p.has_on_reconnect ≡ true
    → p.cfg.failure_threshold ≡ suc t
    → p.consecutive_fail ≡ n % suc t
    → (run ss p).1 ≡ due (suc t) n ss
unfolding run due
run-due [] p n t c f e = refl
run-due (s ∷ ss) p n t c f e =
    let (e', d, c', f') = process_snapshot-streak s p n t c f e in
    let rest = run-due ss (process_snapshot s p).0 (streak n s) t c' f' e' in rw (d, rest) refl

-- A new prober with a threshold above 0 and a callback calls for a reconnection at exactly those
-- probes that complete a multiple of the threshold of failures in a row since the host was last
-- reached.
pub run-new_prober :
    (c : ProberConfig) (t : ℕ) (ss : List HealthSnapshot)
    → c.failure_threshold ≡ suc t
    → (run ss (new_prober c true)).1 ≡ due (suc t) 0 ss
unfolding new_prober
run-new_prober c t ss e =
    run-due ss (new_prober c true) 0 t refl (ground arith) (sym (zero-mod (suc t)))
