-- ===== src/Tray/State/Digits.antt =====
-- `itoa2` of src/internal/traylogic/state.go prints a number in decimal.
use unet.Base.{
  ℕ, zero, suc, ◌+◌, ◌-◌, ◌*◌, ◌/◌, ◌%◌, ◌≤◌, ◌≡◌, ap, ◌∙◌, inl, inr, [], ◌∷◌, arith, ◌==◌, Text,
  All, Bool-cases,
}
use unet.Tray.State.{digits, itoa2}

-- The number that decimal digits stand for, after those read.
unfoldable pub read_from : ℕ → Text → ℕ
read_from a [] = a
read_from a (c ∷ cs) = read_from (a * 10 + (c - 48)) cs

abbrev pub IsDigit : ℕ → Type 0
IsDigit c = (48 ≤ c) × (c ≤ 57)

-- With as much fuel as the number, the loop comes to its end: the digits stand for it.
digits-read : (fuel n : ℕ) (s : Text) → n ≤ fuel → read_from 0 (digits fuel n s) ≡ read_from n s
unfolding digits read_from
digits-read zero n s h = ap (λ a. read_from a s) (let e : 0 ≡ n = omega (arith, h) in e)
digits-read (suc fuel) n s h = elim (Bool-cases (n == 0)) [
  | inl e ↦ let e' : 0 ≡ n = ground (arith, e) in rw (e, digits) (ap (λ a. read_from a s) e')
  | inr e ↦
      let m : n / 10 ≤ fuel = ground (arith, e, h) in
      let back : n / 10 * 10 + (48 + n % 10 - 48) ≡ n = omega arith in
      rw (e, digits)
        (digits-read fuel (n / 10) ((48 + n % 10) ∷ s) m ∙ ap (λ a. read_from a s) back)
]

digits-IsDigit : (fuel n : ℕ) (s : Text) → All IsDigit s → All IsDigit (digits fuel n s)
unfolding digits
digits-IsDigit zero n s h = h
digits-IsDigit (suc fuel) n s h = elim (Bool-cases (n == 0)) [
  | inl e ↦ rw (e, digits) h
  | inr e ↦
      rw (e, digits)
        (digits-IsDigit fuel (n / 10) ((48 + n % 10) ∷ s) ((omega arith, omega arith), h))
]

-- The loop of itoa2 comes to its end within as many rounds as the number, and prints decimal
-- digits that read back as the number, 0 included.
pub itoa2-read : (n : ℕ) → (read_from 0 (itoa2 n) ≡ n) × All IsDigit (itoa2 n)
unfolding itoa2 read_from
itoa2-read n = elim (Bool-cases (n == 0)) [
  | inl e ↦ (
    rw (e, itoa2) (let e' : 0 ≡ n = ground (arith, e) in e'),
    rw (e, itoa2) ((omega arith, omega arith), tt),
  )
  | inr e ↦
      (rw (e, itoa2) (digits-read n n [] (omega arith)), rw (e, itoa2) (digits-IsDigit n n [] tt))
]
