-- ===== src/Api/RateLimit/Eviction.antt =====
-- Eviction cannot be observed: an idle bucket would be full again.
use unet.Base.{
  subst, ℕ, ◌+◌, ◌-◌, ◌*◌, ◌≤◌, ◌≡◌, refl, sym, ap, ◌∙◌, inl, inr, Bool, true, List, [], ◌∷◌,
  Option, none, some, arith, ltb, if◌then◌else◌, Text, text_eq, Bool-cases, length,
}
use unet.Base.Int.{pos, sub_ℕ}
use unet.Base.Float.{Float64, IsRounding}
use unet.Base.Map.{lookup, lookup-insert, lookup-delete}
use unet.Api.RateLimit.{
  Visitor, Visitors, is_idle, drop_idle, evict, earned, refill, spend, visit, allow, run,
}

sub_ℕ-pos : (a b : ℕ) → b ≤ a → sub_ℕ a b ≡ pos (a - b)
sub_ℕ-pos a b h = ground arith

abbrev live : ℕ → Option Visitor → Option Visitor
live now none = none
live now (some v) = if is_idle now v then none else some v

lookup-drop_idle :
    (now : ℕ) (k : Text) (m : Visitors) → lookup k (drop_idle now m) ≡ live now (lookup k m)
unfolding lookup drop_idle
lookup-drop_idle now k [] = refl
lookup-drop_idle now k ((j, v) ∷ m) =
    ground (arith, lookup-drop_idle now k m, lookup-delete j k (drop_idle now m))

-- The specification: visitors are never evicted.
abbrev pub Ideal : Type 0
Ideal = Text → Option Visitor

abbrev pub put : Text → Visitor → Ideal → Ideal
put key v u k = if text_eq key k then some v else u k

-- A key is held as the specification holds it, or was evicted and is idle there.
data Agrees (now : ℕ) : Option Visitor → Option Visitor → Type 0 where
  same : (o o' : Option Visitor) → o ≡ o' → Agrees now o o'
  gone :
      (o o' : Option Visitor) (v : Visitor)
      → o ≡ none
      → o' ≡ some v
      → is_idle now v ≡ true
      → Agrees now o o'

Agrees-later :
    (now later : ℕ) (o o' : Option Visitor) → now ≤ later → Agrees now o o' → Agrees later o o'
Agrees-later now later o o' h (same _ _ e) = same o o' e
Agrees-later now later o o' h (gone _ _ v e e' i) = gone o o' v e e' (ground arith)

Agrees-live : (now : ℕ) (o o' : Option Visitor) → Agrees now o o' → Agrees now (live now o) o'
Agrees-live now none o' (same _ _ e) = same none o' e
Agrees-live now (some v) o' (same _ _ e) = elim (Bool-cases (is_idle now v)) [
  | inl i ↦ rw i (gone none o' v refl (sym e) i)
  | inr i ↦ rw i (same (some v) o' e)
]
Agrees-live now o o' (gone _ _ v e e' i) = rw e (gone none o' v refl e' i)

Agrees-evict :
    (now : ℕ) (k : Text) (m : Visitors) (o : Option Visitor)
    → Agrees now (lookup k m) o
    → Agrees now (lookup k (evict now m)) o
unfolding evict
Agrees-evict now k m o a = elim (Bool-cases (ltb 1000 (length m))) [
  | inl e ↦ rw (e, lookup-drop_idle now k m) (Agrees-live now (lookup k m) o a)
  | inr e ↦ rw e a
]

-- The times of the calls do not go back.
abbrev pub Ordered : ℕ → List (Text × ℕ) → Type 0
Ordered now [] = Unit {0}
Ordered now ((key, t) ∷ calls) = (now ≤ t) × Ordered t calls

abbrev pub nobody : Ideal
nobody k = none

module _ (fl : Float64) (round : IsRounding fl) where
  -- The tokens are a number that is not negative, and the last check is past.
  pub record IsSane (now : ℕ) (v : Visitor) : Type 0 where
    pub counted : fl.leq (fl.of (pos 0)) v.tokens ≡ true
    pub past : v.last_check ≤ now

  number : (n : ℕ) → fl.leq (fl.of (pos 0)) (fl.of (pos n)) ≡ true
  number n = round.of_mono 0 n (omega arith)

  -- Time adds at least as many tokens as whole seconds have passed, if these are few.
  earned_least :
      (n now : ℕ) (v : Visitor)
      → n ≤ 200
      → v.last_check + n * 1000000000 ≤ now
      → fl.leq (fl.of (pos n)) (earned fl now v) ≡ true
  unfolding earned
  earned_least n now v few h =
      let e = sub_ℕ-pos now v.last_check (omega arith) in
      let most = round.of_mono (n * 1000000000) (now - v.last_check) (omega arith) in
      let more = round.mul_mono 60 (number (n * 1000000000)) most (omega arith) (omega arith) in
      let exact = round.mul_exact (n * 1000000000) 60 (omega arith) in
      let same : n * 1000000000 * 60 ≡ n * 60000000000 = omega arith in
      let scaled : fl.leq (fl.of (pos (n * 60000000000)))
            (fl.mul (fl.of (pos (now - v.last_check))) (fl.of (pos 60)))
          ≡ true =
        subst (λ x. fl.leq x (fl.mul (fl.of (pos (now - v.last_check))) (fl.of (pos 60))) ≡ true)
          (exact ∙ ap (λ k. fl.of (pos k)) same) more in
      let last =
        round.div_mono 60000000000 (number (n * 60000000000)) scaled (omega arith) (omega arith) in
      rw (e, earned)
        (subst
          (λ x.
            fl.leq x (
              fl.div (fl.mul (fl.of (pos (now - v.last_check))) (fl.of (pos 60)))
                (fl.of (pos 60000000000)))
            ≡ true)
          (round.div_exact n 60000000000 (omega arith) (omega arith)) last)

  -- What a visitor has after `n` whole seconds is at least `n`.
  sum_least :
      (n now : ℕ) (v : Visitor)
      → IsSane now v
      → n ≤ 200
      → v.last_check + n * 1000000000 ≤ now
      → fl.leq (fl.of (pos n)) (fl.add v.tokens (earned fl now v)) ≡ true
  sum_least n now v s few h =
      subst (λ x. fl.leq x (fl.add v.tokens (earned fl now v)) ≡ true)
        (round.add_exact 0 n (omega arith)
          ∙ ap (λ k. fl.of (pos k)) (let q : 0 + n ≡ n = omega arith in q))
        (round.add_mono (number 0) (number n) s.counted (earned_least n now v few h))

  refill_counted :
      (now : ℕ) (v : Visitor) → IsSane now v → fl.leq (fl.of (pos 0)) (refill fl now v) ≡ true
  unfolding refill
  refill_counted now v s =
      let past = s.past in
      elim (Bool-cases (fl.less (fl.of (pos 10)) (fl.add v.tokens (earned fl now v)))) [
        | inl e ↦ rw e (number 10)
        | inr e ↦ rw e (sum_least 0 now v s (omega arith) (omega arith))
      ]

  -- A visit leaves a sane visitor.
  pub visit-IsSane :
      (now : ℕ) (o : Option Visitor)
      → ((v : Visitor) → o ≡ some v → IsSane now v)
      → IsSane now (visit fl now o).0
  unfolding visit spend
  visit-IsSane now none s = record { counted = number 9; past = omega arith }
  visit-IsSane now (some v) s =
      let t = refill fl now v in
      let c = refill_counted now v (s v refl) in
      elim (Bool-cases (fl.less t (fl.of (pos 1)))) [
        | inl e ↦ rw (visit, spend, e) (record { counted = c; past = omega arith })
        | inr e ↦
            let rest = round.sub_mono 1 (round.not_less c (number 1) e) (omega arith) in
            let left : fl.leq (fl.of (pos 0)) (fl.sub t (fl.of (pos 1))) ≡ true =
              subst (λ x. fl.leq x (fl.sub t (fl.of (pos 1))) ≡ true)
                (round.sub_exact 1 1 (omega arith) (omega arith)) rest in
            rw (visit, spend, e) (record { counted = left; past = omega arith })
      ]

  refill_full :
      (now : ℕ) (v : Visitor)
      → IsSane now v
      → is_idle now v ≡ true
      → refill fl now v ≡ fl.of (pos 10)
  unfolding refill
  refill_full now v s h =
      let many = sum_least 120 now v s (omega arith) (ground arith) in
      let over = round.less_trans (round.of_less 10 120 (omega arith) (omega arith)) many in
      rw over refl

  -- An idle visitor is treated as a new one.
  visit_idle :
      (now : ℕ) (v : Visitor)
      → IsSane now v
      → is_idle now v ≡ true
      → visit fl now (some v) ≡ visit fl now none
  unfolding visit spend
  visit_idle now v s h =
      rw
        (
          refill_full now v s h,
          round.of_not_less 10 1 (omega arith),
          round.sub_exact 10 1 (omega arith) (omega arith),
        )
        refl

  unfoldable pub run_ideal : Ideal → List (Text × ℕ) → List Bool
  run_ideal u [] = []
  run_ideal u ((key, now) ∷ calls) =
      let (v, answer) = visit fl now (u key) in answer ∷ run_ideal (put key v u) calls

  pub record Refines (now : ℕ) (m : Visitors) (u : Ideal) : Type 0 where
    agrees : (k : Text) → Agrees now (lookup k m) (u k)
    sane : (k : Text) (v : Visitor) → u k ≡ some v → IsSane now v

  -- Whether a key was evicted makes no difference to its visit.
  Agrees-visit :
      (now : ℕ) (o o' : Option Visitor)
      → ((v : Visitor) → o' ≡ some v → IsSane now v)
      → Agrees now o o'
      → visit fl now o ≡ visit fl now o'
  Agrees-visit now o o' s (same _ _ e) = ap (visit fl now) e
  Agrees-visit now o o' s (gone _ _ v e e' i) = rw (e, e') (sym (visit_idle now v (s v e') i))

  IsSane-later : (now later : ℕ) (v : Visitor) → now ≤ later → IsSane now v → IsSane later v
  IsSane-later now later v h s = record { counted = s.counted; past = omega arith }

  Refines-later :
      (now later : ℕ) (m : Visitors) (u : Ideal) → now ≤ later → Refines now m u → Refines later m u
  Refines-later now later m u h r = record {
    agrees = λ k. Agrees-later now later (lookup k m) (u k) h (r.agrees k);
    sane = λ k v e. IsSane-later now later v h (r.sane k v e);
  }

  module _ (key : Text) (now : ℕ) (m : Visitors) (u : Ideal) (r : Refines now m u) where
    found-visit : visit fl now (lookup key (evict now m)) ≡ visit fl now (u key)
    found-visit =
        Agrees-visit now (lookup key (evict now m)) (u key) (r.sane key)
          (Agrees-evict now key m (u key) (r.agrees key))

    allow-answer : (allow fl key now m).1 ≡ (visit fl now (u key)).1
    unfolding allow
    allow-answer = ap (λ (x : Visitor × Bool). x.1) found-visit

    allow-Refines : Refines now (allow fl key now m).0 (put key (visit fl now (u key)).0 u)
    unfolding allow
    allow-Refines = record {
      agrees = λ k. rw found-visit (
          rw lookup-insert (elim (Bool-cases (text_eq key k)) [
            | inl e ↦ rw e (same _ _ refl)
            | inr e ↦ rw e (Agrees-evict now k m (u k) (r.agrees k))
          ]));
      sane = λ k v e. elim (Bool-cases (text_eq key k)) [
        | inl here ↦
            let q : (visit fl now (u key)).0 ≡ v = (let p = rw here at e in cc p) in
            subst (IsSane now) q (visit-IsSane now (u key) (r.sane key))
        | inr there ↦ r.sane k v (rw there at e)
      ];
    }

  run-Refines :
      (now : ℕ) (m : Visitors) (u : Ideal) (calls : List (Text × ℕ))
      → Refines now m u
      → Ordered now calls
      → run fl m calls ≡ run_ideal u calls
  unfolding run run_ideal
  run-Refines now m u [] r o = refl
  run-Refines now m u ((key, t) ∷ calls) r o =
      let r' = Refines-later now t m u o.0 r in
      let rest =
        run-Refines t (allow fl key t m).0 (put key (visit fl t (u key)).0 u) calls
          (allow-Refines key t m u r') o.1 in
      rw (allow-answer key t m u r', rest) refl

  -- Eviction cannot be observed. In an arithmetic whose rounding is that of IEEE 754, a rate
  -- limiter that starts empty answers every sequence of calls, whose times do not go back, as one
  -- that keeps all its visitors for ever.
  pub run-run_ideal :
      (start : ℕ) (calls : List (Text × ℕ))
      → Ordered start calls
      → run fl [] calls ≡ run_ideal nobody calls
  unfolding lookup
  run-run_ideal start calls o =
      run-Refines start [] nobody calls
        (record { agrees = λ k. same none none refl; sane = λ k v e. cc }) o
