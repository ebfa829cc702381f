-- ===== src/Invite/Attempts/Window.antt =====
-- The limit is a sliding window over all attempts ever admitted.
use unet.Base.{
  ℕ, ◌≤◌, ◌≡◌, refl, sym, ap, ◌∙◌, inl, inr, Bool, true, false, List, [], ◌∷◌, ◌++◌, Option, none,
  some, arith, ltb, leb, if◌then◌else◌, Text, text_eq, length, keep, Bool-cases,
}
use unet.Base.Map.{lookup, lookup-insert}
use unet.Invite.Attempts.{
  Attempts, max_attempts, is_recent, attempt, check_rate_limit, run_attempts,
}

abbrev recent : ℕ → List ℕ → List ℕ
recent now ts = keep (is_recent now) ts

-- The specification: every admitted attempt is remembered for ever, and one more is admitted if
-- fewer than five of the same address lie in the last minute.
abbrev pub Log : Type 0
Log = Text → List ℕ

abbrev pub admits : Log → Text → ℕ → Bool
admits log ip now = ltb (length (keep (is_recent now) (log ip))) max_attempts

abbrev pub admitted : Bool → ℕ → List ℕ → List ℕ
admitted answer now ts = if answer then ts ++ now ∷ [] else ts

abbrev pub logged : Bool → Text → ℕ → Log → Log
logged answer ip now log k = if text_eq ip k then admitted answer now (log ip) else log k

abbrev pub run_log : Log → List (Text × ℕ) → List Bool
run_log log [] = []
run_log log ((ip, now) ∷ calls) =
    let answer = admits log ip now in answer ∷ run_log (logged answer ip now log) calls

-- The clock does not go back.
abbrev pub InOrder : ℕ → List (Text × ℕ) → Type 0
InOrder last [] = Unit {0}
InOrder last ((ip, now) ∷ calls) = (last ≤ now) × InOrder now calls

abbrev times : Option (List ℕ) → List ℕ
times none = []
times (some ts) = ts

-- From some time on, the two sides agree on the attempts that still count.
abbrev Agree : ℕ → Attempts → Log → Type 0
Agree last m log = (ip : Text) → recent last (times (lookup ip m)) ≡ recent last (log ip)

recent-recent :
    (last now : ℕ) (ts : List ℕ) → last ≤ now → recent now (recent last ts) ≡ recent now ts
recent-recent last now [] h = refl
recent-recent last now (t ∷ ts) h = ground (arith, recent-recent last now ts)

recent_snoc : (now : ℕ) (ts : List ℕ) → recent now (ts ++ now ∷ []) ≡ recent now ts ++ now ∷ []
recent_snoc now [] = ground arith
recent_snoc now (t ∷ ts) = ground (arith, recent_snoc now ts)

Agree-later :
    (last now : ℕ) (m : Attempts) (log : Log) → last ≤ now → Agree last m log → Agree now m log
Agree-later last now m log h a ip =
    sym (recent-recent last now (times (lookup ip m)) h)
    ∙ ap (recent now) (a ip)
    ∙ recent-recent last now (log ip) h

recent-admitted :
    (answer : Bool) (now : ℕ) (us ts : List ℕ)
    → recent now us ≡ recent now ts
    → recent now (admitted answer now us) ≡ recent now (admitted answer now ts)
recent-admitted true now us ts h =
    recent_snoc now us ∙ ap (λ (x : List ℕ). x ++ now ∷ []) h ∙ sym (recent_snoc now ts)
recent-admitted false now us ts h = h

-- One attempt, in terms of the recent ones alone.
attempt-answer :
    (now : ℕ) (o : Option (List ℕ))
    → (attempt now o).1 ≡ ltb (length (recent now (times o))) max_attempts
unfolding attempt
attempt-answer now none = ground arith
attempt-answer now (some ts) = ground arith

attempt-times :
    (now : ℕ) (o : Option (List ℕ))
    → recent now ((attempt now o).0) ≡ recent now (admitted ((attempt now o).1) now (times o))
unfolding attempt
attempt-times now none = refl
attempt-times now (some ts) = elim (Bool-cases (leb max_attempts (length (recent now ts)))) [
  | inl b ↦ rw b (recent-recent now now ts (omega arith))
  | inr b ↦
      rw b (recent-admitted true now (recent now ts) ts (recent-recent now now ts (omega arith)))
]

-- One attempt at both sides.
check-Agree :
    (ip : Text) (now : ℕ) (m : Attempts) (log : Log)
    → Agree now m log
    → ((check_rate_limit ip now m).1 ≡ admits log ip now)
      × Agree now ((check_rate_limit ip now m).0) (logged (admits log ip now) ip now log)
unfolding check_rate_limit
check-Agree ip now m log a = (same, later)
  where
    same : (check_rate_limit ip now m).1 ≡ admits log ip now
    same =
        attempt-answer now (lookup ip m) ∙ ap (λ (x : List ℕ). ltb (length x) max_attempts) (a ip)

    entry :
        recent now ((attempt now (lookup ip m)).0)
        ≡ recent now (admitted (admits log ip now) now (log ip))
    entry =
        attempt-times now (lookup ip m)
        ∙ ap (λ (b : Bool). recent now (admitted b now (times (lookup ip m)))) same
        ∙ recent-admitted (admits log ip now) now (times (lookup ip m)) (log ip) (a ip)

    later : Agree now ((check_rate_limit ip now m).0) (logged (admits log ip now) ip now log)
    later k =
        let split = lookup-insert ip k ((attempt now (lookup ip m)).0) m in
        elim (Bool-cases (text_eq ip k)) [
          | inl e ↦
              rw e (ap (λ (o : Option (List ℕ)). recent now (times o)) (rw e at split) ∙ entry)
          | inr e ↦ rw e (ap (λ (o : Option (List ℕ)). recent now (times o)) (rw e at split) ∙ a k)
        ]

run-Agree :
    (calls : List (Text × ℕ)) (last : ℕ) (m : Attempts) (log : Log)
    → InOrder last calls
    → Agree last m log
    → run_attempts m calls ≡ run_log log calls
unfolding run_attempts
run-Agree [] last m log o a = refl
run-Agree ((ip, now) ∷ calls) last m log (h, o) a =
    let (same, later) = check-Agree ip now m log (Agree-later last now m log h a) in
    ap (λ (b : Bool). b ∷ run_attempts ((check_rate_limit ip now m).0) calls) same
    ∙ ap (◌∷◌ (admits log ip now)) (
        run-Agree calls now ((check_rate_limit ip now m).0) (logged (admits log ip now) ip now log)
          o later)

-- While the clock does not go back, the limiter, which forgets old attempts, answers every
-- sequence of calls as the one that remembers all: an attempt is admitted exactly if fewer than
-- five admitted attempts of its address lie in the minute before it.
pub run_attempts-run_log :
    (calls : List (Text × ℕ)) (start : ℕ)
    → InOrder start calls
    → run_attempts [] calls ≡ run_log (λ _. []) calls
unfolding lookup
run_attempts-run_log calls start o = run-Agree calls start [] (λ _. []) o (λ _. refl)
