-- ===== src/Invite/Attempts.antt =====
-- `checkRateLimit` of src/internal/invite/handler.go: the attempts of the last minute, by address. It
-- runs under the handler's lock, so an execution is a sequence of calls.
pub mod Window
use unet.Base.{
  ℕ, ◌+◌, Bool, true, false, List, [], ◌∷◌, ◌++◌, Option, none, some, ltb, leb, if◌then◌else◌, Text,
  length, keep,
}
use unet.Base.Map.{Map, lookup, insert}

abbrev pub Attempts : Type 0
Attempts = Map (List ℕ)

abbrev pub max_attempts : ℕ
max_attempts = 5

abbrev pub window : ℕ
window = 60000000000

-- `t.After(now.Add(-rateLimitWindow))`.
abbrev pub is_recent : ℕ → ℕ → Bool
is_recent now t = ltb now (t + window)

-- The entry of an address, and the answer.
unfoldable pub attempt : ℕ → Option (List ℕ) → List ℕ × Bool
attempt now none = (now ∷ [], true)
attempt now (some ts) =
    let filtered = keep (is_recent now) ts in
    if leb max_attempts (length filtered) then (filtered, false) else (filtered ++ now ∷ [], true)

unfoldable pub check_rate_limit : Text → ℕ → Attempts → Attempts × Bool
check_rate_limit ip now m =
    let (entry, answer) = attempt now (lookup ip m) in (insert ip entry m, answer)

unfoldable pub run_attempts : Attempts → List (Text × ℕ) → List Bool
run_attempts m [] = []
run_attempts m ((ip, now) ∷ calls) =
    let (m', answer) = check_rate_limit ip now m in answer ∷ run_attempts m' calls
