-- ===== src/Api/RateLimit.antt =====
-- src/internal/api/middleware/ratelimit.go: a token bucket for each API token. Times are
-- nanoseconds; the token counts are float64 numbers, whose arithmetic is given.
pub mod Eviction
use unet.Base.{
  ℕ, suc, ◌+◌, Bool, true, false, not, ◌&&◌, ◌||◌, List, [], ◌∷◌, Option, none, some, ltb,
  if◌then◌else◌, Text, text_eq, length,
}
use unet.Base.Int.{pos, sub_ℕ}
use unet.Base.Float.{Float64}
use unet.Base.Map.{Map, lookup, insert, delete}
use unet.Api.Context.{AuthInfo, Outcome, rejected, passed, rate_limited, localhost}

pub record Visitor : Type 0 where
  pub tokens : ℕ
  pub last_check : ℕ

abbrev pub Visitors : Type 0
Visitors = Map Visitor

abbrev pub rate_per_minute : ℕ
rate_per_minute = 60

abbrev pub burst : ℕ
burst = 10

-- `rateLimitWindow`, a minute.
abbrev pub window : ℕ
window = 60000000000

-- `rateLimitEvictAfter`, two minutes.
abbrev pub evict_after : ℕ
evict_after = 120000000000

-- `now.Sub(v.lastCheck) > rateLimitEvictAfter`
abbrev pub is_idle : ℕ → Visitor → Bool
is_idle now v = ltb (v.last_check + evict_after) now

-- The loop that deletes idle visitors.
unfoldable pub drop_idle : ℕ → Visitors → Visitors
drop_idle now [] = []
drop_idle now ((k, v) ∷ m) =
    let rest = drop_idle now m in if is_idle now v then delete k rest else (k, v) ∷ rest

unfoldable pub evict : ℕ → Visitors → Visitors
evict now m = if ltb 1000 (length m) then drop_idle now m else m

module _ (fl : Float64) where
  abbrev pub new_visitor : ℕ → Visitor
  new_visitor now = record { tokens = fl.of (pos 9); last_check = now }

  -- What the time since the last check adds.
  unfoldable pub earned : ℕ → Visitor → ℕ
  earned now v =
      fl.div (fl.mul (fl.of (sub_ℕ now v.last_check)) (fl.of (pos rate_per_minute)))
        (fl.of (pos window))

  -- The tokens after the time since the last check, up to the burst.
  unfoldable pub refill : ℕ → Visitor → ℕ
  refill now v =
      let t = fl.add v.tokens (earned now v) in
      if fl.less (fl.of (pos burst)) t then fl.of (pos burst) else t

  unfoldable pub spend : ℕ → Visitor → Visitor × Bool
  spend now v =
      let t = refill now v in
      if fl.less t (fl.of (pos 1))
      then (record { tokens = t; last_check = now }, false)
      else (record { tokens = fl.sub t (fl.of (pos 1)); last_check = now }, true)

  -- What a call does to the visitor of its key.
  unfoldable pub visit : ℕ → Option Visitor → Visitor × Bool
  visit now none = (new_visitor now, true)
  visit now (some v) = spend now v

  unfoldable pub allow : Text → ℕ → Visitors → Visitors × Bool
  allow key now m =
      let kept = evict now m in
      let (v, answer) = visit now (lookup key kept) in (insert key v kept, answer)

  -- `Middleware`: requests with no token of their own are not counted.
  unfoldable pub limit : Option AuthInfo → ℕ → Visitors → Visitors × Outcome (Option AuthInfo)
  limit none now m = (m, passed none)
  limit (some info) now m =
      if text_eq info.token_id [] || text_eq info.source localhost
      then (m, passed (some info))
      else (let (m', answer) = allow info.token_id now m in
          (m', if answer then passed (some info) else rejected 429 rate_limited))

  -- A sequence of calls, each with its key and time, and their answers.
  unfoldable pub run : Visitors → List (Text × ℕ) → List Bool
  run m [] = []
  run m ((key, now) ∷ calls) = let (m', answer) = allow key now m in answer ∷ run m' calls
