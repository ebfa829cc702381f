-- ===== src/Lifecycle/Reconnect.antt =====
-- src/internal/lifecycle/health/reconnect.go: attempts to reconnect, with delays that double. A
-- `time.Duration` is the pattern of a 64-bit integer, in nanoseconds. The conversion of a number
-- that is too large for it, which Go leaves open, and the arithmetic of float64 are given; so are the
-- numbers that are drawn.
pub mod Delays
pub mod Attempts
use unet.Base.{
  ℕ, zero, suc, ◌+◌, ◌-◌, ◌*◌, ◌^◌, ◌≡◌, Bool, true, false, not, ◌&&◌, List, [], ◌∷◌, ◌++◌, Option,
  none, some, ltb, ◌==◌, if◌then◌else◌, Text, codes, u64, lt_i64,
}
use unet.Base.Int.{ℤ, pos, negsuc}
use unet.Base.Float.{Float64}

pub data ReconnectPhase : Type 0 where
  phase_none phase_probing phase_reconnect phase_verifying phase_syncing : ReconnectPhase
  phase_failed phase_recovered : ReconnectPhase

-- `started_at` is `none` for the zero time.
pub record ReconnectState : Type 0 where
  pub started_at : Option ℕ
  pub attempt_count : ℕ
  pub next_attempt_at : ℕ
  pub current_delay : ℕ
  pub phase : ReconnectPhase
  pub last_error : Text

abbrev pub zero_state : ReconnectState
zero_state = record {
  started_at = none;
  attempt_count = 0;
  next_attempt_at = 0;
  current_delay = 0;
  phase = phase_none;
  last_error = [];
}

abbrev pub backoff_initial : ℕ
backoff_initial = 2_000_000_000

abbrev pub backoff_cap : ℕ
backoff_cap = 60_000_000_000

-- What one attempt meets: the errors of the pool, of docker and of the listing of containers,
-- which containers are named in it, and the number that `rng.Float64` draws if it fails.
pub record Remote : Type 0 where
  pub session : Option Text
  pub docker : Option Text
  pub listing : Option Text
  pub has_net_pause : Bool
  pub has_amnezia_awg : Bool
  pub has_caddy : Bool
  pub drawn : ℕ

-- The integer that a 64-bit pattern stands for.
abbrev pub int_of : ℕ → ℤ
int_of n = if ltb n (2 ^ 63) then pos n else negsuc (2 ^ 64 - 1 - n)

-- `time.Duration(math.Pow(2, k))`: `large` where the power does not fit.
unfoldable pub duration_of_power : (ℕ → ℕ) → ℕ → ℕ
duration_of_power large k = if ltb k 63 then 2 ^ k else large k

-- The power for a number of attempts: of no attempt it is a half, which converts to 0.
abbrev pub power_of : (ℕ → ℕ) → ℕ → ℕ
power_of large attempts = if attempts == 0 then 0 else duration_of_power large (attempts - 1)

-- The delay before the jitter.
unfoldable pub base_delay : (ℕ → ℕ) → ℕ → ℕ
base_delay large attempts =
    let delay = u64 (backoff_initial * power_of large attempts) in
    if lt_i64 backoff_cap delay then backoff_cap else delay

module _ (large : ℕ → ℕ) (fl : Float64) where
  -- `1.0 + (r*2-1)*backoffJitter` of the number drawn. The literal 0.2 is the quotient of 1 and 5.
  abbrev pub jitter_factor : ℕ → ℕ
  jitter_factor drawn = fl.add (fl.of (pos 1)) (
      fl.mul (fl.sub (fl.mul drawn (fl.of (pos 2))) (fl.of (pos 1)))
        (fl.div (fl.of (pos 1)) (fl.of (pos 5))))

  -- `time.Duration(float64(delay) * jitterFactor)`.
  unfoldable pub jitter : ℕ → ℕ → ℕ
  jitter drawn delay = fl.int64 (fl.mul (fl.of (int_of delay)) (jitter_factor drawn))

  unfoldable pub schedule_next : ℕ → ℕ → ReconnectState → ReconnectState
  schedule_next drawn now s =
      let delay = jitter drawn (base_delay large s.attempt_count) in
      record s { current_delay = delay; next_attempt_at = u64 (now + delay) }

  -- An attempt that fails in one of its steps.
  unfoldable pub fail : Text → ℕ → ℕ → ReconnectState → ReconnectState
  fail message drawn now s =
      schedule_next drawn now record s { phase = phase_failed; last_error = message }

  abbrev pub begin : ℕ → ReconnectState → ReconnectState
  begin now s = record s {
    started_at = (elim s.started_at [ none ↦ some now | some t ↦ some t ]);
    attempt_count = s.attempt_count + 1;
    phase = phase_probing;
  }

  abbrev missing : Remote → Option Text
  missing r =
      if not r.has_net_pause
      then some (codes "unet-net-pause")
      else if not r.has_amnezia_awg
      then some (codes "unet-amnezia-awg")
      else if not r.has_caddy
      then some (codes "unet-caddy")
      else none

  -- `Execute` at one time: the state after it, the states that were emitted, and its success.
  unfoldable pub execute : ℕ → Remote → ReconnectState → ReconnectState × List ReconnectState × Bool
  execute now r s =
      let s1 = begin now s in
      let s2 = record s1 { phase = phase_reconnect } in
      let s3 = record s2 { phase = phase_verifying } in
      let s4 = record s3 { phase = phase_syncing } in
      let s5 = record s4 { phase = phase_recovered; last_error = [] } in
      elim r.session [
        | some e ↦
            let f = fail (codes "SSH unreachable: " ++ e) r.drawn now s1 in (f, s1 ∷ f ∷ [], false)
        | none ↦ elim r.docker [
          | some e ↦
              let f = fail (codes "Docker not running: " ++ e) r.drawn now s2 in
              (f, s1 ∷ s2 ∷ f ∷ [], false)
          | none ↦ elim r.listing [
            | some e ↦
                let f = fail (codes "Container check failed: " ++ e) r.drawn now s3 in
                (f, s1 ∷ s2 ∷ s3 ∷ f ∷ [], false)
            | none ↦ elim (missing r) [
              | some name ↦
                  let f = fail (codes "Missing container: " ++ name) r.drawn now s3 in
                  (f, s1 ∷ s2 ∷ s3 ∷ f ∷ [], false)
              | none ↦ (zero_state, s1 ∷ s2 ∷ s3 ∷ s4 ∷ s5 ∷ [], true)
            ]
          ]
        ]
      ]
