-- ===== src/Lifecycle/Prober.antt =====
-- src/internal/lifecycle/health/prober.go: probes of the host, and the call for a reconnection
-- after enough failures in a row. The transports are given by their errors, `none` where one
-- succeeds, and the lock makes each snapshot one step. A threshold below 0 is left out.
pub mod Streaks
use unet.Base.{
  ℕ, zero, suc, ◌+◌, Bool, true, false, not, ◌&&◌, List, [], ◌∷◌, Option, none, some, leb, ◌==◌,
  if◌then◌else◌, Text,
}

pub record ContainerStatus : Type 0 where
  pub name : Text
  pub status : Text
  pub healthy : Bool

pub record HealthSnapshot : Type 0 where
  pub timestamp : ℕ
  pub vps_reachable : Bool
  pub wg_tunnel_up : Bool
  pub container_statuses : List ContainerStatus
  pub wg_handshake_recency : Text
  pub errors : List Text
  pub probe_latency_ms : ℕ

pub record ProberConfig : Type 0 where
  pub interval : ℕ  -- nanoseconds
  pub failure_threshold : ℕ
  pub icmp_target : Text
  pub http_target : Text

pub record Prober : Type 0 where
  pub cfg : ProberConfig
  pub has_on_reconnect : Bool
  pub last_snapshot : Option HealthSnapshot
  pub consecutive_fail : ℕ

-- `NewProber`, with the callback that is set after it.
unfoldable pub new_prober : ProberConfig → Bool → Prober
new_prober c callback = record {
  cfg = record c {
    interval = if c.interval == 0 then 15_000_000_000 else c.interval;
    failure_threshold = if c.failure_threshold == 0 then 3 else c.failure_threshold;
  };
  has_on_reconnect = callback;
  last_snapshot = none;
  consecutive_fail = 0;
}

abbrev snapshot_of : ℕ → ℕ → Bool → List Text → HealthSnapshot
snapshot_of start latency up errors = record {
  timestamp = start;
  vps_reachable = up;
  wg_tunnel_up = up;
  container_statuses = [];
  wg_handshake_recency = [];
  errors = errors;
  probe_latency_ms = latency;
}

-- `probe`: HTTP is tried only if ICMP failed.
unfoldable pub probe : ℕ → ℕ → Option Text → Option Text → HealthSnapshot
probe start latency none http = snapshot_of start latency true []
probe start latency (some e) none = snapshot_of start latency true []
probe start latency (some e) (some f) = snapshot_of start latency false (e ∷ f ∷ [])

-- `processSnapshot`: the prober after it, and whether it called `OnReconnect`.
unfoldable pub process_snapshot : HealthSnapshot → Prober → Prober × Bool
process_snapshot snap p =
    let n = if snap.vps_reachable then 0 else p.consecutive_fail + 1 in
    if leb p.cfg.failure_threshold n && p.has_on_reconnect
    then (record p { last_snapshot = some snap; consecutive_fail = 0 }, true)
    else (record p { last_snapshot = some snap; consecutive_fail = n }, false)

-- The turns of `Run`, with the calls that each made.
unfoldable pub run : List HealthSnapshot → Prober → Prober × List Bool
run [] p = (p, [])
run (s ∷ ss) p =
    let (p', called) = process_snapshot s p in let (q, calls) = run ss p' in (q, called ∷ calls)
