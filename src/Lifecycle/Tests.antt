-- ===== src/Lifecycle/Tests.antt =====
-- The theorems on src/internal/lifecycle/health at concrete histories.
use unet.Base.{ℕ, ◌≡◌, refl, true, false, List, [], ◌∷◌, none, some, arith, codes}
use unet.Base.Sample.{whole}
use unet.Lifecycle.Prober.{HealthSnapshot, ProberConfig, probe, new_prober, run}
use unet.Lifecycle.Prober.Streaks.{streak, is_due, due, run-new_prober}
use unet.Lifecycle.Reconnect.{zero_state, Remote, base_delay}
use unet.Lifecycle.Reconnect.Delays.{base_delay-doubling}
use unet.Lifecycle.Reconnect.Attempts.{
  is_up, IsAfter, run_attempts, failures, last_drawn, run_attempts-IsAfter,
}

abbrev up : HealthSnapshot
up = probe 0 1 none none

abbrev down : HealthSnapshot
down = probe 0 1 (some (codes "a")) (some (codes "b"))

abbrev config : ProberConfig
config = record { interval = 0; failure_threshold = 2; icmp_target = []; http_target = [] }

abbrev history : List HealthSnapshot
history = down ∷ up ∷ down ∷ down ∷ down ∷ down ∷ []

run-new_prober_example :
    (run history (new_prober config true)).1 ≡ false ∷ false ∷ false ∷ true ∷ false ∷ true ∷ []
unfolding due is_due streak probe
run-new_prober_example = run-new_prober config 1 history refl

abbrev steady : ℕ → ℕ
steady d = d

base_delay-doubling_example : base_delay steady 7 ≡ 60_000_000_000
base_delay-doubling_example = base_delay-doubling steady 7 (omega arith) (omega arith)

abbrev well : Remote
well = record {
  session = none;
  docker = none;
  listing = none;
  has_net_pause = true;
  has_amnezia_awg = true;
  has_caddy = true;
  drawn = 3;
}

abbrev attempts : List (ℕ × Remote)
attempts =
    (1, well) ∷ (2, record well { docker = some [] }) ∷ (9, record well { has_caddy = false }) ∷ []

run_attempts-IsAfter_example :
    IsAfter steady whole 2 3 (run_attempts steady whole attempts zero_state)
unfolding failures last_drawn is_up
run_attempts-IsAfter_example = run_attempts-IsAfter steady whole attempts
