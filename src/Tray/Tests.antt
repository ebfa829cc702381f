-- ===== src/Tray/Tests.antt =====
-- The theorems on src/internal/traylogic/state.go at concrete polls and numbers.
use unet.Base.{◌≡◌, refl, true, false, List, [], ◌∷◌, All, codes}
use unet.Tray.State.{TrayState, icon_red, daemon_recovered, Poll, health, run_polls, digits, itoa2}
use unet.Tray.State.Digits.{read_from, IsDigit, itoa2-read}
use unet.Tray.State.Polls.{run_polls-silent}

abbrev start : TrayState
start = record {
  daemon_alive = false;
  tunnel_status = [];
  vps_name = [];
  exposed_count = 0;
  icon_state = icon_red;
  tooltip = [];
}

-- The daemon starts, and stops for good.
abbrev polls : List Poll
polls = health true ∷ health false ∷ health false ∷ health false ∷ health false ∷ []

run_polls-silent_example :
    All
      (λ n. n ≡ daemon_recovered)
      (run_polls polls (record { state = start; consecutive_fails = 0 }))
run_polls-silent_example = run_polls-silent polls start

itoa2-read_example : (read_from 0 (itoa2 1204) ≡ 1204) × All IsDigit (itoa2 1204)
itoa2-read_example = itoa2-read 1204

prints : itoa2 1204 ≡ codes "1204"
unfolding itoa2 digits
prints = refl
