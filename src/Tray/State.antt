-- ===== src/Tray/State.antt =====
-- src/internal/traylogic/state.go: the polls of the daemon, the icon and its tooltip. A poll is one
-- step; the answers of the daemon are given.
pub mod Polls
pub mod Digits
use unet.Base.{
  ℕ, zero, suc, ◌+◌, ◌/◌, ◌%◌, Bool, true, false, not, ◌&&◌, List, [], ◌∷◌, ◌++◌, Option, none,
  some, leb, ◌==◌, if◌then◌else◌, Text, codes, text_eq,
}

pub data IconState : Type 0 where
  icon_red icon_yellow icon_green : IconState

pub data Notification : Type 0 where
  daemon_recovered daemon_stopped : Notification

-- With the tooltip that the tray was last told.
pub record TrayState : Type 0 where
  pub daemon_alive : Bool
  pub tunnel_status : Text
  pub vps_name : Text
  pub exposed_count : ℕ
  pub icon_state : IconState
  pub tooltip : Text

-- The fields of the daemon's status that are read: a port by its status.
pub record Status : Type 0 where
  pub tunnel : Text
  pub vps_host : Text
  pub ports : List Text

abbrev pub health_fail_threshold : ℕ
health_fail_threshold = 3

-- The loop of `itoa2`, for as many digits as the fuel.
unfoldable pub digits : ℕ → ℕ → Text → Text
digits zero n s = s
digits (suc fuel) n s =
    let rest = digits fuel (n / 10) ((48 + n % 10) ∷ s) in if n == 0 then s else rest

unfoldable pub itoa2 : ℕ → Text
itoa2 n = if n == 0 then codes "0" else digits n n []

unfoldable pub build_tooltip : TrayState → Text
build_tooltip s =
    if not s.daemon_alive
    then codes "unet: Daemon not running"
    else if text_eq s.tunnel_status (codes "connected")
    then codes "unet: Connected ("
      ++ (if text_eq s.vps_name [] then codes "unknown" else s.vps_name)
      ++ codes "), "
      ++ itoa2 s.exposed_count
      ++ codes " routes"
    else if text_eq s.tunnel_status (codes "connecting")
    then codes "unet: Connecting..."
    else codes "unet: Disconnected"

unfoldable pub icon_of : TrayState → IconState
icon_of s =
    if not s.daemon_alive
    then icon_red
    else if text_eq s.tunnel_status (codes "connected")
    then icon_green
    else if text_eq s.tunnel_status (codes "connecting")
    then icon_yellow
    else icon_red

unfoldable pub update_state_icon : TrayState → TrayState
update_state_icon s = record s { icon_state = icon_of s; tooltip = build_tooltip s }

unfoldable pub active_ports : List Text → ℕ
active_ports [] = 0
active_ports (p ∷ ps) =
    let rest = active_ports ps in if text_eq p (codes "active") then rest + 1 else rest

-- `pollDaemonStatus`, with `none` for an error.
unfoldable pub poll_daemon_status : Option Status → TrayState → TrayState
poll_daemon_status none s = s
poll_daemon_status (some status) s = update_state_icon record s {
  tunnel_status = status.tunnel;
  vps_name = status.vps_host;
  exposed_count = active_ports status.ports;
}

-- The state of the application, and the count that the health loop keeps.
pub record Polling : Type 0 where
  pub state : TrayState
  pub consecutive_fails : ℕ

-- A tick of the health loop.
unfoldable pub check_health : Bool → Polling → Polling × List Notification
check_health alive p =
    let s = record p.state { daemon_alive = alive } in
    let fails = p.consecutive_fails + 1 in
    if alive
    then (
      record { state = s; consecutive_fails = 0 },
      if not p.state.daemon_alive then daemon_recovered ∷ [] else [],
    )
    else if p.state.daemon_alive && leb health_fail_threshold fails
    then (record { state = update_state_icon s; consecutive_fails = fails }, daemon_stopped ∷ [])
    else (record { state = s; consecutive_fails = fails }, [])

pub data Poll : Type 0 where
  health : Bool → Poll
  status : Option Status → Poll

unfoldable pub poll : Poll → Polling → Polling × List Notification
poll (health alive) p = check_health alive p
poll (status o) p = (record p { state = poll_daemon_status o p.state }, [])

-- The notifications of a sequence of polls.
unfoldable pub run_polls : List Poll → Polling → List Notification
run_polls [] p = []
run_polls (q ∷ qs) p = let (p', sent) = poll q p in sent ++ run_polls qs p'
