-- ===== src/Tray/State/Polls.antt =====
-- What the health loop of src/internal/traylogic/state.go reports.
use unet.Base.{
  ◌+◌, ◌≡◌, refl, sym, ◌∙◌, Bool, true, false, inl, inr, List, [], ◌∷◌, Option, none, some, arith,
  leb, All, All-append, Bool-cases,
}
use unet.Tray.State.{
  daemon_recovered, TrayState, Status, update_state_icon, poll_daemon_status, Polling, check_health,
  Poll, health, status, poll, run_polls,
}

-- While the daemon counts as alive, no failure is counted.
abbrev IsCalm : Polling → Type 0
IsCalm p = p.state.daemon_alive ≡ true → p.consecutive_fails ≡ 0

check_health-IsCalm :
    (alive : Bool) (p : Polling)
    → IsCalm p
    → IsCalm (check_health alive p).0 × All (λ n. n ≡ daemon_recovered) (check_health alive p).1
unfolding check_health
check_health-IsCalm true p h = elim (Bool-cases p.state.daemon_alive) [
  | inl a ↦ ((λ _. refl), simp a tt)
  | inr a ↦ ((λ _. refl), simp a (refl, tt))
]
check_health-IsCalm false p h = elim (Bool-cases p.state.daemon_alive) [
  | inr a ↦ (simp a (λ e. cc e), simp a tt)
  | inl a ↦
      let z = h a in
      let low : leb 3 (p.consecutive_fails + 1) ≡ false = ground (arith, z) in
      (simp (a, low) (λ e. cc e), simp (a, low) tt)
]

poll_daemon_status-alive :
    (o : Option Status) (s : TrayState) → (poll_daemon_status o s).daemon_alive ≡ s.daemon_alive
unfolding poll_daemon_status update_state_icon
poll_daemon_status-alive none s = refl
poll_daemon_status-alive (some x) s = refl

run_polls-recovered :
    (qs : List Poll) (p : Polling) → IsCalm p → All (λ n. n ≡ daemon_recovered) (run_polls qs p)
unfolding run_polls poll
run_polls-recovered [] p h = tt
run_polls-recovered (health alive ∷ qs) p h =
    let (c, a) = check_health-IsCalm alive p h in
    All-append (λ n. n ≡ daemon_recovered) (check_health alive p).1
      (run_polls qs (check_health alive p).0) a (run_polls-recovered qs (check_health alive p).0 c)
run_polls-recovered (status o ∷ qs) p h =
    run_polls-recovered qs (record p { state = poll_daemon_status o p.state })
      (λ e. h (sym (poll_daemon_status-alive o p.state) ∙ e))

-- From a health loop that starts, whatever state the tray is in, no sequence of polls ever sends
-- the notification that the daemon has stopped: every notification says that it has recovered.
pub run_polls-silent :
    (qs : List Poll) (s : TrayState)
    → All (λ n. n ≡ daemon_recovered) (run_polls qs (record { state = s; consecutive_fails = 0 }))
run_polls-silent qs s =
    run_polls-recovered qs (record { state = s; consecutive_fails = 0 }) (λ _. refl)
