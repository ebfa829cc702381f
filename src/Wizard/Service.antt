-- ===== src/Wizard/Service.antt =====
-- The service of src/internal/wizard as a sequence of events on its disk: the requests of
-- handlers.go and bootstrap.go, and the ends of the goroutines that commits have started.
pub mod Forward
pub mod Steps
pub mod Readiness
use unet.Base.{ℕ, ◌≡◌, Bool, true, ◌⊎◌, List, [], ◌∷◌, Text, not, none, some}
use unet.Wizard.{
  WizardStep, step_welcome, step_ssh, step_preflight, step_domain_mode, step_domain_check,
  step_cloudflare, step_create_peer, step_commit, step_success, step_error, other_step,
  is_valid_step, SessionStatus, status_committed, WizardState, has_ssh, has_compatible, is_byo,
  is_nipio, needs_cloudflare, needs_no_cloudflare, has_token, has_peer_name,
}
use unet.Wizard.Files.{Disk}
use unet.Wizard.Handlers.{Environment, Turn}
use unet.Wizard.Requests.{
  in_progress, handle_create_session, handle_delete_session, handle_step_submit, handle_preflight,
}
use unet.Wizard.Commit.{Services, handle_commit, finish}

pub data Event : Type 0 where
  creation : Turn → Event
  deletion preflight commit : Turn → Text → Event
  submission : Turn → Text → WizardStep → Text → Event
  ending : Turn → Services → WizardState → Event

module _ (env : Environment) where
  unfoldable pub handle : Event → Disk → Disk
  handle (creation turn) d = (handle_create_session env turn d).0
  handle (deletion turn id) d = (handle_delete_session env turn id d).0
  handle (preflight turn id) d = (handle_preflight env turn id d).0
  handle (commit turn id) d = (handle_commit env turn id d).0
  handle (submission turn id k body) d = (handle_step_submit env turn id k body d).0
  handle (ending turn v s) d = (finish env turn v s d).0

  unfoldable pub handle_all : List Event → Disk → Disk
  handle_all [] d = d
  handle_all (e ∷ es) d = handle_all es (handle e d)

-- The domain is settled: none is wanted, or its own has TLS, by Cloudflare with a token or without.
abbrev pub HasDomain : WizardState → Type 0
HasDomain s =
    (is_nipio s ≡ true)
    ⊎ ((is_byo s ≡ true) × (needs_no_cloudflare s ≡ true))
    ⊎ ((is_byo s ≡ true) × (needs_cloudflare s ≡ true) × (has_token s ≡ true))

abbrev pub HasHost : WizardState → Type 0
HasHost s = (has_ssh s ≡ true) × (has_compatible s ≡ true)

-- What must have been settled when a session stands at a step.
abbrev pub Needs : WizardStep → WizardState → Type 0
Needs step_welcome s = in_progress s.status ≡ true
Needs step_ssh s = in_progress s.status ≡ true
Needs step_preflight s = (in_progress s.status ≡ true) × (has_ssh s ≡ true)
Needs step_domain_mode s = (in_progress s.status ≡ true) × HasHost s
Needs step_domain_check s = (in_progress s.status ≡ true) × HasHost s × (is_byo s ≡ true)
Needs step_cloudflare s =
    (in_progress s.status ≡ true) × HasHost s × (is_byo s ≡ true) × (needs_cloudflare s ≡ true)
Needs step_create_peer s = (in_progress s.status ≡ true) × HasHost s × HasDomain s
Needs step_commit s =
    (in_progress s.status ≡ true) × HasHost s × HasDomain s × (has_peer_name s ≡ true)
Needs step_success s =
    (s.status ≡ status_committed) × HasHost s × HasDomain s × (has_peer_name s ≡ true)
Needs step_error s =
    (in_progress s.status ≡ true) × HasHost s × HasDomain s × (has_peer_name s ≡ true)
Needs (other_step t) s = is_valid_step (other_step t) ≡ true

-- A session that has been given all that the step it stands at is for.
unfoldable pub IsReady : WizardState → Type 0
IsReady s = Needs s.current_step s
