-- ===== src/Wizard.antt =====
-- src/internal/wizard/wizard.go: the state of a set-up session, its steps and the table of the
-- moves between them. A step or a status may be any text in the file, so both types have a
-- constructor for the others. Optional pointers are options, and a number of type float64 stands as
-- its JSON text.
pub mod Reducer
pub mod Files
pub mod Handlers
pub mod Requests
pub mod Commit
pub mod Service
mod Sample
mod Tests
use unet.Base.{
  ℕ, ◌≡◌, Bool, true, false, not, ◌&&◌, List, [], ◌∷◌, Option, none, some, if◌then◌else◌, Text,
  codes, text_eq,
}
use unet.Base.Int.{ℤ}

pub data Result {ℓ} (E : Type ℓ) (A : Type ℓ) : Type ℓ where
  failed : E → Result E A
  done : A → Result E A

infixl 5 ◌>>=◌
abbrev pub ◌>>=◌ {ℓ} : {E A B : Type ℓ} → Result E A → (A → Result E B) → Result E B
failed e >>= f = failed e
done a >>= f = f a

pub data WizardStep : Type 0 where
  step_welcome step_ssh step_preflight step_domain_mode step_domain_check : WizardStep
  step_cloudflare step_create_peer step_commit step_success step_error : WizardStep
  other_step : Text → WizardStep

unfoldable pub is_valid_step : WizardStep → Bool
is_valid_step (other_step t) = false
is_valid_step _ = true

-- `==` on steps.
abbrev pub step_eq : WizardStep → WizardStep → Bool
step_eq step_welcome step_welcome = true
step_eq step_ssh step_ssh = true
step_eq step_preflight step_preflight = true
step_eq step_domain_mode step_domain_mode = true
step_eq step_domain_check step_domain_check = true
step_eq step_cloudflare step_cloudflare = true
step_eq step_create_peer step_create_peer = true
step_eq step_commit step_commit = true
step_eq step_success step_success = true
step_eq step_error step_error = true
step_eq (other_step a) (other_step b) = text_eq a b
step_eq _ _ = false

pub data SessionStatus : Type 0 where
  status_in_progress status_committed status_abandoned : SessionStatus
  other_status : Text → SessionStatus

pub record SshInput : Type 0 where
  pub host : Text
  pub port : ℤ
  pub user : Text
  pub auth_type : Text
  pub key_path : Text
  pub password : Text

pub record PortExpose : Type 0 where
  pub local_port : ℤ
  pub subdomain : Text

pub record WizardInputs : Type 0 where
  pub ssh : Option SshInput
  pub domain_mode : Text
  pub domain : Text
  pub cloudflare_token : Text
  pub nipio_enabled : Bool
  pub first_peer_name : Text
  pub first_port_expose : Option PortExpose

pub record PreflightResult : Type 0 where
  pub target_host : Text
  pub checked_at : Text
  pub distro : Text
  pub distro_version : Text
  pub arch : Text
  pub disk_free_gb : Text
  pub ram_mb : ℤ
  pub has_sudo : Bool
  pub has_docker : Bool
  pub docker_running : Bool
  pub port_443_free : Bool
  pub port_80_free : Bool
  pub port_wg_free : Bool
  pub compatible : Bool
  pub warnings : List Text
  pub blocking_failures : List Text

pub record DomainCheckResult : Type 0 where
  pub domain : Text
  pub mode : Text
  pub checked_at : Text
  pub a_record_ips : List Text
  pub points_to_vps : Bool
  pub cloudflare_detected : Bool
  pub cloudflare_token_valid : Option Bool
  pub cloudflare_token_scopes : List Text
  pub cloudflare_zone_id : Text
  pub tls_strategy : Text
  pub tls_feasible : Bool
  pub warnings : List Text
  pub errors : List Text

pub record WizardState : Type 0 where
  pub session_id : Text
  pub current_step : WizardStep
  pub status : SessionStatus
  pub inputs : WizardInputs
  pub preflight_result : Option PreflightResult
  pub domain_check_result : Option DomainCheckResult
  pub progress_pct : ℕ
  pub started_at : Text
  pub last_saved_at : Text
  pub committed_at : Text
  pub error_message : Text

abbrev pub no_inputs : WizardInputs
no_inputs = record {
  ssh = none;
  domain_mode = [];
  domain = [];
  cloudflare_token = [];
  nipio_enabled = false;
  first_peer_name = [];
  first_port_expose = none;
}

-- `NewState`, with the new identifier and the time.
unfoldable pub new_state : Text → Text → WizardState
new_state id now = record {
  session_id = id;
  current_step = step_welcome;
  status = status_in_progress;
  inputs = no_inputs;
  preflight_result = none;
  domain_check_result = none;
  progress_pct = 0;
  started_at = now;
  last_saved_at = now;
  committed_at = [];
  error_message = [];
}

-- The map `stepProgress`, with what Go gives for a missing key.
unfoldable pub step_progress : WizardStep → ℕ
step_progress step_welcome = 0
step_progress step_ssh = 12
step_progress step_preflight = 25
step_progress step_domain_mode = 37
step_progress step_domain_check = 50
step_progress step_cloudflare = 62
step_progress step_create_peer = 75
step_progress step_commit = 87
step_progress step_success = 100
step_progress step_error = 0
step_progress (other_step t) = 0

-- The map `backNavAllowed`.
unfoldable pub back_nav_allowed : WizardStep → Bool
back_nav_allowed step_ssh = true
back_nav_allowed step_preflight = true
back_nav_allowed step_domain_mode = true
back_nav_allowed step_domain_check = true
back_nav_allowed step_cloudflare = true
back_nav_allowed step_create_peer = true
back_nav_allowed _ = false

-- The guards of the table.
abbrev pub always : WizardState → Bool
always s = true

abbrev pub has_ssh : WizardState → Bool
has_ssh s = elim s.inputs.ssh [ none ↦ false | some _ ↦ true ]

abbrev pub has_compatible : WizardState → Bool
has_compatible s = elim s.preflight_result [ none ↦ false | some r ↦ r.compatible ]

abbrev pub has_incompatible : WizardState → Bool
has_incompatible s = elim s.preflight_result [ none ↦ false | some r ↦ not r.compatible ]

abbrev pub is_byo : WizardState → Bool
is_byo s = text_eq s.inputs.domain_mode (codes "byo")

abbrev pub is_nipio : WizardState → Bool
is_nipio s = text_eq s.inputs.domain_mode (codes "nipio")

abbrev pub needs_cloudflare : WizardState → Bool
needs_cloudflare s = elim s.domain_check_result [
  | none ↦ false
  | some r ↦ r.cloudflare_detected && r.tls_feasible
]

abbrev pub needs_no_cloudflare : WizardState → Bool
needs_no_cloudflare s = elim s.domain_check_result [
  | none ↦ false
  | some r ↦ r.tls_feasible && not r.cloudflare_detected
]

abbrev pub has_token : WizardState → Bool
has_token s = not (text_eq s.inputs.cloudflare_token [])

abbrev pub has_peer_name : WizardState → Bool
has_peer_name s = not (text_eq s.inputs.first_peer_name [])

pub record Transition : Type 0 where
  pub from : WizardStep
  pub to : WizardStep
  pub guard : WizardState → Bool

abbrev move : WizardStep → WizardStep → (WizardState → Bool) → Transition
move a b g = record { from = a; to = b; guard = g }

unfoldable pub transitions : List Transition
transitions =
    move step_welcome step_ssh always
    ∷ move step_ssh step_welcome always
    ∷ move step_ssh step_preflight has_ssh
    ∷ move step_preflight step_ssh always
    ∷ move step_preflight step_domain_mode has_compatible
    ∷ move step_preflight step_ssh has_incompatible
    ∷ move step_domain_mode step_preflight always
    ∷ move step_domain_mode step_domain_check is_byo
    ∷ move step_domain_mode step_create_peer is_nipio
    ∷ move step_domain_check step_domain_mode always
    ∷ move step_domain_check step_cloudflare needs_cloudflare
    ∷ move step_domain_check step_create_peer needs_no_cloudflare
    ∷ move step_cloudflare step_domain_check always
    ∷ move step_cloudflare step_create_peer has_token
    ∷ move step_create_peer step_cloudflare always
    ∷ move step_create_peer step_domain_mode always
    ∷ move step_create_peer step_commit has_peer_name
    ∷ move step_commit step_success always
    ∷ move step_commit step_error always
    ∷ move step_error step_ssh always
    ∷ move step_error step_welcome always
    ∷ []

-- The loop of `isTransitionAllowed`: the first entry for the two steps decides.
unfoldable pub guard_of : WizardStep → WizardStep → WizardState → List Transition → Bool
guard_of from to s [] = false
guard_of from to s (t ∷ ts) =
    if step_eq t.from from && step_eq t.to to then t.guard s else guard_of from to s ts

unfoldable pub is_transition_allowed : WizardStep → WizardStep → WizardState → Bool
is_transition_allowed from to s = guard_of from to s transitions
