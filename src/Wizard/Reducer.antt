-- ===== src/Wizard/Reducer.antt =====
-- `Reducer` of src/internal/wizard/wizard.go and its handlers. A handler that fails has not
-- changed the state. One reading of the clock stands for those of one call.
pub mod Invariant
use unet.Base.{
  ℕ, ◌≡◌, Bool, true, false, not, ◌&&◌, List, [], ◌∷◌, Option, none, some, if◌then◌else◌, Text,
  text_eq,
}
use unet.Wizard.{
  Result, failed, done, WizardStep, step_welcome, step_ssh, step_preflight, step_domain_mode,
  step_domain_check, step_cloudflare, step_create_peer, step_commit, step_success, step_error,
  other_step, is_valid_step, step_eq, SessionStatus, status_in_progress, status_committed,
  status_abandoned, other_status, PreflightResult, DomainCheckResult, WizardState, step_progress,
  back_nav_allowed, is_transition_allowed,
}

pub data ActionType : Type 0 where
  action_start_session action_step_complete action_step_error action_preflight : ActionType
  action_domain_check action_step_back action_commit_start action_commit_success : ActionType
  action_commit_failure action_retry action_abandon : ActionType
  other_action : Text → ActionType

-- The field `Data`, of type interface{}.
pub data Payload : Type 0 where
  preflight_data : PreflightResult → Payload
  domain_check_data : DomainCheckResult → Payload
  other_data : Payload

pub record WizardAction : Type 0 where
  pub type : ActionType
  pub step : WizardStep
  pub payload : Payload
  pub error : Text

pub data ReducerError : Type 0 where
  state_is_nil invalid_preflight_data invalid_domain_check_data : ReducerError
  unknown_action : ActionType → ReducerError
  invalid_step : WizardStep → ReducerError
  transition_error : WizardStep → WizardStep → ReducerError

abbrev pub Reduced : Type 0
Reduced = Result ReducerError WizardState

-- The state at a step, with the progress of the step.
abbrev pub at_step : WizardStep → Text → WizardState → WizardState
at_step k now s = record s { current_step = k; progress_pct = step_progress k; last_saved_at = now }

-- No status, or in progress.
abbrev pub is_startable : SessionStatus → Bool
is_startable status_in_progress = true
is_startable status_committed = false
is_startable status_abandoned = false
is_startable (other_status t) = text_eq t []

unfoldable pub handle_start_session : WizardState → Reduced
handle_start_session s =
    if is_startable s.status
    then done record s {
      current_step = step_welcome;
      status = status_in_progress;
      progress_pct = step_progress step_welcome;
    }
    else failed (transition_error s.current_step step_welcome)

unfoldable pub handle_step_complete : WizardStep → Text → WizardState → Reduced
handle_step_complete target now s =
    if not (is_valid_step target)
    then failed (invalid_step target)
    else if not (is_transition_allowed s.current_step target s)
    then failed (transition_error s.current_step target)
    else done (at_step target now s)

unfoldable pub handle_step_back : WizardStep → Text → WizardState → Reduced
handle_step_back target now s =
    if not (back_nav_allowed s.current_step)
    then failed (transition_error s.current_step target)
    else if not (is_valid_step target)
    then failed (invalid_step target)
    else done (at_step target now s)

unfoldable pub set_preflight : PreflightResult → Text → WizardState → WizardState
set_preflight r now s =
    let s' = record s { preflight_result = some r; last_saved_at = now } in
    if r.compatible then at_step step_domain_mode now s' else s'

unfoldable pub handle_preflight_result : Payload → Text → WizardState → Reduced
handle_preflight_result p now s =
    if not (step_eq s.current_step step_preflight)
    then failed (transition_error s.current_step step_preflight)
    else elim p [
      | preflight_data r ↦ done (set_preflight r now s)
      | _ ↦ failed invalid_preflight_data
    ]

unfoldable pub set_domain_check : DomainCheckResult → Text → WizardState → WizardState
set_domain_check r now s =
    let s' = record s { domain_check_result = some r; last_saved_at = now } in
    if not r.tls_feasible
    then s'
    else if r.cloudflare_detected
    then at_step step_cloudflare now s'
    else at_step step_create_peer now s'

unfoldable pub handle_domain_check_result : Payload → Text → WizardState → Reduced
handle_domain_check_result p now s =
    if not (step_eq s.current_step step_domain_check)
    then failed (transition_error s.current_step step_domain_check)
    else elim p [
      | domain_check_data r ↦ done (set_domain_check r now s)
      | _ ↦ failed invalid_domain_check_data
    ]

unfoldable pub handle_commit_start : Text → WizardState → Reduced
handle_commit_start now s =
    if not (step_eq s.current_step step_commit)
    then failed (transition_error s.current_step step_commit)
    else done record s { last_saved_at = now }

unfoldable pub handle_commit_success : Text → WizardState → Reduced
handle_commit_success now s =
    if not (step_eq s.current_step step_commit)
    then failed (transition_error s.current_step step_success)
    else done record s {
      current_step = step_success;
      status = status_committed;
      progress_pct = 100;
      committed_at = now;
      last_saved_at = now;
    }

unfoldable pub handle_commit_failure : Text → Text → WizardState → Reduced
handle_commit_failure message now s =
    if not (step_eq s.current_step step_commit)
    then failed (transition_error s.current_step step_error)
    else done record s { current_step = step_error; error_message = message; last_saved_at = now }

unfoldable pub handle_retry : Text → WizardState → Reduced
handle_retry now s =
    if not (step_eq s.current_step step_error)
    then failed (transition_error s.current_step step_ssh)
    else done record s {
      current_step = step_ssh;
      error_message = [];
      preflight_result = none;
      domain_check_result = none;
      progress_pct = step_progress step_ssh;
      last_saved_at = now;
    }

unfoldable pub handle_abandon : Text → WizardState → Reduced
handle_abandon now s = done record s { status = status_abandoned; last_saved_at = now }

abbrev pub reduce : WizardAction → Text → WizardState → Reduced
reduce a now s = elim a.type [
  | action_start_session ↦ handle_start_session s
  | action_step_complete ↦ handle_step_complete a.step now s
  | action_step_back ↦ handle_step_back a.step now s
  | action_preflight ↦ handle_preflight_result a.payload now s
  | action_domain_check ↦ handle_domain_check_result a.payload now s
  | action_commit_start ↦ handle_commit_start now s
  | action_commit_success ↦ handle_commit_success now s
  | action_commit_failure ↦ handle_commit_failure a.error now s
  | action_retry ↦ handle_retry now s
  | action_abandon ↦ handle_abandon now s
  | t ↦ failed (unknown_action t)
]

unfoldable pub reducer : Option WizardState → WizardAction → Text → Reduced
reducer none a now = failed state_is_nil
reducer (some s) a now = reduce a now s
