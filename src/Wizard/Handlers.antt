-- ===== src/Wizard/Handlers.antt =====
-- src/internal/wizard/handlers.go: the requests that create, show and delete the session, submit a
-- step and run the preflight check. A request is one step on the disk. What varies from one to the
-- next is a `Turn`: the time, a new identifier, the calls of the file system that fail, and what
-- the packages dnscheck and preflight and the SSH host answer.
use unet.Base.{
  ℕ, Bool, not, ◌&&◌, [], ◌++◌, Option, none, some, ltb, if◌then◌else◌, Text, codes, text_eq,
  length, take,
}
use unet.Base.Int.{pos, ltb_ℤ}
use unet.Wizard.{
  Result, failed, done, WizardStep, step_welcome, step_ssh, step_preflight, step_domain_mode,
  step_domain_check, step_cloudflare, step_create_peer, step_commit, SessionStatus, SshInput,
  PortExpose, WizardInputs, PreflightResult, DomainCheckResult, WizardState,
}
use unet.Wizard.Reducer.{ReducerError}
use unet.Wizard.Files.{Codec, Faults, FileError}

pub record CloudflareBody : Type 0 where
  pub token : Text
  pub enabled : Bool

pub record PeerBody : Type 0 where
  pub peer_name : Text
  pub expose_port : Option PortExpose

-- The libraries' part: JSON, for the file and for the body of each step.
pub record Environment : Type 0 where
  pub codec : Codec
  pub decode_ssh : Text → Option SshInput
  pub decode_mode : Text → Option Text
  pub decode_domain : Text → Option Text
  pub decode_cloudflare : Text → Option CloudflareBody
  pub decode_peer : Text → Option PeerBody

pub record Turn : Type 0 where
  pub now : Text
  pub fresh_id : Text
  pub faults : Faults
  pub validate_domain : Text → Bool → Option DomainCheckResult
  pub connects : SshInput → Bool
  pub run_preflight : Text → Option PreflightResult

pub data InputError : Type 0 where
  invalid_body host_required port_required user_required auth_type_required : InputError
  mode_invalid domain_required token_required peer_name_required no_input : InputError

pub data Refusal : Type 0 where
  state_error save_error delete_error : FileError → Refusal
  session_exists : Text → WizardStep → Refusal
  reducer_error : ReducerError → Refusal
  validation_error : InputError → Refusal
  invalid_step_order : WizardStep → WizardStep → Refusal
  invalid_current : WizardStep → Refusal
  invalid_status : SessionStatus → Refusal
  not_found invalid_step dns_check_failed no_next_step missing_ssh : Refusal
  ssh_connect_failed preflight_failed : Refusal

pub data Reply : Type 0 where
  refused : ℕ → Refusal → Reply
  shown : WizardState → Reply
  deleted : Text → Reply
  completed : Text → WizardStep → WizardStep → ℕ → Reply
  checked : ℕ → PreflightResult → Reply
  committing : Text → Reply

-- `if !ok { ...; return }`.
abbrev pub ensure : Bool → Reply → Result Reply Unit
ensure b r = if b then done tt else failed r

-- `[REDACTED]` for the password, and the first eight bytes of the token.
unfoldable pub redact_ssh : SshInput → SshInput
redact_ssh i = if text_eq i.password [] then i else record i { password = codes "[REDACTED]" }

unfoldable pub redact_token : Text → Text
redact_token t =
    if text_eq t []
    then t
    else if ltb 8 (length t)
    then take 8 t ++ codes "..."
    else t ++ codes "..."

unfoldable pub redact_state : WizardState → WizardState
redact_state s = record s {
  inputs = record s.inputs {
    ssh = (elim s.inputs.ssh [ none ↦ none | some i ↦ some (redact_ssh i) ]);
    cloudflare_token = redact_token s.inputs.cloudflare_token;
  };
}

-- What the handler keeps of the answer of dnscheck.
abbrev pub kept_result : DomainCheckResult → DomainCheckResult
kept_result r = record r { cloudflare_token_scopes = []; cloudflare_zone_id = [] }

abbrev pub after_domain_check : Option DomainCheckResult → WizardStep
after_domain_check none = step_create_peer
after_domain_check (some r) =
    if r.cloudflare_detected && r.tls_feasible
    then step_cloudflare
    else if r.tls_feasible
    then step_create_peer
    else step_create_peer

unfoldable pub resolve_next_step : WizardState → WizardStep → Option WizardStep
resolve_next_step s step_welcome = some step_ssh
resolve_next_step s step_ssh = some step_preflight
resolve_next_step s step_domain_mode =
    if text_eq s.inputs.domain_mode (codes "nipio")
    then some step_create_peer
    else some step_domain_check
resolve_next_step s step_domain_check = some (after_domain_check s.domain_check_result)
resolve_next_step s step_cloudflare = some step_create_peer
resolve_next_step s step_create_peer = some step_commit
resolve_next_step s _ = none

abbrev pub with_inputs : WizardInputs → WizardState → WizardState
with_inputs i s = record s { inputs = i }

abbrev pub Applied : Type 0
Applied = Result InputError WizardState

unfoldable pub apply_ssh : SshInput → WizardState → Applied
apply_ssh i s =
    if text_eq i.host []
    then failed host_required
    else if not (ltb_ℤ (pos 0) i.port)
    then failed port_required
    else if text_eq i.user []
    then failed user_required
    else if text_eq i.auth_type []
    then failed auth_type_required
    else done (with_inputs (record s.inputs { ssh = some i }) s)

unfoldable pub apply_mode : Text → WizardState → Applied
apply_mode m s =
    if not (text_eq m (codes "byo")) && not (text_eq m (codes "nipio"))
    then failed mode_invalid
    else done (
        with_inputs (record s.inputs { domain_mode = m; nipio_enabled = text_eq m (codes "nipio") })
          s)

unfoldable pub apply_domain : Text → WizardState → Applied
apply_domain t s =
    if text_eq t []
    then failed domain_required
    else done (with_inputs (record s.inputs { domain = t }) s)

unfoldable pub apply_cloudflare : CloudflareBody → WizardState → Applied
apply_cloudflare b s =
    if b.enabled && text_eq b.token []
    then failed token_required
    else done (with_inputs (record s.inputs { cloudflare_token = b.token }) s)

unfoldable pub apply_peer : PeerBody → WizardState → Applied
apply_peer b s =
    if text_eq b.peer_name []
    then failed peer_name_required
    else done (
        with_inputs
          (record s.inputs { first_peer_name = b.peer_name; first_port_expose = b.expose_port }) s)

-- A body that does not decode is refused; any other is applied.
abbrev pub decoded {ℓ} : {A : Type ℓ} → Option A → (A → Applied) → Applied
decoded none f = failed invalid_body
decoded (some a) f = f a

module _ (env : Environment) where
  unfoldable pub apply_step_input : WizardStep → Text → WizardState → Applied
  apply_step_input step_welcome body s = done s
  apply_step_input step_ssh body s = decoded (env.decode_ssh body) (λ i. apply_ssh i s)
  apply_step_input step_domain_mode body s = decoded (env.decode_mode body) (λ m. apply_mode m s)
  apply_step_input step_domain_check body s =
      decoded (env.decode_domain body) (λ t. apply_domain t s)
  apply_step_input step_cloudflare body s =
      decoded (env.decode_cloudflare body) (λ b. apply_cloudflare b s)
  apply_step_input step_create_peer body s = decoded (env.decode_peer body) (λ b. apply_peer b s)
  apply_step_input _ body s = failed no_input
