-- ===== src/Wizard/Sample.antt =====
-- A toy JSON for the state of src/internal/wizard: each part is written so that it reads back.
use unet.Base.{ℕ, ◌≡◌, refl, sym, ap, ◌∙◌, Bool, List, [], ◌∷◌, Option, none, some, Text, get_elem?}
use unet.Base.Int.{ℤ}
use unet.Samples.{some_inj}
use unet.Samples.Enc.{Enc, text, nat, via, ◌&◌, bool, list, option, int}
use unet.Wizard.{
  WizardStep, step_welcome, step_ssh, step_preflight, step_domain_mode, step_domain_check,
  step_cloudflare, step_create_peer, step_commit, step_success, step_error, other_step,
  SessionStatus, status_in_progress, status_committed, status_abandoned, other_status, SshInput,
  PortExpose, WizardInputs, PreflightResult, DomainCheckResult, WizardState,
}
use unet.Wizard.Files.{Codec}

abbrev all_steps : List WizardStep
all_steps =
    step_welcome ∷ step_ssh ∷ step_preflight ∷ step_domain_mode ∷ step_domain_check
    ∷ step_cloudflare ∷ step_create_peer ∷ step_commit ∷ step_success ∷ step_error ∷ []

abbrev to_step : ℕ × Text → WizardStep
to_step (n, t) = elim (get_elem? all_steps n) [ none ↦ other_step t | some k ↦ k ]

abbrev of_step : WizardStep → ℕ × Text
of_step step_welcome = (0, [])
of_step step_ssh = (1, [])
of_step step_preflight = (2, [])
of_step step_domain_mode = (3, [])
of_step step_domain_check = (4, [])
of_step step_cloudflare = (5, [])
of_step step_create_peer = (6, [])
of_step step_commit = (7, [])
of_step step_success = (8, [])
of_step step_error = (9, [])
of_step (other_step t) = (10, t)

pub step-back : (k : WizardStep) → to_step (of_step k) ≡ k
step-back step_welcome = refl
step-back step_ssh = refl
step-back step_preflight = refl
step-back step_domain_mode = refl
step-back step_domain_check = refl
step-back step_cloudflare = refl
step-back step_create_peer = refl
step-back step_commit = refl
step-back step_success = refl
step-back step_error = refl
step-back (other_step t) = refl

abbrev all_statuses : List SessionStatus
all_statuses = status_in_progress ∷ status_committed ∷ status_abandoned ∷ []

abbrev to_status : ℕ × Text → SessionStatus
to_status (n, t) = elim (get_elem? all_statuses n) [ none ↦ other_status t | some k ↦ k ]

abbrev of_status : SessionStatus → ℕ × Text
of_status status_in_progress = (0, [])
of_status status_committed = (1, [])
of_status status_abandoned = (2, [])
of_status (other_status t) = (3, t)

pub status-back : (k : SessionStatus) → to_status (of_status k) ≡ k
status-back status_in_progress = refl
status-back status_committed = refl
status-back status_abandoned = refl
status-back (other_status t) = refl

abbrev SshInputParts : Type 0
SshInputParts = Text × (ℤ × (Text × (Text × (Text × Text))))

abbrev ssh_input : Enc SshInput
ssh_input =
    via (text & int & text & text & text & text)
      (λ (p : SshInputParts). record {
        host = p.0;
        port = p.1.0;
        user = p.1.1.0;
        auth_type = p.1.1.1.0;
        key_path = p.1.1.1.1.0;
        password = p.1.1.1.1.1;
      })
      (λ (s : SshInput). (s.host, (s.port, (s.user, (s.auth_type, (s.key_path, s.password))))))
      (λ s. refl)

abbrev PortExposeParts : Type 0
PortExposeParts = ℤ × Text

abbrev port_expose : Enc PortExpose
port_expose =
    via (int & text) (λ (p : PortExposeParts). record { local_port = p.0; subdomain = p.1 })
      (λ (s : PortExpose). (s.local_port, s.subdomain)) (λ s. refl)

abbrev WizardInputsParts : Type 0
WizardInputsParts = Option SshInput × (Text × (Text × (Text × (Bool × (Text × Option PortExpose)))))

abbrev wizard_inputs : Enc WizardInputs
wizard_inputs =
    via ((option ssh_input) & text & text & text & bool & text & (option port_expose))
      (λ (p : WizardInputsParts). record {
        ssh = p.0;
        domain_mode = p.1.0;
        domain = p.1.1.0;
        cloudflare_token = p.1.1.1.0;
        nipio_enabled = p.1.1.1.1.0;
        first_peer_name = p.1.1.1.1.1.0;
        first_port_expose = p.1.1.1.1.1.1;
      })
      (λ (s : WizardInputs). (
        s.ssh,
        (
          s.domain_mode,
          (
            s.domain,
            (s.cloudflare_token, (s.nipio_enabled, (s.first_peer_name, s.first_port_expose))),
          ),
        ),
      ))
      (λ s. refl)

abbrev PreflightParts : Type 0
PreflightParts =
    Text
    × (Text
        × (Text
            × (Text
                × (Text
                    × (Text
                        × (ℤ
                            × (Bool
                                × (Bool
                                    × (Bool
                                        × (Bool
                                            × (Bool
                                                × (Bool
                                                    × (Bool × (List Text × List Text))))))))))))))

abbrev preflight : Enc PreflightResult
preflight =
    via
      (text
        & text
        & text
        & text
        & text
        & text
        & int
        & bool
        & bool
        & bool
        & bool
        & bool
        & bool
        & bool
        & (list text)
        & (list text))
      (λ (p : PreflightParts). record {
        target_host = p.0;
        checked_at = p.1.0;
        distro = p.1.1.0;
        distro_version = p.1.1.1.0;
        arch = p.1.1.1.1.0;
        disk_free_gb = p.1.1.1.1.1.0;
        ram_mb = p.1.1.1.1.1.1.0;
        has_sudo = p.1.1.1.1.1.1.1.0;
        has_docker = p.1.1.1.1.1.1.1.1.0;
        docker_running = p.1.1.1.1.1.1.1.1.1.0;
        port_443_free = p.1.1.1.1.1.1.1.1.1.1.0;
        port_80_free = p.1.1.1.1.1.1.1.1.1.1.1.0;
        port_wg_free = p.1.1.1.1.1.1.1.1.1.1.1.1.0;
        compatible = p.1.1.1.1.1.1.1.1.1.1.1.1.1.0;
        warnings = p.1.1.1.1.1.1.1.1.1.1.1.1.1.1.0;
        blocking_failures = p.1.1.1.1.1.1.1.1.1.1.1.1.1.1.1;
      })
      (λ (s : PreflightResult). (
        s.target_host,
        (
          s.checked_at,
          (
            s.distro,
            (
              s.distro_version,
              (
                s.arch,
                (
                  s.disk_free_gb,
                  (
                    s.ram_mb,
                    (
                      s.has_sudo,
                      (
                        s.has_docker,
                        (
                          s.docker_running,
                          (
                            s.port_443_free,
                            (
                              s.port_80_free,
                              (s.port_wg_free, (s.compatible, (s.warnings, s.blocking_failures))),
                            ),
                          ),
                        ),
                      ),
                    ),
                  ),
                ),
              ),
            ),
          ),
        ),
      ))
      (λ s. refl)

abbrev DomainCheckParts : Type 0
DomainCheckParts =
    Text
    × (Text
        × (Text
            × (List Text
                × (Bool
                    × (Bool
                        × (Option Bool
                            × (List Text × (Text × (Text × (Bool × (List Text × List Text)))))))))))

abbrev domain_check : Enc DomainCheckResult
domain_check =
    via
      (text
        & text
        & text
        & (list text)
        & bool
        & bool
        & (option bool)
        & (list text)
        & text
        & text
        & bool
        & (list text)
        & (list text))
      (λ (p : DomainCheckParts). record {
        domain = p.0;
        mode = p.1.0;
        checked_at = p.1.1.0;
        a_record_ips = p.1.1.1.0;
        points_to_vps = p.1.1.1.1.0;
        cloudflare_detected = p.1.1.1.1.1.0;
        cloudflare_token_valid = p.1.1.1.1.1.1.0;
        cloudflare_token_scopes = p.1.1.1.1.1.1.1.0;
        cloudflare_zone_id = p.1.1.1.1.1.1.1.1.0;
        tls_strategy = p.1.1.1.1.1.1.1.1.1.0;
        tls_feasible = p.1.1.1.1.1.1.1.1.1.1.0;
        warnings = p.1.1.1.1.1.1.1.1.1.1.1.0;
        errors = p.1.1.1.1.1.1.1.1.1.1.1.1;
      })
      (λ (s : DomainCheckResult). (
        s.domain,
        (
          s.mode,
          (
            s.checked_at,
            (
              s.a_record_ips,
              (
                s.points_to_vps,
                (
                  s.cloudflare_detected,
                  (
                    s.cloudflare_token_valid,
                    (
                      s.cloudflare_token_scopes,
                      (
                        s.cloudflare_zone_id,
                        (s.tls_strategy, (s.tls_feasible, (s.warnings, s.errors))),
                      ),
                    ),
                  ),
                ),
              ),
            ),
          ),
        ),
      ))
      (λ s. refl)

abbrev step : Enc WizardStep
step = via (nat & text) to_step of_step step-back

abbrev status : Enc SessionStatus
status = via (nat & text) to_status of_status status-back

abbrev WizardStateParts : Type 0
WizardStateParts =
    Text
    × (WizardStep
        × (SessionStatus
            × (WizardInputs
                × (Option PreflightResult
                    × (Option DomainCheckResult × (ℕ × (Text × (Text × (Text × Text)))))))))

abbrev wizard_state : Enc WizardState
wizard_state =
    via
      (text
        & step
        & status
        & wizard_inputs
        & (option preflight)
        & (option domain_check)
        & nat
        & text
        & text
        & text
        & text)
      (λ (p : WizardStateParts). record {
        session_id = p.0;
        current_step = p.1.0;
        status = p.1.1.0;
        inputs = p.1.1.1.0;
        preflight_result = p.1.1.1.1.0;
        domain_check_result = p.1.1.1.1.1.0;
        progress_pct = p.1.1.1.1.1.1.0;
        started_at = p.1.1.1.1.1.1.1.0;
        last_saved_at = p.1.1.1.1.1.1.1.1.0;
        committed_at = p.1.1.1.1.1.1.1.1.1.0;
        error_message = p.1.1.1.1.1.1.1.1.1.1;
      })
      (λ (s : WizardState). (
        s.session_id,
        (
          s.current_step,
          (
            s.status,
            (
              s.inputs,
              (
                s.preflight_result,
                (
                  s.domain_check_result,
                  (
                    s.progress_pct,
                    (s.started_at, (s.last_saved_at, (s.committed_at, s.error_message))),
                  ),
                ),
              ),
            ),
          ),
        ),
      ))
      (λ s. refl)

abbrev whole : Option (WizardState × Text) → Option WizardState
whole none = none
whole (some (s, r)) = some s

abbrev pub state_codec : Codec
state_codec = record {
  marshal = λ s. some (wizard_state.put s []);
  unmarshal = λ t. whole (wizard_state.get t);
  marshal_back = λ s e.
      ap (λ t. whole (wizard_state.get t)) (sym (some_inj e)) ∙ ap whole (wizard_state.back s []);
  marshal_full = λ s e. λ z. (let q = some_inj e ∙ z in cc q);
}
