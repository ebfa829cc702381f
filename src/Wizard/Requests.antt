-- ===== src/Wizard/Requests.antt =====
-- The handlers of src/internal/wizard/handlers.go: find the session in its file, change it, save it.
use unet.Base.{Bool, true, false, ◌&&◌, [], Option, none, some, if◌then◌else◌, Text, text_eq}
use unet.Wizard.{
  Result, failed, done, ◌>>=◌, WizardStep, step_welcome, step_preflight, step_domain_check,
  step_commit, is_valid_step, step_eq, SessionStatus, status_in_progress, PreflightResult,
  WizardState, new_state,
}
use unet.Wizard.Reducer.{
  action_step_complete, action_preflight, action_abandon, preflight_data, other_data, WizardAction,
  Reduced, reducer,
}
use unet.Wizard.Files.{Disk, save_state, load_state, delete_state}
use unet.Wizard.Handlers.{
  Environment, Turn, state_error, save_error, delete_error, session_exists, reducer_error,
  validation_error, invalid_step_order, invalid_current, not_found, invalid_step, dns_check_failed,
  no_next_step, missing_ssh, ssh_connect_failed, preflight_failed, Reply, refused, shown, deleted,
  completed, checked, ensure, redact_state, kept_result, resolve_next_step, Applied,
  apply_step_input,
}

-- An action with a step, and one with data.
abbrev pub completing : WizardStep → WizardAction
completing k = record { type = action_step_complete; step = k; payload = other_data; error = [] }

abbrev pub examined : PreflightResult → WizardAction
examined r = record {
  type = action_preflight;
  step = step_welcome;
  payload = preflight_data r;
  error = [];
}

abbrev abandoning : WizardAction
abandoning = record { type = action_abandon; step = step_welcome; payload = other_data; error = [] }

abbrev pub applied : Applied → Result Reply WizardState
applied (failed e) = failed (refused 422 (validation_error e))
applied (done s) = done s

abbrev pub reduced : Reduced → Result Reply WizardState
reduced (failed e) = failed (refused 500 (reducer_error e))
reduced (done s) = done s

abbrev pub port_80 : Option PreflightResult → Bool
port_80 none = true
port_80 (some r) = r.port_80_free

-- The outcome of the check of the domain, kept in the state.
unfoldable pub check_domain : Turn → WizardState → Result Reply WizardState
check_domain turn s = elim (turn.validate_domain s.inputs.domain (port_80 s.preflight_result)) [
  | none ↦ failed (refused 422 dns_check_failed)
  | some r ↦ done record s { domain_check_result = some (kept_result r) }
]

-- A value that must be there.
abbrev pub needed : {A : Type 0} → Option A → Reply → Result Reply A
needed none r = failed r
needed (some a) r = done a

abbrev pub in_progress : SessionStatus → Bool
in_progress status_in_progress = true
in_progress _ = false

-- A state that is found, and is the one that was asked for.
unfoldable pub of_id : Text → Option WizardState → Result Reply WizardState
of_id id none = failed (refused 404 not_found)
of_id id (some s) = if text_eq s.session_id id then done s else failed (refused 404 not_found)

module _ (env : Environment) where
  unfoldable pub find_session : Text → Disk → Result Reply WizardState
  find_session id d = elim (load_state env.codec d) [
    | failed e ↦ failed (refused 500 (state_error e))
    | done o ↦ of_id id o
  ]

  -- `SaveState` and the answer after it.
  unfoldable pub store : Turn → WizardState → Reply → Disk → Disk × Reply
  store turn s reply d =
      let (d', e) = save_state env.codec turn.faults turn.now s d in
      elim e [ none ↦ (d', reply) | some e ↦ (d', refused 500 (save_error e)) ]

  unfoldable pub handle_create_session : Turn → Disk → Disk × Reply
  handle_create_session turn d = elim (load_state env.codec d) [
    | failed e ↦ (d, refused 500 (state_error e))
    | done (some s) ↦ (d, refused 409 (session_exists s.session_id s.current_step))
    | done none ↦
        let s = new_state turn.fresh_id turn.now in
        store turn s (shown record s { last_saved_at = turn.now }) d
  ]

  unfoldable pub handle_get_session : Text → Disk → Reply
  handle_get_session id d = elim (find_session id d) [
    | failed r ↦ r
    | done s ↦
        if step_eq s.current_step step_commit && in_progress s.status
        then shown s
        else shown (redact_state s)
  ]

  unfoldable pub handle_delete_session : Turn → Text → Disk → Disk × Reply
  handle_delete_session turn id d = elim (find_session id d) [
    | failed r ↦ (d, r)
    | done s ↦ elim (reducer (some s) abandoning turn.now) [
      | failed e ↦ (d, refused 500 (reducer_error e))
      | done _ ↦
          let (d', e) = delete_state turn.faults d in
          elim e [ none ↦ (d', deleted id) | some e ↦ (d', refused 500 (delete_error e)) ]
    ]
  ]

  -- `handleStepSubmit` between the loading and the saving: the new state and the next step.
  unfoldable pub advance :
      Turn → WizardStep → Text → WizardState → Result Reply (WizardState × WizardStep)
  advance turn k body s = do
    _ ← ensure (is_valid_step k) (refused 422 invalid_step)
    _ ← ensure (step_eq s.current_step k) (refused 409 (invalid_step_order s.current_step k))
    s1 ← applied (apply_step_input env k body s)
    s2 ← if step_eq k step_domain_check then check_domain turn s1 else done s1
    next ← needed (resolve_next_step s2 k) (refused 422 no_next_step)
    s3 ← reduced (reducer (some s2) (completing next) turn.now)
    done (s3, next)

  unfoldable pub handle_step_submit : Turn → Text → WizardStep → Text → Disk → Disk × Reply
  handle_step_submit turn id k body d = elim (find_session id d >>= advance turn k body) [
    | failed r ↦ (d, r)
    | done (s, next) ↦ store turn s (completed s.session_id k next s.progress_pct) d
  ]

  -- `handlePreflight`, in the same way.
  unfoldable pub examine : Turn → WizardState → Result Reply (WizardState × PreflightResult)
  examine turn s = do
    _ ←
        ensure (step_eq s.current_step step_preflight)
          (refused 409 (invalid_current s.current_step))
    i ← needed s.inputs.ssh (refused 422 missing_ssh)
    _ ← ensure (turn.connects i) (refused 502 ssh_connect_failed)
    r ← needed (turn.run_preflight i.host) (refused 500 preflight_failed)
    s' ← reduced (reducer (some s) (examined r) turn.now)
    done (s', r)

  unfoldable pub handle_preflight : Turn → Text → Disk → Disk × Reply
  handle_preflight turn id d = elim (find_session id d >>= examine turn) [
    | failed r ↦ (d, r)
    | done (s, r) ↦ store turn s (checked (if r.compatible then 200 else 422) r) d
  ]
