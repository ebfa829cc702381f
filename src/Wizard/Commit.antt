-- ===== src/Wizard/Commit.antt =====
-- src/internal/wizard/bootstrap.go: the request that starts the commit, and the goroutine that
-- carries it out. The bootstrapper and its like are given by whether they fail. The end of the
-- goroutine reads the session again from its file, and may come at any time.
pub mod Endings
use unet.Base.{
  ℕ, ◌≡◌, Bool, true, false, not, ◌&&◌, List, [], ◌∷◌, ◌++◌, Option, none, some, if◌then◌else◌,
  Text, codes, text_eq,
}
use unet.Wizard.{
  Result, failed, done, ◌>>=◌, WizardStep, step_welcome, step_commit, step_eq, SessionStatus,
  status_in_progress, PortExpose, WizardState,
}
use unet.Wizard.Reducer.{
  action_commit_start, action_commit_success, action_commit_failure, other_data, WizardAction,
  ReducerError, reducer,
}
use unet.Wizard.Files.{Disk, Faults, FileError, save_state, load_state}
use unet.Wizard.Handlers.{
  Environment, Turn, invalid_current, invalid_status, Reply, refused, committing, ensure,
}
use unet.Wizard.Requests.{in_progress, reduced, find_session, store}

abbrev pub commit_action : WizardAction
commit_action = record {
  type = action_commit_start;
  step = step_welcome;
  payload = other_data;
  error = [];
}

abbrev pub success_action : WizardAction
success_action = record {
  type = action_commit_success;
  step = step_welcome;
  payload = other_data;
  error = [];
}

abbrev pub failure_action : Text → WizardAction
failure_action message = record {
  type = action_commit_failure;
  step = step_welcome;
  payload = other_data;
  error = message;
}

-- The errors of the three services, `none` where one succeeds.
pub record Services : Type 0 where
  pub bootstrap : Option Text
  pub create_peer : Option Text
  pub expose_route : Option Text

-- How the goroutine ends. `panicked` is the nil pointer of the last line of the log.
pub data Ending : Type 0 where
  failure_saved failure_lost success_lost completed_run panicked : Ending

-- The first service to fail, with the message that is kept; the route only if a port is asked for.
unfoldable pub services_error : Services → Option PortExpose → Option Text
services_error v expose = elim v.bootstrap [
  | some e ↦ some e
  | none ↦ elim v.create_peer [
    | some e ↦ some (codes "peer creation failed: " ++ e)
    | none ↦ elim expose [
      | none ↦ none
      | some _ ↦ elim v.expose_route [
        | some e ↦ some (codes "route exposure failed: " ++ e)
        | none ↦ none
      ]
    ]
  ]
]

-- The last line of the log reads the route that was exposed, if any.
abbrev pub last_line : Option PortExpose → Ending
last_line none = panicked
last_line (some _) = completed_run

module _ (env : Environment) where
  unfoldable pub start_commit : Turn → WizardState → Result Reply WizardState
  start_commit turn s = do
    _ ← ensure (step_eq s.current_step step_commit) (refused 409 (invalid_current s.current_step))
    _ ← ensure (in_progress s.status) (refused 409 (invalid_status s.status))
    reduced (reducer (some s) commit_action turn.now)

  -- `handleCommit`. If the answer is `committing`, `runBootstrap` has been started.
  unfoldable pub handle_commit : Turn → Text → Disk → Disk × Reply
  handle_commit turn id d = elim (find_session env id d >>= start_commit turn) [
    | failed r ↦ (d, r)
    | done s ↦ store env turn s (committing id) d
  ]

  -- Reload, reduce and save, which `commitFailure` and the end of `runBootstrap` have in common.
  unfoldable pub settle : Turn → WizardAction → Disk → Disk × Bool
  settle turn a d = elim (load_state env.codec d) [
    | failed e ↦ (d, false)
    | done o ↦ elim (reducer o a turn.now) [
      | failed e ↦ (d, false)
      | done s ↦
          let (d', e) = save_state env.codec turn.faults turn.now s d in
          (d', elim e [ none ↦ true | some _ ↦ false ])
    ]
  ]

  unfoldable pub commit_failure : Turn → Text → Disk → Disk × Ending
  commit_failure turn message d =
      let (d', saved) = settle turn (failure_action message) d in
      (d', if saved then failure_saved else failure_lost)

  -- The end of `runBootstrap` for the state that it was started with.
  unfoldable pub finish : Turn → Services → WizardState → Disk → Disk × Ending
  finish turn v s d = elim (services_error v s.inputs.first_port_expose) [
    | some message ↦ commit_failure turn message d
    | none ↦ elim (load_state env.codec d) [
      | failed e ↦ commit_failure turn (codes "internal state error") d
      | done _ ↦
          let (d', saved) = settle turn success_action d in
          (d', if not saved then success_lost else last_line s.inputs.first_port_expose)
    ]
  ]
