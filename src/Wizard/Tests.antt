-- ===== src/Wizard/Tests.antt =====
-- Concrete sessions of src/internal/wizard.
use unet.Base.{◌≡◌, refl, true, false, List, [], ◌∷◌, Option, none, some, Text, codes, text_eq}
use unet.Base.Int.{pos}
use unet.Wizard.{
  Result, done, WizardStep, step_welcome, step_ssh, step_domain_mode, step_create_peer, step_commit,
  is_valid_step, SshInput, PreflightResult, WizardState, new_state, guard_of, transitions,
  is_transition_allowed, step_progress,
}
use unet.Wizard.Reducer.{
  WizardAction, action_step_back, other_data, reducer, handle_step_complete, handle_commit_start,
  handle_preflight_result, set_preflight,
}
use unet.Wizard.Reducer.Invariant.{IsOrderly, run_actions, run_actions-IsOrderly}
use unet.Wizard.Files.{
  Disk, Faults, FileError, is_uuid, hex_run, hyphen, save_state, load_state, parse_state,
}
use unet.Wizard.Handlers.{
  Environment, Turn, resolve_next_step, apply_ssh, apply_mode, apply_peer, apply_step_input,
}
use unet.Wizard.Requests.{
  completing, of_id, find_session, store, handle_create_session, advance, handle_step_submit,
  examine, handle_preflight,
}
use unet.Wizard.Commit.{Services, services_error, start_commit, handle_commit, finish}
use unet.Wizard.Commit.Endings.{Verdict, outcome, finish-outcome}
use unet.Wizard.Service.{
  Event, creation, preflight, commit, submission, handle, handle_all, IsReady,
}
use unet.Wizard.Service.Readiness.{handle_all-IsReady}
use unet.Wizard.Sample.{state_codec}

abbrev session : Text
session = codes "0f8fad5b-d9cb-469f-a165-70867728950e"

abbrev noon : Text
noon = codes "2025-05-05T12:00:00Z"

abbrev no_faults : Faults
no_faults = record {
  mkdir = false;
  create = false;
  write = false;
  chmod = false;
  close = false;
  rename = false;
  remove_temp = false;
  remove = false;
}

abbrev host : SshInput
host = record {
  host = codes "vps";
  port = pos 22;
  user = codes "root";
  auth_type = codes "key";
  key_path = [];
  password = [];
}

abbrev good : PreflightResult
good = record {
  target_host = codes "vps";
  checked_at = noon;
  distro = codes "debian";
  distro_version = codes "12";
  arch = codes "amd64";
  disk_free_gb = codes "10.5";
  ram_mb = pos 2048;
  has_sudo = true;
  has_docker = true;
  docker_running = true;
  port_443_free = true;
  port_80_free = true;
  port_wg_free = true;
  compatible = true;
  warnings = [];
  blocking_failures = [];
}

-- Every body says the same.
abbrev env : Environment
env = record {
  codec = state_codec;
  decode_ssh = λ b. some host;
  decode_mode = λ b. some (codes "nipio");
  decode_domain = λ b. none;
  decode_cloudflare = λ b. none;
  decode_peer = λ b. some record { peer_name = codes "me"; expose_port = none };
}

abbrev turn : Turn
turn = record {
  now = noon;
  fresh_id = session;
  faults = no_faults;
  validate_domain = λ d p. none;
  connects = λ i. true;
  run_preflight = λ h. some good;
}

abbrev nothing : Disk
nothing = record { file = none; readable = true; temps = [] }

abbrev going : WizardStep → WizardAction
going k = record { type = action_step_back; step = k; payload = other_data; error = [] }

run_actions-IsOrderly_example : IsOrderly (
    run_actions
      ((completing step_ssh, noon)
        ∷ (going step_welcome, noon)
        ∷ (completing step_commit, noon)
        ∷ [])
      (new_state session noon))
run_actions-IsOrderly_example =
    run_actions-IsOrderly session noon (
      (completing step_ssh, noon)
      ∷ (going step_welcome, noon)
      ∷ (completing step_commit, noon)
      ∷ [])

abbrev first : WizardState
first = new_state session noon

abbrev flow : List Event
flow =
    creation turn
    ∷ submission turn session step_welcome []
    ∷ submission turn session step_ssh []
    ∷ preflight turn session
    ∷ submission turn session step_domain_mode []
    ∷ submission turn session step_create_peer []
    ∷ commit turn session
    ∷ []

abbrev run : Disk
run = handle_all env flow nothing

abbrev loaded : Result FileError (Option WizardState) → WizardState
loaded (done (some s)) = s
loaded _ = first

reaches_commit : (loaded (load_state env.codec run)).current_step ≡ step_commit
unfolding handle_all handle handle_create_session handle_step_submit handle_preflight handle_commit
    find_session of_id store advance examine start_commit apply_step_input apply_ssh apply_mode
    apply_peer resolve_next_step reducer handle_step_complete handle_commit_start
    handle_preflight_result set_preflight new_state is_uuid hex_run hyphen is_valid_step save_state
    load_state parse_state is_transition_allowed guard_of transitions step_progress text_eq
reaches_commit = refl

abbrev ready : WizardState
ready = loaded (load_state env.codec run)

handle_all-IsReady_example : IsReady ready
unfolding handle_all handle handle_create_session handle_step_submit handle_preflight handle_commit
    find_session of_id store advance examine start_commit apply_step_input apply_ssh apply_mode
    apply_peer resolve_next_step reducer handle_step_complete handle_commit_start
    handle_preflight_result set_preflight new_state is_uuid hex_run hyphen is_valid_step save_state
    load_state parse_state is_transition_allowed guard_of transitions step_progress text_eq
handle_all-IsReady_example = handle_all-IsReady env flow nothing ready refl refl

abbrev fine : Services
fine = record { bootstrap = none; create_peer = none; expose_route = none }

-- The first peer has no port to expose, and the end of the commit is a panic.
finish-outcome_example :
    (verdict : Option Text) × Verdict fine ready.inputs.first_port_expose verdict
    × (load_state env.codec (finish env turn fine ready run).0
        ≡ done (some (outcome verdict ready.inputs.first_port_expose noon ready).0))
    × ((finish env turn fine ready run).1
        ≡ (outcome verdict ready.inputs.first_port_expose noon ready).1)
unfolding handle_all handle handle_create_session handle_step_submit handle_preflight handle_commit
    find_session of_id store advance examine start_commit apply_step_input apply_ssh apply_mode
    apply_peer resolve_next_step reducer handle_step_complete handle_commit_start
    handle_preflight_result set_preflight new_state is_uuid hex_run hyphen is_valid_step save_state
    load_state parse_state is_transition_allowed guard_of transitions step_progress text_eq
    services_error
finish-outcome_example = finish-outcome env turn fine ready ready run refl refl refl (λ t. refl)
