-- ===== src/Wizard/Reducer/Invariant.antt =====
-- What holds of a session in whichever order it is given actions, by `Reducer` of
-- src/internal/wizard/wizard.go.
use unet.Base.{
  ℕ, ◌≡◌, ◌≢◌, refl, ap, ◌∙◌, true, false, List, [], ◌∷◌, some, ◌⊎◌, inl, inr, Text, Bool-cases,
}
use unet.Wizard.{
  failed, done, WizardStep, step_welcome, step_ssh, step_preflight, step_domain_mode,
  step_domain_check, step_cloudflare, step_create_peer, step_commit, step_success, step_error,
  other_step, is_valid_step, step_eq, status_committed, PreflightResult, DomainCheckResult,
  WizardState, step_progress, new_state, back_nav_allowed, guard_of, transitions,
  is_transition_allowed,
}
use unet.Wizard.Reducer.{
  ActionType, action_start_session, action_step_complete, action_step_error, action_preflight,
  action_domain_check, action_step_back, action_commit_start, action_commit_success,
  action_commit_failure, action_retry, action_abandon, other_action, Payload, preflight_data,
  domain_check_data, other_data, WizardAction, Reduced, at_step, is_startable,
  invalid_preflight_data, invalid_domain_check_data, handle_start_session, handle_step_complete,
  handle_step_back, set_preflight, handle_preflight_result, set_domain_check,
  handle_domain_check_result, handle_commit_start, handle_commit_success, handle_commit_failure,
  handle_retry, handle_abandon, reduce, reducer,
}

-- The progress that is shown is that of the step, but for the 87 that a failed commit leaves.
abbrev HasProgress : WizardStep → ℕ → Type 0
HasProgress k n = (n ≡ step_progress k) ⊎ ((k ≡ step_error) × (n ≡ 87))

-- A step of the ten, a progress that fits, and a commit that has succeeded only at the end.
pub record IsOrderly (s : WizardState) : Type 0 where
  pub valid : is_valid_step s.current_step ≡ true
  pub progress : HasProgress s.current_step s.progress_pct
  pub committed : s.status ≡ status_committed → s.current_step ≡ step_success

moved :
    (k : WizardStep) (now : Text) (s : WizardState)
    → is_valid_step k ≡ true
    → s.current_step ≢ step_success
    → IsOrderly s
    → IsOrderly (at_step k now s)
moved k now s v n h = record {
  valid = v;
  progress = inl refl;
  committed = λ c. absurd (n (h.committed c));
}

no_move_from_success :
    (k : WizardStep) (s : WizardState) → is_transition_allowed step_success k s ≡ false
unfolding is_transition_allowed guard_of transitions
no_move_from_success k s = refl

no_back_from_success : back_nav_allowed step_success ≡ false
unfolding back_nav_allowed
no_back_from_success = refl

-- A handler that fails leaves the state.
abbrev pub after : Reduced → WizardState → WizardState
after (failed e) s = s
after (done t) s = t

handle_step_complete-IsOrderly :
    (k : WizardStep) (now : Text) (s : WizardState)
    → IsOrderly s
    → IsOrderly (after (handle_step_complete k now s) s)
unfolding handle_step_complete
handle_step_complete-IsOrderly k now s h = elim (Bool-cases (is_valid_step k)) [
  | inr v ↦ rw v h
  | inl v ↦ elim (Bool-cases (is_transition_allowed s.current_step k s)) [
    | inr a ↦ rw (v, a) h
    | inl a ↦
        rw (v, a)
          (moved k now s v (λ e. (let q = rw e at a in absurd (cc (q, no_move_from_success k s))))
            h)
  ]
]

handle_step_back-IsOrderly :
    (k : WizardStep) (now : Text) (s : WizardState)
    → IsOrderly s
    → IsOrderly (after (handle_step_back k now s) s)
unfolding handle_step_back
handle_step_back-IsOrderly k now s h = elim (Bool-cases (back_nav_allowed s.current_step)) [
  | inr a ↦ rw a h
  | inl a ↦ elim (Bool-cases (is_valid_step k)) [
    | inr v ↦ rw (a, v) h
    | inl v ↦ rw (a, v) (moved k now s v (λ e. absurd (cc (a, e, no_back_from_success))) h)
  ]
]

-- A result of a check is stored at a step that is not the last, which may move the session.
set_preflight-IsOrderly :
    (r : PreflightResult) (now : Text) (s : WizardState)
    → step_eq s.current_step step_preflight ≡ true
    → IsOrderly s
    → IsOrderly (set_preflight r now s)
unfolding set_preflight is_valid_step
set_preflight-IsOrderly r now s a h = elim (Bool-cases r.compatible) [
  | inl c ↦ rw c (record {
    valid = refl;
    progress = inl refl;
    committed = λ d. (let q = rw (h.committed d) at a in cc q);
  })
  | inr c ↦ rw c record { valid = h.valid; progress = h.progress; committed = h.committed }
]

set_domain_check-IsOrderly :
    (r : DomainCheckResult) (now : Text) (s : WizardState)
    → step_eq s.current_step step_domain_check ≡ true
    → IsOrderly s
    → IsOrderly (set_domain_check r now s)
unfolding set_domain_check is_valid_step
set_domain_check-IsOrderly r now s a h = elim (Bool-cases r.tls_feasible) [
  | inr f ↦ rw f record { valid = h.valid; progress = h.progress; committed = h.committed }
  | inl f ↦ elim (Bool-cases r.cloudflare_detected) [
    | inl c ↦
        rw (f, c)
          (record {
            valid = refl;
            progress = inl refl;
            committed = λ d. (let q = rw (h.committed d) at a in cc q);
          })
    | inr c ↦
        rw (f, c)
          (record {
            valid = refl;
            progress = inl refl;
            committed = λ d. (let q = rw (h.committed d) at a in cc q);
          })
  ]
]

handle_preflight_result-IsOrderly :
    (p : Payload) (now : Text) (s : WizardState)
    → IsOrderly s
    → IsOrderly (after (handle_preflight_result p now s) s)
unfolding handle_preflight_result
handle_preflight_result-IsOrderly p now s h =
    elim (Bool-cases (step_eq s.current_step step_preflight)) [
      | inr a ↦ rw a h
      | inl a ↦
          rw a
            (elim p
              as (λ p. IsOrderly (
                after
                  (elim p [
                    | preflight_data r ↦ done (set_preflight r now s)
                    | _ ↦ failed invalid_preflight_data
                  ])
                  s)) [
                    | preflight_data r ↦ set_preflight-IsOrderly r now s a h
                    | domain_check_data r ↦ h
                    | other_data ↦ h
                  ])
    ]

handle_domain_check_result-IsOrderly :
    (p : Payload) (now : Text) (s : WizardState)
    → IsOrderly s
    → IsOrderly (after (handle_domain_check_result p now s) s)
unfolding handle_domain_check_result
handle_domain_check_result-IsOrderly p now s h =
    elim (Bool-cases (step_eq s.current_step step_domain_check)) [
      | inr a ↦ rw a h
      | inl a ↦
          rw a
            (elim p
              as (λ p. IsOrderly (
                after
                  (elim p [
                    | domain_check_data r ↦ done (set_domain_check r now s)
                    | _ ↦ failed invalid_domain_check_data
                  ])
                  s)) [
                    | preflight_data r ↦ h
                    | domain_check_data r ↦ set_domain_check-IsOrderly r now s a h
                    | other_data ↦ h
                  ])
    ]

handle_start_session-IsOrderly :
    (s : WizardState) → IsOrderly s → IsOrderly (after (handle_start_session s) s)
unfolding handle_start_session is_valid_step
handle_start_session-IsOrderly s h = elim (Bool-cases (is_startable s.status)) [
  | inr a ↦ rw a h
  | inl a ↦ rw a (record { valid = refl; progress = inl refl; committed = λ c. cc c })
]

-- The test of two steps, for a step of the ten.
pub step_eq_lem : (a b : WizardStep) → is_valid_step b ≡ true → step_eq a b ≡ true → a ≡ b
unfolding is_valid_step
step_eq_lem step_welcome step_welcome v h = refl
step_eq_lem step_ssh step_ssh v h = refl
step_eq_lem step_preflight step_preflight v h = refl
step_eq_lem step_domain_mode step_domain_mode v h = refl
step_eq_lem step_domain_check step_domain_check v h = refl
step_eq_lem step_cloudflare step_cloudflare v h = refl
step_eq_lem step_create_peer step_create_peer v h = refl
step_eq_lem step_commit step_commit v h = refl
step_eq_lem step_success step_success v h = refl
step_eq_lem step_error step_error v h = refl
step_eq_lem (other_step t) (other_step u) v h = cc v
step_eq_lem _ _ v h = cc h

after_failure :
    (s : WizardState)
    → step_eq s.current_step step_commit ≡ true
    → IsOrderly s
    → HasProgress step_error s.progress_pct
unfolding step_progress is_valid_step
after_failure s a h =
    let e = step_eq_lem s.current_step step_commit refl a in
    elim h.progress [ inl p ↦ inr (refl, p ∙ ap step_progress e) | inr (f, _) ↦ absurd (cc (e, f)) ]

-- The three actions of a commit, and the way back from its failure.
commit-IsOrderly :
    (message now : Text) (s : WizardState)
    → IsOrderly s
    → IsOrderly (after (handle_commit_start now s) s)
      × IsOrderly (after (handle_commit_success now s) s)
      × IsOrderly (after (handle_commit_failure message now s) s)
unfolding handle_commit_start handle_commit_success handle_commit_failure is_valid_step
    step_progress
commit-IsOrderly message now s h = elim (Bool-cases (step_eq s.current_step step_commit)) [
  | inr a ↦ (rw a h, rw a h, rw a h)
  | inl a ↦ (
    rw a (record { valid = h.valid; progress = h.progress; committed = h.committed }),
    rw a (record { valid = refl; progress = inl refl; committed = λ c. refl }),
    rw a (record {
      valid = refl;
      progress = after_failure s a h;
      committed = λ c. (let q = rw (h.committed c) at a in cc q);
    }),
  )
]

handle_retry-IsOrderly :
    (now : Text) (s : WizardState) → IsOrderly s → IsOrderly (after (handle_retry now s) s)
unfolding handle_retry is_valid_step
handle_retry-IsOrderly now s h = elim (Bool-cases (step_eq s.current_step step_error)) [
  | inr a ↦ rw a h
  | inl a ↦ rw a (record {
    valid = refl;
    progress = inl refl;
    committed = λ c. (let q = rw (h.committed c) at a in cc q);
  })
]

reducer-IsOrderly :
    (a : WizardAction) (now : Text) (s : WizardState)
    → IsOrderly s
    → IsOrderly (after (reducer (some s) a now) s)
unfolding reducer handle_abandon
reducer-IsOrderly a now s h = of a.type
  where
    of : (t : ActionType) → IsOrderly (after (reduce (record a { type = t }) now s) s)
    of action_start_session = handle_start_session-IsOrderly s h
    of action_step_complete = handle_step_complete-IsOrderly a.step now s h
    of action_step_back = handle_step_back-IsOrderly a.step now s h
    of action_preflight = handle_preflight_result-IsOrderly a.payload now s h
    of action_domain_check = handle_domain_check_result-IsOrderly a.payload now s h
    of action_commit_start = (commit-IsOrderly a.error now s h).0
    of action_commit_success = (commit-IsOrderly a.error now s h).1
    of action_commit_failure = (commit-IsOrderly a.error now s h).2
    of action_retry = handle_retry-IsOrderly now s h
    of action_abandon = record { valid = h.valid; progress = h.progress; committed = λ c. cc c }
    of action_step_error = h
    of (other_action t) = h

-- A session that is given actions, each at a time; one that fails changes nothing.
unfoldable pub run_actions : List (WizardAction × Text) → WizardState → WizardState
run_actions [] s = s
run_actions ((a, now) ∷ acts) s = run_actions acts (after (reducer (some s) a now) s)

run_actions-IsOrderly_from :
    (acts : List (WizardAction × Text)) (s : WizardState)
    → IsOrderly s
    → IsOrderly (run_actions acts s)
unfolding run_actions
run_actions-IsOrderly_from [] s h = h
run_actions-IsOrderly_from ((a, now) ∷ acts) s h =
    run_actions-IsOrderly_from acts (after (reducer (some s) a now) s) (reducer-IsOrderly a now s h)

-- Whatever actions a new session is given, with those that fail changing nothing: its step is one
-- of the ten, its progress is that of the step or the 87 that a failed commit leaves at error,
-- and it is marked committed only at success.
pub run_actions-IsOrderly :
    (id now : Text) (acts : List (WizardAction × Text))
    → IsOrderly (run_actions acts (new_state id now))
unfolding new_state is_valid_step step_progress
run_actions-IsOrderly id now acts =
    run_actions-IsOrderly_from acts (new_state id now)
      (record { valid = refl; progress = inl refl; committed = λ c. cc c })
