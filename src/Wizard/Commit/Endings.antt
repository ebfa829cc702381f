-- ===== src/Wizard/Commit/Endings.antt =====
-- How a commit that src/internal/wizard/bootstrap.go has started comes to its end.
use unet.Base.{
  ◌≡◌, refl, sym, ◌∙◌, subst, true, ◌⊎◌, inl, inr, [], ◌∷◌, ◌++◌, Option, none, some, Text, codes,
  Bool-cases, Option-cases,
}
use unet.Wizard.{
  Result, done, step_commit, step_success, step_error, is_valid_step, status_committed, PortExpose,
  WizardState,
}
use unet.Wizard.Reducer.{WizardAction, handle_commit_success, handle_commit_failure, reducer}
use unet.Wizard.Files.{Codec, Disk, FileError, is_uuid, save_state, parse_state, load_state}
use unet.Wizard.Files.Saving.{save-load}
use unet.Wizard.Handlers.{Environment, Turn}
use unet.Wizard.Commit.{
  success_action, failure_action, Services, Ending, failure_saved, completed_run, panicked,
  last_line, services_error, settle, commit_failure, finish,
}

-- The session after a commit that failed with a message, and after one that succeeded.
abbrev pub after_failure : Text → Text → WizardState → WizardState
after_failure message now s = record s {
  current_step = step_error;
  error_message = message;
  last_saved_at = now;
}

abbrev pub after_success : Text → WizardState → WizardState
after_success now s = record s {
  current_step = step_success;
  status = status_committed;
  progress_pct = 100;
  committed_at = now;
  last_saved_at = now;
}

-- What the answers of the services mean for a commit: the message of the first that failed, or none
-- if all that were called for succeeded.
pub data Verdict (v : Services) (expose : Option PortExpose) : Option Text → Type 0 where
  no_server : (e : Text) → v.bootstrap ≡ some e → Verdict v expose (some e)
  no_peer :
      (e : Text)
      → v.bootstrap ≡ none
      → v.create_peer ≡ some e
      → Verdict v expose (some (codes "peer creation failed: " ++ e))
  no_route :
      (e : Text) (p : PortExpose)
      → v.bootstrap ≡ none
      → v.create_peer ≡ none
      → expose ≡ some p
      → v.expose_route ≡ some e
      → Verdict v expose (some (codes "route exposure failed: " ++ e))
  all_through :
      v.bootstrap ≡ none
      → v.create_peer ≡ none
      → (expose ≡ none) ⊎ (v.expose_route ≡ none)
      → Verdict v expose none

services_error-Verdict :
    (v : Services) (expose : Option PortExpose) → Verdict v expose (services_error v expose)
unfolding services_error
services_error-Verdict v expose = elim (Option-cases v.bootstrap) [
  | inr (e, a) ↦ subst (Verdict v expose) (sym (simp (a, services_error) refl)) (no_server e a)
  | inl a ↦ elim (Option-cases v.create_peer) [
    | inr (e, b) ↦ subst (Verdict v expose) (sym (simp (a, b, services_error) refl)) (no_peer e a b)
    | inl b ↦ elim (Option-cases expose) [
      | inl c ↦
          subst (Verdict v expose) (sym (simp (a, b, c, services_error) refl))
            (all_through a b (inl c))
      | inr (p, c) ↦ elim (Option-cases v.expose_route) [
        | inr (e, r) ↦
            subst (Verdict v expose) (sym (simp (a, b, c, r, services_error) refl))
              (no_route e p a b c r)
        | inl r ↦
            subst (Verdict v expose) (sym (simp (a, b, c, r, services_error) refl))
              (all_through a b (inr r))
      ]
    ]
  ]
]

-- The outcome that the services and the wish for a port call for.
abbrev pub outcome : Option Text → Option PortExpose → Text → WizardState → WizardState × Ending
outcome (some message) expose now s = (after_failure message now s, failure_saved)
outcome none (some p) now s = (after_success now s, completed_run)
outcome none none now s = (after_success now s, panicked)

outcome-success :
    (o : Option PortExpose) (now : Text) (s : WizardState)
    → ((◌≡◌ {A = Result FileError (Option WizardState)}
        (done (some (after_success now s)))
        (done (some (outcome none o now s).0))))
      × (last_line o ≡ (outcome none o now s).1)
outcome-success none now s = (refl, refl)
outcome-success (some p) now s = (refl, refl)

-- What the file says of the session that it holds.
parse_state-uuid :
    (codec : Codec) (b : Text) (s : WizardState)
    → parse_state codec b ≡ done (some s)
    → is_uuid s.session_id ≡ true
unfolding parse_state
parse_state-uuid codec [] s h = cc h
parse_state-uuid codec (c ∷ cs) s h = elim (Option-cases (codec.unmarshal (c ∷ cs))) [
  | inl e ↦ (let q = rw (e, parse_state) at h in cc q)
  | inr (t, e) ↦ elim (Bool-cases (is_uuid t.session_id)) [
    | inr u ↦ (let q = rw (e, u, parse_state) at h in cc q)
    | inl u ↦ elim (Bool-cases (is_valid_step t.current_step)) [
      | inr v ↦ (let q = rw (e, u, v, parse_state) at h in cc q)
      | inl v ↦
          let q : t ≡ s = (let h' = rw (e, u, v, parse_state) at h in cc h') in
          subst (λ x. is_uuid x.session_id ≡ true) q u
    ]
  ]
]

load_state-uuid :
    (codec : Codec) (d : Disk) (s : WizardState)
    → load_state codec d ≡ done (some s)
    → is_uuid s.session_id ≡ true
unfolding load_state
load_state-uuid codec d s h = elim (Option-cases d.file) [
  | inl e ↦ (let q = simp (e, load_state) at h in cc q)
  | inr (b, e) ↦ elim (Bool-cases d.readable) [
    | inr r ↦ (let q = simp (e, r, load_state) at h in cc q)
    | inl r ↦ parse_state-uuid codec b s (simp (e, r, load_state) at h)
  ]
]

module _ (env : Environment) where
  abbrev Saves : Turn → Disk → Type 0
  Saves turn d = (t : WizardState) → (save_state env.codec turn.faults turn.now t d).1 ≡ none

  -- A save that succeeds reads back.
  reads-back :
      (turn : Turn) (t : WizardState) (d : Disk)
      → is_uuid t.session_id ≡ true
      → is_valid_step t.current_step ≡ true
      → d.readable ≡ true
      → Saves turn d
      → load_state env.codec (save_state env.codec turn.faults turn.now t d).0
        ≡ done (some (record t { last_saved_at = turn.now }))
  reads-back turn t d u v r w = elim (save-load env.codec turn.faults turn.now t d u v r) [
    | inl x ↦ (let q = sym (w t) ∙ x.told in cc q)
    | inr (_, q, _) ↦ q
  ]

  settle-Saves :
      (turn : Turn) (a : WizardAction) (s0 t : WizardState) (d : Disk)
      → load_state env.codec d ≡ done (some s0)
      → reducer (some s0) a turn.now ≡ done t
      → is_uuid t.session_id ≡ true
      → is_valid_step t.current_step ≡ true
      → d.readable ≡ true
      → Saves turn d
      → (load_state env.codec (settle env turn a d).0
          ≡ done (some (record t { last_saved_at = turn.now })))
        × ((settle env turn a d).1 ≡ true)
  unfolding settle
  settle-Saves turn a s0 t d l e u v r w =
      (rw (l, e, settle) (reads-back turn t d u v r w), rw (l, e, w t, settle) refl)

  failure-settles :
      (turn : Turn) (message : Text) (s0 : WizardState) (d : Disk)
      → load_state env.codec d ≡ done (some s0)
      → s0.current_step ≡ step_commit
      → d.readable ≡ true
      → Saves turn d
      → (load_state env.codec (commit_failure env turn message d).0
          ≡ done (some (after_failure message turn.now s0)))
        × ((commit_failure env turn message d).1 ≡ failure_saved)
  unfolding commit_failure reducer handle_commit_failure is_valid_step
  failure-settles turn message s0 d l c r w =
      let (p, q) =
        settle-Saves turn (failure_action message) s0 (after_failure message turn.now s0) d l
          (simp c refl) (load_state-uuid env.codec d s0 l) refl r w in
      (p, rw (q, commit_failure) refl)

  success-settles :
      (turn : Turn) (s0 : WizardState) (d : Disk)
      → load_state env.codec d ≡ done (some s0)
      → s0.current_step ≡ step_commit
      → d.readable ≡ true
      → Saves turn d
      → (load_state env.codec (settle env turn success_action d).0
          ≡ done (some (after_success turn.now s0)))
        × ((settle env turn success_action d).1 ≡ true)
  unfolding reducer handle_commit_success is_valid_step
  success-settles turn s0 d l c r w =
      settle-Saves turn success_action s0 (after_success turn.now s0) d l (simp c refl)
        (load_state-uuid env.codec d s0 l) refl r w

  finish-settles :
      (turn : Turn) (v : Services) (s s0 : WizardState) (d : Disk)
      → load_state env.codec d ≡ done (some s0)
      → s0.current_step ≡ step_commit
      → d.readable ≡ true
      → Saves turn d
      → let o = services_error v s.inputs.first_port_expose in
        (load_state env.codec (finish env turn v s d).0
          ≡ done (some (outcome o s.inputs.first_port_expose turn.now s0).0))
        × ((finish env turn v s d).1 ≡ (outcome o s.inputs.first_port_expose turn.now s0).1)
  unfolding finish
  finish-settles turn v s s0 d l c r w =
      elim (Option-cases (services_error v s.inputs.first_port_expose)) [
        | inr (m, e) ↦ rw (e, finish) (failure-settles turn m s0 d l c r w)
        | inl e ↦
            let (p, q) = success-settles turn s0 d l c r w in
            (
              rw (e, l, finish) (p ∙ (outcome-success s.inputs.first_port_expose turn.now s0).0),
              rw (e, l, q, finish) (outcome-success s.inputs.first_port_expose turn.now s0).1,
            )
      ]

  -- A commit that was started comes to its end: if the session in the file stands at commit when
  -- the services are through and the save succeeds, the file then holds the session at success
  -- and committed, if the bootstrap, the creation of the peer and, if a port is asked for, the
  -- exposure of its route all succeeded; or else at error with the message of the first of them
  -- that failed. After a success without a port to expose, the goroutine panics on the missing
  -- route.
  pub finish-outcome :
      (turn : Turn) (v : Services) (s s0 : WizardState) (d : Disk)
      → load_state env.codec d ≡ done (some s0)
      → s0.current_step ≡ step_commit
      → d.readable ≡ true
      → Saves turn d
      → (verdict : Option Text) × Verdict v s.inputs.first_port_expose verdict
        × (load_state env.codec (finish env turn v s d).0
            ≡ done (some (outcome verdict s.inputs.first_port_expose turn.now s0).0))
        × ((finish env turn v s d).1 ≡ (outcome verdict s.inputs.first_port_expose turn.now s0).1)
  finish-outcome turn v s s0 d l c r w =
      let o = services_error v s.inputs.first_port_expose in
      let (file, ending) = finish-settles turn v s s0 d l c r w in
      (o, services_error-Verdict v s.inputs.first_port_expose, file, ending)
