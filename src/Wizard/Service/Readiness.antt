-- ===== src/Wizard/Service/Readiness.antt =====
-- Whatever events the service of src/internal/wizard sees, the session in its file has been given
-- what the step it stands at is for.
use unet.Base.{
  ◌≡◌, refl, sym, ◌∙◌, subst, ◌⊎◌, inl, inr, List, [], ◌∷◌, Option, none, some, Text, text_eq,
  codes, Bool-cases, Option-cases,
}
use unet.Wizard.{Result, done, ◌>>=◌, WizardStep, WizardState, new_state}
use unet.Wizard.Reducer.{WizardAction, handle_abandon, reducer}
use unet.Wizard.Files.{Disk, Faults, save_state, load_state, delete_state}
use unet.Wizard.Files.Saving.{load_state-none, load_state-save_state}
use unet.Wizard.Handlers.{Environment, Turn, Reply}
use unet.Wizard.Requests.{
  of_id, find_session, store, handle_create_session, handle_delete_session, advance,
  handle_step_submit, examine, handle_preflight,
}
use unet.Wizard.Commit.{
  success_action, failure_action, Services, services_error, start_commit, handle_commit, settle,
  commit_failure, finish,
}
use unet.Wizard.Service.{
  Event, creation, deletion, preflight, commit, submission, ending, handle, handle_all, IsReady,
}
use unet.Wizard.Service.Steps.{
  bind-done, Result-cases, advance-IsReady, examine-IsReady, start_commit-IsReady, reload-IsReady,
  stamped-Needs,
}

module _ (env : Environment) where
  -- The file, if it can be loaded, has a session that is ready.
  abbrev Holds : Disk → Type 0
  Holds d = (t : WizardState) → load_state env.codec d ≡ done (some t) → IsReady t

  save_state-Holds :
      (turn : Turn) (s : WizardState) (d : Disk)
      → IsReady s
      → Holds d
      → Holds (save_state env.codec turn.faults turn.now s d).0
  unfolding IsReady
  save_state-Holds turn s d n h t l =
      elim (load_state-save_state env.codec turn.faults turn.now s t d l) [
        | inl old ↦ h t old
        | inr e ↦ subst (λ x. IsReady x) (sym e) (stamped-Needs env s.current_step turn.now s n)
      ]

  store-disk :
      (turn : Turn) (s : WizardState) (r : Reply) (d : Disk)
      → (store env turn s r d).0 ≡ (save_state env.codec turn.faults turn.now s d).0
  unfolding store
  store-disk turn s r d = elim (Option-cases ((save_state env.codec turn.faults turn.now s d).1)) [
    | inl e ↦ rw (e, store) refl
    | inr (x, e) ↦ rw (e, store) refl
  ]

  store-Holds :
      (turn : Turn) (s : WizardState) (r : Reply) (d : Disk)
      → IsReady s
      → Holds d
      → Holds (store env turn s r d).0
  store-Holds turn s r d n h =
      subst Holds (sym (store-disk turn s r d)) (save_state-Holds turn s d n h)

  find_session-done :
      (id : Text) (d : Disk) (s : WizardState)
      → find_session env id d ≡ done s
      → load_state env.codec d ≡ done (some s)
  unfolding find_session of_id
  find_session-done id d s h = elim (Result-cases (load_state env.codec d)) [
    | inl (e, p) ↦ (let q = rw (p, find_session) at h in cc q)
    | inr (none, p) ↦ (let q = rw (p, find_session) at h in cc q)
    | inr (some t, p) ↦ elim (Bool-cases (text_eq t.session_id id)) [
      | inl e ↦ (let q = rw (p, e, find_session, of_id) at h in cc (p, q))
      | inr e ↦ (let q = rw (p, e, find_session, of_id) at h in cc q)
    ]
  ]

  -- A handler that finds the session, changes it and stores what comes of it.
  found-IsReady :
      {A : Type 0} (id : Text) (d : Disk) (f : WizardState → Result Reply A) (a : A)
      → (find_session env id d >>= f) ≡ done a
      → Holds d
      → (s : WizardState) × IsReady s × (f s ≡ done a)
  found-IsReady id d f a e h =
      let (s, p, q) = bind-done (find_session env id d) f a e in
      (s, h s (find_session-done id d s p), q)

  handle_step_submit-Holds :
      (turn : Turn) (id : Text) (k : WizardStep) (body : Text) (d : Disk)
      → Holds d
      → Holds (handle_step_submit env turn id k body d).0
  unfolding handle_step_submit
  handle_step_submit-Holds turn id k body d h =
      elim (Result-cases (find_session env id d >>= advance env turn k body)) [
        | inl (r, e) ↦ rw (e, handle_step_submit) h
        | inr ((s, next), e) ↦
            let (s0, n, q) = found-IsReady id d (advance env turn k body) (s, next) e h in
            rw (e, handle_step_submit)
              (store-Holds turn s _ d (advance-IsReady env turn k body s0 s next q n) h)
      ]

  handle_preflight-Holds :
      (turn : Turn) (id : Text) (d : Disk) → Holds d → Holds (handle_preflight env turn id d).0
  unfolding handle_preflight
  handle_preflight-Holds turn id d h =
      elim (Result-cases (find_session env id d >>= examine env turn)) [
        | inl (r, e) ↦ rw (e, handle_preflight) h
        | inr ((s, r), e) ↦
            let (s0, n, q) = found-IsReady id d (examine env turn) (s, r) e h in
            rw (e, handle_preflight)
              (store-Holds turn s _ d (examine-IsReady env turn s0 s r q n) h)
      ]

  handle_commit-Holds :
      (turn : Turn) (id : Text) (d : Disk) → Holds d → Holds (handle_commit env turn id d).0
  unfolding handle_commit
  handle_commit-Holds turn id d h =
      elim (Result-cases (find_session env id d >>= start_commit env turn)) [
        | inl (r, e) ↦ rw (e, handle_commit) h
        | inr (s, e) ↦
            let (s0, n, q) = found-IsReady id d (start_commit env turn) s e h in
            rw (e, handle_commit)
              (store-Holds turn s _ d (start_commit-IsReady env turn s0 s q n) h)
      ]

  handle_create_session-Holds :
      (turn : Turn) (d : Disk) → Holds d → Holds (handle_create_session env turn d).0
  unfolding handle_create_session IsReady new_state
  handle_create_session-Holds turn d h = elim (Result-cases (load_state env.codec d)) [
    | inl (e, p) ↦ rw (p, handle_create_session) h
    | inr (some t, p) ↦ rw (p, handle_create_session) h
    | inr (none, p) ↦
        rw (p, handle_create_session)
          (store-Holds turn (new_state turn.fresh_id turn.now) _ d refl h)
  ]

  delete_state-cases :
      (f : Faults) (d : Disk) → ((delete_state f d).0 ≡ d) ⊎ ((delete_state f d).0.file ≡ none)
  unfolding delete_state
  delete_state-cases f d = elim (Option-cases d.file) [
    | inl e ↦ inl (simp (e, delete_state) refl)
    | inr (b, e) ↦ elim (Bool-cases f.remove) [
      | inl r ↦ inl (simp (e, r, delete_state) refl)
      | inr r ↦ inr (simp (e, r, delete_state) refl)
    ]
  ]

  nothing-Holds : (d : Disk) → d.file ≡ none → Holds d
  nothing-Holds d e t l = (let q = sym (load_state-none env.codec d e) ∙ l in cc q)

  delete_state-Holds : (f : Faults) (d : Disk) → Holds d → Holds (delete_state f d).0
  delete_state-Holds f d h = elim (delete_state-cases f d) [
    | inl e ↦ rw e h
    | inr e ↦ nothing-Holds (delete_state f d).0 e
  ]

  handle_delete_session-Holds :
      (turn : Turn) (id : Text) (d : Disk) → Holds d → Holds (handle_delete_session env turn id d).0
  unfolding handle_delete_session reducer handle_abandon
  handle_delete_session-Holds turn id d h = elim (Result-cases (find_session env id d)) [
    | inl (r, e) ↦ rw (e, handle_delete_session) h
    | inr (s, e) ↦ elim (Option-cases ((delete_state turn.faults d).1)) [
      | inl q ↦ rw (e, q, handle_delete_session) (delete_state-Holds turn.faults d h)
      | inr (x, q) ↦ rw (e, q, handle_delete_session) (delete_state-Holds turn.faults d h)
    ]
  ]

  settle-Holds :
      (turn : Turn) (a : WizardAction) (d : Disk)
      → ((a ≡ success_action) ⊎ ((m : Text) × (a ≡ failure_action m)))
      → Holds d
      → Holds (settle env turn a d).0
  unfolding settle reducer
  settle-Holds turn a d p h = elim (Result-cases (load_state env.codec d)) [
    | inl (e, l) ↦ rw (l, settle) h
    | inr (o, l) ↦ elim (Result-cases (reducer o a turn.now)) [
      | inl (e, r) ↦ rw (l, r, settle) h
      | inr (t, r) ↦ rw (l, r, settle) (save_state-Holds turn t d (of o l r) h)
    ]
  ]
    where
      of :
          {t : WizardState} (o : Option WizardState)
          → load_state env.codec d ≡ done o
          → reducer o a turn.now ≡ done t
          → IsReady t
      of {t = t} none l r = cc r
      of {t = t} (some s) l r = reload-IsReady env a turn.now s t p r (h s l)

  finish-Holds :
      (turn : Turn) (v : Services) (s : WizardState) (d : Disk)
      → Holds d
      → Holds (finish env turn v s d).0
  unfolding finish commit_failure
  finish-Holds turn v s d h = elim (Option-cases (services_error v s.inputs.first_port_expose)) [
    | inr (m, e) ↦ rw (e, finish) (settle-Holds turn (failure_action m) d (inr (m, refl)) h)
    | inl e ↦ elim (Result-cases (load_state env.codec d)) [
      | inl (x, l) ↦
          rw (e, l, finish)
            (settle-Holds turn (failure_action (codes "internal state error")) d
              (inr (codes "internal state error", refl)) h)
      | inr (o, l) ↦ rw (e, l, finish) (settle-Holds turn success_action d (inl refl) h)
    ]
  ]

  handle-Holds : (e : Event) (d : Disk) → Holds d → Holds (handle env e d)
  unfolding handle
  handle-Holds (creation turn) d h = handle_create_session-Holds turn d h
  handle-Holds (deletion turn id) d h = handle_delete_session-Holds turn id d h
  handle-Holds (preflight turn id) d h = handle_preflight-Holds turn id d h
  handle-Holds (commit turn id) d h = handle_commit-Holds turn id d h
  handle-Holds (submission turn id k body) d h = handle_step_submit-Holds turn id k body d h
  handle-Holds (ending turn v s) d h = finish-Holds turn v s d h

  handle_all-Holds : (es : List Event) (d : Disk) → Holds d → Holds (handle_all env es d)
  unfolding handle_all
  handle_all-Holds [] d h = h
  handle_all-Holds (e ∷ es) d h = handle_all-Holds es (handle env e d) (handle-Holds e d h)

  -- From a directory without a state file, after any requests and ends of commits, in any order
  -- and with any faults, a session that can be loaded has been given what its step is for: from
  -- preflight on SSH credentials, then a host found compatible, then at create_peer a domain mode
  -- whose domain, if it is the user's own, has TLS, with a token where Cloudflare was detected,
  -- then at commit a name for the first peer; and it is marked committed at success, in progress
  -- before.
  pub handle_all-IsReady :
      (es : List Event) (d : Disk) (t : WizardState)
      → d.file ≡ none
      → load_state env.codec (handle_all env es d) ≡ done (some t)
      → IsReady t
  handle_all-IsReady es d t e l = handle_all-Holds es d (nothing-Holds d e) t l
