-- ===== src/Wizard/Service/Steps.antt =====
-- What one request of src/internal/wizard does to a session that is ready for its step.
use unet.Base.{
  ◌≡◌, refl, sym, ◌∙◌, subst, Bool, true, false, ◌⊎◌, inl, inr, Option, none, some, arith,
  if◌then◌else◌, Text, Bool-cases,
}
use unet.Wizard.{
  Result, failed, done, ◌>>=◌, WizardStep, step_welcome, step_ssh, step_preflight, step_domain_mode,
  step_domain_check, step_cloudflare, step_create_peer, step_commit, step_success, step_error,
  other_step, is_valid_step, step_eq, PreflightResult, status_committed, WizardState,
  is_transition_allowed,
}
use unet.Wizard.Reducer.{
  Reduced, WizardAction, at_step, set_preflight, handle_step_complete, handle_preflight_result,
  handle_commit_start, handle_commit_success, handle_commit_failure, reducer,
}
use unet.Wizard.Reducer.Invariant.{step_eq_lem}
use unet.Wizard.Handlers.{
  Environment, Turn, Reply, ensure, resolve_next_step, Applied, apply_step_input,
}
use unet.Wizard.Requests.{
  in_progress, completing, examined, applied, reduced, check_domain, needed, advance, examine,
}
use unet.Wizard.Commit.{success_action, failure_action, start_commit}
use unet.Wizard.Service.{Needs, IsReady}
use unet.Wizard.Service.Forward.{forward, Kept, apply-Kept, check_domain-Kept}

-- The parts of a chain that has come to its end.
pub bind-done {ℓ} :
    {E A B : Type ℓ} (m : Result E A) (f : A → Result E B) (b : B)
    → (m >>= f) ≡ done b
    → (a : A) × (m ≡ done a) × (f a ≡ done b)
bind-done (failed e) f b h = cc h
bind-done (done a) f b h = (a, refl, h)

pub Result-cases {ℓ} :
    {E A : Type ℓ} (m : Result E A) → ((e : E) × (m ≡ failed e)) ⊎ ((a : A) × (m ≡ done a))
Result-cases (failed e) = inl (e, refl)
Result-cases (done a) = inr (a, refl)

ensure-done : (b : Bool) (r : Reply) (u : Unit) → ensure b r ≡ done u → b ≡ true
ensure-done true r u h = refl
ensure-done false r u h = cc h

applied-done : (o : Applied) (s : WizardState) → applied o ≡ done s → o ≡ done s
applied-done (failed e) s h = cc h
applied-done (done t) s h = cc h

reduced-done : (o : Reduced) (s : WizardState) → reduced o ≡ done s → o ≡ done s
reduced-done (failed e) s h = cc h
reduced-done (done t) s h = cc h

needed-done : {A : Type 0} (o : Option A) (r : Reply) (a : A) → needed o r ≡ done a → o ≡ some a
needed-done none r a h = cc h
needed-done (some b) r a h = cc h

handle_step_complete-done :
    (k : WizardStep) (now : _) (s t : WizardState)
    → handle_step_complete k now s ≡ done t
    → (is_transition_allowed s.current_step k s ≡ true) × (at_step k now s ≡ t)
unfolding handle_step_complete
handle_step_complete-done k now s t h = ground arith

module _ (env : Environment) where
  -- The optional step between the input and the move.
  checked-Kept :
      (turn : Turn) (k : WizardStep) (s t : WizardState)
      → (if step_eq k step_domain_check then check_domain turn s else done s) ≡ done t
      → Needs k s
      → Kept k s t
  unfolding is_valid_step
  checked-Kept turn k s t h n = elim (Bool-cases (step_eq k step_domain_check)) [
    | inl e ↦
        let e' = step_eq_lem k step_domain_check refl e in
        let h' : check_domain turn s ≡ done t = simp e at h in
        subst (λ x. Kept x s t) (sym e') (check_domain-Kept turn s t h' (rw e' at n))
    | inr e ↦
        let h' : done s ≡ done t = simp e at h in
        subst (λ x. Kept k s x) (let q : s ≡ t = cc h' in q) (n, refl)
  ]

  moved-IsReady :
      (turn : Turn) (k j : WizardStep) (body : Text) (s s1 s2 t : WizardState)
      → is_valid_step k ≡ true
      → step_eq s.current_step k ≡ true
      → apply_step_input env k body s ≡ done s1
      → (if step_eq k step_domain_check then check_domain turn s1 else done s1) ≡ done s2
      → resolve_next_step s2 k ≡ some j
      → handle_step_complete j turn.now s2 ≡ done t
      → IsReady s
      → IsReady t
  unfolding IsReady
  moved-IsReady turn k j body s s1 s2 t v e a c r d n =
      let at = step_eq_lem s.current_step k v e in
      let (n1, p1) = apply-Kept env k body s s1 a (subst (λ x. Needs x s) at n) in
      let (n2, p2) = checked-Kept turn k s1 s2 c n1 in
      let (g, q) = handle_step_complete-done j turn.now s2 t d in
      subst (λ x. Needs x.current_step x) q
        (forward k j turn.now s2 r
          (subst (λ x. is_transition_allowed x j s2 ≡ true) (p2 ∙ p1 ∙ at) g) n2)

  pub advance-IsReady :
      (turn : Turn) (k : WizardStep) (body : Text) (s t : WizardState) (next : WizardStep)
      → advance env turn k body s ≡ done (t, next)
      → IsReady s
      → IsReady t
  unfolding advance reducer
  advance-IsReady turn k body s t next h n =
      let (u1, v, h1) = bind-done (ensure (is_valid_step k) _) _ (t, next) h in
      let (u2, e, h2) = bind-done (ensure (step_eq s.current_step k) _) _ (t, next) h1 in
      let (s1, a, h3) = bind-done (applied (apply_step_input env k body s)) _ (t, next) h2 in
      let (s2, c, h4) =
        bind-done (if step_eq k step_domain_check then check_domain turn s1 else done s1) _
          (t, next) h3 in
      let (j, r, h5) = bind-done (needed (resolve_next_step s2 k) _) _ (t, next) h4 in
      let (s3, d, h6) =
        bind-done (reduced (reducer (some s2) (completing j) turn.now)) _ (t, next) h5 in
      let q : s3 ≡ t = cc h6 in
      subst (λ x. IsReady x) q
        (moved-IsReady turn k j body s s1 s2 s3 (ensure-done (is_valid_step k) _ u1 v)
          (ensure-done (step_eq s.current_step k) _ u2 e)
          (applied-done (apply_step_input env k body s) s1 a) c
          (needed-done (resolve_next_step s2 k) _ j r)
          (reduced-done (reducer (some s2) (completing j) turn.now) s3 d) n)

  abbrev stored : PreflightResult → Text → WizardState → WizardState
  stored r now s = record s { preflight_result = some r; last_saved_at = now }

  set_preflight-IsReady :
      (r : PreflightResult) (now : Text) (s : WizardState)
      → s.current_step ≡ step_preflight
      → IsReady s
      → IsReady (set_preflight r now s)
  unfolding IsReady set_preflight
  set_preflight-IsReady r now s e n =
      let m = subst (λ x. Needs x s) e n in
      elim r.compatible
          as (λ b.
            r.compatible ≡ b
            → IsReady
                (if b then at_step step_domain_mode now (stored r now s) else stored r now s)) [
                  | true ↦ λ c. (m.0, (m.1, c))
                  | false ↦ λ c. subst (λ x. Needs x (stored r now s)) (sym e) m
                ]
        refl

  pub examine-IsReady :
      (turn : Turn) (s t : WizardState) (r : PreflightResult)
      → examine env turn s ≡ done (t, r)
      → IsReady s
      → IsReady t
  unfolding examine reducer handle_preflight_result is_valid_step
  examine-IsReady turn s t r h n =
      let (u1, e, h1) = bind-done (ensure (step_eq s.current_step step_preflight) _) _ (t, r) h in
      let (i, _, h2) = bind-done (needed s.inputs.ssh _) _ (t, r) h1 in
      let (u2, _, h3) = bind-done (ensure (turn.connects i) _) _ (t, r) h2 in
      let (r1, _, h4) = bind-done (needed (turn.run_preflight i.host) _) _ (t, r) h3 in
      let (s1, d, h5) = bind-done (reduced (reducer (some s) (examined r1) turn.now)) _ (t, r) h4 in
      let e' = ensure-done (step_eq s.current_step step_preflight) _ u1 e in
      let d' = reduced-done (reducer (some s) (examined r1) turn.now) s1 d in
      let f : set_preflight r1 turn.now s ≡ s1 = (let d2 = simp e' at d' in cc d2) in
      let q : s1 ≡ t = cc h5 in
      subst (λ x. IsReady x) (f ∙ q)
        (set_preflight-IsReady r1 turn.now s (step_eq_lem s.current_step step_preflight refl e') n)

  -- The time of saving is not one of the needs.
  pub stamped-Needs :
      (k : WizardStep) (now : Text) (s : WizardState)
      → Needs k s
      → Needs k (record s { last_saved_at = now })
  stamped-Needs step_welcome now s n = n
  stamped-Needs step_ssh now s n = n
  stamped-Needs step_preflight now s n = n
  stamped-Needs step_domain_mode now s n = n
  stamped-Needs step_domain_check now s n = n
  stamped-Needs step_cloudflare now s n = n
  stamped-Needs step_create_peer now s n = n
  stamped-Needs step_commit now s n = n
  stamped-Needs step_success now s n = n
  stamped-Needs step_error now s n = n
  stamped-Needs (other_step t) now s n = n

  -- What a commit does to a session that stands at it.
  pub start_commit-IsReady :
      (turn : Turn) (s t : WizardState) → start_commit env turn s ≡ done t → IsReady s → IsReady t
  unfolding start_commit reducer handle_commit_start IsReady
  start_commit-IsReady turn s t h n =
      let (u1, e, h1) = bind-done (ensure (step_eq s.current_step step_commit) _) _ t h in
      let (u2, _, h2) = bind-done (ensure (in_progress s.status) _) _ t h1 in
      let e' = ensure-done (step_eq s.current_step step_commit) _ u1 e in
      let h3 = simp e' at h2 in
      subst (λ x. IsReady x) (let q : record s { last_saved_at = turn.now } ≡ t = cc h3 in q)
        (stamped-Needs s.current_step turn.now s n)

  pub reload-IsReady :
      (a : WizardAction) (now : Text) (s t : WizardState)
      → ((a ≡ success_action) ⊎ ((m : Text) × (a ≡ failure_action m)))
      → reducer (some s) a now ≡ done t
      → IsReady s
      → IsReady t
  unfolding reducer handle_commit_success handle_commit_failure IsReady is_valid_step
  reload-IsReady a now s t p h n = elim (Bool-cases (step_eq s.current_step step_commit)) [
    | inl e ↦
        let m = subst (λ x. Needs x s) (step_eq_lem s.current_step step_commit refl e) n in
        elim p [
          | inl c ↦
              (let h' = simp (c, e) at h in
                subst (λ x. IsReady x)
                  (let q : record s {
                    current_step = step_success;
                    status = status_committed;
                    progress_pct = 100;
                    committed_at = now;
                    last_saved_at = now;
                  }
                        ≡ t =
                      cc h' in
                    q)
                  ((refl, m.1, m.2, m.3)))
          | inr (w, c) ↦
              (let h' = simp (c, e) at h in
                subst (λ x. IsReady x)
                  (let q : record s {
                    current_step = step_error;
                    error_message = w;
                    last_saved_at = now;
                  }
                        ≡ t =
                      cc h' in
                    q)
                  m)
        ]
    | inr e ↦ elim p [
      | inl c ↦ (let h' = simp (c, e) at h in cc h')
      | inr (w, c) ↦ (let h' = simp (c, e) at h in cc h')
    ]
  ]
