-- ===== src/Wizard/Service/Forward.antt =====
-- What `handleStepSubmit` of src/internal/wizard/handlers.go does to what a step needs: an input
-- keeps it, and a move that the table allows adds what the next step needs.
use unet.Base.{
  ◌≡◌, refl, subst, true, ◌⊎◌, inl, inr, Option, none, some, arith, Text, codes, text_eq,
  Bool-cases, Option-cases,
}
use unet.Wizard.{
  done, WizardStep, step_welcome, step_ssh, step_preflight, step_domain_mode, step_domain_check,
  step_cloudflare, step_create_peer, step_commit, SshInput, DomainCheckResult, WizardState,
  guard_of, transitions, is_transition_allowed,
}
use unet.Wizard.Reducer.{at_step}
use unet.Wizard.Handlers.{
  Environment, Turn, CloudflareBody, PeerBody, kept_result, with_inputs, after_domain_check,
  resolve_next_step, Applied, apply_ssh, apply_mode, apply_domain, apply_cloudflare, apply_peer,
  apply_step_input, decoded,
}
use unet.Wizard.Requests.{port_80, check_domain}
use unet.Wizard.Service.{Needs}

-- Moving on from a step, when the table lets it.
abbrev Moves : WizardStep → Text → WizardState → WizardStep → Type 0
Moves k now s x = is_transition_allowed k x s ≡ true → Needs x (at_step x now s)

after_domain_check_cases :
    (o : Option DomainCheckResult)
    → (after_domain_check o ≡ step_cloudflare) ⊎ (after_domain_check o ≡ step_create_peer)
after_domain_check_cases none = inr refl
after_domain_check_cases (some r) = ground arith

pub forward :
    (k next : WizardStep) (now : Text) (s : WizardState)
    → resolve_next_step s k ≡ some next
    → is_transition_allowed k next s ≡ true
    → Needs k s
    → Needs next (at_step next now s)
unfolding resolve_next_step is_transition_allowed guard_of transitions
forward step_welcome next now s r a n =
    subst (Moves step_welcome now s) (let q : step_ssh ≡ next = cc r in q) (λ _. n) a
forward step_ssh next now s r a n =
    subst (Moves step_ssh now s) (let q : step_preflight ≡ next = cc r in q) (λ g. (n, g)) a
forward step_domain_mode next now s r a n =
    elim (Bool-cases (text_eq s.inputs.domain_mode (codes "nipio"))) [
      | inl e ↦
          let q : step_create_peer ≡ next = (let r' = rw e at r in cc r') in
          subst (Moves step_domain_mode now s) q (λ g. (n.0, n.1, inl e)) a
      | inr e ↦
          let q : step_domain_check ≡ next = (let r' = rw e at r in cc r') in
          subst (Moves step_domain_mode now s) q (λ g. (n.0, n.1, g)) a
    ]
forward step_domain_check next now s r a n = elim (after_domain_check_cases s.domain_check_result) [
  | inl e ↦
      let q : step_cloudflare ≡ next = cc (e, r) in
      subst (Moves step_domain_check now s) q (λ g. (n.0, n.1, n.2, g)) a
  | inr e ↦
      let q : step_create_peer ≡ next = cc (e, r) in
      subst (Moves step_domain_check now s) q (λ g. (n.0, n.1, inr (inl (n.2, g)))) a
]
forward step_cloudflare next now s r a n =
    let q : step_create_peer ≡ next = cc r in
    subst (Moves step_cloudflare now s) q (λ g. (n.0, n.1, inr (inr (n.2, n.3, g)))) a
forward step_create_peer next now s r a n =
    let q : step_commit ≡ next = cc r in
    subst (Moves step_create_peer now s) q (λ g. (n.0, n.1, n.2, g)) a
forward _ next now s r a n = cc r

-- What an input that is accepted has changed.
ssh_shape :
    (i : SshInput) (s s' : WizardState)
    → apply_ssh i s ≡ done s'
    → with_inputs (record s.inputs { ssh = some i }) s ≡ s'
unfolding apply_ssh
ssh_shape i s s' h = ground arith

mode_shape :
    (m : Text) (s s' : WizardState)
    → apply_mode m s ≡ done s'
    → with_inputs (record s.inputs { domain_mode = m; nipio_enabled = text_eq m (codes "nipio") }) s
      ≡ s'
unfolding apply_mode
mode_shape m s s' h = ground arith

domain_shape :
    (t : Text) (s s' : WizardState)
    → apply_domain t s ≡ done s'
    → with_inputs (record s.inputs { domain = t }) s ≡ s'
unfolding apply_domain
domain_shape t s s' h = ground arith

cloudflare_shape :
    (b : CloudflareBody) (s s' : WizardState)
    → apply_cloudflare b s ≡ done s'
    → with_inputs (record s.inputs { cloudflare_token = b.token }) s ≡ s'
unfolding apply_cloudflare
cloudflare_shape b s s' h = ground arith

peer_shape :
    (b : PeerBody) (s s' : WizardState)
    → apply_peer b s ≡ done s'
    → with_inputs
        (record s.inputs { first_peer_name = b.peer_name; first_port_expose = b.expose_port })
        s
      ≡ s'
unfolding apply_peer
peer_shape b s s' h = ground arith

-- A body that was accepted has decoded.
decoded-done {ℓ} :
    {A : Type ℓ} (o : Option A) (f : A → Applied) (s : WizardState)
    → decoded o f ≡ done s
    → (a : A) × (f a ≡ done s)
decoded-done none f s h = cc h
decoded-done (some a) f s h = (a, h)

abbrev pub Kept : WizardStep → WizardState → WizardState → Type 0
Kept k s x = Needs k x × (x.current_step ≡ s.current_step)

-- An input changes nothing that its own step needs.
pub apply-Kept :
    (env : Environment) (k : WizardStep) (body : Text) (s s' : WizardState)
    → apply_step_input env k body s ≡ done s'
    → Needs k s
    → Kept k s s'
unfolding apply_step_input
apply-Kept env step_welcome body s s' h n =
    subst (λ x. Kept step_welcome s x) (let q : s ≡ s' = cc h in q) (n, refl)
apply-Kept env step_ssh body s s' h n =
    let (i, e) = decoded-done (env.decode_ssh body) (λ i. apply_ssh i s) s' h in
    subst (λ x. Kept step_ssh s x) (ssh_shape i s s' e) (n, refl)
apply-Kept env step_domain_mode body s s' h n =
    let (m, e) = decoded-done (env.decode_mode body) (λ m. apply_mode m s) s' h in
    subst (λ x. Kept step_domain_mode s x) (mode_shape m s s' e) (n, refl)
apply-Kept env step_domain_check body s s' h n =
    let (t, e) = decoded-done (env.decode_domain body) (λ t. apply_domain t s) s' h in
    subst (λ x. Kept step_domain_check s x) (domain_shape t s s' e) (n, refl)
apply-Kept env step_cloudflare body s s' h n =
    let (b, e) = decoded-done (env.decode_cloudflare body) (λ b. apply_cloudflare b s) s' h in
    subst (λ x. Kept step_cloudflare s x) (cloudflare_shape b s s' e) (n, refl)
apply-Kept env step_create_peer body s s' h n =
    let (b, e) = decoded-done (env.decode_peer body) (λ b. apply_peer b s) s' h in
    subst (λ x. Kept step_create_peer s x) (peer_shape b s s' e) (n, refl)
apply-Kept env _ body s s' h n = cc h

pub check_domain-Kept :
    (turn : Turn) (s s' : WizardState)
    → check_domain turn s ≡ done s'
    → Needs step_domain_check s
    → Kept step_domain_check s s'
unfolding check_domain
check_domain-Kept turn s s' h n =
    elim (Option-cases (turn.validate_domain s.inputs.domain (port_80 s.preflight_result))) [
      | inl e ↦ (let q = rw (e, check_domain) at h in cc q)
      | inr (r, e) ↦
          let q : record s { domain_check_result = some (kept_result r) } ≡ s' =
            (let h' = rw (e, check_domain) at h in cc h') in
          subst (λ x. Kept step_domain_check s x) q (n, refl)
    ]
