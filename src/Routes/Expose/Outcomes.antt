-- ===== src/Routes/Expose/Outcomes.antt =====
-- How a request of src/internal/routes/expose.go ends, and that two routes never share a host.
use unet.Base.{
  ◌≡◌, refl, sym, ap, ◌∙◌, subst, Bool, true, false, ◌||◌, inl, inr, List, [], ◌∷◌, ◌++◌, none,
  some, arith, if◌then◌else◌, Text, text_eq, text_eq_refl, text_eq_iff, Bool-cases, Option-cases,
}
use unet.Base.Int.{pos, ltb_ℤ}
use unet.Config.{ExposedPort}
use unet.Config.Manager.{Manager, SaveError, update}
use unet.Config.Manager.Updates.{IsSaved, update-cases}
use unet.Routes.Expose.{
  ExposeRequest, Response, dns_failed, created, Circumstances, Handler, is_subdomain, has_host,
  add_port, without_id, remove_port, port_of, route_of, build_fqdn, resolve_target_ip, publish,
  saved, expose, handle_expose,
}

unfoldable pub has_id : Text → List ExposedPort → Bool
has_id id [] = false
has_id id (p ∷ ps) = if text_eq p.id id then true else has_id id ps

-- Taking away what was added last.
pub without_id-append :
    (ps : List ExposedPort) (p : ExposedPort)
    → has_id p.id ps ≡ false
    → without_id p.id (ps ++ p ∷ []) ≡ ps
unfolding has_id without_id
without_id-append [] p h = rw (text_eq_refl p.id, without_id) refl
without_id-append (q ∷ ps) p h = elim (Bool-cases (text_eq q.id p.id)) [
  | inl e ↦ (let x = rw (e, has_id) at h in cc x)
  | inr e ↦ rw (e, without_id) (ap (◌∷◌ q) (without_id-append ps p (rw (e, has_id) at h)))
]

module _ (h : Handler) where
  -- The host that a request asks for, or that is drawn for it.
  pub record IsAsked (k : Circumstances) (host : Text) : Type 0 where
    pub request : ExposeRequest
    pub decoded : k.body ≡ some request
    pub chosen : host ≡ (if text_eq request.subdomain [] then k.generated else request.subdomain)

  -- Why a request is refused, by the answer that it gets.
  pub data Refusal (k : Circumstances) (m : Manager) : Response → Type 0 where
    undecoded : k.body ≡ none → Refusal k m Response.bad_body
    no_port :
        (r : ExposeRequest)
        → k.body ≡ some r
        → (ltb_ℤ r.local_port (pos 1) || ltb_ℤ (pos 65535) r.local_port) ≡ true
        → Refusal k m Response.bad_port
    offline : k.is_connected ≡ false → Refusal k m Response.not_connected
    ill_named :
        (host : Text)
        → IsAsked k host
        → is_subdomain host ≡ false
        → Refusal k m Response.bad_subdomain
    taken :
        (host : Text)
        → IsAsked k host
        → has_host host m.config.exposed_ports ≡ true
        → Refusal k m Response.route_conflict
    nameless :
        (host : Text)
        → IsAsked k host
        → build_fqdn h m.config host ≡ none
        → Refusal k m Response.no_domain
    unsaved :
        (p : ExposedPort) (e : SaveError)
        → (update h.codec k.save_faults (add_port p) m).1 ≡ some e
        → Refusal k m Response.not_saved

  -- The end of a request: refused without a change, created and saved, rolled back and saved, or
  -- left over since the roll-back could not be saved.
  pub data Outcome (k : Circumstances) (m : Manager) (o : Manager × Response) : Type 0 where
    refused :
        (t : List Text)
        → o.0 ≡ record m { temps = t }
        → (k.save_faults.remove_temp ≡ false → t ≡ m.temps)
        → Refusal k m o.1
        → Outcome k m o
    done :
        (p : ExposedPort) (fqdn url : Text)
        → o.1 ≡ created (route_of p fqdn) url
        → has_host p.host_header m.config.exposed_ports ≡ false
        → o.0.config.exposed_ports ≡ m.config.exposed_ports ++ p ∷ []
        → IsSaved h.codec o.0
        → Outcome k m o
    rolled_back :
        o.1 ≡ dns_failed
        → o.0.config.exposed_ports ≡ m.config.exposed_ports
        → IsSaved h.codec o.0
        → Outcome k m o
    left_over :
        (p : ExposedPort) (e : SaveError) (m' : Manager)
        → o.1 ≡ dns_failed
        → has_host p.host_header m.config.exposed_ports ≡ false
        → o.0.config.exposed_ports ≡ m.config.exposed_ports ++ p ∷ []
        → (update h.codec k.rollback_faults (remove_port p.id) m').1 ≡ some e
        → Outcome k m o

  refused_with :
      (k : Circumstances) (m : Manager) (e : Response) {o : Manager × Response}
      → o ≡ (m, e)
      → Refusal k m e
      → Outcome k m o
  refused_with k m e q why =
      subst (λ o. Outcome k m o) (sym q) (refused m.temps refl (λ _. refl) why)

  publish-Outcome :
      (k : Circumstances) (p : ExposedPort) (fqdn : Text) (m m' : Manager)
      → has_id p.id m.config.exposed_ports ≡ false
      → has_host p.host_header m.config.exposed_ports ≡ false
      → m'.config.exposed_ports ≡ m.config.exposed_ports ++ p ∷ []
      → IsSaved h.codec m'
      → Outcome k m (publish h k m.config p fqdn m')
  unfolding publish remove_port
  publish-Outcome k p fqdn m m' fresh free e s =
      elim (Bool-cases (k.upsert_record p.host_header (resolve_target_ip h m.config))) [
        | inl u ↦ rw (u, publish) (done p fqdn _ refl free e s)
        | inr u ↦ elim (update-cases h.codec k.rollback_faults (remove_port p.id) m') [
          | inl (x, t, q, c) ↦
              rw (u, publish)
                (left_over p x m' refl free (ap (λ y. y.0.config.exposed_ports) q ∙ e)
                  (ap (λ o. o.1) q))
          | inr (a, b, c, d) ↦
              rw (u, publish)
                (rolled_back refl
                  (ap (λ y. y.exposed_ports) b
                    ∙ ap (λ y. without_id p.id y) e
                    ∙ without_id-append m.config.exposed_ports p fresh)
                  d)
        ]
      ]

  saved-Outcome :
      (k : Circumstances) (p : ExposedPort) (fqdn : Text) (m : Manager)
      → has_id p.id m.config.exposed_ports ≡ false
      → has_host p.host_header m.config.exposed_ports ≡ false
      → Outcome k m (saved h k m.config p fqdn (update h.codec k.save_faults (add_port p) m))
  unfolding add_port
  saved-Outcome k p fqdn m fresh free = elim (update-cases h.codec k.save_faults (add_port p) m) [
    | inl (x, t, q, e) ↦
        subst (λ o. Outcome k m (saved h k m.config p fqdn o)) (sym q)
          (refused t refl e (unsaved p x (ap (λ o. o.1) q)))
    | inr (a, b, c, d) ↦
        let u = update h.codec k.save_faults (add_port p) m in
        let added : u.0.config.exposed_ports ≡ m.config.exposed_ports ++ p ∷ [] =
          ap (λ y. y.exposed_ports) b ∙ rw (free, add_port) refl in
        subst (λ y. Outcome k m (saved h k m.config p fqdn (u.0, y))) (sym a)
          (publish-Outcome k p fqdn m u.0 fresh free added d)
  ]

  expose-Outcome :
      (k : Circumstances) (r : ExposeRequest) (subdomain : Text) (m : Manager)
      → IsAsked k subdomain
      → has_id k.route_id m.config.exposed_ports ≡ false
      → Outcome k m (expose h k r subdomain m)
  unfolding expose port_of
  expose-Outcome k r subdomain m asked fresh = elim (Bool-cases (is_subdomain subdomain)) [
    | inr a ↦
        rw (a, expose) (refused_with k m Response.bad_subdomain refl (ill_named subdomain asked a))
    | inl a ↦ elim (Bool-cases (has_host subdomain m.config.exposed_ports)) [
      | inl b ↦
          rw (a, b, expose)
            (refused_with k m Response.route_conflict refl (taken subdomain asked b))
      | inr b ↦ elim (Option-cases (build_fqdn h m.config subdomain)) [
        | inl c ↦
            rw (a, b, c, expose)
              (refused_with k m Response.no_domain refl (nameless subdomain asked c))
        | inr (fqdn, c) ↦
            rw (a, b, c, expose) (saved-Outcome k (port_of k subdomain r) fqdn m fresh b)
      ]
    ]
  ]

  -- A request for a route with a fresh id ends in one of four ways: refused for one of seven
  -- reasons, each with its own answer, a failed save among them, with the configuration and its
  -- file untouched, and no temporary file left unless its removal failed; created, with one port
  -- added under a host that no other had, and saved; failed at the DNS provider and rolled back,
  -- with the ports as before, and saved; or failed there with a roll-back that could not be
  -- saved, and then the route stays.
  pub handle_expose-Outcome :
      (k : Circumstances) (m : Manager)
      → has_id k.route_id m.config.exposed_ports ≡ false
      → Outcome k m (handle_expose h k m)
  unfolding handle_expose
  handle_expose-Outcome k m fresh = elim (Option-cases k.body) [
    | inl a ↦ refused_with k m Response.bad_body (simp (a, handle_expose) refl) (undecoded a)
    | inr (r, a) ↦
        elim (Bool-cases (ltb_ℤ r.local_port (pos 1) || ltb_ℤ (pos 65535) r.local_port)) [
          | inl b ↦
              refused_with k m Response.bad_port (simp (a, b, handle_expose) refl) (no_port r a b)
          | inr b ↦ elim (Bool-cases k.is_connected) [
            | inr c ↦
                refused_with k m Response.not_connected (simp (a, b, c, handle_expose) refl)
                  (offline c)
            | inl c ↦
                let host = if text_eq r.subdomain [] then k.generated else r.subdomain in
                let q : handle_expose h k m ≡ expose h k r host m =
                  simp (a, b, c, handle_expose) refl in
                subst (λ o. Outcome k m o) (sym q)
                  (expose-Outcome k r host m record { request = r; decoded = a; chosen = refl }
                    fresh)
          ]
        ]
  ]

-- No two ports have one host.
unfoldable pub IsDistinct : List ExposedPort → Type 0
IsDistinct [] = Unit
IsDistinct (p ∷ ps) = (has_host p.host_header ps ≡ false) × IsDistinct ps

has_host-append :
    (host : Text) (ps : List ExposedPort) (p : ExposedPort)
    → has_host host (ps ++ p ∷ []) ≡ (if has_host host ps then true else text_eq p.host_header host)
unfolding has_host
has_host-append host [] p = ground arith
has_host-append host (q ∷ ps) p = ground (arith, has_host-append host ps p)

pub IsDistinct-append :
    (ps : List ExposedPort) (p : ExposedPort)
    → has_host p.host_header ps ≡ false
    → IsDistinct ps
    → IsDistinct (ps ++ p ∷ [])
unfolding IsDistinct has_host
IsDistinct-append [] p h d = (refl, tt)
IsDistinct-append (q ∷ ps) p h (a, d) = elim (Bool-cases (text_eq q.host_header p.host_header)) [
  | inl e ↦ (let x = rw (e, has_host) at h in cc x)
  | inr e ↦
      let h' : has_host p.host_header ps ≡ false = rw (e, has_host) at h in
      let other : text_eq p.host_header q.host_header ≡ false =
        ground (
          arith,
          text_eq_iff p.host_header q.host_header,
          text_eq_iff q.host_header p.host_header,
        ) in
      (has_host-append q.host_header ps p ∙ rw (a, other) refl, IsDistinct-append ps p h' d)
]

-- If no two exposed ports have one host and the new id is fresh, this still holds after any
-- request for a route, whatever fails.
pub handle_expose-IsDistinct :
    (h : Handler) (k : Circumstances) (m : Manager)
    → has_id k.route_id m.config.exposed_ports ≡ false
    → IsDistinct m.config.exposed_ports
    → IsDistinct (handle_expose h k m).0.config.exposed_ports
handle_expose-IsDistinct h k m fresh d = elim (handle_expose-Outcome h k m fresh) [
  | refused t e c why ↦ rw e d
  | done p fqdn url a free b s ↦ rw b (IsDistinct-append m.config.exposed_ports p free d)
  | rolled_back a b s ↦ rw b d
  | left_over p e m' a free b u ↦ rw b (IsDistinct-append m.config.exposed_ports p free d)
]
