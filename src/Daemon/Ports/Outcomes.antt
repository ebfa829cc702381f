-- ===== src/Daemon/Ports/Outcomes.antt =====
-- How requests of src/internal/daemon/api_ports.go end.
use unet.Base.{
  ℕ, ◌≡◌, refl, sym, ap, ◌∙◌, subst, Bool, true, false, inl, inr, List, [], ◌∷◌, ◌++◌, Option, none,
  some, if◌then◌else◌, Text, Bool-cases, Option-cases,
}
use unet.Base.Map.{insert}
use unet.Config.{RootConfig, ExposedPort}
use unet.Config.Manager.{Manager, Faults, update}
use unet.Config.Manager.Updates.{IsSaved, update-cases}
use unet.Proxy.Caddy.{CaddyClient, ClientError, add_route}
use unet.Proxy.Dns.{DnsError, create_record}
use unet.Routes.Expose.{has_host, add_port}
use unet.Routes.Expose.Outcomes.{IsDistinct, IsDistinct-append}
use unet.Daemon.Ports.{
  CreatePortRequest, Response, not_saved, duplicate, created, failed_upstream, Circumstances, Deps,
  World, refusal, port_of, keep_proxy, recorded, routed, dial_of_port, link, set_up, proxy_of,
  roll_back, commit, expose, handle_create, full_host,
}

module _ (d : Deps) where
  -- The end of an update that came to a world `u`: its port is in, or the configuration is as the
  -- update found it and what was set up outside is rolled back.
  pub data Committed (f : Faults) (host : Text) (p : ExposedPort) (active : Bool) (u : World d)
      (o : World d × Response) : Type 0 where
    added :
        (m : Manager)
        → o ≡ (record u { manager = m }, if active then created p else failed_upstream p)
        → has_host p.host_header u.manager.config.exposed_ports ≡ false
        → m.config
          ≡ record u.manager.config { exposed_ports = u.manager.config.exposed_ports ++ p ∷ [] }
        → IsSaved d.codec m
        → Committed f host p active u o
    taken :
        (m : Manager)
        → o ≡ (roll_back d host p.host_header active (record u { manager = m }), duplicate)
        → has_host p.host_header u.manager.config.exposed_ports ≡ true
        → m.config ≡ u.manager.config
        → IsSaved d.codec m
        → Committed f host p active u o
    failed :
        (t : List Text)
        → o ≡ (
          roll_back d host p.host_header active
              (record u { manager = record u.manager { temps = t } }),
          not_saved,
        )
        → (f.remove_temp ≡ false → t ≡ u.manager.temps)
        → Committed f host p active u o

  pub commit-Committed :
      (k : Circumstances) (host : Text) (p : ExposedPort) (active : Bool) (u : World d)
      → Committed k.faults host p active u (commit d k host p active u)
  unfolding commit add_port
  commit-Committed k host p active u = elim (update-cases d.codec k.faults (add_port p) u.manager) [
    | inl (x, t, q, e) ↦ failed t (rw (commit, q) refl) e
    | inr (a, b, c, s) ↦
        let m = (update d.codec k.faults (add_port p) u.manager).0 in
        let e : update d.codec k.faults (add_port p) u.manager ≡ (m, none) = ap (λ y. (m, y)) a in
        elim (Bool-cases (has_host p.host_header u.manager.config.exposed_ports)) [
          | inl t ↦ taken m (rw (commit, e, t) refl) t (b ∙ rw (add_port, t) refl) s
          | inr t ↦ added m (rw (commit, e, t) refl) t (b ∙ rw (add_port, t) refl) s
        ]
  ]

  -- Why a request is refused before anything is set up, by the answer that it gets.
  pub data Unmet (k : Circumstances) (w : World d) : Response → Type 0 where
    undecoded : k.body ≡ none → Unmet k w Response.bad_body
    checked :
        (r : CreatePortRequest) (e : Response)
        → k.body ≡ some r
        → refusal d w.manager.config r ≡ some e
        → Unmet k w e
    not_listening :
        (r : CreatePortRequest)
        → k.body ≡ some r
        → refusal d w.manager.config r ≡ none
        → k.listen ≡ none
        → Unmet k w Response.proxy_error

  -- A request is refused without a change, or it set up its proxy, route and record, other requests
  -- ran, and its update came to an end.
  pub data Outcome (k : Circumstances) (meanwhile : World d → World d) (w : World d)
      (o : World d × Response) : Type 0 where
    refused : o.0 ≡ w → Unmet k w o.1 → Outcome k meanwhile w o
    settled :
        (r : CreatePortRequest) (port : ℕ)
        → k.body ≡ some r
        → refusal d w.manager.config r ≡ none
        → k.listen ≡ some port
        → Committed k.faults
            (full_host w.manager.config r.subdomain)
            (port_of d k r (set_up d k r port w).1)
            (set_up d k r port w).1
            (meanwhile (set_up d k r port w).0)
            o
        → Outcome k meanwhile w o

  refused_with :
      (k : Circumstances) (meanwhile : World d → World d) (w : World d) (e : Response)
      {o : World d × Response}
      → o ≡ (w, e)
      → Unmet k w e
      → Outcome k meanwhile w o
  refused_with k meanwhile w e q why = subst (Outcome k meanwhile w) (sym q) (refused refl why)

  -- A request that is not refused comes to its update.
  pub handle_create-commit :
      (k : Circumstances) (meanwhile : World d → World d) (w : World d) (r : CreatePortRequest)
      (port : ℕ)
      → k.body ≡ some r
      → refusal d w.manager.config r ≡ none
      → k.listen ≡ some port
      → let (v, active) = set_up d k r port w in
        handle_create d k meanwhile w
        ≡ commit d k
            (full_host w.manager.config r.subdomain)
            (port_of d k r active)
            active
            (meanwhile v)
  unfolding handle_create expose
  handle_create-commit k meanwhile w r port a b c = simp (a, b, c, handle_create) refl

  pub handle_create-Outcome :
      (k : Circumstances) (meanwhile : World d → World d) (w : World d)
      → Outcome k meanwhile w (handle_create d k meanwhile w)
  unfolding handle_create
  handle_create-Outcome k meanwhile w = elim (Option-cases k.body) [
    | inl a ↦
        refused_with k meanwhile w Response.bad_body (simp (a, handle_create) refl) (undecoded a)
    | inr (r, a) ↦ elim (Option-cases (refusal d w.manager.config r)) [
      | inr (e, b) ↦
          refused_with k meanwhile w e (simp (a, b, handle_create) refl) (checked r e a b)
      | inl b ↦ elim (Option-cases k.listen) [
        | inl c ↦
            refused_with k meanwhile w Response.proxy_error (simp (a, b, c, handle_create) refl)
              (not_listening r a b c)
        | inr (port, c) ↦
            let (v, active) = set_up d k r port w in
            let host = full_host w.manager.config r.subdomain in
            subst (Outcome k meanwhile w) (sym (handle_create-commit k meanwhile w r port a b c)) (
              settled r port a b c
                (commit-Committed k host (port_of d k r active) active (meanwhile v)))
      ]
    ]
  ]

  pub roll_back-manager :
      (host subdomain : Text) (active : Bool) (w : World d)
      → ((roll_back d host subdomain active w).manager ≡ w.manager)
        × ((roll_back d host subdomain active w).proxies ≡ w.proxies)
  unfolding roll_back
  roll_back-manager host subdomain true w = (refl, refl)
  roll_back-manager host subdomain false w = (refl, refl)

  Committed-IsDistinct :
      (f : Faults) (host : Text) (p : ExposedPort) (active : Bool) (u : World d)
      (o : World d × Response)
      → Committed f host p active u o
      → IsDistinct u.manager.config.exposed_ports
      → IsDistinct o.0.manager.config.exposed_ports
  Committed-IsDistinct f host p active u o (added m e free left s) h =
      rw (e, left) (IsDistinct-append u.manager.config.exposed_ports p free h)
  Committed-IsDistinct f host p active u o (taken m e t same s) h =
      rw (e, (roll_back-manager host p.host_header active (record u { manager = m })).0, same) h
  Committed-IsDistinct f host p active u o (failed t e k) h =
      rw
        (
          e,
          (roll_back-manager host p.host_header active
              (record u { manager = record u.manager { temps = t } })).0,
        )
        h

  recorded-manager :
      (w : World d) (x : d.cloudflare.State × Option DnsError)
      → ((recorded d w x).0.manager ≡ w.manager) × ((recorded d w x).0.proxies ≡ w.proxies)
  recorded-manager w (s, none) = (refl, refl)
  recorded-manager w (s, some e) = (refl, refl)

  routed-manager :
      (c : RootConfig) (subdomain : Text) (w : World d)
      (x : CaddyClient d.caddy × Option ClientError)
      → ((routed d c subdomain w x).0.manager ≡ w.manager)
        × ((routed d c subdomain w x).0.proxies ≡ w.proxies)
  routed-manager c subdomain w (k, some e) = (refl, refl)
  routed-manager c subdomain w (k, none) =
      recorded-manager (record w { caddy = k }) (create_record d.cloudflare c subdomain w.zone)

  pub set_up-manager :
      (k : Circumstances) (r : CreatePortRequest) (port : ℕ) (w : World d)
      → ((set_up d k r port w).0.manager ≡ w.manager)
        × ((set_up d k r port w).0.proxies
            ≡ insert k.port_id (proxy_of d w.manager.config r port) w.proxies)
  unfolding set_up link keep_proxy
  set_up-manager k r port w =
      let c = w.manager.config in
      let host = full_host c r.subdomain in
      let u = keep_proxy d k.port_id (proxy_of d c r port) w in
      routed-manager c r.subdomain u (add_route d.caddy c host (dial_of_port d c port) u.caddy)

  -- A creation keeps the hosts apart, if the requests in between do.
  pub handle_create-IsDistinct :
      (k : Circumstances) (meanwhile : World d → World d) (w : World d)
      → ((u : World d)
          → IsDistinct u.manager.config.exposed_ports
          → IsDistinct (meanwhile u).manager.config.exposed_ports)
      → IsDistinct w.manager.config.exposed_ports
      → IsDistinct (handle_create d k meanwhile w).0.manager.config.exposed_ports
  handle_create-IsDistinct k meanwhile w others h = elim (handle_create-Outcome k meanwhile w) [
    | refused e why ↦ rw e h
    | settled r port a b l c ↦
        let (v, active) = set_up d k r port w in
        Committed-IsDistinct k.faults (full_host w.manager.config r.subdomain)
          (port_of d k r active) active (meanwhile v) (handle_create d k meanwhile w) c
          (others v (rw (set_up-manager k r port w).0 h))
  ]
