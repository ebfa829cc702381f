-- ===== src/Daemon/Ports/Creation.antt =====
-- What a request of src/internal/daemon/api_ports.go that created its port has done.
use unet.Base.{
  ℕ, ◌≡◌, refl, sym, ap, ◌∙◌, Bool, true, false, [], ◌∷◌, ◌++◌, Option, none, some, Text,
}
use unet.Base.Map.{insert}
use unet.Config.{RootConfig, ExposedPort}
use unet.Config.Manager.{Manager, Faults}
use unet.Proxy.Caddy.{CaddyClient, ClientError, add_route}
use unet.Proxy.Dns.{DnsError, create_record}
use unet.Daemon.Ports.{
  CreatePortRequest, Response, not_saved, duplicate, created, failed_upstream, Circumstances, Deps,
  World, full_host, refusal, port_of, proxy_of, keep_proxy, recorded, routed, dial_of_port, link,
  set_up, commit, handle_create,
}
use unet.Daemon.Ports.Outcomes.{
  Committed, added, taken, failed, commit-Committed, handle_create-commit, set_up-manager,
}
use unet.Daemon.Ports.Leftovers.{set_up-caddy}

module _ (d : Deps) where
  -- A port that was created with success.
  Committed-created :
      (f : Faults) (host : Text) (p q : ExposedPort) (active : Bool) (u : World d)
      (o : World d × Response)
      → Committed d f host p active u o
      → o.1 ≡ created q
      → (active ≡ true)
        × (p ≡ q)
        × (m : Manager) × (o.0 ≡ record u { manager = m })
        × (m.config
            ≡ record u.manager.config { exposed_ports = u.manager.config.exposed_ports ++ p ∷ [] })
  Committed-created f host p q true u o (added m e free left s) h =
      let x : created p ≡ created q = sym (ap (λ y. y.1) e) ∙ h in
      (refl, cc x, m, ap (λ y. y.0) e, left)
  Committed-created f host p q false u o (added m e free left s) h =
      let x : failed_upstream p ≡ created q = sym (ap (λ y. y.1) e) ∙ h in cc x
  Committed-created f host p q active u o (taken m e t same s) h =
      (let x : duplicate ≡ created q = sym (ap (λ y. y.1) e) ∙ h in cc x)
  Committed-created f host p q active u o (failed t e c) h =
      (let x : not_saved ≡ created q = sym (ap (λ y. y.1) e) ∙ h in cc x)

  recorded-zone :
      (w : World d) (x : d.cloudflare.State × Option DnsError)
      → (recorded d w x).1 ≡ true
      → x ≡ ((recorded d w x).0.zone, none)
  recorded-zone w (s, none) h = refl
  recorded-zone w (s, some e) h = cc

  routed-zone :
      (c : RootConfig) (subdomain : Text) (w : World d)
      (x : CaddyClient d.caddy × Option ClientError)
      → (routed d c subdomain w x).1 ≡ true
      → create_record d.cloudflare c subdomain w.zone ≡ ((routed d c subdomain w x).0.zone, none)
  routed-zone c subdomain w (k, some e) h = cc
  routed-zone c subdomain w (k, none) h =
      recorded-zone (record w { caddy = k }) (create_record d.cloudflare c subdomain w.zone) h

  set_up-zone :
      (k : Circumstances) (r : CreatePortRequest) (port : ℕ) (w : World d)
      → (set_up d k r port w).1 ≡ true
      → create_record d.cloudflare w.manager.config r.subdomain w.zone
        ≡ ((set_up d k r port w).0.zone, none)
  unfolding set_up link keep_proxy
  set_up-zone k r port w h =
      let c = w.manager.config in
      let u = keep_proxy d k.port_id (proxy_of d c r port) w in
      routed-zone c r.subdomain u
        (add_route d.caddy c (full_host c r.subdomain) (dial_of_port d c port) u.caddy) h

  -- What a request that answered with its port has done: to the configuration, the proxies, Caddy
  -- and the zone.
  pub handle_create-created :
      (k : Circumstances) (w w1 : World d) (r : CreatePortRequest) (port : ℕ) (p : ExposedPort)
      → k.body ≡ some r
      → refusal d w.manager.config r ≡ none
      → k.listen ≡ some port
      → handle_create d k (λ v. v) w ≡ (w1, created p)
      → let c = w.manager.config in
        (port_of d k r true ≡ p)
        × (w1.manager.config ≡ record c { exposed_ports = c.exposed_ports ++ p ∷ [] })
        × (w1.proxies ≡ insert k.port_id (proxy_of d c r port) w.proxies)
        × (add_route d.caddy c (full_host c r.subdomain) (dial_of_port d c port) w.caddy
            ≡ (w1.caddy, none))
        × (create_record d.cloudflare c r.subdomain w.zone ≡ (w1.zone, none))
  handle_create-created k w w1 r port p a b c made =
      let cfg = w.manager.config in
      let host = full_host cfg r.subdomain in
      let q = handle_create-commit d k (λ v. v) w r port a b c in
      let (v, active) = set_up d k r port w in
      let new = port_of d k r active in
      let (on, same, m, o, left) =
        Committed-created k.faults host new p active v (commit d k host new active v)
          (commit-Committed d k host new active v) (sym (ap (λ x. x.1) q) ∙ ap (λ x. x.1) made) in
      let w1-eq : w1 ≡ record v { manager = m } = sym (ap (λ x. x.0) made) ∙ ap (λ x. x.0) q ∙ o in
      let (kept, proxies) = set_up-manager d k r port w in
      (
        ap (λ y. port_of d k r y) (sym on) ∙ same,
        ap (λ x. x.manager.config) w1-eq
            ∙ left
            ∙ ap (λ y. record y.config { exposed_ports = y.config.exposed_ports ++ new ∷ [] }) kept
            ∙ ap (λ y. record cfg { exposed_ports = cfg.exposed_ports ++ y ∷ [] }) same,
        ap (λ x. x.proxies) w1-eq ∙ proxies,
        set_up-caddy d k r port w on ∙ ap (λ x. (x.caddy, none)) (sym w1-eq),
        set_up-zone k r port w on ∙ ap (λ x. (x.zone, none)) (sym w1-eq),
      )
