-- ===== src/Daemon/Ports/Leftovers.antt =====
-- What a request of src/internal/daemon/api_ports.go that did not add its port leaves behind.
use unet.Base.{
  ℕ, ◌≡◌, refl, sym, ap, ◌∙◌, Bool, true, false, inl, inr, List, [], ◌∷◌, ◌++◌, Option, none, some,
  arith, Text, text_eq, text_eq_refl, Bool-cases, All, All-append,
}
use unet.Base.Map.{lookup, insert, lookup-insert}
use unet.Config.{RootConfig, ExposedPort}
use unet.Proxy.Caddy.{
  CaddyRouteJson, CaddyClient, ClientError, host_of, route_json, base_url_resolved, add_route,
  remove_route,
}
use unet.Proxy.Caddy.Removal.{
  IsHosted, has_route, without_host, base_url_resolved-kept, add_route-routes,
  remove_route-IsRemoved,
}
use unet.Proxy.Dns.{DnsError, create_record}
use unet.Config.Manager.{Faults}
use unet.Daemon.Ports.{
  CreatePortRequest, Response, not_saved, duplicate, Circumstances, Deps, World, full_host, refusal,
  port_of, proxy_of, keep_proxy, recorded, routed, dial_of_port, link, set_up, roll_back,
  handle_create,
}
use unet.Tunnel.LocalProxy.{new_local_tcp_proxy, start}
use unet.Daemon.Ports.Outcomes.{
  Committed, added, taken, failed, commit-Committed, handle_create-commit, roll_back-manager,
  set_up-manager,
}

module _ (eq : Text → Text → Bool) (host : Text) where
  -- Of two routes of one host the first goes.
  without_host-append_there :
      (rs : List CaddyRouteJson) (r : CaddyRouteJson)
      → has_route eq host rs ≡ true
      → without_host eq host (rs ++ r ∷ []) ≡ without_host eq host rs ++ r ∷ []
  unfolding has_route without_host
  without_host-append_there [] r h = cc
  without_host-append_there (x ∷ xs) r h = ground (arith, without_host-append_there xs r)

module _ (d : Deps) where
  Committed-proxies :
      (f : Faults) (host : Text) (p : ExposedPort) (active : Bool) (u : World d)
      (o : World d × Response)
      → Committed d f host p active u o
      → o.0.proxies ≡ u.proxies
  Committed-proxies f host p active u o (added m e free left s) = ap (λ x. x.0.proxies) e
  Committed-proxies f host p active u o (taken m e t same s) =
      ap (λ x. x.0.proxies) e
      ∙ (roll_back-manager d host p.host_header active (record u { manager = m })).1
  Committed-proxies f host p active u o (failed t e c) =
      ap (λ x. x.0.proxies) e
      ∙ (roll_back-manager d host p.host_header active
          (record u { manager = record u.manager { temps = t } })).1

  -- Once a request has passed the checks and its proxy listens, the proxy stays registered and
  -- running under the new id however the request ends, also as a duplicate or unsaved, if other
  -- requests leave the proxies alone.
  pub handle_create-proxy :
      (k : Circumstances) (meanwhile : World d → World d) (w : World d) (r : CreatePortRequest)
      (port : ℕ)
      → k.body ≡ some r
      → refusal d w.manager.config r ≡ none
      → k.listen ≡ some port
      → ((v : World d) → (meanwhile v).proxies ≡ v.proxies)
      → (lookup k.port_id (handle_create d k meanwhile w).0.proxies
          ≡ some (proxy_of d w.manager.config r port))
        × ((proxy_of d w.manager.config r port).running ≡ true)
  unfolding start new_local_tcp_proxy
  handle_create-proxy k meanwhile w r port a b c others =
      let (v, active) = set_up d k r port w in
      let host = full_host w.manager.config r.subdomain in
      let p = port_of d k r active in
      let px = proxy_of d w.manager.config r port in
      let there : (handle_create d k meanwhile w).0.proxies ≡ insert k.port_id px w.proxies =
        ap (λ x. x.0.proxies) (handle_create-commit d k meanwhile w r port a b c)
        ∙ Committed-proxies k.faults host p active (meanwhile v) _
            (commit-Committed d k host p active (meanwhile v))
        ∙ others v
        ∙ (set_up-manager d k r port w).1 in
      (
        ap (lookup k.port_id) there
            ∙ lookup-insert k.port_id k.port_id px w.proxies
            ∙ rw (text_eq_refl k.port_id) refl,
        refl,
      )

  recorded-caddy :
      (w : World d) (x : d.cloudflare.State × Option DnsError) → (recorded d w x).0.caddy ≡ w.caddy
  recorded-caddy w (s, none) = refl
  recorded-caddy w (s, some e) = refl

  -- The route was added if the record was reached.
  pub routed-true :
      (c : RootConfig) (subdomain : Text) (w : World d)
      (x : CaddyClient d.caddy × Option ClientError)
      → (routed d c subdomain w x).1 ≡ true
      → x ≡ ((routed d c subdomain w x).0.caddy, none)
  routed-true c subdomain w (k, some e) h = cc
  routed-true c subdomain w (k, none) h =
      ap (λ y. (y, none))
        (sym
          (recorded-caddy (record w { caddy = k }) (create_record d.cloudflare c subdomain w.zone)))

  roll_back-caddy :
      (host subdomain : Text) (active : Bool) (w : World d)
      → (roll_back d host subdomain active w).caddy
        ≡ (remove_route d.caddy w.manager.config host w.caddy).0
  unfolding roll_back
  roll_back-caddy host subdomain true w = refl
  roll_back-caddy host subdomain false w = refl

  pub set_up-caddy :
      (k : Circumstances) (r : CreatePortRequest) (port : ℕ) (w : World d)
      → (set_up d k r port w).1 ≡ true
      → add_route d.caddy w.manager.config
          (full_host w.manager.config r.subdomain)
          (dial_of_port d w.manager.config port)
          w.caddy
        ≡ ((set_up d k r port w).0.caddy, none)
  unfolding set_up link keep_proxy
  set_up-caddy k r port w h =
      let c = w.manager.config in
      let u = keep_proxy d k.port_id (proxy_of d c r port) w in
      routed-true c r.subdomain u
        (add_route d.caddy c (full_host c r.subdomain) (dial_of_port d c port) u.caddy) h

  -- The update of a request that is answered as a duplicate.
  Committed-duplicate :
      (f : Faults) (host : Text) (p : ExposedPort) (active : Bool) (u : World d)
      (o : World d × Response)
      → Committed d f host p active u o
      → o.1 ≡ duplicate
      → o.0.caddy ≡ (remove_route d.caddy u.manager.config host u.caddy).0
  Committed-duplicate f host p active u o (added m e free left s) h = elim (Bool-cases active) [
    | inl a ↦ (let x = rw a at (sym (ap (λ y. y.1) e) ∙ h) in cc x)
    | inr a ↦ (let x = rw a at (sym (ap (λ y. y.1) e) ∙ h) in cc x)
  ]
  Committed-duplicate f host p active u o (taken m e t same s) h =
      ap (λ x. x.0.caddy) e
      ∙ roll_back-caddy host p.host_header active (record u { manager = m })
      ∙ ap (λ c. (remove_route d.caddy c host u.caddy).0) same
  Committed-duplicate f host p active u o (failed t e c) h =
      let x : not_saved ≡ duplicate = sym (ap (λ y. y.1) e) ∙ h in cc x

  -- If the host of a request is already served by a route, every route has a host, no other
  -- request interferes, the request's route and record are made without an error and the removal
  -- of the route reports none, a request that is answered as a duplicate takes the first route of
  -- the host away and leaves its own route, which leads to its own proxy, in its place.
  pub handle_create-outage :
      (k : Circumstances) (w : World d) (r : CreatePortRequest) (port : ℕ) (base : Text)
      → k.body ≡ some r
      → refusal d w.manager.config r ≡ none
      → k.listen ≡ some port
      → base_url_resolved d.caddy w.manager.config w.caddy.base_url ≡ some base
      → text_eq (full_host w.manager.config r.subdomain) [] ≡ false
      → All IsHosted (d.caddy.routes base w.caddy.remote)
      → has_route d.caddy.equal_fold
          (full_host w.manager.config r.subdomain)
          (d.caddy.routes base w.caddy.remote)
        ≡ true
      → (set_up d k r port w).1 ≡ true
      → (remove_route d.caddy w.manager.config
          (full_host w.manager.config r.subdomain)
          (set_up d k r port w).0.caddy).1
        ≡ none
      → (handle_create d k (λ v. v) w).1 ≡ duplicate
      → d.caddy.routes base (handle_create d k (λ v. v) w).0.caddy.remote
        ≡ without_host d.caddy.equal_fold
            (full_host w.manager.config r.subdomain)
            (d.caddy.routes base w.caddy.remote)
          ++ route_json
              (full_host w.manager.config r.subdomain)
              (dial_of_port d w.manager.config port)
            ∷ []
  unfolding route_json host_of
  handle_create-outage k w r port base a b c at full hosted there linked gone answer =
      let cfg = w.manager.config in
      let host = full_host cfg r.subdomain in
      let dial = dial_of_port d cfg port in
      let (v, active) = set_up d k r port w in
      let q = handle_create-commit d k (λ v. v) w r port a b c in
      let config : v.manager.config ≡ cfg = ap (λ m. m.config) (set_up-manager d k r port w).0 in
      let rest : (handle_create d k (λ v. v) w).0.caddy
          ≡ (remove_route d.caddy cfg host v.caddy).0 =
        ap (λ x. x.0.caddy) q
        ∙ Committed-duplicate k.faults host (port_of d k r active) active v _
            (commit-Committed d k host (port_of d k r active) active v)
            (sym (ap (λ x. x.1) q) ∙ answer)
        ∙ ap (λ c. (remove_route d.caddy c host v.caddy).0) config in
      let (same, grown) =
        add_route-routes d.caddy cfg base host dial w.caddy v.caddy at
          (set_up-caddy k r port w linked) in
      let at' : base_url_resolved d.caddy cfg v.caddy.base_url ≡ some base =
        rw same (base_url_resolved-kept d.caddy cfg cfg w.caddy.base_url base at) in
      let new : IsHosted (route_json host dial) = rw full full in
      let hosted' : All IsHosted (d.caddy.routes base v.caddy.remote) = rw grown (
        All-append IsHosted (d.caddy.routes base w.caddy.remote) (route_json host dial ∷ []) hosted
          (new, tt)) in
      let (_, left) =
        remove_route-IsRemoved d.caddy cfg base host v.caddy
          (remove_route d.caddy cfg host v.caddy).0 at' hosted'
          (ap (λ e. ((remove_route d.caddy cfg host v.caddy).0, e)) gone) in
      ap (λ k. d.caddy.routes base k.remote) rest
      ∙ left
      ∙ ap (without_host d.caddy.equal_fold host) grown
      ∙ without_host-append_there d.caddy.equal_fold host (d.caddy.routes base w.caddy.remote)
          (route_json host dial) there
