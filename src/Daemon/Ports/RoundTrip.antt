-- ===== src/Daemon/Ports/RoundTrip.antt =====
-- A port of src/internal/daemon/api_ports.go that was created and removed again.
use unet.Base.{
  ℕ, suc, ◌+◌, ◌≡◌, refl, sym, ap, ◌∙◌, true, false, inl, inr, List, [], ◌∷◌, ◌++◌, none, some,
  arith, Text, codes, text_eq, text_eq_refl, Bool-cases, All, length,
}
use unet.Base.Map.{Map, lookup, insert, delete}
use unet.Config.{RootConfig, ExposedPort}
use unet.Config.Manager.{Manager, Faults}
use unet.Routes.Expose.{without_id}
use unet.Routes.Expose.Outcomes.{has_id, without_id-append}
use unet.Proxy.Caddy.{base_url_resolved, remove_route}
use unet.Proxy.Caddy.Removal.{IsHosted, has_route, add_route-remove_route}
use unet.Proxy.Dns.{record_name, by_provider, delete_cloudflare_record, delete_record}
use unet.Proxy.Dns.Records.{first_named, create_record-delete_record}
use unet.Daemon.Ports.{
  CreatePortRequest, Response, not_saved, removed, created, Circumstances, Deps, World, full_host,
  find_port, refusal, port_of, proxy_of, dial_of_port, handle_create, target_of, unlink,
  handle_remove,
}
use unet.Daemon.Ports.Removal.{Removed, unsaved, its_own, by_position, handle_remove-Removed}
use unet.Daemon.Ports.Creation.{handle_create-created}

delete-insert {ℓ} :
    {V : Type ℓ} (k : Text) (v : V) (m : Map V) → lookup k m ≡ none → delete k (insert k v m) ≡ m
unfolding lookup insert delete
delete-insert k v [] h = rw (text_eq_refl k, delete) refl
delete-insert k v ((j, w) ∷ m) h = elim (Bool-cases (text_eq j k)) [
  | inl e ↦ (let x = rw (lookup, e) at h in cc x)
  | inr e ↦ rw (insert, e, delete, e) (ap (◌∷◌ (j, w)) (delete-insert k v m (rw (lookup, e) at h)))
]

has_id-append : (ps : List ExposedPort) (p : ExposedPort) → has_id p.id (ps ++ p ∷ []) ≡ true
unfolding has_id
has_id-append [] p = rw (text_eq_refl p.id, has_id) refl
has_id-append (q ∷ ps) p = ground (arith, has_id-append ps p)

find_port-append :
    (ps : List ExposedPort) (p : ExposedPort)
    → has_id p.id ps ≡ false
    → find_port p.id (ps ++ p ∷ []) ≡ some (length ps, p)
unfolding find_port has_id
find_port-append [] p h = rw (find_port, text_eq_refl p.id) refl
find_port-append (q ∷ ps) p h = elim (Bool-cases (text_eq q.id p.id)) [
  | inl e ↦ (let x = rw (e, has_id) at h in cc x)
  | inr e ↦
      let n : length ps + 1 ≡ suc (length ps) = omega arith in
      rw (e, find_port, find_port-append ps p (rw (e, has_id) at h), n) refl
]

module _ (d : Deps) where
  -- What a removal has done that reports so, to a port of its own id.
  Removed-removed :
      (f : Faults) (id : Text) (i : ℕ) (u : World d) (o : World d × Response)
      → Removed d f id i u o
      → o.1 ≡ removed
      → has_id id u.manager.config.exposed_ports ≡ true
      → (m : Manager) × (o.0 ≡ record u { manager = m })
        × (m.config ≡ record u.manager.config {
          exposed_ports = without_id id u.manager.config.exposed_ports;
        })
  Removed-removed f id i u o (unsaved n e c) h t =
      (let x : not_saved ≡ removed = sym (ap (λ y. y.1) e) ∙ h in cc x)
  Removed-removed f id i u o (its_own m e own left s) h t = (m, ap (λ y. y.0) e, left)
  Removed-removed f id i u o (by_position m e gone left s) h t = (let x = sym gone ∙ t in cc x)

  -- The removal of the port that was added last.
  handle_remove-last :
      (f : Faults) (w w2 : World d) (ps : List ExposedPort) (p : ExposedPort)
      → text_eq p.id [] ≡ false
      → has_id p.id ps ≡ false
      → w.manager.config.exposed_ports ≡ ps ++ p ∷ []
      → handle_remove d f p.id (λ v. v) w ≡ (w2, removed)
      → (m : Manager) × (w2 ≡ record (unlink d p.id p w) { manager = m })
        × (m.config ≡ record w.manager.config { exposed_ports = ps })
  unfolding target_of unlink
  handle_remove-last f w w2 ps p named fresh all unmade =
      let found : target_of d p.id w.manager.config.exposed_ports ≡ some (length ps, p) =
        rw (all, target_of, find_port-append ps p fresh) refl in
      let u = unlink d p.id p w in
      let (m, o, left) =
        Removed-removed f p.id (length ps) u (handle_remove d f p.id (λ v. v) w)
          (handle_remove-Removed d f p.id (λ v. v) w (length ps) p named found)
          (ap (λ x. x.1) unmade) (rw all (has_id-append ps p)) in
      (
        m,
        sym (ap (λ x. x.0) unmade) ∙ o,
        left
            ∙ ap (λ y. record w.manager.config { exposed_ports = y })
                (ap (without_id p.id) all ∙ without_id-append ps p fresh),
      )

  -- A port that was created with success, under a fresh id and a host that neither Caddy nor the
  -- Cloudflare zone knew, and then removed with success, leaves everything as it was: the
  -- configuration, the proxies, the routes of Caddy and the records of the zone. It is required
  -- that every route of Caddy has a host and that the two deletions outside report no error.
  pub handle_create-handle_remove :
      (k : Circumstances) (f : Faults) (w w1 w2 : World d) (r : CreatePortRequest) (port : ℕ)
      (p : ExposedPort) (base : Text)
      → k.body ≡ some r
      → refusal d w.manager.config r ≡ none
      → k.listen ≡ some port
      → text_eq k.port_id [] ≡ false
      → has_id k.port_id w.manager.config.exposed_ports ≡ false
      → lookup k.port_id w.proxies ≡ none
      → base_url_resolved d.caddy w.manager.config w.caddy.base_url ≡ some base
      → text_eq (full_host w.manager.config r.subdomain) [] ≡ false
      → All IsHosted (d.caddy.routes base w.caddy.remote)
      → has_route d.caddy.equal_fold
          (full_host w.manager.config r.subdomain)
          (d.caddy.routes base w.caddy.remote)
        ≡ false
      → handle_create d k (λ v. v) w ≡ (w1, created p)
      → (remove_route d.caddy w1.manager.config (full_host w.manager.config r.subdomain) w1.caddy).1
        ≡ none
      → text_eq (d.cloudflare.to_lower w.manager.config.dns.provider) (codes "cloudflare") ≡ true
      → first_named
          (record_name r.subdomain w.manager.config.dns.zone)
          (d.cloudflare.records w.manager.config.dns.zone w.zone)
        ≡ none
      → (delete_record d.cloudflare w.manager.config r.subdomain w1.zone).1 ≡ none
      → handle_remove d f k.port_id (λ v. v) w1 ≡ (w2, removed)
      → (w2.manager.config ≡ w.manager.config)
        × (w2.proxies ≡ w.proxies)
        × (d.caddy.routes base w2.caddy.remote ≡ d.caddy.routes base w.caddy.remote)
        × (d.cloudflare.records w.manager.config.dns.zone w2.zone
            ≡ d.cloudflare.records w.manager.config.dns.zone w.zone)
  unfolding port_of full_host unlink delete_record by_provider delete_cloudflare_record
  handle_create-handle_remove k f w w1 w2 r port p base a b c named fresh free at full hosted absent
        made gone cloudflare unknown erased unmade =
      let cfg = w.manager.config in
      let (new, config, proxies, route, zone) =
        handle_create-created d k w w1 r port p a b c made in
      let id : p.id ≡ k.port_id = ap (λ x. x.id) (sym new) in
      let header : p.host_header ≡ r.subdomain = ap (λ x. x.host_header) (sym new) in
      let (m, o, left) =
        handle_remove-last f w1 w2 cfg.exposed_ports p (rw id named) (rw id fresh)
          (ap (λ x. x.exposed_ports) config) (rw id unmade) in
      let hosts : full_host w1.manager.config p.host_header ≡ full_host cfg r.subdomain =
        ap (λ x. full_host x p.host_header) config ∙ ap (full_host cfg) header in
      let unset : (unlink d p.id p w1).zone
          ≡ (delete_record d.cloudflare cfg r.subdomain w1.zone).0 =
        ap (λ x. (delete_record d.cloudflare x p.host_header w1.zone).0) config
        ∙ ap (λ x. (delete_record d.cloudflare cfg x w1.zone).0) header in
      (
        ap (λ x. x.manager.config) o
            ∙ left
            ∙ ap {A = RootConfig} (λ x. record x { exposed_ports = cfg.exposed_ports }) config,
        ap (λ x. x.proxies) o
            ∙ ap (λ x. delete x w1.proxies) id
            ∙ ap (delete k.port_id) proxies
            ∙ delete-insert k.port_id (proxy_of d cfg r port) w.proxies free,
        ap (λ x. d.caddy.routes base x.caddy.remote) o
            ∙ ap
                (λ x.
                  d.caddy.routes base (remove_route d.caddy w1.manager.config x w1.caddy).0.remote)
                hosts
            ∙ add_route-remove_route d.caddy cfg w1.manager.config base (full_host cfg r.subdomain)
                (dial_of_port d cfg port) w.caddy w1.caddy _ at full hosted absent route
                (ap
                  (λ e. (
                    (remove_route d.caddy w1.manager.config (full_host cfg r.subdomain) w1.caddy).0,
                    e,
                  ))
                  gone),
        ap (λ x. d.cloudflare.records cfg.dns.zone x.zone) o
            ∙ ap (d.cloudflare.records cfg.dns.zone) unset
            ∙ create_record-delete_record d.cloudflare cfg r.subdomain w.zone w1.zone _ cloudflare
                unknown zone
                (ap (λ e. ((delete_record d.cloudflare cfg r.subdomain w1.zone).0, e)) erased),
      )
