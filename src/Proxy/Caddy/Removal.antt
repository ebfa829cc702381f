-- ===== src/Proxy/Caddy/Removal.antt =====
-- What the methods of src/internal/proxy/caddy.go leave on the server.
use unet.Base.{
  ℕ, suc, ◌+◌, ◌≡◌, refl, sym, ap, ◌∙◌, subst, Bool, true, false, ◌⊎◌, inl, inr, List, [], ◌∷◌,
  ◌++◌, Option, none, some, arith, leb, if◌then◌else◌, Text, codes, text_eq, Bool-cases,
  Option-cases, All, All-append,
}
use unet.Base.Map.{lookup}
use unet.Config.{RootConfig}
use unet.Proxy.Caddy.{
  Route, CaddyRouteJson, remove_at, host_of, list_routes_of, route_json, routes_of, CaddyApi,
  ClientError, no_route, find_route_index, request_error, CaddyClient, resolve_base_url,
  base_url_resolved, list_routes_locked, answered, add_route, remove_at_index, remove_route,
}

-- Every route of the server names a host.
abbrev pub IsHosted : CaddyRouteJson → Type 0
IsHosted r = text_eq (host_of r.matchers) [] ≡ false

module _ (eq : Text → Text → Bool) (host : Text) where
  unfoldable pub has_route : List CaddyRouteJson → Bool
  has_route [] = false
  has_route (r ∷ rs) = if eq (host_of r.matchers) host then true else has_route rs

  -- The routes without the first one of the host.
  unfoldable pub without_host : List CaddyRouteJson → List CaddyRouteJson
  without_host [] = []
  without_host (r ∷ rs) =
      let rest = without_host rs in if eq (host_of r.matchers) host then rs else r ∷ rest

  -- If every route has a host, the index found is that of the route in the server's list.
  find-remove_at :
      (rs : List CaddyRouteJson) (i : ℕ)
      → All IsHosted rs
      → find_route_index eq host (list_routes_of rs) ≡ some i
      → remove_at i rs ≡ without_host rs
  unfolding find_route_index list_routes_of without_host
  find-remove_at [] i h e = cc
  find-remove_at (r ∷ rs) i (a, h) e = elim (Bool-cases (eq (host_of r.matchers) host)) [
    | inl b ↦
        let x : some 0 ≡ some i = rw (a, find_route_index, b) at e in
        let p : i ≡ 0 = cc x in rw (p, b, without_host) refl
    | inr b ↦ elim (Option-cases (find_route_index eq host (list_routes_of rs))) [
      | inl q ↦ (let x : none ≡ some i = rw (a, find_route_index, b, q) at e in cc x)
      | inr (j, q) ↦
          let x : some (j + 1) ≡ some i = rw (a, find_route_index, b, q) at e in
          let p0 : i ≡ j + 1 = cc x in
          let p : i ≡ suc j = omega (arith, p0) in
          rw (p, b, without_host) (ap (◌∷◌ r) (find-remove_at rs j h q))
    ]
  ]

  without_host-append :
      (rs : List CaddyRouteJson) (dial : Text)
      → eq host host ≡ true
      → text_eq host [] ≡ false
      → has_route rs ≡ false
      → without_host (rs ++ route_json host dial ∷ []) ≡ rs
  unfolding without_host has_route route_json host_of
  without_host-append [] dial h f n = rw (f, h) refl
  without_host-append (r ∷ rs) dial h f n = ground (arith, without_host-append rs dial h f)

module _ (api : CaddyApi) where
  resolve_base_url-full :
      (c : RootConfig) (base : Text) → resolve_base_url api c ≡ some base → text_eq base [] ≡ false
  unfolding resolve_base_url text_eq
  resolve_base_url-full c base h = elim (Bool-cases (text_eq c.caddy_api.address [])) [
    | inr e ↦
        let x : some c.caddy_api.address ≡ some base = rw (resolve_base_url, e) at h in
        let p : c.caddy_api.address ≡ base = cc x in subst (λ b. text_eq b [] ≡ false) p e
    | inl e ↦ elim (Bool-cases (text_eq c.tunnel.server_ip [])) [
      | inl q ↦ (let x : none ≡ some base = rw (resolve_base_url, e, q) at h in cc x)
      | inr q ↦
          let url = codes "http://" ++ api.join_host_port c.tunnel.server_ip (codes "2019") in
          let x : some url ≡ some base = rw (resolve_base_url, e, q) at h in
          let p : url ≡ base = cc x in subst (λ b. text_eq b [] ≡ false) p refl
    ]
  ]

  -- An address that was resolved is not empty, so it is the one of every later call.
  pub base_url_resolved-kept :
      (c c' : RootConfig) (cached base : Text)
      → base_url_resolved api c cached ≡ some base
      → base_url_resolved api c' base ≡ some base
  unfolding base_url_resolved
  base_url_resolved-kept c c' cached base h = elim (Bool-cases (text_eq cached [])) [
    | inl e ↦
        let x : resolve_base_url api c ≡ some base = rw (base_url_resolved, e) at h in
        rw (base_url_resolved, resolve_base_url-full c base x) refl
    | inr e ↦
        let x : some cached ≡ some base = rw (base_url_resolved, e) at h in
        let p : cached ≡ base = cc x in
        subst (λ b. base_url_resolved api c' b ≡ some b) p (rw (base_url_resolved, e) refl)
  ]

  -- The answer to a request without an error was below 400.
  request_error-none :
      (reply : Option ℕ)
      → request_error reply ≡ none
      → (code : ℕ) × (reply ≡ some code) × (leb 400 code ≡ false)
  request_error-none none h = cc
  request_error-none (some code) h = (code, refl, ground arith)

  -- Routes that are listed without an error are those of the server.
  list_routes_locked-routes :
      (base : Text) (s : api.State) (rs : List Route)
      → list_routes_locked api base s ≡ inl rs
      → rs ≡ list_routes_of (api.routes base s)
  unfolding list_routes_locked
  list_routes_locked-routes base s rs h = elim (Option-cases (api.get_config base s)) [
    | inl e ↦ (let x = rw (list_routes_locked, e) at h in cc x)
    | inr ((code, body), e) ↦ elim (Bool-cases (leb 400 code)) [
      | inl q ↦ (let x = rw (list_routes_locked, e, q) at h in cc x)
      | inr q ↦ elim (Option-cases body) [
        | inl b ↦ (let x = rw (list_routes_locked, e, q, b) at h in cc x)
        | inr (servers, b) ↦
            let x = rw (list_routes_locked, e, q, b) at h in
            let y : list_routes_of (routes_of (lookup (codes "srv0") servers)) ≡ rs = cc x in
            sym y ∙ ap list_routes_of (api.listed base s (rw b at e) q)
      ]
    ]
  ]

  abbrev IsRemoved : Text → Text → CaddyClient api → CaddyClient api → Type 0
  IsRemoved base host k k' =
      (k'.base_url ≡ base)
      × (api.routes base k'.remote ≡ without_host api.equal_fold host (api.routes base k.remote))

  -- A deletion without an error takes the route at the index away.
  delete-routes :
      (base : Text) (k k' : CaddyClient api) (i : ℕ)
      → answered api base (api.delete_route base i k.remote) ≡ (k', none)
      → (k'.base_url ≡ base) × (api.routes base k'.remote ≡ remove_at i (api.routes base k.remote))
  delete-routes base k k' i e =
      let (s, reply) = api.delete_route base i k.remote in
      let none_left : request_error reply ≡ none = ap (λ x. x.1) e in
      let (code, q, low) = request_error-none reply none_left in
      let same : k' ≡ record { base_url = base; remote = s } = sym (ap (λ x. x.0) e) in
      (
        ap (λ x. x.base_url) same,
        ap (λ x. api.routes base x.remote) same
            ∙ api.deleted base i k.remote s (ap (λ y. (s, y)) q) low,
      )

  -- The index that is deleted is the one found in the list of the routes with a host.
  remove_at_index-found :
      (base host : Text) (k k' : CaddyClient api) (o : List Route ⊎ ClientError)
      → list_routes_locked api base k.remote ≡ o
      → remove_at_index api base host o k.remote ≡ (k', none)
      → (i : ℕ) × (find_route_index api.equal_fold host (list_routes_of (api.routes base k.remote))
          ≡ some i)
        × (answered api base (api.delete_route base i k.remote) ≡ (k', none))
  unfolding remove_at_index
  remove_at_index-found base host k k' (inr x) l d =
      (let y : some x ≡ none = ap (λ z. z.1) d in cc y)
  remove_at_index-found base host k k' (inl rs) l d =
      let same = list_routes_locked-routes base k.remote rs l in
      elim (Option-cases (find_route_index api.equal_fold host rs)) [
        | inl q ↦
            let x = rw (q, remove_at_index) at d in
            (let y : some no_route ≡ none = ap (λ z. z.1) x in cc y)
        | inr (i, q) ↦ (i, rw same at q, rw (q, remove_at_index) at d)
      ]

  remove_route-found :
      (c : RootConfig) (base host : Text) (k k' : CaddyClient api)
      → base_url_resolved api c k.base_url ≡ some base
      → remove_route api c host k ≡ (k', none)
      → (i : ℕ) × (find_route_index api.equal_fold host (list_routes_of (api.routes base k.remote))
          ≡ some i)
        × (k'.base_url ≡ base)
        × (api.routes base k'.remote ≡ remove_at i (api.routes base k.remote))
  unfolding remove_route
  remove_route-found c base host k k' at e =
      let d = rw (remove_route, at) at e in
      let (i, found, q) =
        remove_at_index-found base host k k' (list_routes_locked api base k.remote) refl d in
      let (same, left) = delete-routes base k k' i q in (i, found, same, left)

  -- A removal without an error takes the first route of the host away, if every route has a host.
  pub remove_route-IsRemoved :
      (c : RootConfig) (base host : Text) (k k' : CaddyClient api)
      → base_url_resolved api c k.base_url ≡ some base
      → All IsHosted (api.routes base k.remote)
      → remove_route api c host k ≡ (k', none)
      → IsRemoved base host k k'
  remove_route-IsRemoved c base host k k' at hosted e =
      let (i, found, same, left) = remove_route-found c base host k k' at e in
      (same, left ∙ find-remove_at api.equal_fold host (api.routes base k.remote) i hosted found)

  pub add_route-routes :
      (c : RootConfig) (base host dial : Text) (k k' : CaddyClient api)
      → base_url_resolved api c k.base_url ≡ some base
      → add_route api c host dial k ≡ (k', none)
      → (k'.base_url ≡ base)
        × (api.routes base k'.remote ≡ api.routes base k.remote ++ route_json host dial ∷ [])
  unfolding add_route
  add_route-routes c base host dial k k' at e =
      let d : answered api base (api.post_route base (route_json host dial) k.remote) ≡ (k', none) =
        rw (add_route, at) at e in
      let (s, reply) = api.post_route base (route_json host dial) k.remote in
      let none_left : request_error reply ≡ none = ap (λ x. x.1) d in
      let (code, q, low) = request_error-none reply none_left in
      let same : k' ≡ record { base_url = base; remote = s } = sym (ap (λ x. x.0) d) in
      (
        ap (λ x. x.base_url) same,
        ap (λ x. api.routes base x.remote) same
            ∙ api.posted base (route_json host dial) k.remote s (ap (λ y. (s, y)) q) low,
      )

  -- If every route of the server has a host and none has the one given, a route that was added
  -- and removed again, both without an error, leaves the routes as they were, also if the
  -- configuration of the address has changed in between.
  pub add_route-remove_route :
      (c c' : RootConfig) (base host dial : Text) (k k' k'' : CaddyClient api)
      → base_url_resolved api c k.base_url ≡ some base
      → text_eq host [] ≡ false
      → All IsHosted (api.routes base k.remote)
      → has_route api.equal_fold host (api.routes base k.remote) ≡ false
      → add_route api c host dial k ≡ (k', none)
      → remove_route api c' host k' ≡ (k'', none)
      → api.routes base k''.remote ≡ api.routes base k.remote
  unfolding route_json host_of
  add_route-remove_route c c' base host dial k k' k'' at full hosted fresh added removed =
      let (same, grown) = add_route-routes c base host dial k k' at added in
      let at' : base_url_resolved api c' k'.base_url ≡ some base =
        rw same (base_url_resolved-kept c c' k.base_url base at) in
      let new : IsHosted (route_json host dial) = rw full full in
      let hosted' : All IsHosted (api.routes base k'.remote) = rw grown (
        All-append IsHosted (api.routes base k.remote) (route_json host dial ∷ []) hosted
          (new, tt)) in
      (remove_route-IsRemoved c' base host k' k'' at' hosted' removed).1
      ∙ ap (without_host api.equal_fold host) grown
      ∙ without_host-append api.equal_fold host (api.routes base k.remote) dial
          (api.equal_fold_refl host) full fresh

  -- The index is counted among the routes with a host but used among all. If the first route of
  -- the server has none and the second has the host given, a removal without an error deletes the
  -- first, and the host stays served.
  pub remove_route-shifted :
      (c : RootConfig) (base host : Text) (r blank : CaddyRouteJson) (rs : List CaddyRouteJson)
      (k k' : CaddyClient api)
      → base_url_resolved api c k.base_url ≡ some base
      → api.routes base k.remote ≡ blank ∷ r ∷ rs
      → text_eq (host_of blank.matchers) [] ≡ true
      → IsHosted r
      → api.equal_fold (host_of r.matchers) host ≡ true
      → remove_route api c host k ≡ (k', none)
      → api.routes base k'.remote ≡ r ∷ rs
  unfolding list_routes_of find_route_index
  remove_route-shifted c base host r blank rs k k' at all_routes e h f d =
      let (i, found, same, left) = remove_route-found c base host k k' at d in
      let x = rw all_routes at found in
      let y : some 0 ≡ some i = rw (list_routes_of, e, h, find_route_index, f) at x in
      let first : i ≡ 0 = cc y in left ∙ rw (all_routes, first) refl
