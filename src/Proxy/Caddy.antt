-- ===== src/Proxy/Caddy.antt =====
-- `CaddyClient` of src/internal/proxy/caddy.go. Caddy's admin API, the spelling of a host with its
-- port and `strings.EqualFold` are given; each method runs under the lock, so it is one step.
pub mod Removal
use unet.Base.{
  ℕ, zero, suc, ◌+◌, ◌≡◌, Bool, true, false, not, ◌⊎◌, inl, inr, List, [], ◌∷◌, ◌++◌, Option, none,
  some, leb, if◌then◌else◌, Text, codes, text_eq,
}
use unet.Base.Map.{Map, lookup}
use unet.Config.{RootConfig}

pub record Route : Type 0 where
  pub host : Text
  pub upstream_dial : Text

pub record CaddyHandleJson : Type 0 where
  pub handler : Text
  pub upstreams : List Text

-- A matcher is its list of hosts.
pub record CaddyRouteJson : Type 0 where
  pub matchers : List (List Text)
  pub handle : List CaddyHandleJson
  pub terminal : Bool

abbrev pub remove_at {ℓ} : {A : Type ℓ} → ℕ → List A → List A
remove_at i [] = []
remove_at zero (x ∷ xs) = xs
remove_at (suc i) (x ∷ xs) = x ∷ remove_at i xs

-- The host of a listed route: of the first matcher that begins with a host that is not empty.
unfoldable pub host_of : List (List Text) → Text
host_of [] = []
host_of ([] ∷ ms) = host_of ms
host_of ((h ∷ hs) ∷ ms) = let rest = host_of ms in if text_eq h [] then rest else h

abbrev first_dial : Bool → List Text → Text → Text
first_dial false ds rest = rest
first_dial true [] rest = rest
first_dial true (d ∷ ds) rest = d

unfoldable pub dial_of : List CaddyHandleJson → Text
dial_of [] = []
dial_of (h ∷ hs) = first_dial (text_eq h.handler (codes "reverse_proxy")) h.upstreams (dial_of hs)

unfoldable pub list_routes_of : List CaddyRouteJson → List Route
list_routes_of [] = []
list_routes_of (r ∷ rs) =
    let rest = list_routes_of rs in
    if text_eq (host_of r.matchers) []
    then rest
    else record { host = host_of r.matchers; upstream_dial = dial_of r.handle } ∷ rest

unfoldable pub route_json : Text → Text → CaddyRouteJson
route_json host upstream_dial = record {
  matchers = (host ∷ []) ∷ [];
  handle = record { handler = codes "reverse_proxy"; upstreams = upstream_dial ∷ [] } ∷ [];
  terminal = true;
}

-- The routes of the server `srv0`; without it there are none.
abbrev pub routes_of : Option (List CaddyRouteJson) → List CaddyRouteJson
routes_of none = []
routes_of (some rs) = rs

-- The admin API at an address, with its servers by name. An answer is `none` if the address was
-- not reached, or else a status and what the body decodes to. A status below 400 says that the
-- request was carried out: a route is appended to those of `srv0`, or the one at the index goes.
pub record CaddyApi : Type 1 where
  pub State : Type 0
  pub routes : Text → State → List CaddyRouteJson
  pub get_config : Text → State → Option (ℕ × Option (Map (List CaddyRouteJson)))
  pub post_route : Text → CaddyRouteJson → State → State × Option ℕ
  pub delete_route : Text → ℕ → State → State × Option ℕ
  pub join_host_port : Text → Text → Text
  pub equal_fold : Text → Text → Bool
  pub listed :
      (base : Text) (s : State) {code : ℕ} {servers : Map (List CaddyRouteJson)}
      → get_config base s ≡ some (code, some servers)
      → leb 400 code ≡ false
      → routes_of (lookup (codes "srv0") servers) ≡ routes base s
  pub posted :
      (base : Text) (r : CaddyRouteJson) (s s' : State) {code : ℕ}
      → post_route base r s ≡ (s', some code)
      → leb 400 code ≡ false
      → routes base s' ≡ routes base s ++ r ∷ []
  pub deleted :
      (base : Text) (i : ℕ) (s s' : State) {code : ℕ}
      → delete_route base i s ≡ (s', some code)
      → leb 400 code ≡ false
      → routes base s' ≡ remove_at i (routes base s)
  pub equal_fold_refl : (h : Text) → equal_fold h h ≡ true

pub data ClientError : Type 0 where
  no_address unreachable not_decoded no_route : ClientError
  returned : ℕ → ClientError

unfoldable pub find_route_index : (Text → Text → Bool) → Text → List Route → Option ℕ
find_route_index equal_fold host [] = none
find_route_index equal_fold host (r ∷ rs) =
    let rest = find_route_index equal_fold host rs in
    if equal_fold r.host host then some 0 else elim rest [ none ↦ none | some i ↦ some (i + 1) ]

-- The error of a request that was made, if any: status 400 and above is one.
abbrev pub request_error : Option ℕ → Option ClientError
request_error none = some unreachable
request_error (some code) = if leb 400 code then some (returned code) else none

module _ (api : CaddyApi) where
  pub record CaddyClient : Type 0 where
    pub base_url : Text
    pub remote : api.State

  unfoldable pub resolve_base_url : RootConfig → Option Text
  resolve_base_url c =
      if not (text_eq c.caddy_api.address [])
      then some c.caddy_api.address
      else if text_eq c.tunnel.server_ip []
      then none
      else some (codes "http://" ++ api.join_host_port c.tunnel.server_ip (codes "2019"))

  -- The address that was resolved first is kept, whatever the configuration says later.
  unfoldable pub base_url_resolved : RootConfig → Text → Option Text
  base_url_resolved c cached = if not (text_eq cached []) then some cached else resolve_base_url c

  unfoldable pub list_routes_locked : Text → api.State → List Route ⊎ ClientError
  list_routes_locked base s = elim (api.get_config base s) [
    | none ↦ inr unreachable
    | some (code, body) ↦ if leb 400 code then inr (returned code) else elim body [
      | none ↦ inr not_decoded
      | some servers ↦ inl (list_routes_of (routes_of (lookup (codes "srv0") servers)))
    ]
  ]

  unfoldable pub list_routes : RootConfig → CaddyClient → CaddyClient × (List Route ⊎ ClientError)
  list_routes c k = elim (base_url_resolved c k.base_url) [
    | none ↦ (k, inr no_address)
    | some base ↦ (record k { base_url = base }, list_routes_locked base k.remote)
  ]

  abbrev answered : Text → api.State × Option ℕ → CaddyClient × Option ClientError
  answered base (s, reply) = (record { base_url = base; remote = s }, request_error reply)

  unfoldable pub add_route :
      RootConfig → Text → Text → CaddyClient → CaddyClient × Option ClientError
  add_route c host upstream_dial k = elim (base_url_resolved c k.base_url) [
    | none ↦ (k, some no_address)
    | some base ↦ answered base (api.post_route base (route_json host upstream_dial) k.remote)
  ]

  unfoldable pub remove_at_index :
      Text → Text → List Route ⊎ ClientError → api.State → CaddyClient × Option ClientError
  remove_at_index base host (inr e) s = (record { base_url = base; remote = s }, some e)
  remove_at_index base host (inl routes) s = elim (find_route_index api.equal_fold host routes) [
    | none ↦ (record { base_url = base; remote = s }, some no_route)
    | some i ↦ answered base (api.delete_route base i s)
  ]

  unfoldable pub remove_route : RootConfig → Text → CaddyClient → CaddyClient × Option ClientError
  remove_route c host k = elim (base_url_resolved c k.base_url) [
    | none ↦ (k, some no_address)
    | some base ↦ remove_at_index base host (list_routes_locked base k.remote) k.remote
  ]
