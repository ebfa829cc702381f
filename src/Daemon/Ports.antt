-- ===== src/Daemon/Ports.antt =====
-- `PortsHandler` of src/internal/daemon/api_ports.go: the ports that are exposed through the tunnel.
-- It writes the configuration, the routes of Caddy, the records of the zone and its own proxies.
pub mod Outcomes
pub mod Leftovers
pub mod Removal
pub mod Creation
pub mod RoundTrip
pub mod Hosts
use unet.Base.{
  ℕ, zero, suc, ◌+◌, ◌≡◌, Bool, true, false, not, ◌&&◌, ◌||◌, ◌⊎◌, inl, inr, List, [], ◌∷◌, ◌++◌,
  Option, none, some, leb, ltb, ◌==◌, if◌then◌else◌, Text, codes, text_eq, has_prefix, has_suffix,
  length, drop, get_elem?,
}
use unet.Base.Int.{ℤ, pos, negsuc, pos_part, ltb_ℤ}
use unet.Base.Map.{Map, lookup, insert, delete}
use unet.Config.{RootConfig, ExposedPort}
use unet.Config.Manager.{Codec, Manager, Faults, SaveError, update}
use unet.Routes.Expose.{is_alnum, starts_alnum, ends_alnum, is_subdomain, has_host, add_port}
use unet.Tunnel.Address.{split_on}
use unet.Tunnel.LocalProxy.{LocalTcpProxy, new_local_tcp_proxy, start}
use unet.Proxy.Caddy.{CaddyApi, CaddyClient, ClientError, add_route, remove_route, remove_at}
use unet.Proxy.Dns.{CloudflareApi, DnsError, create_record, delete_record}

pub record CreatePortRequest : Type 0 where
  pub local_port : ℤ
  pub subdomain : Text
  pub protocol : Text

pub data Response : Type 0 where
  bad_body bad_port no_subdomain bad_subdomain bad_protocol not_connected bad_depth : Response
  proxy_error not_saved duplicate bad_id not_found removed : Response
  created failed_upstream found : ExposedPort → Response

-- `subdomainFullRe`.
unfoldable pub all_full : Text → Bool
all_full [] = true
all_full (c ∷ cs) = let rest = all_full cs in (is_alnum c || c == 45 || c == 46) && rest

unfoldable pub is_full_subdomain : Text → Bool
is_full_subdomain t = starts_alnum t && ends_alnum t && all_full t && leb (length t) 253

-- `subdomainLabelRe`, of every label.
unfoldable pub all_labels : List Text → Bool
all_labels [] = true
all_labels (l ∷ ls) = let rest = all_labels ls in is_subdomain l && rest

unfoldable pub has_dot : Text → Bool
has_dot [] = false
has_dot (c ∷ cs) = let rest = has_dot cs in c == 46 || rest

-- What a request meets: its body, if it decodes, the new id, the time, the port on which the proxy
-- listens if it can, and the faults of the save.
pub record Circumstances : Type 0 where
  pub body : Option CreatePortRequest
  pub port_id : Text
  pub now : Text
  pub listen : Option ℕ
  pub faults : Faults

pub record Deps : Type 1 where
  pub codec : Codec
  pub caddy : CaddyApi
  pub cloudflare : CloudflareApi
  pub itoa : ℕ → Text
  pub atoi : Text → Option ℤ

-- The host that Caddy matches: the subdomain, below the zone unless it ends with the zone.
unfoldable pub full_host : RootConfig → Text → Text
full_host c subdomain =
    if not (text_eq c.dns.zone []) && not (has_suffix subdomain c.dns.zone)
    then subdomain ++ codes "." ++ c.dns.zone
    else subdomain

-- The first port with the id, with its index.
unfoldable pub find_port : Text → List ExposedPort → Option (ℕ × ExposedPort)
find_port id [] = none
find_port id (p ∷ ps) =
    let rest = find_port id ps in
    if text_eq p.id id
    then some (0, p)
    else elim rest [ none ↦ none | some (i, q) ↦ some (i + 1, q) ]

abbrev at_index : ℕ → Option ExposedPort → Option (ℕ × ExposedPort)
at_index i none = none
at_index i (some p) = some (i, p)

abbrev pub index_of : Option (ℕ × ExposedPort) → ℕ → ℕ
index_of none i = i
index_of (some (j, p)) i = j

-- The closure that takes a port away: the first with the id, or else the one at the index.
unfoldable pub drop_port : Text → ℕ → RootConfig → RootConfig
drop_port id i c = record c {
  exposed_ports = remove_at (index_of (find_port id c.exposed_ports) i) c.exposed_ports;
}

module _ (d : Deps) where
  pub record World : Type 0 where
    pub manager : Manager
    pub caddy : CaddyClient d.caddy
    pub zone : d.cloudflare.State
    pub proxies : Map LocalTcpProxy

  -- The protocol of a request: `http` if none is given, in lower case.
  unfoldable pub protocol_of : Text → Text
  protocol_of t = d.cloudflare.to_lower (if text_eq t [] then codes "http" else t)

  abbrev is_protocol : Text → Bool
  is_protocol t = text_eq t (codes "http") || text_eq t (codes "https") || text_eq t (codes "tcp")

  -- The checks, up to the first effect.
  unfoldable pub refusal : RootConfig → CreatePortRequest → Option Response
  refusal c r =
      if ltb_ℤ r.local_port (pos 1) || ltb_ℤ (pos 65535) r.local_port
      then some bad_port
      else if text_eq r.subdomain []
      then some no_subdomain
      else if not (is_full_subdomain r.subdomain)
      then some bad_subdomain
      else if not (all_labels (split_on 46 r.subdomain))
      then some bad_subdomain
      else if not (is_protocol (protocol_of r.protocol))
      then some bad_protocol
      else if not (text_eq c.tunnel.status (codes "connected"))
      then some not_connected
      else if text_eq c.dns.provider (codes "cloudflare") && has_dot r.subdomain
      then some bad_depth
      else none

  unfoldable pub port_of : Circumstances → CreatePortRequest → Bool → ExposedPort
  port_of k r active = record {
    id = k.port_id;
    protocol = protocol_of r.protocol;
    internal = r.local_port;
    host_header = r.subdomain;
    status = if active then codes "active" else codes "error";
    created_at = k.now;
  }

  -- The local proxy that was started, under the id.
  unfoldable pub keep_proxy : Text → LocalTcpProxy → World → World
  keep_proxy id px w = record w { proxies = insert id px w.proxies }

  abbrev recorded : World → d.cloudflare.State × Option DnsError → World × Bool
  recorded w (s, none) = (record w { zone = s }, true)
  recorded w (s, some e) = (record w { zone = s }, false)

  abbrev routed :
      RootConfig → Text → World → CaddyClient d.caddy × Option ClientError → World × Bool
  routed c subdomain w (k, some e) = (record w { caddy = k }, false)
  routed c subdomain w (k, none) =
      recorded (record w { caddy = k }) (create_record d.cloudflare c subdomain w.zone)

  -- The route, then the record if the route was added; whether both were.
  unfoldable pub link : RootConfig → Text → Text → Text → World → World × Bool
  link c host subdomain dial w = routed c subdomain w (add_route d.caddy c host dial w.caddy)

  abbrev without_record : Bool → Text → World → World
  without_record false subdomain w = w
  without_record true subdomain w = record w {
    zone = (delete_record d.cloudflare w.manager.config subdomain w.zone).0;
  }

  -- The route is taken back, and the record if it had been made; errors are dropped.
  unfoldable pub roll_back : Text → Text → Bool → World → World
  roll_back host subdomain active w =
      without_record active subdomain
        (record w { caddy = (remove_route d.caddy w.manager.config host w.caddy).0 })

  abbrev settle : Text → ExposedPort → Bool → World → Manager × Option SaveError → World × Response
  settle host p active w (m, some e) =
      (roll_back host p.host_header active (record w { manager = m }), not_saved)
  settle host p active w (m, none) =
      if has_host p.host_header w.manager.config.exposed_ports
      then (roll_back host p.host_header active (record w { manager = m }), duplicate)
      else (record w { manager = m }, if active then created p else failed_upstream p)

  -- The update of the configuration, which looks for the host under the lock.
  unfoldable pub commit : Circumstances → Text → ExposedPort → Bool → World → World × Response
  commit k host p active w = settle host p active w (update d.codec k.faults (add_port p) w.manager)

  abbrev pub dial_of_port : RootConfig → ℕ → Text
  dial_of_port c port = c.tunnel.local_ip ++ codes ":" ++ d.itoa port

  abbrev pub proxy_of : RootConfig → CreatePortRequest → ℕ → LocalTcpProxy
  proxy_of c r port =
      (start (some port) (
        new_local_tcp_proxy c.tunnel.local_ip
          (codes "127.0.0.1:" ++ d.itoa (pos_part r.local_port)))).0

  -- The proxy, the route and the record.
  unfoldable pub set_up : Circumstances → CreatePortRequest → ℕ → World → World × Bool
  set_up k r port w =
      let c = w.manager.config in
      link c (full_host c r.subdomain) r.subdomain (dial_of_port c port)
        (keep_proxy k.port_id (proxy_of c r port) w)

  -- From the proxy on. `meanwhile` is what other requests do between the calls of Caddy and of the
  -- provider and the update.
  unfoldable pub expose :
      Circumstances → (World → World) → CreatePortRequest → ℕ → World → World × Response
  expose k meanwhile r port w =
      let (v, active) = set_up k r port w in
      commit k (full_host w.manager.config r.subdomain) (port_of k r active) active (meanwhile v)

  unfoldable pub handle_create : Circumstances → (World → World) → World → World × Response
  handle_create k meanwhile w = elim k.body [
    | none ↦ (w, bad_body)
    | some r ↦ elim (refusal w.manager.config r) [
      | some e ↦ (w, e)
      | none ↦ elim k.listen [ none ↦ (w, proxy_error) | some port ↦ expose k meanwhile r port w ]
    ]
  ]

  abbrev in_range : List ExposedPort → Option ℤ → Option (ℕ × ExposedPort)
  in_range ps none = none
  in_range ps (some (negsuc n)) = none
  in_range ps (some (pos n)) = at_index n (get_elem? ps n)

  -- A port by its id, or as `port-` with its position.
  unfoldable pub target_of : Text → List ExposedPort → Option (ℕ × ExposedPort)
  target_of id ps = elim (find_port id ps) [
    | some x ↦ some x
    | none ↦ if has_prefix id (codes "port-") then in_range ps (d.atoi (drop 5 id)) else none
  ]

  -- The calls before the update. Errors are logged.
  unfoldable pub unlink : Text → ExposedPort → World → World
  unlink id p w =
      let c = w.manager.config in
      record w {
        caddy = (remove_route d.caddy c (full_host c p.host_header) w.caddy).0;
        zone = (delete_record d.cloudflare c p.host_header w.zone).0;
        proxies = delete id w.proxies;
      }

  abbrev dropped : World → Manager × Option SaveError → World × Response
  dropped w (m, some e) = (record w { manager = m }, not_saved)
  dropped w (m, none) = (record w { manager = m }, removed)

  unfoldable pub handle_remove : Faults → Text → (World → World) → World → World × Response
  handle_remove f id meanwhile w =
      if text_eq id [] then (w, bad_id) else elim (target_of id w.manager.config.exposed_ports) [
        | none ↦ (w, not_found)
        | some (i, p) ↦
            let u = meanwhile (unlink id p w) in
            dropped u (update d.codec f (drop_port id i) u.manager)
      ]

  unfoldable pub handle_get : Text → World → Response
  handle_get id w =
      if text_eq id [] then bad_id else elim (target_of id w.manager.config.exposed_ports) [
        | none ↦ not_found
        | some (i, p) ↦ found p
      ]
