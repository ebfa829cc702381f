-- ===== src/Routes/Expose.antt =====
-- `HandleExpose` of src/internal/routes/expose.go on the manager of the configuration. The random
-- parts, the clock, the answer of the DNS provider and `BuildNipioSubdomain` are given. A request
-- is one step; `add_port` and `remove_port` are the closures that it gives to `Update`.
pub mod Outcomes
use unet.Base.{
  ℕ, ◌≡◌, Bool, true, false, not, ◌&&◌, ◌||◌, List, [], ◌∷◌, ◌++◌, Option, none, some, leb, ◌==◌,
  if◌then◌else◌, Text, codes, text_eq, length,
}
use unet.Base.Int.{ℤ, pos, ltb_ℤ}
use unet.Config.{RootConfig, ExposedPort}
use unet.Config.Manager.{Codec, Manager, Faults, SaveError, update}

pub record ExposeRequest : Type 0 where
  pub local_port : ℤ
  pub subdomain : Text

pub record ExposeRoute : Type 0 where
  pub id : Text
  pub subdomain : Text
  pub local_port : ℤ
  pub fqdn : Text
  pub status : Text
  pub created_at : Text

pub data Response : Type 0 where
  bad_body bad_port not_connected bad_subdomain route_conflict no_domain : Response
  not_saved dns_failed : Response
  created : ExposeRoute → Text → Response

-- What a request meets: its body, if it decodes, the tunnel, what is drawn at random, the time,
-- the faults of the two saves, and whether the provider takes the record.
pub record Circumstances : Type 0 where
  pub body : Option ExposeRequest
  pub is_connected : Bool
  pub generated : Text
  pub route_id : Text
  pub now : Text
  pub save_faults : Faults
  pub rollback_faults : Faults
  pub upsert_record : Text → Text → Bool

pub record Handler : Type 0 where
  pub codec : Codec
  pub build_nipio_subdomain : Text → Text → Text
  pub vps_public_ip : Text

abbrev pub is_alnum : ℕ → Bool
is_alnum c = (leb 97 c && leb c 122) || (leb 48 c && leb c 57)

unfoldable pub all_label : Text → Bool
all_label [] = true
all_label (c ∷ cs) = let rest = all_label cs in (is_alnum c || c == 45) && rest

unfoldable pub ends_alnum : Text → Bool
ends_alnum [] = false
ends_alnum (c ∷ []) = is_alnum c
ends_alnum (c ∷ d ∷ cs) = ends_alnum (d ∷ cs)

abbrev pub starts_alnum : Text → Bool
starts_alnum [] = false
starts_alnum (c ∷ cs) = is_alnum c

-- `subdomainRe`.
unfoldable pub is_subdomain : Text → Bool
is_subdomain t = starts_alnum t && ends_alnum t && all_label t && leb (length t) 63

unfoldable pub has_host : Text → List ExposedPort → Bool
has_host host [] = false
has_host host (p ∷ ps) = if text_eq p.host_header host then true else has_host host ps

-- The closure that adds a port, unless its host is there.
unfoldable pub add_port : ExposedPort → RootConfig → RootConfig
add_port p c =
    if has_host p.host_header c.exposed_ports
    then c
    else record c { exposed_ports = c.exposed_ports ++ p ∷ [] }

unfoldable pub without_id : Text → List ExposedPort → List ExposedPort
without_id id [] = []
without_id id (p ∷ ps) = let rest = without_id id ps in if text_eq p.id id then ps else p ∷ rest

-- The closure that takes the first port with the id away.
unfoldable pub remove_port : Text → RootConfig → RootConfig
remove_port id c = record c { exposed_ports = without_id id c.exposed_ports }

unfoldable pub port_of : Circumstances → Text → ExposeRequest → ExposedPort
port_of k subdomain r = record {
  id = k.route_id;
  protocol = codes "http";
  internal = r.local_port;
  host_header = subdomain;
  status = codes "active";
  created_at = k.now;
}

abbrev route_of : ExposedPort → Text → ExposeRoute
route_of p fqdn = record {
  id = p.id;
  subdomain = p.host_header;
  local_port = p.internal;
  fqdn = fqdn;
  status = p.status;
  created_at = p.created_at;
}

module _ (h : Handler) where
  unfoldable pub build_fqdn : RootConfig → Text → Option Text
  build_fqdn c subdomain =
      if not (text_eq h.vps_public_ip [])
      then some (h.build_nipio_subdomain subdomain h.vps_public_ip)
      else if not (text_eq c.dns.zone [])
      then some (subdomain ++ codes "." ++ c.dns.zone)
      else none

  unfoldable pub resolve_target_ip : RootConfig → Text
  resolve_target_ip c =
      if not (text_eq h.vps_public_ip []) then h.vps_public_ip else c.tunnel.server_ip

  -- From the record on: it is created, or the route is taken away again.
  unfoldable pub publish :
      Circumstances → RootConfig → ExposedPort → Text → Manager → Manager × Response
  publish k c p fqdn m =
      if k.upsert_record p.host_header (resolve_target_ip c)
      then (m, created (route_of p fqdn) (codes "https://" ++ fqdn))
      else ((update h.codec k.rollback_faults (remove_port p.id) m).0, dns_failed)

  abbrev saved :
      Circumstances
      → RootConfig
      → ExposedPort
      → Text
      → Manager × Option SaveError
      → Manager × Response
  saved k c p fqdn (m, some e) = (m, not_saved)
  saved k c p fqdn (m, none) = publish k c p fqdn m

  unfoldable pub expose : Circumstances → ExposeRequest → Text → Manager → Manager × Response
  expose k r subdomain m =
      if not (is_subdomain subdomain)
      then (m, bad_subdomain)
      else if has_host subdomain m.config.exposed_ports
      then (m, route_conflict)
      else elim (build_fqdn m.config subdomain) [
        | none ↦ (m, no_domain)
        | some fqdn ↦
            let p = port_of k subdomain r in
            saved k m.config p fqdn (update h.codec k.save_faults (add_port p) m)
      ]

  unfoldable pub handle_expose : Circumstances → Manager → Manager × Response
  handle_expose k m = elim k.body [
    | none ↦ (m, bad_body)
    | some r ↦
        if ltb_ℤ r.local_port (pos 1) || ltb_ℤ (pos 65535) r.local_port
        then (m, bad_port)
        else if not k.is_connected
        then (m, not_connected)
        else expose k r (if text_eq r.subdomain [] then k.generated else r.subdomain) m
  ]
