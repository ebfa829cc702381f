-- ===== src/Daemon/Tests.antt =====
-- The theorems on src/internal/daemon at one request.
use unet.Base.{◌≡◌, refl, true, false, [], ◌∷◌, ◌++◌, none, some, Text, codes, text_eq, has_suffix}
use unet.Base.Map.{lookup, insert, delete}
use unet.Base.Int.{pos}
use unet.Config.{RootConfig, ExposedPort}
use unet.Config.Manager.{empty_config, Faults, save_locked, update}
use unet.Config.Sample.{config_codec}
use unet.Routes.Expose.{is_subdomain, all_label, ends_alnum, has_host, add_port}
use unet.Routes.Expose.Outcomes.{has_id, IsDistinct}
use unet.Tunnel.Address.{split_on}
use unet.Proxy.Sample.{caddy_api, cloudflare_api}
use unet.Proxy.Caddy.{
  host_of, dial_of, list_routes_of, route_json, find_route_index, resolve_base_url,
  base_url_resolved, list_routes_locked, add_route, remove_at_index, remove_route,
}
use unet.Proxy.Caddy.Removal.{has_route, without_host}
use unet.Proxy.Dns.{
  handle_cf_response, record_name, record_of, by_provider, find_cloudflare_record, put_record,
  create_cloudflare_record, drop_record, delete_cloudflare_record, create_record, delete_record,
}
use unet.Daemon.Ports.{
  CreatePortRequest, Circumstances, Deps, World, all_full, is_full_subdomain, all_labels, has_dot,
  full_host, find_port, drop_port, protocol_of, refusal, port_of, keep_proxy, link, roll_back,
  commit, dial_of_port, proxy_of, set_up, expose, handle_create, target_of, unlink, handle_remove,
}
use unet.Daemon.Ports.Leftovers.{handle_create-proxy, handle_create-outage}
use unet.Daemon.Ports.Removal.{Removed, handle_remove-Removed}
use unet.Daemon.Ports.RoundTrip.{handle_create-handle_remove}
use unet.Daemon.Ports.Hosts.{create, remove, run_requests, run_requests-IsDistinct}

abbrev deps : Deps
deps = record {
  codec = config_codec;
  caddy = caddy_api;
  cloudflare = cloudflare_api;
  itoa = λ n. n ∷ [];
  atoi = λ t. none;
}

abbrev fine : Faults
fine = record {
  create = false;
  write = false;
  sync = false;
  close = false;
  rename = false;
  remove_temp = false;
}

abbrev port : Text → Text → ExposedPort
port id host = record {
  id = id;
  protocol = codes "http";
  internal = pos 80;
  host_header = host;
  status = codes "active";
  created_at = codes "t";
}

abbrev config : RootConfig
config = record empty_config {
  caddy_api = record empty_config.caddy_api { address = codes "h" };
  tunnel = record empty_config.tunnel {
    server_ip = codes "s";
    local_ip = codes "l";
    status = codes "connected";
  };
  dns = record { provider = codes "cloudflare"; token = codes "t"; zone = codes "z" };
  exposed_ports = port (codes "1") (codes "www") ∷ [];
}

-- One port is exposed, with its route.
abbrev world : World deps
world = record {
  manager = record { config = config; file = none; temps = [] };
  caddy = record { base_url = []; remote = route_json (codes "www.z") (codes "l:80") ∷ [] };
  zone = [];
  proxies = [];
}

abbrev asked : Text → CreatePortRequest
asked host = record { local_port = pos 80; subdomain = host; protocol = [] }

abbrev request : Text → Circumstances
request host = record {
  body = some (asked host);
  port_id = codes "2";
  now = codes "t";
  listen = some 9;
  faults = fine;
}

-- After the port `app` was created.
abbrev world1 : World deps
world1 = (handle_create deps (request (codes "app")) (λ v. v) world).0

abbrev world2 : World deps
world2 = (handle_remove deps fine (codes "2") (λ v. v) world1).0

handle_create-proxy_example :
    (lookup (codes "2") (handle_create deps (request (codes "www")) (λ v. v) world).0.proxies
      ≡ some (proxy_of deps config (asked (codes "www")) 9))
    × ((proxy_of deps config (asked (codes "www")) 9).running ≡ true)
unfolding refusal text_eq is_full_subdomain all_full ends_alnum all_labels is_subdomain all_label
    split_on protocol_of has_dot
handle_create-proxy_example =
    handle_create-proxy deps (request (codes "www")) (λ v. v) world (asked (codes "www")) 9 refl
      refl refl (λ v. refl)

handle_create-outage_example :
    (handle_create deps (request (codes "www")) (λ v. v) world).0.caddy.remote
    ≡ without_host text_eq (codes "www.z") (route_json (codes "www.z") (codes "l:80") ∷ [])
      ++ route_json (codes "www.z") (dial_of_port deps config 9) ∷ []
unfolding refusal text_eq is_full_subdomain all_full ends_alnum all_labels is_subdomain all_label
    split_on protocol_of has_dot base_url_resolved resolve_base_url full_host has_suffix host_of
    route_json has_route set_up link add_route keep_proxy create_record by_provider
    create_cloudflare_record record_name find_cloudflare_record put_record handle_cf_response
    remove_route list_routes_locked list_routes_of remove_at_index find_route_index lookup dial_of
    handle_create expose commit update save_locked add_port has_host port_of roll_back record_of
handle_create-outage_example =
    handle_create-outage deps (request (codes "www")) world (asked (codes "www")) 9 (codes "h") refl
      refl refl refl refl (refl, tt) refl refl refl refl

handle_remove-Removed_example :
    Removed deps fine
      (codes "1")
      0
      (unlink deps (codes "1") (port (codes "1") (codes "www")) world)
      (handle_remove deps fine (codes "1") (λ v. v) world)
unfolding text_eq target_of find_port
handle_remove-Removed_example =
    handle_remove-Removed deps fine (codes "1") (λ v. v) world 0 (port (codes "1") (codes "www"))
      refl refl

run_requests-IsDistinct_example :
    IsDistinct
      (run_requests deps
        (create (request (codes "app"))
          ∷ remove fine (codes "1")
          ∷ create (request (codes "app"))
          ∷ [])
        world).manager.config.exposed_ports
unfolding IsDistinct has_host
run_requests-IsDistinct_example =
    run_requests-IsDistinct deps
      (create (request (codes "app"))
        ∷ remove fine (codes "1")
        ∷ create (request (codes "app"))
        ∷ [])
      world (refl, tt)

handle_create-handle_remove_example :
    (world2.manager.config ≡ config)
    × (world2.proxies ≡ [])
    × (world2.caddy.remote ≡ world.caddy.remote)
    × (world2.zone ≡ world.zone)
unfolding refusal text_eq is_full_subdomain all_full ends_alnum all_labels is_subdomain all_label
    split_on protocol_of has_dot base_url_resolved resolve_base_url full_host has_suffix host_of
    route_json has_route set_up link add_route keep_proxy create_record by_provider
    create_cloudflare_record record_name find_cloudflare_record put_record handle_cf_response
    remove_route list_routes_locked list_routes_of remove_at_index find_route_index lookup dial_of
    handle_create expose commit update save_locked add_port has_host port_of roll_back record_of
    has_id handle_remove target_of find_port unlink drop_port delete_record delete_cloudflare_record
    drop_record insert delete
handle_create-handle_remove_example =
    handle_create-handle_remove deps (request (codes "app")) fine world world1 world2
      (asked (codes "app")) 9 (port (codes "2") (codes "app")) (codes "h") refl refl refl refl refl
      refl refl refl (refl, tt) refl refl refl refl refl refl refl
