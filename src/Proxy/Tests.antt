-- ===== src/Proxy/Tests.antt =====
-- The theorems on src/internal/proxy at one run.
use unet.Base.{◌≡◌, refl, true, List, [], ◌∷◌, codes, text_eq, has_suffix}
use unet.Base.Map.{lookup}
use unet.Config.{RootConfig}
use unet.Config.Manager.{empty_config}
use unet.Proxy.Sample.{caddy_api, cloudflare_api}
use unet.Proxy.Caddy.{
  CaddyRouteJson, CaddyClient, host_of, dial_of, list_routes_of, route_json, find_route_index,
  resolve_base_url, base_url_resolved, list_routes_locked, add_route, remove_at_index, remove_route,
}
use unet.Proxy.Caddy.Removal.{has_route, add_route-remove_route, remove_route-shifted}
use unet.Proxy.Dns.{
  DnsRecord, handle_cf_response, record_name, record_of, by_provider, find_cloudflare_record,
  put_record, create_cloudflare_record, drop_record, delete_cloudflare_record, create_record,
  delete_record,
}
use unet.Proxy.Dns.Records.{create_record-delete_record}

abbrev config : RootConfig
config = record empty_config {
  caddy_api = record empty_config.caddy_api { address = codes "http://c" };
  tunnel = record empty_config.tunnel { server_ip = codes "10.8.1.1" };
  dns = record { provider = codes "cloudflare"; token = codes "t"; zone = codes "z.io" };
}

abbrev client : List CaddyRouteJson → CaddyClient caddy_api
client rs = record { base_url = []; remote = rs }

-- The client once it has resolved the address.
abbrev resolved : List CaddyRouteJson → CaddyClient caddy_api
resolved rs = record { base_url = codes "http://c"; remote = rs }

abbrev web : CaddyRouteJson
web = route_json (codes "web.z.io") (codes "10.8.1.2:3000")

-- A route for every host.
abbrev blank : CaddyRouteJson
blank = record { matchers = []; handle = []; terminal = true }

add_route-remove_route_example :
    caddy_api.routes (codes "http://c") (resolved (web ∷ [])).remote
    ≡ caddy_api.routes (codes "http://c") (client (web ∷ [])).remote
unfolding base_url_resolved resolve_base_url text_eq host_of has_route route_json add_route
    remove_route remove_at_index list_routes_locked list_routes_of find_route_index dial_of lookup
add_route-remove_route_example =
    add_route-remove_route caddy_api config empty_config (codes "http://c") (codes "app.z.io")
      (codes "10.8.1.2:4000") (client (web ∷ []))
      (resolved (web ∷ route_json (codes "app.z.io") (codes "10.8.1.2:4000") ∷ []))
      (resolved (web ∷ [])) refl refl (refl, tt) refl refl refl

remove_route-shifted_example :
    caddy_api.routes (codes "http://c") (resolved (web ∷ [])).remote ≡ web ∷ []
unfolding base_url_resolved resolve_base_url text_eq host_of route_json remove_route remove_at_index
    list_routes_locked list_routes_of find_route_index dial_of lookup
remove_route-shifted_example =
    remove_route-shifted caddy_api config (codes "http://c") (codes "web.z.io") web blank []
      (client (blank ∷ web ∷ [])) (resolved (web ∷ [])) refl refl refl refl refl refl

abbrev old : DnsRecord
old = record (record_of (codes "www.z.io") (codes "10.8.1.1")) { id = codes "1" }

abbrev new : DnsRecord
new = record (record_of (codes "app.z.io") (codes "10.8.1.1")) { id = codes "n" }

create_record-delete_record_example :
    cloudflare_api.records config.dns.zone (old ∷ [])
    ≡ cloudflare_api.records config.dns.zone (old ∷ [])
unfolding text_eq record_name record_of by_provider create_record create_cloudflare_record
    put_record find_cloudflare_record delete_record delete_cloudflare_record drop_record
    handle_cf_response has_suffix
create_record-delete_record_example =
    create_record-delete_record cloudflare_api config (codes "app") (old ∷ []) (old ∷ new ∷ [])
      (old ∷ []) refl refl refl refl
