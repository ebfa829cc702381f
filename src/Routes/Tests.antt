-- ===== src/Routes/Tests.antt =====
-- The theorems on src/internal/routes at one request.
use unet.Base.{◌≡◌, refl, true, false, [], ◌∷◌, ◌++◌, none, some, codes, text_eq}
use unet.Base.Int.{pos}
use unet.Config.{ExposedPort}
use unet.Config.Manager.{empty_config, Manager, Faults, save_locked, update}
use unet.Config.Sample.{config_codec}
use unet.Routes.Expose.{
  Circumstances, Handler, is_subdomain, all_label, ends_alnum, has_host, add_port, port_of,
  build_fqdn, publish, expose, handle_expose,
}
use unet.Routes.Expose.Outcomes.{has_id, Outcome, handle_expose-Outcome}

abbrev fine : Faults
fine = record {
  create = false;
  write = false;
  sync = false;
  close = false;
  rename = false;
  remove_temp = false;
}

abbrev old : ExposedPort
old = record {
  id = codes "1";
  protocol = codes "http";
  internal = pos 80;
  host_header = codes "www";
  status = codes "active";
  created_at = [];
}

abbrev manager : Manager
manager = record {
  config = record empty_config { exposed_ports = old ∷ [] };
  file = none;
  temps = [];
}

abbrev handler : Handler
handler = record {
  codec = config_codec;
  build_nipio_subdomain = λ s ip. s ++ codes "." ++ ip;
  vps_public_ip = codes "1.2.3.4";
}

abbrev request : Circumstances
request = record {
  body = some record { local_port = pos 3000; subdomain = [] };
  is_connected = true;
  generated = codes "ab1c";
  route_id = codes "2";
  now = codes "t";
  save_faults = fine;
  rollback_faults = fine;
  upsert_record = λ s ip. true;
}

handle_expose-Outcome_example :
    Outcome handler request manager (handle_expose handler request manager)
unfolding has_id text_eq
handle_expose-Outcome_example = handle_expose-Outcome handler request manager refl

adds_one :
    (handle_expose handler request manager).0.config.exposed_ports
    ≡ old ∷ port_of request (codes "ab1c") record { local_port = pos 3000; subdomain = [] } ∷ []
unfolding handle_expose expose build_fqdn publish add_port has_host is_subdomain all_label
    ends_alnum port_of update save_locked text_eq
adds_one = refl
