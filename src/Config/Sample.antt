-- ===== src/Config/Sample.antt =====
-- A toy JSON for the configuration of src/internal/config.
use unet.Base.{refl, sym, ap, ◌∙◌, Bool, List, [], Option, none, some, Text}
use unet.Base.Int.{ℤ}
use unet.Samples.{some_inj}
use unet.Samples.Enc.{Enc, text, via, ◌&◌, bool, list, int}
use unet.Config.{
  VpsConfig, ObfuscationConfig, TunnelConfig, CaddyApiConfig, ExposedPort, DnsConfig, DaemonConfig,
  RemoteApiConfig, RootConfig,
}
use unet.Config.Manager.{Codec}

abbrev VpsConfigParts : Type 0
VpsConfigParts = Text × (ℤ × (Text × (Text × (Text × (Text × (Bool × (Text × Text)))))))

abbrev vps_config : Enc VpsConfig
vps_config =
    via (text & int & text & text & text & text & bool & text & text)
      (λ (p : VpsConfigParts). record {
        host = p.0;
        ssh_port = p.1.0;
        username = p.1.1.0;
        auth_mode = p.1.1.1.0;
        private_key_path = p.1.1.1.1.0;
        password = p.1.1.1.1.1.0;
        is_provisioned = p.1.1.1.1.1.1.0;
        container_name = p.1.1.1.1.1.1.1.0;
        image_build_hash = p.1.1.1.1.1.1.1.1;
      })
      (λ (s : VpsConfig). (
        s.host,
        (
          s.ssh_port,
          (
            s.username,
            (
              s.auth_mode,
              (
                s.private_key_path,
                (s.password, (s.is_provisioned, (s.container_name, s.image_build_hash))),
              ),
            ),
          ),
        ),
      ))
      (λ s. refl)

abbrev ObfuscationConfigParts : Type 0
ObfuscationConfigParts =
    ℤ × (ℤ × (ℤ × (ℤ × (ℤ × (ℤ × (ℤ × (ℤ × (ℤ × (ℤ × (ℤ × (ℤ × (ℤ × (ℤ × (ℤ × ℤ))))))))))))))

abbrev obfuscation_config : Enc ObfuscationConfig
obfuscation_config =
    via
      (int & int & int & int & int & int & int & int & int & int & int & int & int & int & int
        & int)
      (λ (p : ObfuscationConfigParts). record {
        jc = p.0;
        jmin = p.1.0;
        jmax = p.1.1.0;
        s1 = p.1.1.1.0;
        s2 = p.1.1.1.1.0;
        s3 = p.1.1.1.1.1.0;
        s4 = p.1.1.1.1.1.1.0;
        h1 = p.1.1.1.1.1.1.1.0;
        h2 = p.1.1.1.1.1.1.1.1.0;
        h3 = p.1.1.1.1.1.1.1.1.1.0;
        h4 = p.1.1.1.1.1.1.1.1.1.1.0;
        i1 = p.1.1.1.1.1.1.1.1.1.1.1.0;
        i2 = p.1.1.1.1.1.1.1.1.1.1.1.1.0;
        i3 = p.1.1.1.1.1.1.1.1.1.1.1.1.1.0;
        i4 = p.1.1.1.1.1.1.1.1.1.1.1.1.1.1.0;
        i5 = p.1.1.1.1.1.1.1.1.1.1.1.1.1.1.1;
      })
      (λ (s : ObfuscationConfig). (
        s.jc,
        (
          s.jmin,
          (
            s.jmax,
            (
              s.s1,
              (
                s.s2,
                (
                  s.s3,
                  (s.s4, (s.h1, (s.h2, (s.h3, (s.h4, (s.i1, (s.i2, (s.i3, (s.i4, s.i5))))))))),
                ),
              ),
            ),
          ),
        ),
      ))
      (λ s. refl)

abbrev TunnelConfigParts : Type 0
TunnelConfigParts =
    Text
    × (Text
        × (Text
            × (Text
                × (Text
                    × (Text
                        × (Text
                            × (Text
                                × (Text × (ℤ × (ℤ × (ObfuscationConfig × (Text × Text))))))))))))

abbrev tunnel_config : Enc TunnelConfig
tunnel_config =
    via
      (text & text & text & text & text & text & text & text & text & int & int & obfuscation_config
        & text & text)
      (λ (p : TunnelConfigParts). record {
        interface_name = p.0;
        subnet = p.1.0;
        server_ip = p.1.1.0;
        local_ip = p.1.1.1.0;
        server_endpoint = p.1.1.1.1.0;
        server_public_key = p.1.1.1.1.1.0;
        preshared_key = p.1.1.1.1.1.1.0;
        private_key = p.1.1.1.1.1.1.1.0;
        public_key = p.1.1.1.1.1.1.1.1.0;
        mtu = p.1.1.1.1.1.1.1.1.1.0;
        persistent_keepalive = p.1.1.1.1.1.1.1.1.1.1.0;
        obfuscation = p.1.1.1.1.1.1.1.1.1.1.1.0;
        status = p.1.1.1.1.1.1.1.1.1.1.1.1.0;
        connected_at = p.1.1.1.1.1.1.1.1.1.1.1.1.1;
      })
      (λ (s : TunnelConfig). (
        s.interface_name,
        (
          s.subnet,
          (
            s.server_ip,
            (
              s.local_ip,
              (
                s.server_endpoint,
                (
                  s.server_public_key,
                  (
                    s.preshared_key,
                    (
                      s.private_key,
                      (
                        s.public_key,
                        (
                          s.mtu,
                          (s.persistent_keepalive, (s.obfuscation, (s.status, s.connected_at))),
                        ),
                      ),
                    ),
                  ),
                ),
              ),
            ),
          ),
        ),
      ))
      (λ s. refl)

abbrev CaddyApiConfigParts : Type 0
CaddyApiConfigParts = Text × (Text × (Text × (Text × Text)))

abbrev caddy_api_config : Enc CaddyApiConfig
caddy_api_config =
    via (text & text & text & text & text)
      (λ (p : CaddyApiConfigParts). record {
        address = p.0;
        tls_cert = p.1.0;
        tls_key = p.1.1.0;
        client_cert = p.1.1.1.0;
        client_key = p.1.1.1.1;
      })
      (λ (s : CaddyApiConfig).
        (s.address, (s.tls_cert, (s.tls_key, (s.client_cert, s.client_key)))))
      (λ s. refl)

abbrev ExposedPortParts : Type 0
ExposedPortParts = Text × (Text × (ℤ × (Text × (Text × Text))))

abbrev exposed_port : Enc ExposedPort
exposed_port =
    via (text & text & int & text & text & text)
      (λ (p : ExposedPortParts). record {
        id = p.0;
        protocol = p.1.0;
        internal = p.1.1.0;
        host_header = p.1.1.1.0;
        status = p.1.1.1.1.0;
        created_at = p.1.1.1.1.1;
      })
      (λ (s : ExposedPort).
        (s.id, (s.protocol, (s.internal, (s.host_header, (s.status, s.created_at))))))
      (λ s. refl)

abbrev DnsConfigParts : Type 0
DnsConfigParts = Text × (Text × Text)

abbrev dns_config : Enc DnsConfig
dns_config =
    via (text & text & text)
      (λ (p : DnsConfigParts). record { provider = p.0; token = p.1.0; zone = p.1.1 })
      (λ (s : DnsConfig). (s.provider, (s.token, s.zone))) (λ s. refl)

abbrev DaemonConfigParts : Type 0
DaemonConfigParts = Text × (Text × (Bool × Text))

abbrev daemon_config : Enc DaemonConfig
daemon_config =
    via (text & text & bool & text)
      (λ (p : DaemonConfigParts). record {
        log_level = p.0;
        pid_file = p.1.0;
        auto_start = p.1.1.0;
        jwt_signing_key = p.1.1.1;
      })
      (λ (s : DaemonConfig). (s.log_level, (s.pid_file, (s.auto_start, s.jwt_signing_key))))
      (λ s. refl)

abbrev RemoteApiConfigParts : Type 0
RemoteApiConfigParts = Bool × (Text × (Text × Text))

abbrev remote_api_config : Enc RemoteApiConfig
remote_api_config =
    via (bool & text & text & text)
      (λ (p : RemoteApiConfigParts). record {
        enabled = p.0;
        listen_addr = p.1.0;
        tls_cert = p.1.1.0;
        tls_key = p.1.1.1;
      })
      (λ (s : RemoteApiConfig). (s.enabled, (s.listen_addr, (s.tls_cert, s.tls_key)))) (λ s. refl)

abbrev RootConfigParts : Type 0
RootConfigParts =
    VpsConfig
    × (TunnelConfig
        × (CaddyApiConfig
            × (List ExposedPort
                × (DnsConfig × (DaemonConfig × (RemoteApiConfig × (Text × Text)))))))

abbrev root_config : Enc RootConfig
root_config =
    via
      (vps_config
        & tunnel_config
        & caddy_api_config
        & (list exposed_port)
        & dns_config
        & daemon_config
        & remote_api_config
        & text
        & text)
      (λ (p : RootConfigParts). record {
        vps = p.0;
        tunnel = p.1.0;
        caddy_api = p.1.1.0;
        exposed_ports = p.1.1.1.0;
        dns = p.1.1.1.1.0;
        daemon = p.1.1.1.1.1.0;
        remote_api = p.1.1.1.1.1.1.0;
        server_mirror = p.1.1.1.1.1.1.1.0;
        ui_token = p.1.1.1.1.1.1.1.1;
      })
      (λ (s : RootConfig). (
        s.vps,
        (
          s.tunnel,
          (
            s.caddy_api,
            (s.exposed_ports, (s.dns, (s.daemon, (s.remote_api, (s.server_mirror, s.ui_token))))),
          ),
        ),
      ))
      (λ s. refl)

abbrev whole : Option (RootConfig × Text) → Option RootConfig
whole none = none
whole (some (s, r)) = some s

abbrev pub config_codec : Codec
config_codec = record {
  marshal = λ s. some (root_config.put s []);
  unmarshal = λ t. whole (root_config.get t);
  marshal_back = λ s e.
      ap (λ t. whole (root_config.get t)) (sym (some_inj e)) ∙ ap whole (root_config.back s []);
}
