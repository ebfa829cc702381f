-- ===== src/Config.antt =====
-- The configuration of src/internal/config/config.go, and how its secrets are shown.
pub mod Manager
pub mod Sample
mod Tests
use unet.Base.{
  ℕ, ◌-◌, Bool, true, false, List, [], ◌∷◌, ◌++◌, Option, none, some, leb, if◌then◌else◌, Text,
  codes, length, drop,
}
use unet.Base.Int.{ℤ}

-- `SecretString`.
abbrev pub SecretString : Type 0
SecretString = Text

pub record VpsConfig : Type 0 where
  pub host : Text
  pub ssh_port : ℤ
  pub username : Text
  pub auth_mode : Text
  pub private_key_path : Text
  pub password : SecretString
  pub is_provisioned : Bool
  pub container_name : Text
  pub image_build_hash : Text

pub record ObfuscationConfig : Type 0 where
  pub jc : ℤ
  pub jmin : ℤ
  pub jmax : ℤ
  pub s1 : ℤ
  pub s2 : ℤ
  pub s3 : ℤ
  pub s4 : ℤ
  pub h1 : ℤ
  pub h2 : ℤ
  pub h3 : ℤ
  pub h4 : ℤ
  pub i1 : ℤ
  pub i2 : ℤ
  pub i3 : ℤ
  pub i4 : ℤ
  pub i5 : ℤ

pub record TunnelConfig : Type 0 where
  pub interface_name : Text
  pub subnet : Text
  pub server_ip : Text
  pub local_ip : Text
  pub server_endpoint : Text
  pub server_public_key : Text
  pub preshared_key : SecretString
  pub private_key : SecretString
  pub public_key : Text
  pub mtu : ℤ
  pub persistent_keepalive : ℤ
  pub obfuscation : ObfuscationConfig
  pub status : Text
  pub connected_at : Text

pub record CaddyApiConfig : Type 0 where
  pub address : Text
  pub tls_cert : Text
  pub tls_key : SecretString
  pub client_cert : Text
  pub client_key : SecretString

pub record ExposedPort : Type 0 where
  pub id : Text
  pub protocol : Text
  pub internal : ℤ
  pub host_header : Text
  pub status : Text
  pub created_at : Text

pub record DnsConfig : Type 0 where
  pub provider : Text
  pub token : SecretString
  pub zone : Text

pub record DaemonConfig : Type 0 where
  pub log_level : Text
  pub pid_file : Text
  pub auto_start : Bool
  pub jwt_signing_key : SecretString

pub record RemoteApiConfig : Type 0 where
  pub enabled : Bool
  pub listen_addr : Text
  pub tls_cert : Text
  pub tls_key : Text

pub record RootConfig : Type 0 where
  pub vps : VpsConfig
  pub tunnel : TunnelConfig
  pub caddy_api : CaddyApiConfig
  pub exposed_ports : List ExposedPort
  pub dns : DnsConfig
  pub daemon : DaemonConfig
  pub remote_api : RemoteApiConfig
  pub server_mirror : Text
  pub ui_token : SecretString

-- The last four bytes of a secret that has more.
unfoldable pub mask : SecretString → SecretString
mask v = if leb (length v) 4 then codes "****" else codes "****" ++ drop (length v - 4) v

-- `cloneAndMask`.
unfoldable pub clone_and_mask : RootConfig → RootConfig
clone_and_mask c = record c {
  vps = record c.vps { password = mask c.vps.password };
  tunnel = record c.tunnel {
    preshared_key = mask c.tunnel.preshared_key;
    private_key = mask c.tunnel.private_key;
  };
  caddy_api = record c.caddy_api {
    tls_key = mask c.caddy_api.tls_key;
    client_key = mask c.caddy_api.client_key;
  };
  dns = record c.dns { token = mask c.dns.token };
  ui_token = mask c.ui_token;
}
