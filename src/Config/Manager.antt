-- ===== src/Config/Manager.antt =====
-- `Manager` of src/internal/config/config.go: the configuration in memory and in its file. Each
-- method runs under the lock. The file is replaced by rename.
pub mod Updates
use unet.Base.{
  ◌≡◌, Bool, true, false, not, List, [], ◌∷◌, Option, none, some, if◌then◌else◌, Text, drop,
}
use unet.Base.Int.{pos}
use unet.Config.{RootConfig, clone_and_mask}

-- `encoding/json` on a configuration: what is written reads back.
pub record Codec : Type 0 where
  pub marshal : RootConfig → Option Text
  pub unmarshal : Text → Option RootConfig
  pub marshal_back : (c : RootConfig) {b : Text} → marshal c ≡ some b → unmarshal b ≡ some c

-- `RootConfig{}`, in which every field is zero.
abbrev pub empty_config : RootConfig
empty_config = record {
  vps = record {
    host = [];
    ssh_port = pos 0;
    username = [];
    auth_mode = [];
    private_key_path = [];
    password = [];
    is_provisioned = false;
    container_name = [];
    image_build_hash = [];
  };
  tunnel = record {
    interface_name = [];
    subnet = [];
    server_ip = [];
    local_ip = [];
    server_endpoint = [];
    server_public_key = [];
    preshared_key = [];
    private_key = [];
    public_key = [];
    mtu = pos 0;
    persistent_keepalive = pos 0;
    obfuscation = record {
      jc = pos 0;
      jmin = pos 0;
      jmax = pos 0;
      s1 = pos 0;
      s2 = pos 0;
      s3 = pos 0;
      s4 = pos 0;
      h1 = pos 0;
      h2 = pos 0;
      h3 = pos 0;
      h4 = pos 0;
      i1 = pos 0;
      i2 = pos 0;
      i3 = pos 0;
      i4 = pos 0;
      i5 = pos 0;
    };
    status = [];
    connected_at = [];
  };
  caddy_api = record {
    address = [];
    tls_cert = [];
    tls_key = [];
    client_cert = [];
    client_key = [];
  };
  exposed_ports = [];
  dns = record { provider = []; token = []; zone = [] };
  daemon = record { log_level = []; pid_file = []; auto_start = false; jwt_signing_key = [] };
  remote_api = record { enabled = false; listen_addr = []; tls_cert = []; tls_key = [] };
  server_mirror = [];
  ui_token = [];
}

-- `defaultConfig`, with the new token.
unfoldable pub default_config : Text → RootConfig
default_config id = record empty_config { ui_token = id }

pub record Manager : Type 0 where
  pub config : RootConfig
  pub file : Option Text
  pub temps : List Text

-- Which calls of the file system fail during one save. A failing `Chmod` is only logged.
pub record Faults : Type 0 where
  pub create : Bool
  pub write : Bool
  pub sync : Bool
  pub close : Bool
  pub rename : Bool
  pub remove_temp : Bool

pub data SaveError : Type 0 where
  not_marshalled no_temp not_written not_synced not_closed not_renamed : SaveError

abbrev open_temp : Manager → Manager
open_temp m = record m { temps = [] ∷ m.temps }

-- `os.Remove` of the temporary file; its error is ignored.
abbrev pub drop_temp : Faults → Manager → Manager
drop_temp f m = if f.remove_temp then m else record m { temps = drop 1 m.temps }

abbrev write_temp : Text → Manager → Manager
write_temp b m = record m { temps = b ∷ drop 1 m.temps }

abbrev rename_temp : Text → Manager → Manager
rename_temp b m = record m { file = some b; temps = drop 1 m.temps }

abbrev pub adopt : RootConfig → Manager × Option SaveError → Manager × Option SaveError
adopt draft (m, some e) = (m, some e)
adopt draft (m, none) = (record m { config = draft }, none)

unfoldable pub get_masked : Manager → RootConfig
get_masked m = clone_and_mask m.config

module _ (codec : Codec) where
  unfoldable pub save_locked : Faults → RootConfig → Manager → Manager × Option SaveError
  save_locked f c m = elim (codec.marshal c) [
    | none ↦ (m, some not_marshalled)
    | some b ↦
        if f.create
        then (m, some no_temp)
        else if f.write
        then (drop_temp f (open_temp m), some not_written)
        else if f.sync
        then (drop_temp f (write_temp b (open_temp m)), some not_synced)
        else if f.close
        then (drop_temp f (write_temp b (open_temp m)), some not_closed)
        else if f.rename
        then (drop_temp f (write_temp b (open_temp m)), some not_renamed)
        else (rename_temp b (write_temp b (open_temp m)), none)
  ]

  -- `Update`: the draft takes the place of the configuration if it could be saved.
  unfoldable pub update : Faults → (RootConfig → RootConfig) → Manager → Manager × Option SaveError
  update f change m = adopt (change m.config) (save_locked f (change m.config) m)

  -- `Save`.
  unfoldable pub save : Faults → Manager → Manager × Option SaveError
  save f m = save_locked f m.config m

  abbrev first_run : Manager × Option SaveError → Option Manager
  first_run (m, some e) = none
  first_run (m, none) = some m

  -- `NewManager` on what is in the directory, with the new token and whether the file can be read;
  -- `none` is an error.
  unfoldable pub new_manager : Faults → Text → Bool → Option Text → List Text → Option Manager
  new_manager f id readable none temps =
      first_run (save f record { config = default_config id; file = none; temps = temps })
  new_manager f id readable (some b) temps =
      if not readable then none else elim (codec.unmarshal b) [
        | none ↦ none
        | some c ↦ some record { config = c; file = some b; temps = temps }
      ]
