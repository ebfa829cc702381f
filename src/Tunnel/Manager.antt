-- ===== src/Tunnel/Manager.antt =====
-- `Manager` of src/internal/tunnel/manager.go: the tunnel of this machine. What awg and the files of
-- this machine answer is given; the server is that of Tunnel/Peers.
pub mod Drift
use unet.Base.{
  ℕ, ◌≡◌, Bool, true, false, not, ◌||◌, ◌⊎◌, inl, inr, List, [], ◌∷◌, ◌++◌, Option, none, some,
  if◌then◌else◌, Text, leb, length, ◌&&◌, codes, text_eq,
}
use unet.Base.Int.{ℤ, pos}
use unet.Config.{RootConfig}
use unet.Config.Manager.{Codec, Manager, Faults, update}
use unet.Tunnel.Address.{
  PeerDumpEntry, Net, bad_subnet, not_ipv4, no_free_ip, allocated, split_on, first_of,
  allocate_next_ip,
}
use unet.Tunnel.Shell.{cat_file, dump, hash_conf}
use unet.Tunnel.Peers.{ClientEntry, PeerManager, AddPeerParams, PeerError, container_of, add_peer}
use unet.Tunnel.Fetch.{fetch_all}
use unet.Tunnel.ServerConfig.{
  ServerConfig, Strings, FetchError, no_conf, no_public_key, no_psk, no_hash, empty_server,
  parse_dump_output, parse_interface_section,
}

pub record ServerMirror : Type 0 where
  pub last_synced_at : Text
  pub awg_conf_raw : Text
  pub awg_conf_sha256 : Text
  pub clients_table : Option Text
  pub caddy_admin_config : Option Text
  pub server_private_key : Text

abbrev empty_mirror : ServerMirror
empty_mirror = record {
  last_synced_at = [];
  awg_conf_raw = [];
  awg_conf_sha256 = [];
  clients_table = none;
  caddy_admin_config = none;
  server_private_key = [];
}

-- `encoding/json` on a mirror: it is written if the table is one that was written itself, and then it is
-- not the empty text, and reads back with its hash. The table is compacted on the way.
pub record Deps : Type 1 where
  pub pm : PeerManager
  pub strings : Strings
  pub net : Net
  pub codec : Codec
  pub show_int : ℤ → Text
  pub address_bytes : Text → Option (ℕ × ℕ × ℕ)
  pub marshal_mirror : ServerMirror → Option Text
  pub unmarshal_mirror : Text → Option ServerMirror
  pub mirror_written :
      (m : ServerMirror) (es : List ClientEntry)
      → m.clients_table ≡ some (pm.codec.marshal es)
      → m.caddy_admin_config ≡ none
      → (b : Text) × (marshal_mirror m ≡ some b)
  pub mirror_full : (m : ServerMirror) {b : Text} → marshal_mirror m ≡ some b → text_eq b [] ≡ false
  pub mirror_back :
      (m : ServerMirror) (conf : Text) {b : Text}
      → marshal_mirror m ≡ some b
      → m.awg_conf_sha256 ≡ strings.sha256 conf
      → (m' : ServerMirror) × (unmarshal_mirror b ≡ some m')
        × (m'.awg_conf_sha256 ≡ m.awg_conf_sha256)

pub data TunnelError : Type 0 where
  already no_host not_provisioned no_keys no_subnet no_ip conf_not_written not_up : TunnelError
  not_fetched : FetchError → TunnelError
  not_added : PeerError → TunnelError

pub data DriftAnswer : Type 0 where
  in_step bad_mirror no_remote_hash drifted panicked : DriftAnswer

-- What this machine answers during a connection.
pub record Answers : Type 0 where
  pub keypair : Option (Text × Text)
  pub hostname : Text
  pub writes_conf : Bool
  pub comes_up : Bool
  pub discovered : Option Text
  pub now : Text
  pub start_faults : Faults
  pub fail_faults : Faults
  pub persist_faults : Faults

abbrev has_key : Text → List PeerDumpEntry → Bool
has_key key [] = false
has_key key (p ∷ ps) = if text_eq p.public_key key then true else has_key key ps

-- The part of the address before its slash, if there is one.
unfoldable pub derive_server_ip : Text → Text
derive_server_ip address =
    let head = first_of (split_on 47 address) in if text_eq head [] then address else head

abbrev with_status : Text → RootConfig → RootConfig
with_status t c = record c { tunnel = record c.tunnel { status = t } }

module _ (d : Deps) where
  open d use {pm, strings}
  open d.pm.server use {State, run}

  pub record Tunnel : Type 0 where
    pub manager : Manager
    pub running : Bool
    pub status : Text
    pub remote : State

  unfoldable pub set_status : Faults → Text → Tunnel → Tunnel
  set_status f t s = record s {
    status = t;
    manager = (update d.codec f (with_status t) s.manager).0;
  }

  abbrev fail : Answers → TunnelError → Tunnel → Tunnel × (Unit {0} ⊎ TunnelError)
  fail a e s = (set_status a.fail_faults (codes "error") s, inr e)

  unfoldable pub derive_subnet : Text → Text
  derive_subnet address = elim (d.address_bytes address) [
    | none ↦ []
    | some (x, y, z) ↦
        pm.itoa x ++ codes "." ++ pm.itoa y ++ codes "." ++ pm.itoa z ++ codes ".0/24"
  ]

  unfoldable pub keys_of : Answers → RootConfig → Option (Text × Text)
  keys_of a c =
      if text_eq c.tunnel.private_key [] || text_eq c.tunnel.public_key []
      then a.keypair
      else some (c.tunnel.private_key, c.tunnel.public_key)

  unfoldable pub local_ip_of : RootConfig → Text → List PeerDumpEntry → Option Text
  local_ip_of c subnet peers =
      if not (text_eq c.tunnel.local_ip [])
      then some c.tunnel.local_ip
      else elim (allocate_next_ip d.net subnet peers) [
        | allocated ip ↦ some ip
        | bad_subnet ↦ none
        | not_ipv4 ↦ none
        | no_free_ip ↦ none
      ]

  abbrev params_of : Answers → RootConfig → ServerConfig → Text → Text → AddPeerParams
  params_of a c srv key ip = record {
    container = c.vps.container_name;
    interface = codes "awg0";
    client_public_key = key;
    client_ip = ip;
    preshared_key = srv.preshared_key;
    client_name = a.hostname;
    persistent_keepalive = 25;
  }

  -- `SerializeServerMirror`, whose error is dropped.
  abbrev serialized : Option Text → Text
  serialized none = []
  serialized (some t) = t

  -- The mirror of the server, as it was fetched before the peer was added.
  abbrev mirror_of : Answers → ServerConfig → Option Text → ServerMirror
  mirror_of a srv table = record empty_mirror {
    last_synced_at = a.now;
    awg_conf_raw = srv.raw_conf;
    awg_conf_sha256 = srv.conf_sha256;
    clients_table = table;
  }

  abbrev or_awg0 : Option Text → Text
  or_awg0 none = codes "awg0"
  or_awg0 (some t) = t

  unfoldable pub persisted :
      Answers → Text → ServerConfig → Text × Text → Text → Option Text → RootConfig → RootConfig
  persisted a host srv (priv, key) ip table c = record c {
    tunnel = record c.tunnel {
      interface_name = or_awg0 a.discovered;
      subnet = derive_subnet srv.address;
      server_ip = derive_server_ip srv.address;
      local_ip = ip;
      server_endpoint = host ++ codes ":" ++ d.show_int srv.listen_port;
      server_public_key = srv.server_public_key;
      preshared_key = srv.preshared_key;
      private_key = priv;
      public_key = key;
      mtu = pos 1280;
      persistent_keepalive = pos 25;
      obfuscation = srv.obfuscation;
      status = codes "connected";
      connected_at = a.now;
    };
    server_mirror = serialized (d.marshal_mirror (mirror_of a srv table));
  }

  -- From the local configuration file on. A failing save of the configuration is only logged.
  abbrev joined :
      Answers
      → Text
      → ServerConfig
      → Text × Text
      → Text
      → Option Text
      → Tunnel
      → Tunnel × (Unit {0} ⊎ TunnelError)
  joined a host srv keys ip table s =
      if not a.writes_conf
      then fail a conf_not_written s
      else if not a.comes_up
      then fail a not_up s
      else (
        record s {
          manager =
              (update d.codec a.persist_faults (persisted a host srv keys ip table) s.manager).0;
          running = true;
          status = codes "connected";
        },
        inl tt,
      )

  abbrev when_added :
      Answers
      → Text
      → ServerConfig
      → Text × Text
      → Text
      → Tunnel
      → State × (Text ⊎ PeerError)
      → Tunnel × (Unit {0} ⊎ TunnelError)
  when_added a host srv keys ip s (r, inr e) = fail a (not_added e) (record s { remote = r })
  when_added a host srv keys ip s (r, inl table) =
      joined a host srv keys ip (some table) (record s { remote = r })

  unfoldable pub join :
      Answers
      → RootConfig
      → ServerConfig
      → Text × Text
      → Text
      → Tunnel
      → Tunnel × (Unit {0} ⊎ TunnelError)
  join a c srv keys ip s =
      if has_key keys.1 srv.peers
      then joined a c.vps.host srv keys ip none s
      else when_added a c.vps.host srv keys ip s
          (add_peer pm (params_of a c srv keys.1 ip) a.now s.remote)

  unfoldable pub with_server :
      Answers
      → RootConfig
      → Tunnel
      → State × (ServerConfig ⊎ FetchError)
      → Tunnel × (Unit {0} ⊎ TunnelError)
  with_server a c s (r, inr e) = fail a (not_fetched e) (record s { remote = r })
  with_server a c s (r, inl srv) =
      let t = record s { remote = r } in
      elim (keys_of a c) [
        | none ↦ fail a no_keys t
        | some keys ↦
            if text_eq (derive_subnet srv.address) []
            then fail a no_subnet t
            else elim (local_ip_of c (derive_subnet srv.address) srv.peers) [
              | none ↦ fail a no_ip t
              | some ip ↦ join a c srv keys ip t
            ]
      ]

  unfoldable pub connect : Answers → Tunnel → Tunnel × (Unit {0} ⊎ TunnelError)
  connect a s =
      if s.running
      then (s, inr already)
      else let t = set_status a.start_faults (codes "connecting") s in
        let c = t.manager.config in
        if text_eq c.vps.host []
        then fail a no_host t
        else if not c.vps.is_provisioned
        then fail a not_provisioned t
        else with_server a c t (fetch_all pm strings c.vps.container_name t.remote)

  unfoldable pub disconnect : Faults → Tunnel → Tunnel
  disconnect f s = if not s.running then s else record s {
    manager =
        (update d.codec f
          (λ c. record c {
            tunnel = record c.tunnel { status = codes "disconnected"; connected_at = [] };
          })
          s.manager).0;
    running = false;
    status = codes "disconnected";
  }

  unfoldable pub parse_server_mirror : Text → Option ServerMirror
  parse_server_mirror raw = if text_eq raw [] then some empty_mirror else d.unmarshal_mirror raw

  -- `FetchConfHash`: the first field of what `sha256sum` prints.
  abbrev fetched_hash : Option Text → Option Text
  fetched_hash none = none
  fetched_hash (some out) = strings.first_field out

  -- The message shows 16 bytes of each hash, which panics on a shorter one.
  abbrev compared : Text → Option Text → DriftAnswer
  compared mine none = no_remote_hash
  compared mine (some theirs) =
      if text_eq theirs mine
      then in_step
      else if leb 16 (length theirs) && leb 16 (length mine)
      then drifted
      else panicked

  unfoldable pub check_drift : Tunnel → DriftAnswer
  check_drift s =
      let c = s.manager.config in
      elim (parse_server_mirror c.server_mirror) [
        | none ↦ bad_mirror
        | some m ↦
            if text_eq m.awg_conf_sha256 []
            then in_step
            else compared m.awg_conf_sha256
                (fetched_hash (run (container_of pm c.vps.container_name) hash_conf s.remote).1)
      ]
