-- ===== src/Tunnel/Tests.antt =====
-- The theorems on src/internal/tunnel/peer.go at two peers and on a toy server.
use unet.Base.{
  subst, sym, ◌∙◌, ℕ, ◌≡◌, refl, sym, ap, true, false, inl, inr, Option, none, has_prefix,
  has_suffix, ◌⊎◌, List, [], ◌∷◌, ◌++◌, some, Text, codes, text_eq, leb, length, arith,
}
use unet.Tunnel.Address.{
  PeerDumpEntry, Net, allocated, split_on, has_text, first_free, entry_ip, entry_ips, occupied_ips,
  allocate_next_ip,
}
use unet.Tunnel.Address.Allocation.{Outcome, allocate_next_ip-Outcome}
use unet.Tunnel.Shell.{docker_exec}
use unet.Tunnel.Shell.Words.{bare, words, words-docker_exec}
use unet.Tunnel.Peers.{
  ClientEntry, AddPeerParams, build_peer_block, lists_peer, write_table, update_clients_table,
  add_peer,
}
use unet.Tunnel.Sample.{Files, table_codec, peer_manager}
use unet.Samples.Enc.{Enc, text, via, ◌&◌, option}
use unet.Config.{RootConfig}
use unet.Config.Manager.{empty_config, Manager, Faults, save_locked, update}
use unet.Config.Sample.{config_codec}
use unet.Tunnel.ServerConfig.{
  ServerConfig, FetchError, Strings, empty_server, parse_dump_output, section_lines,
  extract_section, set_key, set_line, set_lines, parse_interface_section,
}
use unet.Tunnel.Manager.{
  ServerMirror, Deps, drifted, Answers, Tunnel, set_status, derive_subnet, keys_of, local_ip_of,
  join, with_server, connect, check_drift,
}
use unet.Tunnel.Fetch.{fetch_all}
use unet.Tunnel.Fetch.Hash.{IsReading}
use unet.Tunnel.Manager.Drift.{connect-drifted}

full : (i : ℕ) → text_eq (codes "10.8.1." ++ i ∷ []) [] ≡ false
unfolding text_eq
full i = refl

abbrev net : Net
net = record {
  parse_cidr = λ t. some (some (10, 8, 1));
  show = λ p i. codes "10.8.1." ++ i ∷ [];
  trim_space = λ t. t;
  show_full = λ p i. full i;
}

abbrev peer : Text → PeerDumpEntry
peer ips = record {
  public_key = codes "k";
  preshared_key = [];
  endpoint = [];
  allowed_ips = ips;
  last_handshake = [];
  rx_bytes = [];
  tx_bytes = [];
  persistent_keepalive = [];
}

abbrev peers : List PeerDumpEntry
peers =
    peer (codes "10.8.1." ++ 2 ∷ codes "/32,fd00::2/128")
    ∷ peer (codes "10.8.1." ++ 4 ∷ codes "/32")
    ∷ []

-- The second of two addresses is taken, and the third is given.
gives_third :
    allocate_next_ip net (codes "10.8.1.0/24") peers ≡ allocated (codes "10.8.1." ++ 3 ∷ [])
unfolding allocate_next_ip first_free occupied_ips entry_ips entry_ip split_on has_text text_eq
gives_third = refl

allocate_next_ip-Outcome_example :
    Outcome net (10, 8, 1) peers (allocate_next_ip net (codes "10.8.1.0/24") peers)
allocate_next_ip-Outcome_example =
    allocate_next_ip-Outcome net (codes "10.8.1.0/24") (10, 8, 1) peers refl

words-docker_exec_example :
    words bare false (docker_exec (codes "a'b") (codes "rm 'x'; ls"))
    ≡ codes "docker"
      ∷ codes "exec"
      ∷ codes "a'b"
      ∷ codes "sh"
      ∷ codes "-c"
      ∷ codes "rm 'x'; ls"
      ∷ []
words-docker_exec_example = words-docker_exec (codes "a'b") (codes "rm 'x'; ls")

abbrev old_entry : ClientEntry
old_entry = record { client_id = codes "o"; client_name = codes "old"; creation_date = [] }

abbrev files : Files
files = (codes "[Interface]\n", table_codec.marshal (old_entry ∷ []) ++ codes "\n", [])

abbrev params : AddPeerParams
params = record {
  container = [];
  interface = [];
  client_public_key = codes "k";
  client_ip = codes "10.8.1.2";
  preshared_key = codes "p";
  client_name = codes "new";
  persistent_keepalive = 0;
}

abbrev MirrorParts : Type 0
MirrorParts = Text × (Text × (Text × (Option Text × (Option Text × Text))))

abbrev mirror : Enc ServerMirror
mirror =
    via (text & text & text & option text & option text & text)
      (λ (p : MirrorParts). record {
        last_synced_at = p.0;
        awg_conf_raw = p.1.0;
        awg_conf_sha256 = p.1.1.0;
        clients_table = p.1.1.1.0;
        caddy_admin_config = p.1.1.1.1.0;
        server_private_key = p.1.1.1.1.1;
      })
      (λ (m : ServerMirror). (
        m.last_synced_at,
        (
          m.awg_conf_raw,
          (m.awg_conf_sha256, (m.clients_table, (m.caddy_admin_config, m.server_private_key))),
        ),
      ))
      (λ m. refl)

abbrev whole_mirror : Option (ServerMirror × Text) → Option ServerMirror
whole_mirror none = none
whole_mirror (some (m, r)) = some m

mirror_full :
    (m : ServerMirror) {b : Text}
    → ◌≡◌ {A = Option Text} (some (mirror.put m [])) (some b)
    → text_eq b [] ≡ false
unfolding text_eq
mirror_full m {b} p = let q : mirror.put m [] ≡ b = cc p in subst (λ x. text_eq x [] ≡ false) q refl

mirror_back :
    (m : ServerMirror) {b : Text}
    → ◌≡◌ {A = Option Text} (some (mirror.put m [])) (some b)
    → (m' : ServerMirror) × (whole_mirror (mirror.get b) ≡ some m')
      × (m'.awg_conf_sha256 ≡ m.awg_conf_sha256)
mirror_back m {b} p =
    let q : mirror.put m [] ≡ b = cc p in
    (m, ap (λ x. whole_mirror (mirror.get x)) (sym q) ∙ ap whole_mirror (mirror.back m []), refl)

abbrev pad : Text
pad = codes "0123456789abcdef"

long : (t : Text) → leb 16 (length (pad ++ t)) ≡ true
long t = ground arith

-- A hash is the text itself behind sixteen bytes.
abbrev strings : Strings
strings = record {
  trim_space = λ t. t;
  trim_line_feeds = λ t. t;
  split_key_value = λ t. some (codes "Address", codes "10.8.1.1/24");
  atoi = λ t. none;
  sha256 = λ t. pad ++ t;
  sha256_long = long;
  first_field = λ (t : Text). some (pad ++ t);
}

abbrev deps : Deps
deps = record {
  pm = peer_manager;
  strings = strings;
  net = net;
  codec = config_codec;
  show_int = λ n. [];
  address_bytes = λ t. some (10, 8, 1);
  marshal_mirror = λ m. some (mirror.put m []);
  mirror_written = λ m es h k. (_, refl);
  unmarshal_mirror = λ t. whole_mirror (mirror.get t);
  mirror_full = λ m p. mirror_full m p;
  mirror_back = λ m conf p q. mirror_back m p;
}

abbrev hashed : Option Text → Option Text
hashed none = none
hashed (some t) = some (pad ++ t)

reads : IsReading peer_manager strings
reads = record {
  cat_conf = λ c path s. refl;
  dump_conf = λ c iface s. refl;
  cat_out = λ c s q. cc q;
  hash_out = λ c s q. ap hashed (sym q);
}

abbrev fine : Faults
fine = record {
  create = false;
  write = false;
  sync = false;
  close = false;
  rename = false;
  remove_temp = false;
}

saved :
    (change : RootConfig → RootConfig) (m : Manager) → (update config_codec fine change m).1 ≡ none
unfolding update save_locked
saved change m = refl

abbrev answers : Answers
answers = record {
  keypair = some (codes "p", codes "k");
  hostname = codes "n";
  writes_conf = true;
  comes_up = true;
  discovered = none;
  now = codes "t";
  start_faults = fine;
  fail_faults = fine;
  persist_faults = fine;
}

abbrev tunnel : Tunnel deps
tunnel = record {
  manager = record {
    config = record empty_config {
      vps = record empty_config.vps { host = codes "v"; is_provisioned = true };
    };
    file = none;
    temps = [];
  };
  running = false;
  status = codes "disconnected";
  remote = (codes "[Interface]\nAddress = 10.8.1.1/24\n", [], []);
}

abbrev server_of : Files × (ServerConfig ⊎ FetchError) → ServerConfig
server_of (s, inl srv) = srv
server_of (s, inr e) = empty_server

abbrev fetched : Files × (ServerConfig ⊎ FetchError)
fetched = fetch_all peer_manager strings [] tunnel.remote

connect-drifted_example : check_drift deps (connect deps answers tunnel).0 ≡ drifted
unfolding set_status update save_locked text_eq fetch_all parse_interface_section extract_section
    section_lines has_prefix has_suffix split_on set_lines set_line set_key parse_dump_output
    keys_of derive_subnet local_ip_of allocate_next_ip first_free occupied_ips has_text
    build_peer_block connect with_server join add_peer lists_peer update_clients_table write_table
connect-drifted_example =
    connect-drifted deps reads answers (server_of fetched) (codes "p", codes "k")
      (codes "10.8.1." ++ 2 ∷ []) (connect deps answers tunnel).0.remote.0 tunnel
      (connect deps answers tunnel).0 fetched.0 refl refl refl refl refl refl refl refl refl refl
      refl saved refl refl
