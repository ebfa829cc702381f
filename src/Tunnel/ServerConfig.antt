-- ===== src/Tunnel/ServerConfig.antt =====
-- `ServerConfigParser` of src/internal/tunnel/server_config.go: the state of the server as its files
-- and the dump of awg show it. The regular expression of a key and its value, `strconv.Atoi`, SHA-256
-- and the trimming of strings are given.
use unet.Base.{
  Bool, true, false, ◌&&◌, ◌||◌, not, ◌⊎◌, inl, inr, List, [], ◌∷◌, ◌++◌, Option, none, some,
  if◌then◌else◌, Text, codes, text_eq, has_prefix, has_suffix, drop, leb, length, ◌≡◌,
}
use unet.Base.Int.{ℤ, pos}
use unet.Config.{ObfuscationConfig}
use unet.Config.Manager.{empty_config}
use unet.Tunnel.Address.{PeerDumpEntry, split_on}

pub record ServerConfig : Type 0 where
  pub address : Text
  pub listen_port : ℤ
  pub obfuscation : ObfuscationConfig
  pub server_public_key : Text
  pub preshared_key : Text
  pub raw_conf : Text
  pub conf_sha256 : Text
  pub peers : List PeerDumpEntry

pub data FetchError : Type 0 where
  no_conf no_section bad_listen_port no_public_key no_psk no_hash : FetchError

abbrev pub empty_server : ServerConfig
empty_server = record {
  address = [];
  listen_port = pos 0;
  obfuscation = empty_config.tunnel.obfuscation;
  server_public_key = [];
  preshared_key = [];
  raw_conf = [];
  conf_sha256 = [];
  peers = [];
}

pub record Strings : Type 0 where
  pub trim_space : Text → Text
  pub trim_line_feeds : Text → Text
  pub split_key_value : Text → Option (Text × Text)
  pub atoi : Text → Option ℤ
  pub sha256 : Text → Text
  pub sha256_long : (t : Text) → leb 16 (length (sha256 t)) ≡ true
  pub first_field : Text → Option Text

abbrev peer_of_fields : List Text → List PeerDumpEntry
peer_of_fields (a ∷ b ∷ c ∷ d ∷ e ∷ f ∷ g ∷ h ∷ more) =
    record {
      public_key = a;
      preshared_key = b;
      endpoint = c;
      allowed_ips = d;
      last_handshake = e;
      rx_bytes = f;
      tx_bytes = g;
      persistent_keepalive = h;
    }
    ∷ []
peer_of_fields _ = []

abbrev peers_of : List Text → List PeerDumpEntry
peers_of [] = []
peers_of (l ∷ ls) = peer_of_fields (split_on 9 l) ++ peers_of ls

module _ (x : Strings) where
  -- Without its first line, which is the interface.
  unfoldable pub parse_dump_output : Text → List PeerDumpEntry
  parse_dump_output raw = peers_of (drop 1 (split_on 10 (x.trim_space raw)))

  -- The lines of the section, up to the next header.
  unfoldable pub section_lines : Text → Bool → List Text → Text
  section_lines header inside [] = []
  section_lines header inside (l ∷ ls) =
      let t = x.trim_space l in
      let is_header = has_prefix t (codes "[") && has_suffix t (codes "]") in
      let ended = inside && is_header && not (text_eq t header) in
      let starts = text_eq t header || inside in
      let rest = section_lines header starts ls in
      if ended then [] else if inside && not is_header then l ++ codes "\n" ++ rest else rest

  unfoldable pub extract_section : Text → Text → Text
  extract_section raw name =
      x.trim_line_feeds (section_lines (codes "[" ++ name ++ codes "]") false (split_on 10 raw))

  abbrev or_zero : Option ℤ → ℤ
  or_zero none = pos 0
  or_zero (some n) = n

  unfoldable pub set_obfuscation : Text → ℤ → ObfuscationConfig → ObfuscationConfig
  set_obfuscation key n o =
      if text_eq key (codes "Jc")
      then record o { jc = n }
      else if text_eq key (codes "Jmin")
      then record o { jmin = n }
      else if text_eq key (codes "Jmax")
      then record o { jmax = n }
      else if text_eq key (codes "S1")
      then record o { s1 = n }
      else if text_eq key (codes "S2")
      then record o { s2 = n }
      else if text_eq key (codes "S3")
      then record o { s3 = n }
      else if text_eq key (codes "S4")
      then record o { s4 = n }
      else if text_eq key (codes "H1")
      then record o { h1 = n }
      else if text_eq key (codes "H2")
      then record o { h2 = n }
      else if text_eq key (codes "H3")
      then record o { h3 = n }
      else if text_eq key (codes "H4")
      then record o { h4 = n }
      else if text_eq key (codes "I1")
      then record o { i1 = n }
      else if text_eq key (codes "I2")
      then record o { i2 = n }
      else if text_eq key (codes "I3")
      then record o { i3 = n }
      else if text_eq key (codes "I4")
      then record o { i4 = n }
      else if text_eq key (codes "I5")
      then record o { i5 = n }
      else o

  -- One key of the section; `none` is an error.
  unfoldable pub set_key : Text → Text → ServerConfig → Option ServerConfig
  set_key key value s =
      if text_eq key (codes "Address")
      then some (record s { address = value })
      else if text_eq key (codes "ListenPort")
      then elim (x.atoi value) [ none ↦ none | some n ↦ some (record s { listen_port = n }) ]
      else some
          (record s { obfuscation = set_obfuscation key (or_zero (x.atoi value)) s.obfuscation })

  unfoldable pub set_line : Text → ServerConfig → Option ServerConfig
  set_line l s =
      if text_eq l [] || has_prefix l (codes "#")
      then some s
      else elim (x.split_key_value l) [ none ↦ some s | some (key, value) ↦ set_key key value s ]

  unfoldable pub set_lines : List Text → ServerConfig → Option ServerConfig
  set_lines [] s = some s
  set_lines (l ∷ ls) s = elim (set_line (x.trim_space l) s) [
    | none ↦ none
    | some s ↦ set_lines ls s
  ]

  unfoldable pub parse_interface_section : Text → ServerConfig → ServerConfig ⊎ FetchError
  parse_interface_section raw s =
      let section = extract_section raw (codes "Interface") in
      if text_eq section []
      then inr no_section
      else elim (set_lines (split_on 10 section) s) [ none ↦ inr bad_listen_port | some s ↦ inl s ]
