-- ===== src/Tunnel/Fetch.antt =====
-- `FetchAll` of src/internal/tunnel/server_config.go: the reads on the server, and what they give.
pub mod Hash
use unet.Base.{Bool, ◌⊎◌, inl, inr, List, [], Option, none, some, Text, codes}
use unet.Tunnel.Address.{PeerDumpEntry}
use unet.Tunnel.Shell.{cat_file, dump}
use unet.Tunnel.Peers.{PeerManager, container_of}
use unet.Tunnel.ServerConfig.{
  ServerConfig, Strings, FetchError, no_conf, no_public_key, no_psk, empty_server,
  parse_dump_output, parse_interface_section,
}

abbrev pub conf_path : Text
conf_path = codes "/opt/amnezia/awg/awg0.conf"

module _ (pm : PeerManager) (strings : Strings) where
  open pm.server use {State, run}

  abbrev dumped : Option Text → List PeerDumpEntry
  dumped none = []
  dumped (some out) = parse_dump_output strings out

  abbrev complete : Text → ServerConfig → State → State × (ServerConfig ⊎ FetchError)
  complete c srv s =
      let (s1, key) =
        run c (cat_file (codes "/opt/amnezia/awg/wireguard_server_public_key.key")) s in
      elim key [
        | none ↦ (s1, inr no_public_key)
        | some k ↦
            let (s2, psk) = run c (cat_file (codes "/opt/amnezia/awg/wireguard_psk.key")) s1 in
            elim psk [
              | none ↦ (s2, inr no_psk)
              | some p ↦
                  let (s3, out) = run c (dump (codes "awg0")) s2 in
                  (
                    s3,
                    inl (record srv {
                      server_public_key = strings.trim_space k;
                      preshared_key = strings.trim_space p;
                      peers = dumped out;
                    }),
                  )
            ]
      ]

  -- `FetchAll`. Without a dump there are no peers.
  unfoldable pub fetch_all : Text → State → State × (ServerConfig ⊎ FetchError)
  fetch_all container s =
      let c = container_of pm container in
      let (s1, raw) = run c (cat_file conf_path) s in
      elim raw [
        | none ↦ (s1, inr no_conf)
        | some raw ↦
            let read = record empty_server { raw_conf = raw; conf_sha256 = strings.sha256 raw } in
            elim (parse_interface_section strings raw read) [
              | inr e ↦ (s1, inr e)
              | inl srv ↦ complete c srv s1
            ]
      ]
