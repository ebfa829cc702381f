-- ===== src/Tunnel/Fetch/Hash.antt =====
-- `FetchAll` of src/internal/tunnel/server_config.go has the hash of the configuration it read.
use unet.Base.{
  ◌≡◌, refl, sym, ap, ◌∙◌, ◌||◌, ◌⊎◌, inl, inr, List, [], ◌∷◌, some, Text, codes, text_eq,
  has_prefix, Bool-cases, Option-cases,
}
use unet.Tunnel.Address.{split_on}
use unet.Tunnel.Shell.{cat_file, dump, hash_conf}
use unet.Tunnel.Peers.{PeerManager, container_of}
use unet.Tunnel.ServerConfig.{
  ServerConfig, FetchError, Strings, empty_server, set_key, set_line, set_lines, extract_section,
  parse_interface_section,
}
use unet.Tunnel.Fetch.{conf_path, complete, fetch_all}

-- The fields of a configuration that its lines do not set.
module _ (x : Strings) where
  set_key-conf_sha256 :
      (key value : Text) (s s' : ServerConfig)
      → set_key x key value s ≡ some s'
      → s'.conf_sha256 ≡ s.conf_sha256
  unfolding set_key
  set_key-conf_sha256 key value s s' h = elim (Bool-cases (text_eq key (codes "Address"))) [
    | inl a ↦ (let y = rw (set_key, a) at h in cc y)
    | inr a ↦ elim (Bool-cases (text_eq key (codes "ListenPort"))) [
      | inr b ↦ (let y = rw (set_key, a, b) at h in cc y)
      | inl b ↦ elim (Option-cases (x.atoi value)) [
        | inl n ↦ (let y = rw (set_key, a, b, n) at h in cc y)
        | inr (m, n) ↦ (let y = rw (set_key, a, b, n) at h in cc y)
      ]
    ]
  ]

  set_line-conf_sha256 :
      (l : Text) (s s' : ServerConfig) → set_line x l s ≡ some s' → s'.conf_sha256 ≡ s.conf_sha256
  unfolding set_line
  set_line-conf_sha256 l s s' h = elim (Bool-cases (text_eq l [] || has_prefix l (codes "#"))) [
    | inl a ↦ (let y = rw (set_line, a) at h in cc y)
    | inr a ↦ elim (Option-cases (x.split_key_value l)) [
      | inl b ↦ (let y = rw (set_line, a, b) at h in cc y)
      | inr ((key, value), b) ↦ set_key-conf_sha256 key value s s' (rw (set_line, a, b) at h)
    ]
  ]

  set_lines-conf_sha256 :
      (ls : List Text) (s s' : ServerConfig)
      → set_lines x ls s ≡ some s'
      → s'.conf_sha256 ≡ s.conf_sha256
  unfolding set_lines
  set_lines-conf_sha256 [] s s' h = cc h
  set_lines-conf_sha256 (l ∷ ls) s s' h = elim (Option-cases (set_line x (x.trim_space l) s)) [
    | inl a ↦ (let y = rw (set_lines, a) at h in cc y)
    | inr (u, a) ↦
        set_lines-conf_sha256 ls u s' (rw (set_lines, a) at h)
        ∙ set_line-conf_sha256 (x.trim_space l) s u a
  ]

  parse_interface_section-conf_sha256 :
      (raw : Text) (s s' : ServerConfig)
      → parse_interface_section x raw s ≡ inl s'
      → s'.conf_sha256 ≡ s.conf_sha256
  unfolding parse_interface_section
  parse_interface_section-conf_sha256 raw s s' h =
      let section = extract_section x raw (codes "Interface") in
      elim (Bool-cases (text_eq section [])) [
        | inl a ↦ (let y = rw (parse_interface_section, a) at h in cc y)
        | inr a ↦ elim (Option-cases (set_lines x (split_on 10 section) s)) [
          | inl b ↦ (let y = rw (parse_interface_section, a, b) at h in cc y)
          | inr (u, b) ↦
              let y = rw (parse_interface_section, a, b) at h in
              let p : u ≡ s' = cc y in
              sym (ap (λ z. z.conf_sha256) p) ∙ set_lines-conf_sha256 (split_on 10 section) s u b
        ]
      ]

pub sum_cases : {A B : Type 0} (x : A ⊎ B) → ((a : A) × (x ≡ inl a)) ⊎ ((b : B) × (x ≡ inr b))
sum_cases (inl a) = inl (a, refl)
sum_cases (inr b) = inr (b, refl)

abbrev hash_of : ServerConfig ⊎ FetchError → Text
hash_of (inl s) = s.conf_sha256
hash_of (inr e) = []

module _ (pm : PeerManager) (strings : Strings) where
  open pm.server use {State, run, conf}

  -- Reading commands leave the configuration alone, `cat` prints it, and the first field of what
  -- `sha256sum` prints is its hash.
  pub record IsReading : Type 0 where
    pub cat_conf : (c path : Text) (s : State) → conf c (run c (cat_file path) s).0 ≡ conf c s
    pub dump_conf : (c iface : Text) (s : State) → conf c (run c (dump iface) s).0 ≡ conf c s
    pub cat_out :
        (c : Text) (s : State) {out : Text}
        → (run c (cat_file conf_path) s).1 ≡ some out
        → out ≡ conf c s
    pub hash_out :
        (c : Text) (s : State) {out : Text}
        → (run c hash_conf s).1 ≡ some out
        → strings.first_field out ≡ some (strings.sha256 (conf c s))

  -- What was fetched last leaves the hash and the configuration.
  complete-conf :
      (reads : IsReading) (c : Text) (srv srv' : ServerConfig) (s r : State)
      → complete pm strings c srv s ≡ (r, inl srv')
      → (srv'.conf_sha256 ≡ srv.conf_sha256) × (conf c r ≡ conf c s)
  complete-conf reads c srv srv' s r h =
      let key_file = cat_file (codes "/opt/amnezia/awg/wireguard_server_public_key.key") in
      let psk_file = cat_file (codes "/opt/amnezia/awg/wireguard_psk.key") in
      let s1 = (run c key_file s).0 in
      let s2 = (run c psk_file s1).0 in
      elim (Option-cases (run c key_file s).1) [
        | inl a ↦ (let y = ap (λ z. z.1) (rw (complete, a) at h) in cc y)
        | inr (k, a) ↦ elim (Option-cases (run c psk_file s1).1) [
          | inl b ↦ (let y = ap (λ z. z.1) (rw (complete, a, b) at h) in cc y)
          | inr (p, b) ↦
              let y = rw (complete, a, b) at h in
              (
                ap (λ z. hash_of z.1) (sym y),
                ap (λ z. conf c z.0) (sym y)
                    ∙ reads.dump_conf c (codes "awg0") s2
                    ∙ reads.cat_conf c (codes "/opt/amnezia/awg/wireguard_psk.key") s1
                    ∙ reads.cat_conf c (codes "/opt/amnezia/awg/wireguard_server_public_key.key") s,
              )
        ]
      ]

  -- What `FetchAll` returns has the hash of the configuration, which it leaves alone.
  pub fetch_all-conf :
      (reads : IsReading) (container : Text) (srv : ServerConfig) (s r : State)
      → fetch_all pm strings container s ≡ (r, inl srv)
      → (srv.conf_sha256 ≡ strings.sha256 (conf (container_of pm container) s))
        × (conf (container_of pm container) r ≡ conf (container_of pm container) s)
  unfolding fetch_all
  fetch_all-conf reads container srv s r h =
      let c = container_of pm container in
      let s1 = (run c (cat_file conf_path) s).0 in
      elim (Option-cases (run c (cat_file conf_path) s).1) [
        | inl a ↦ (let y = ap (λ z. z.1) (rw (fetch_all, a) at h) in cc y)
        | inr (raw, a) ↦
            let read = record empty_server { raw_conf = raw; conf_sha256 = strings.sha256 raw } in
            elim (sum_cases (parse_interface_section strings raw read)) [
              | inr (e, b) ↦ (let y = ap (λ z. z.1) (rw (fetch_all, a, b) at h) in cc y)
              | inl (srv1, b) ↦
                  let (hash, kept) =
                    complete-conf reads c srv1 srv s1 r (rw (fetch_all, a, b) at h) in
                  (
                    hash
                        ∙ parse_interface_section-conf_sha256 strings raw read srv1 b
                        ∙ ap strings.sha256 (reads.cat_out c s a),
                    kept ∙ reads.cat_conf c conf_path s,
                  )
            ]
      ]
