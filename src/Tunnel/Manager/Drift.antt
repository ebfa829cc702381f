-- ===== src/Tunnel/Manager/Drift.antt =====
-- What src/internal/tunnel/manager.go holds of the server after a connection.
use unet.Base.{
  ◌≡◌, refl, sym, ap, ◌∙◌, subst, true, false, ◌⊎◌, inl, inr, List, [], ◌++◌, Option, none, some,
  Text, leb, length, codes, text_eq, Bool-cases,
}
use unet.Config.{RootConfig}
use unet.Config.Manager.{Manager, update}
use unet.Config.Manager.Updates.{update-cases}
use unet.Tunnel.Address.{split_on, has_text}
use unet.Tunnel.Shell.{hash_conf}
use unet.Tunnel.Peers.{ClientEntry, PeerError, container_of, block_of, add_peer}
use unet.Tunnel.Peers.Table.{Added, nothing_done, block_left, in_table, add_peer-Added}
use unet.Tunnel.ServerConfig.{ServerConfig}
use unet.Tunnel.Fetch.{fetch_all}
use unet.Tunnel.Fetch.Hash.{IsReading, fetch_all-conf, sum_cases}
use unet.Tunnel.Manager.{
  Deps, drifted, Answers, has_key, Tunnel, set_status, derive_subnet, keys_of, local_ip_of,
  params_of, mirror_of, persisted, joined, join, with_server, connect, parse_server_mirror,
  check_drift,
}

inl_inj : {A B : Type 0} {x y : A} → ◌≡◌ {A = A ⊎ B} (inl x) (inl y) → x ≡ y
inl_inj h = cc h

module _ (d : Deps) where
  open d use {pm, strings}
  open d.pm.server use {State, run, conf}

  -- An addition that succeeded returns the table that it has written.
  Added-table :
      {p : _} {now : Text} {s : State} {o : State × (Text ⊎ PeerError)} {table : Text}
      → Added pm p now s o
      → o.1 ≡ inl table
      → (es : List ClientEntry) × (table ≡ pm.codec.marshal es)
  Added-table (nothing_done n e) h = (let y = sym (ap (λ z. z.1) e) ∙ h in cc y)
  Added-table (block_left x e a b) h = (let y = sym e ∙ h in cc y)
  Added-table (in_table es e a b z) h = (_, inl_inj (sym h ∙ e))

  -- An addition that succeeded has appended its block.
  Added-conf :
      {p : _} {now : Text} {s : State} {o : State × (Text ⊎ PeerError)} {table : Text}
      → Added pm p now s o
      → o.1 ≡ inl table
      → conf (container_of pm p.container) o.0
        ≡ conf (container_of pm p.container) s ++ block_of pm p
  Added-conf (nothing_done n e) h = (let y = sym (ap (λ z. z.1) e) ∙ h in cc y)
  Added-conf (block_left x e a b) h = (let y = sym e ∙ h in cc y)
  Added-conf (in_table es e a b z) h = a

  -- A connection whose peer was added, with its saves.
  joined-state :
      (a : Answers) (host : Text) (srv : ServerConfig) (keys : Text × Text) (ip : Text)
      (table : Option Text) (s t : Tunnel d)
      → joined d a host srv keys ip table s ≡ (t, inl tt)
      → (t.remote ≡ s.remote)
        × (t.manager
            ≡ (update d.codec a.persist_faults (persisted d a host srv keys ip table) s.manager).0)
  joined-state a host srv keys ip table s t h = elim (Bool-cases a.writes_conf) [
    | inr e ↦ (let y = ap (λ z. z.1) (rw (joined, e) at h) in cc y)
    | inl e ↦ elim (Bool-cases a.comes_up) [
      | inr f ↦ (let y = ap (λ z. z.1) (rw (joined, e, f) at h) in cc y)
      | inl f ↦
          let y = simp (joined, e, f) at h in
          (ap (λ z. z.0.remote) (sym y), ap (λ z. z.0.manager) (sym y))
    ]
  ]

  -- After a connection that added its peer, the mirror holds the hash from before the addition.
  join-drifted :
      (reads : IsReading pm strings) (a : Answers) (srv : ServerConfig) (keys : Text × Text)
      (ip out before : Text) (s t : Tunnel d)
      → let c = s.manager.config in
        let box = container_of pm c.vps.container_name in
        let block = block_of pm (params_of d a c srv keys.1 ip) in
        has_key keys.1 srv.peers ≡ false
        → has_text (codes "PEER") (split_on 10 block) ≡ false
        → text_eq srv.conf_sha256 [] ≡ false
        → srv.conf_sha256 ≡ strings.sha256 before
        → leb 16 (length srv.conf_sha256) ≡ true
        → text_eq (strings.sha256 (conf box s.remote ++ block)) srv.conf_sha256 ≡ false
        → ((change : RootConfig → RootConfig) (m : Manager)
            → (update d.codec a.persist_faults change m).1 ≡ none)
        → (run box hash_conf t.remote).1 ≡ some out
        → join d a c srv keys ip s ≡ (t, inl tt)
        → check_drift d t ≡ drifted
  unfolding join check_drift persisted parse_server_mirror
  join-drifted reads a srv keys ip out before s t new plain full old long moved saved answer h =
      let c = s.manager.config in
      let box = container_of pm c.vps.container_name in
      let p = params_of d a c srv keys.1 ip in
      let g = rw (join, new) at h in
      elim (sum_cases (add_peer pm p a.now s.remote).1) [
        | inr (e, q) ↦ (let y = ap (λ z. z.1) (rw q at g) in cc y)
        | inl (table, q) ↦
            let r = (add_peer pm p a.now s.remote).0 in
            let k = rw q at g in
            let (remote, manager) =
              joined-state a c.vps.host srv keys ip (some table) (record s { remote = r }) t k in
            let grown = Added-conf (add_peer-Added pm p a.now s.remote plain) q in
            elim (update-cases d.codec a.persist_faults
              (persisted d a c.vps.host srv keys ip (some table)) s.manager) [
                | inl (e, temps, u, _) ↦
                    (let y =
                        sym (saved (persisted d a c.vps.host srv keys ip (some table)) s.manager)
                        ∙ ap (λ z. z.1) u in
                      cc y)
                | inr (_, config, _, _) ↦
                    let cfg : t.manager.config
                        ≡ persisted d a c.vps.host srv keys ip (some table) c =
                      ap (λ z. z.config) manager ∙ config in
                    let hash : strings.first_field out
                        ≡ some (strings.sha256 (conf box s.remote ++ block_of pm p)) =
                      reads.hash_out box t.remote answer
                      ∙ ap (λ z. some (strings.sha256 (conf box z))) remote
                      ∙ ap (λ z. some (strings.sha256 z)) grown in
                    let m = mirror_of d a srv (some table) in
                    let (es, written) = Added-table (add_peer-Added pm p a.now s.remote plain) q in
                    let (b, put) = d.mirror_written m es (ap some written) refl in
                    let (m', got, kept) = d.mirror_back m before put old in
                    let same_box : t.manager.config.vps.container_name ≡ c.vps.container_name =
                      ap (λ z. z.vps.container_name) cfg in
                    rw
                      (
                        check_drift,
                        cfg,
                        parse_server_mirror,
                        put,
                        d.mirror_full m put,
                        got,
                        kept,
                        full,
                      )
                      (rw
                        (
                          same_box,
                          answer,
                          hash,
                          moved,
                          strings.sha256_long (conf box s.remote ++ block_of pm p),
                          long,
                        )
                        refl)
              ]
      ]

  -- A connection that adds its peer to the server stores the hash of the configuration from
  -- before the addition: the check for drift, made right after it with nothing else changed,
  -- reports a drift. It is required that the peer is new and its block has no line PEER, that the
  -- hash that was fetched is not empty, that the two configurations have different hashes, that
  -- the last save succeeds and that the server answers.
  pub connect-drifted :
      (reads : IsReading pm strings) (a : Answers) (srv : ServerConfig) (keys : Text × Text)
      (ip out : Text) (s t : Tunnel d) (r : State)
      → let started = set_status d a.start_faults (codes "connecting") s in
        let c = started.manager.config in
        let box = container_of pm c.vps.container_name in
        let block = block_of pm (params_of d a c srv keys.1 ip) in
        s.running ≡ false
        → text_eq c.vps.host [] ≡ false
        → c.vps.is_provisioned ≡ true
        → fetch_all pm strings c.vps.container_name s.remote ≡ (r, inl srv)
        → keys_of d a c ≡ some keys
        → text_eq (derive_subnet d srv.address) [] ≡ false
        → local_ip_of d c (derive_subnet d srv.address) srv.peers ≡ some ip
        → has_key keys.1 srv.peers ≡ false
        → has_text (codes "PEER") (split_on 10 block) ≡ false
        → text_eq srv.conf_sha256 [] ≡ false
        → text_eq (strings.sha256 (conf box s.remote ++ block)) (strings.sha256 (conf box s.remote))
          ≡ false
        → ((change : RootConfig → RootConfig) (m : Manager)
            → (update d.codec a.persist_faults change m).1 ≡ none)
        → (run box hash_conf t.remote).1 ≡ some out
        → connect d a s ≡ (t, inl tt)
        → check_drift d t ≡ drifted
  unfolding connect with_server set_status
  connect-drifted reads a srv keys ip out s t r idle host ready fetched pair subnet free new plain
        full moved saved answer h =
      let started = set_status d a.start_faults (codes "connecting") s in
      let c = started.manager.config in
      let box = container_of pm c.vps.container_name in
      let block = block_of pm (params_of d a c srv keys.1 ip) in
      let (hash, kept) =
        fetch_all-conf pm strings reads c.vps.container_name srv s.remote r fetched in
      let g = rw (connect, idle, host, ready, fetched, with_server, pair, subnet, free) at h in
      let differs : text_eq (strings.sha256 (conf box r ++ block)) srv.conf_sha256 ≡ false =
        rw (kept, hash) moved in
      join-drifted reads a srv keys ip out (conf box s.remote) (record started { remote = r }) t new
        plain full hash (rw hash (strings.sha256_long (conf box s.remote))) differs saved answer
        (subst (λ z. join d a c srv keys ip (record started { remote = z }) ≡ (t, inl tt))
          (ap (λ z. z.0) fetched) g)
