-- ===== src/Tunnel/Peers/Table.antt =====
-- What the methods of src/internal/tunnel/peer.go leave on the server.
use unet.Base.{
  ◌≡◌, refl, sym, ap, ◌∙◌, false, not, ◌⊎◌, inl, inr, List, [], ◌∷◌, ◌++◌, Option, none, some, Text,
  codes, text_eq, keep, Bool-cases,
}
use unet.Tunnel.Address.{split_on, has_text}
use unet.Tunnel.Shell.{
  cat_table, rename_new, append_peer, write_new, sync, show_peers, save, set_remove,
}
use unet.Tunnel.Peers.{
  ClientEntry, PeerManager, AddPeerParams, PeerError, not_appended, not_synced, not_shown,
  not_listed, not_written, table_not_renamed, entries_of, write_table, entries_read,
  update_clients_table, remove_from_clients_table, lists_peer, container_of, interface_of, block_of,
  after_listing, add_peer, remove_peer,
}

Answer-cases :
    {S : Type 0} (x : S × Option Text)
    → ((s : S) × (x ≡ (s, none))) ⊎ ((s : S) × (out : Text) × (x ≡ (s, some out)))
Answer-cases (s, none) = inl (s, refl)
Answer-cases (s, some out) = inr (s, out, refl)

module _ (pm : PeerManager) where
  open pm use {server, codec}
  open pm.server use {State, run, conf, table}

  -- After a writing of the table: the configuration is as it was, and the table is the new one if
  -- no error is reported, and else the old one.
  pub data Written (c : Text) (es : List ClientEntry) (s : State) (o : State × (Text ⊎ PeerError))
      : Type 0 where
    written :
        o.1 ≡ inl (codec.marshal es)
        → conf c o.0 ≡ conf c s
        → entries_of pm (table c o.0) ≡ es
        → Written c es s o
    unwritten :
        (e : PeerError)
        → o.1 ≡ inr e
        → conf c o.0 ≡ conf c s
        → table c o.0 ≡ table c s
        → Written c es s o

  write_table-Written :
      (c : Text) (es : List ClientEntry) (s : State) → Written c es s (write_table pm c es s)
  unfolding write_table entries_of
  write_table-Written c es s = elim (Answer-cases (run c (write_new (codec.marshal es)) s)) [
    | inl (s1, q) ↦
        let (same, kept) = server.wrote c (codec.marshal es) s in
        unwritten not_written (rw (write_table, q) refl)
          (rw (write_table, q) (ap (λ x. conf c x.0) (sym q) ∙ same))
          (rw (write_table, q) (ap (λ x. table c x.0) (sym q) ∙ kept))
    | inr (s1, out, q) ↦ elim (Answer-cases (run c rename_new s1)) [
      | inl (s2, r) ↦
          let (same, kept) = server.wrote c (codec.marshal es) s in
          let (same2, kept2) = server.not_renamed c s1 s2 r in
          unwritten table_not_renamed (rw (write_table, q, r) refl)
            (rw (write_table, q, r) (same2 ∙ ap (λ x. conf c x.0) (sym q) ∙ same))
            (rw (write_table, q, r) (kept2 ∙ ap (λ x. table c x.0) (sym q) ∙ kept))
      | inr (s2, out2, r) ↦
          let (same, _) = server.wrote c (codec.marshal es) s in
          let (same2, new) = server.renamed c s1 s2 r in
          let text = new ∙ server.wrote_new c (codec.marshal es) s s1 q (codec.marshal_plain es) in
          written (rw (write_table, q, r) refl)
            (rw (write_table, q, r) (same2 ∙ ap (λ x. conf c x.0) (sym q) ∙ same))
            (rw (write_table, q, r, text, entries_of, codec.marshal_back es) refl)
    ]
  ]

  -- What was read of the table: its entries, or none if it could not be printed.
  entries_read-cases :
      (c : Text) (s : State)
      → (entries_read pm (run c cat_table s).1 ≡ entries_of pm (table c s))
        ⊎ (((run c cat_table s).1 ≡ none) × (entries_read pm (run c cat_table s).1 ≡ []))
  entries_read-cases c s = elim (Answer-cases (run c cat_table s)) [
    | inl (s1, q) ↦ inr (ap (λ x. x.1) q, ap (λ x. entries_read pm x.1) q)
    | inr (s1, out, q) ↦ inl (
        ap (λ x. entries_read pm x.1) q
        ∙ ap (entries_of pm) (server.printed_table c s (ap (λ x. x.1) q)))
  ]

  abbrev pub new_entry_of : AddPeerParams → Text → ClientEntry
  new_entry_of p now = record {
    client_id = p.client_public_key;
    client_name = p.client_name;
    creation_date = now;
  }

  -- The server when the table is read: the block appended, the configuration synced, the peers shown.
  abbrev pub before_table : AddPeerParams → State → State
  before_table p s =
      let c = container_of pm p.container in
      let iface = interface_of pm p.interface in
      (run c (show_peers iface) (run c (sync iface) (run c (append_peer (block_of pm p)) s).0).0).0

  -- The end of an addition: the appending reported an error and was the only command; an error later,
  -- with the block in the configuration and the table as before; or success, with the block in the
  -- configuration and the new entry behind those of the table, or behind none if reading it failed.
  pub data Added (p : AddPeerParams) (now : Text) (s : State) (o : State × (Text ⊎ PeerError))
      : Type 0 where
    nothing_done :
        (run (container_of pm p.container) (append_peer (block_of pm p)) s).1 ≡ none
        → o ≡ (
          (run (container_of pm p.container) (append_peer (block_of pm p)) s).0,
          inr not_appended,
        )
        → Added p now s o
    block_left :
        (e : PeerError)
        → o.1 ≡ inr e
        → conf (container_of pm p.container) o.0
          ≡ conf (container_of pm p.container) s ++ block_of pm p
        → table (container_of pm p.container) o.0 ≡ table (container_of pm p.container) s
        → Added p now s o
    in_table :
        (es : List ClientEntry)
        → o.1 ≡ inl (codec.marshal (es ++ new_entry_of p now ∷ []))
        → conf (container_of pm p.container) o.0
          ≡ conf (container_of pm p.container) s ++ block_of pm p
        → (es ≡ entries_of pm (table (container_of pm p.container) s))
          ⊎ (((run (container_of pm p.container) cat_table (before_table p s)).1 ≡ none)
              × (es ≡ []))
        → entries_of pm (table (container_of pm p.container) o.0) ≡ es ++ new_entry_of p now ∷ []
        → Added p now s o

  -- From the check on, on a server whose configuration has the block.
  after_listing-Added :
      (p : AddPeerParams) (now out : Text) (s s3 : State)
      → conf (container_of pm p.container) s3
        ≡ conf (container_of pm p.container) s ++ block_of pm p
      → table (container_of pm p.container) s3 ≡ table (container_of pm p.container) s
      → s3 ≡ before_table p s
      → Added p now s (after_listing pm p now s3 out)
  unfolding update_clients_table
  after_listing-Added p now out s s3 a b here =
      let c = container_of pm p.container in
      let read = run c cat_table s3 in
      let es = entries_read pm read.1 in
      let (same, kept) = server.printed c s3 in
      elim (Bool-cases (lists_peer pm p.client_public_key out)) [
        | inr l ↦ rw l (block_left not_listed refl a b)
        | inl l ↦ rw l (elim (write_table-Written c (es ++ new_entry_of p now ∷ []) read.0) [
          | unwritten e x y z ↦ block_left e x (y ∙ same ∙ a) (z ∙ kept ∙ b)
          | written x y z ↦
              in_table es x (y ∙ same ∙ a)
                (elim (entries_read-cases c s3) [
                  | inl r ↦ inl (r ∙ ap (entries_of pm) b)
                  | inr (n, r) ↦ inr (ap (λ x. (run c cat_table x).1) (sym here) ∙ n, r)
                ])
                z
        ])
      ]

  pub add_peer-Added :
      (p : AddPeerParams) (now : Text) (s : State)
      → has_text (codes "PEER") (split_on 10 (block_of pm p)) ≡ false
      → Added p now s (add_peer pm p now s)
  unfolding add_peer
  add_peer-Added p now s plain =
      let c = container_of pm p.container in
      let iface = interface_of pm p.interface in
      elim (Answer-cases (run c (append_peer (block_of pm p)) s)) [
        | inl (s1, q1) ↦ nothing_done (ap (λ x. x.1) q1) (rw (add_peer, q1) refl)
        | inr (s1, out1, q1) ↦
            let (a1, b1) = server.appended c (block_of pm p) s s1 q1 plain in
            let (a2, b2) = server.synced c iface s1 in
            elim (Answer-cases (run c (sync iface) s1)) [
              | inl (s2, q2) ↦
                  rw (add_peer, q1, q2)
                    (block_left not_synced refl (ap (λ x. conf c x.0) (sym q2) ∙ a2 ∙ a1)
                      (ap (λ x. table c x.0) (sym q2) ∙ b2 ∙ b1))
              | inr (s2, out2, q2) ↦
                  let (a3, b3) = server.shown c iface s2 in
                  let a = ap (λ x. conf c x.0) (sym q2) ∙ a2 ∙ a1 in
                  let b = ap (λ x. table c x.0) (sym q2) ∙ b2 ∙ b1 in
                  elim (Answer-cases (run c (show_peers iface) s2)) [
                    | inl (s3, q3) ↦
                        rw (add_peer, q1, q2, q3)
                          (block_left not_shown refl (ap (λ x. conf c x.0) (sym q3) ∙ a3 ∙ a)
                            (ap (λ x. table c x.0) (sym q3) ∙ b3 ∙ b))
                    | inr (s3, out3, q3) ↦
                        rw (add_peer, q1, q2, q3)
                          (after_listing-Added p now out3 s s3
                            (ap (λ x. conf c x.0) (sym q3) ∙ a3 ∙ a)
                            (ap (λ x. table c x.0) (sym q3) ∙ b3 ∙ b)
                            (ap (λ x. x.0) (sym q3)
                              ∙ ap (λ x. (run c (show_peers iface) x).0)
                                  (ap (λ x. x.0) (sym q2)
                                    ∙ ap (λ x. (run c (sync iface) x.0).0) (sym q1))))
                  ]
            ]
      ]

  -- A removal leaves the table as it was, or takes exactly the entries of the key away.
  pub remove_peer-table :
      (container interface key : Text) (s : State)
      → let c = container_of pm container in
        let t = remove_peer pm container interface key s in
        (table c t ≡ table c s)
        ⊎ (entries_of pm (table c t)
            ≡ keep (λ e. not (text_eq e.client_id key)) (entries_of pm (table c s)))
  unfolding remove_peer remove_from_clients_table
  remove_peer-table container interface key s =
      let c = container_of pm container in
      let iface = interface_of pm interface in
      let s1 = (run c (set_remove iface key) s).0 in
      let s2 = (run c (save iface) s1).0 in
      let kept : table c s2 ≡ table c s = server.saved c iface s1 ∙ server.removed c iface key s in
      elim (Answer-cases (run c cat_table s2)) [
        | inl (s3, q) ↦
            inl (rw (remove_peer, remove_from_clients_table, q) ((server.printed c s2).1 ∙ kept))
        | inr (s3, out, q) ↦
            let es = keep (λ e. not (text_eq e.client_id key)) (entries_of pm out) in
            let same : out ≡ table c s = server.printed_table c s2 (ap (λ x. x.1) q) ∙ kept in
            elim (write_table-Written c es (run c cat_table s2).0) [
              | written x y z ↦ inr (
                  rw (remove_peer, remove_from_clients_table, q)
                    (z
                      ∙ ap (λ t. keep (λ e. not (text_eq e.client_id key)) (entries_of pm t)) same))
              | unwritten e x y z ↦ inl (
                  rw (remove_peer, remove_from_clients_table, q)
                    (z ∙ (server.printed c s2).1 ∙ kept))
            ]
      ]
