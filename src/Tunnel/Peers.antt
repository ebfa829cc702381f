-- ===== src/Tunnel/Peers.antt =====
-- `PeerManager` of src/internal/tunnel/peer.go: the peers of the server, in its configuration and in
-- the table of clients. The container of the server runs the commands of Tunnel/Shell.
pub mod Table
use unet.Base.{
  ℕ, ◌≡◌, Bool, true, false, not, ◌⊎◌, inl, inr, List, [], ◌∷◌, ◌++◌, Option, none, some, ◌==◌,
  if◌then◌else◌, Text, codes, text_eq, keep, map,
}
use unet.Tunnel.Address.{split_on, has_text}
use unet.Tunnel.Shell.{
  Command, cat_table, rename_new, append_peer, write_new, sync, show_peers, save, set_remove,
}

pub record ClientEntry : Type 0 where
  pub client_id : Text
  pub client_name : Text
  pub creation_date : Text

-- The server as the commands see it: its configuration, the table of clients and the new table
-- beside it. A command that reports no error has done what it says: a here-document without its
-- mark as a line arrives as it is, `mv` replaces the table, `cat` prints it. The commands of awg
-- leave the three files alone, but for `awg-quick save`, which rewrites the configuration.
pub record AwgServer : Type 1 where
  pub State : Type 0
  pub run : Text → Command → State → State × Option Text
  pub conf : Text → State → Text
  pub table : Text → State → Text
  pub table_new : Text → State → Text
  pub appended :
      (c block : Text) (s s' : State) {out : Text}
      → run c (append_peer block) s ≡ (s', some out)
      → has_text (codes "PEER") (split_on 10 block) ≡ false
      → (conf c s' ≡ conf c s ++ block) × (table c s' ≡ table c s)
  pub synced :
      (c iface : Text) (s : State)
      → (conf c (run c (sync iface) s).0 ≡ conf c s)
        × (table c (run c (sync iface) s).0 ≡ table c s)
  pub shown :
      (c iface : Text) (s : State)
      → (conf c (run c (show_peers iface) s).0 ≡ conf c s)
        × (table c (run c (show_peers iface) s).0 ≡ table c s)
  pub removed :
      (c iface key : Text) (s : State) → table c (run c (set_remove iface key) s).0 ≡ table c s
  pub saved : (c iface : Text) (s : State) → table c (run c (save iface) s).0 ≡ table c s
  pub printed :
      (c : Text) (s : State)
      → (conf c (run c cat_table s).0 ≡ conf c s) × (table c (run c cat_table s).0 ≡ table c s)
  pub printed_table :
      (c : Text) (s : State) {out : Text} → (run c cat_table s).1 ≡ some out → out ≡ table c s
  pub wrote :
      (c payload : Text) (s : State)
      → (conf c (run c (write_new payload) s).0 ≡ conf c s)
        × (table c (run c (write_new payload) s).0 ≡ table c s)
  pub wrote_new :
      (c payload : Text) (s s' : State) {out : Text}
      → run c (write_new payload) s ≡ (s', some out)
      → has_text (codes "PAYLOAD") (split_on 10 payload) ≡ false
      → table_new c s' ≡ payload ++ codes "\n"
  pub renamed :
      (c : Text) (s s' : State) {out : Text}
      → run c rename_new s ≡ (s', some out)
      → (conf c s' ≡ conf c s) × (table c s' ≡ table_new c s)
  pub not_renamed :
      (c : Text) (s s' : State)
      → run c rename_new s ≡ (s', none)
      → (conf c s' ≡ conf c s) × (table c s' ≡ table c s)

-- `encoding/json` on the table: what is written reads back, also with a line feed behind it, and
-- has no line that is the mark of the here-document.
pub record TableCodec : Type 0 where
  pub marshal : List ClientEntry → Text
  pub unmarshal : Text → Option (List ClientEntry)
  pub marshal_back : (es : List ClientEntry) → unmarshal (marshal es ++ codes "\n") ≡ some es
  pub marshal_plain :
      (es : List ClientEntry) → has_text (codes "PAYLOAD") (split_on 10 (marshal es)) ≡ false

pub record AddPeerParams : Type 0 where
  pub container : Text
  pub interface : Text
  pub client_public_key : Text
  pub client_ip : Text
  pub preshared_key : Text
  pub client_name : Text
  pub persistent_keepalive : ℕ

pub data PeerError : Type 0 where
  not_appended not_synced not_shown not_listed not_read not_written table_not_renamed : PeerError

abbrev or_default : Text → Text → Text
or_default t d = if text_eq t [] then d else t

-- A command, and what follows if it reports no error.
abbrev pub and_then {ℓ} :
    {S : Type ℓ} {B : Type 0}
    → PeerError
    → S × Option Text
    → (S → Text → S × (B ⊎ PeerError))
    → S × (B ⊎ PeerError)
and_then e (s, none) k = (s, inr e)
and_then e (s, some out) k = k s out

pub record PeerManager : Type 1 where
  pub server : AwgServer
  pub codec : TableCodec
  pub itoa : ℕ → Text
  pub trim_space : Text → Text

module _ (pm : PeerManager) where
  open pm use {server, codec, itoa, trim_space}

  unfoldable pub build_peer_block : Text → Text → Text → ℕ → Text
  build_peer_block key psk ip keepalive =
      codes "\n[Peer]\nPublicKey = "
      ++ key
      ++ codes "\nPresharedKey = "
      ++ psk
      ++ codes "\nAllowedIPs = "
      ++ ip
      ++ codes "/32\nPersistentKeepalive = "
      ++ itoa keepalive
      ++ codes "\n"

  -- The entries of what was printed; what is not JSON has none.
  unfoldable pub entries_of : Text → List ClientEntry
  entries_of t = elim (codec.unmarshal t) [ none ↦ [] | some es ↦ es ]

  unfoldable pub write_table :
      Text → List ClientEntry → server.State → server.State × (Text ⊎ PeerError)
  write_table c es s =
      and_then not_written (server.run c (write_new (codec.marshal es)) s) (λ s1 out1.
        and_then table_not_renamed (server.run c rename_new s1)
          (λ s2 out2. (s2, inl (codec.marshal es))))

  -- An unreadable table is as an empty one.
  abbrev entries_read : Option Text → List ClientEntry
  entries_read none = []
  entries_read (some out) = entries_of out

  unfoldable pub update_clients_table :
      Text → Text → Text → Text → server.State → server.State × (Text ⊎ PeerError)
  update_clients_table c key name now s =
      let (s1, read) = server.run c cat_table s in
      let entry : ClientEntry = record {
        client_id = key;
        client_name = name;
        creation_date = now;
      } in
      write_table c (entries_read read ++ entry ∷ []) s1

  unfoldable pub remove_from_clients_table :
      Text → Text → server.State → server.State × (Text ⊎ PeerError)
  remove_from_clients_table c key s =
      and_then not_read (server.run c cat_table s)
        (λ s1 out. write_table c (keep (λ e. not (text_eq e.client_id key)) (entries_of out)) s1)

  -- `verifyPeer`: a line that is the key.
  unfoldable pub lists_peer : Text → Text → Bool
  lists_peer key out = has_text key (map trim_space (split_on 10 out))

  abbrev pub container_of : Text → Text
  container_of t = or_default t (codes "unet-amnezia-awg")

  abbrev pub interface_of : Text → Text
  interface_of t = or_default t (codes "awg0")

  abbrev pub block_of : AddPeerParams → Text
  block_of p =
      build_peer_block p.client_public_key p.preshared_key p.client_ip
        (if p.persistent_keepalive == 0 then 25 else p.persistent_keepalive)

  -- From the check on that the peer is listed.
  abbrev after_listing :
      AddPeerParams → Text → server.State → Text → server.State × (Text ⊎ PeerError)
  after_listing p now s out =
      if lists_peer p.client_public_key out
      then update_clients_table (container_of p.container) p.client_public_key p.client_name now s
      else (s, inr not_listed)

  unfoldable pub add_peer : AddPeerParams → Text → server.State → server.State × (Text ⊎ PeerError)
  add_peer p now s =
      let c = container_of p.container in
      let iface = interface_of p.interface in
      and_then not_appended (server.run c (append_peer (block_of p)) s) (λ s1 out1.
        and_then not_synced (server.run c (sync iface) s1) (λ s2 out2.
          and_then not_shown (server.run c (show_peers iface) s2) (after_listing p now)))

  -- Whatever fails on the way, the removal reports no error.
  unfoldable pub remove_peer : Text → Text → Text → server.State → server.State
  remove_peer container interface key s =
      let c = container_of container in
      let iface = interface_of interface in
      let s1 = (server.run c (set_remove iface key) s).0 in
      let s2 = (server.run c (save iface) s1).0 in (remove_from_clients_table c key s2).0
