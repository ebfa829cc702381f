-- ===== src/Tunnel/Sample.antt =====
-- A toy server for src/internal/tunnel, which does what the commands say, and a toy JSON.
use unet.Base.{
  ℕ, ◌≡◌, refl, sym, ap, ◌∙◌, false, List, [], ◌∷◌, ◌++◌, Option, none, some, arith, Text, codes,
  text_eq,
}
use unet.Samples.{raise, lower, lower-raise}
use unet.Samples.Enc.{Enc, text, via, ◌&◌, list}
use unet.Tunnel.Address.{split_on, has_text}
use unet.Tunnel.Shell.{
  Command, cat_table, rename_new, hash_conf, cat_file, dump, append_peer, write_new, sync,
  show_peers, save, set_remove,
}
use unet.Tunnel.Peers.{ClientEntry, AwgServer, TableCodec, PeerManager}

abbrev pub Files : Type 0
Files = Text × Text × Text

-- The configuration, the table and the new table. The peer `k` is listed.
abbrev pub run_files : Command → Files → Files × Option Text
run_files cat_table (conf, table, new) = ((conf, table, new), some table)
run_files hash_conf s = (s, some s.0)
run_files (cat_file path) s = (s, some s.0)
run_files (dump iface) s = (s, some [])
run_files rename_new (conf, table, new) = ((conf, new, []), some [])
run_files (append_peer block) (conf, table, new) = ((conf ++ block, table, new), some [])
run_files (write_new payload) (conf, table, new) = ((conf, table, payload ++ codes "\n"), some [])
run_files (sync iface) s = (s, some [])
run_files (show_peers iface) s = (s, some (codes "k\n"))
run_files (save iface) s = (s, some [])
run_files (set_remove iface key) s = (s, some [])

pub full : {t : Text} → some t ≡ none → ⊥
full q = cc q

abbrev pub awg_server : AwgServer
awg_server = record {
  State = Files;
  run = λ c k s. run_files k s;
  conf = λ c s. s.0;
  table = λ c s. s.1;
  table_new = λ c s. s.2;
  appended = λ c block s s' q plain. (ap (λ x. x.0.0) (sym q), ap (λ x. x.0.1) (sym q));
  synced = λ c iface s. (refl, refl);
  shown = λ c iface s. (refl, refl);
  removed = λ c iface key s. refl;
  saved = λ c iface s. refl;
  printed = λ c s. (refl, refl);
  printed_table = λ c s q. cc q;
  wrote = λ c payload s. (refl, refl);
  wrote_new = λ c payload s s' q plain. ap (λ x. x.0.2) (sym q);
  renamed = λ c s s' q. (ap (λ x. x.0.0) (sym q), ap (λ x. x.0.1) (sym q));
  not_renamed = λ c s s' q. absurd (full (ap (λ x. x.1) q));
}

abbrev pub client_entry : Enc ClientEntry
client_entry =
    via (text & text & text)
      (λ (p : Text × (Text × Text)). record {
        client_id = p.0;
        client_name = p.1.0;
        creation_date = p.1.1;
      })
      (λ (e : ClientEntry). (e.client_id, (e.client_name, e.creation_date))) (λ e. refl)

abbrev pub init : Text → Text
init [] = []
init (c ∷ []) = []
init (c ∷ d ∷ cs) = c ∷ init (d ∷ cs)

pub init-append : (s : Text) (c : ℕ) → init (s ++ c ∷ []) ≡ s
init-append [] c = refl
init-append (a ∷ []) c = refl
init-append (a ∷ b ∷ s) c = ap (◌∷◌ a) (init-append (b ∷ s) c)

abbrev pub whole : Option (List ClientEntry × Text) → Option (List ClientEntry)
whole none = none
whole (some (es, r)) = some es

abbrev pub after_mark : Text → Text
after_mark [] = []
after_mark (c ∷ cs) = cs

-- A text without a line feed is one line.
split_on-raise : (t : Text) → split_on 10 (raise t) ≡ raise t ∷ []
unfolding split_on
split_on-raise [] = refl
split_on-raise (b ∷ t) = ground (arith, split_on-raise t)

pub marshal_plain : (t : Text) → has_text (codes "PAYLOAD") (split_on 10 (0 ∷ raise t)) ≡ false
unfolding split_on has_text text_eq
marshal_plain t = rw (split_on-raise t) refl

pub marshal_back :
    (es : List ClientEntry)
    → whole (
        (list client_entry).get
          (lower (after_mark (init (0 ∷ raise ((list client_entry).put es []) ++ codes "\n")))))
      ≡ some es
marshal_back es =
    let t = (list client_entry).put es [] in
    ap (λ x. whole ((list client_entry).get (lower (after_mark x)))) (init-append (0 ∷ raise t) 10)
    ∙ ap (λ x. whole ((list client_entry).get x)) (lower-raise t)
    ∙ ap whole ((list client_entry).back es [])

abbrev pub table_codec : TableCodec
table_codec = record {
  marshal = λ es. 0 ∷ raise ((list client_entry).put es []);
  unmarshal = λ t. whole ((list client_entry).get (lower (after_mark (init t))));
  marshal_back = marshal_back;
  marshal_plain = λ es. marshal_plain ((list client_entry).put es []);
}

abbrev pub peer_manager : PeerManager
peer_manager = record {
  server = awg_server;
  codec = table_codec;
  itoa = λ n. n ∷ [];
  trim_space = λ t. t;
}
