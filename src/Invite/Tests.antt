-- ===== src/Invite/Tests.antt =====
-- The theorems on src/internal/invite at one invitation.
use unet.Base.{ℕ, ◌≡◌, refl, true, List, [], ◌∷◌, ◌++◌, none, some, arith, Text, codes, text_eq}
use unet.Base.Int.{pos}
use unet.Base.Map.{lookup}
use unet.Samples.{link_codec}
use unet.Invite.Store.{
  InviteLink, hmac, Store, fine, write_stops, append, found, find_by_token_hash,
}
use unet.Invite.Store.Lookup.{IsIndexed, append-IsIndexed, find-append}
use unet.Invite.Attempts.{run_attempts, check_rate_limit, attempt}
use unet.Invite.Attempts.Window.{run_log, run_attempts-run_log}
use unet.Invite.Handler.{
  sign_url, bin_put_uint64, Request, served, Environment, handle_landing, extract_ip,
}
use unet.Invite.Create.{
  Drawn, CreateInviteRequest, by_url, handle_create, create_hmac, mode_of_name, expiry,
}
use unet.Invite.Create.Landing.{create-handle_landing}
use unet.Invite.Reopen.{new_store}
use unet.Invite.Reopen.Restart.{Fits, append_each, empty, new_store-append_each}

abbrev link : InviteLink
link = record {
  id = codes "i";
  peer_id = codes "p";
  mode = hmac;
  token_hash = 0 ∷ codes "secret";
  code = [];
  expires_at = 100;
  max_uses = 1;
  use_count = 0;
  created_at = 1;
  created_by = codes "system";
  claimed_at = none;
  claimed_ip = [];
  config_enc = codes "nnconf";
  hmac_sig = [];
}

abbrev nothing : Store
nothing = record { file = []; index = [] }

nothing-IsIndexed : IsIndexed nothing
unfolding lookup
nothing-IsIndexed k offset h = cc h

-- A write that stopped after four bytes leaves half a line before the next.
abbrev torn : Store
torn = (append link_codec (write_stops 4) link nothing).0

torn-IsIndexed : IsIndexed torn
torn-IsIndexed = append-IsIndexed link_codec (write_stops 4) link nothing nothing-IsIndexed

abbrev line : Text
line = elim (link_codec.marshal link) [ none ↦ [] | some json ↦ json ]

abbrev stored : Store
stored = (append link_codec fine link torn).0

find-append_example : find_by_token_hash link_codec true link.token_hash stored ≡ found link
unfolding append text_eq
find-append_example =
    find-append link_codec fine link torn line link.token_hash torn-IsIndexed refl (omega arith)
      refl

abbrev busy : List (Text × ℕ)
busy = (codes "x", 1) ∷ (codes "x", 2) ∷ (codes "y", 2) ∷ (codes "x", 60000000005) ∷ []

run_attempts-run_log_example : run_attempts [] busy ≡ run_log (λ _. []) busy
run_attempts-run_log_example =
    run_attempts-run_log busy 0 (omega arith, (omega arith, (omega arith, (omega arith, tt))))

abbrev first_of : Text → ℕ
first_of [] = 0
first_of (n ∷ s) = n

abbrev env : Environment
env = record {
  codec = link_codec;
  hash_of = λ s. 0 ∷ s;
  mac = λ key s. key ++ s;
  print_int = λ n. n ∷ [];
  scan_int = first_of;
  encode_hex = λ s. s;
  decode_hex = λ s. s;
  decode_base64 = λ s. some s;
  nonce_size = 2;
  open_gcm = λ key nonce s. some s;
  hmac_key = [];
  enc_key = [];
  hash_full = λ s. unfold text_eq in refl;
  scan-print = λ n. refl;
  decode-encode = λ s. refl;
}

abbrev request : Request
request = record {
  peer_id = codes "p";
  forwarded_for = [];
  remote_addr = codes "x";
  token = codes "secret";
  code = [];
  expires = [];
  sig = [];
}

abbrev drawn : Drawn
drawn = record { new_id = codes "j"; new_token = codes "secret"; new_code = none }

abbrev body : CreateInviteRequest
body = record { body_peer_id = []; mode_name = []; ttl_seconds = pos 0; uses = pos 0 }

abbrev made : InviteLink
made = record {
  id = codes "j";
  peer_id = codes "p";
  mode = hmac;
  token_hash = 0 ∷ codes "secret";
  code = [];
  expires_at = 3600000000007;
  max_uses = 1;
  use_count = 0;
  created_at = 7;
  created_by = codes "system";
  claimed_at = none;
  claimed_ip = [];
  config_enc = [];
  hmac_sig = codes "secretp" ++ 0 ∷ 0 ∷ 0 ∷ 0 ∷ 0 ∷ 0 ∷ 14 ∷ 16 ∷ [];
}

abbrev visit : Request
visit = record {
  peer_id = codes "p";
  forwarded_for = [];
  remote_addr = codes "x";
  token = codes "secret";
  code = [];
  expires = 3600 ∷ [];
  sig = made.hmac_sig;
}

abbrev made_line : Text
made_line = elim (link_codec.marshal made) [ none ↦ [] | some json ↦ json ]

create-handle_landing_example :
    handle_landing env visit 60
      ((handle_create env fine drawn 7 (codes "p") (some body) nothing).0)
      []
    ≡ ((check_rate_limit (extract_ip visit) 60 []).0, served made)
unfolding handle_create create_hmac mode_of_name append expiry sign_url bin_put_uint64 text_eq
    check_rate_limit attempt lookup extract_ip
create-handle_landing_example =
    create-handle_landing env fine drawn 7 (codes "p") (some body) nothing
      ((handle_create env fine drawn 7 (codes "p") (some body) nothing).0)
      (by_url made (codes "secret") (3600 ∷ []) made.hmac_sig) made_line visit 60 []
      nothing-IsIndexed refl refl (omega arith) (refl, refl, refl, refl, refl) refl (omega arith)
      refl

link-Fits : Fits link_codec link
link-Fits = record { json = _; written = refl; full = omega arith; short = omega arith }

new_store-append_each_example :
    new_store link_codec (append_each link_codec (link ∷ link ∷ []) (empty link_codec)).file
    ≡ some (append_each link_codec (link ∷ link ∷ []) (empty link_codec))
new_store-append_each_example =
    new_store-append_each link_codec (link ∷ link ∷ []) (link-Fits, (link-Fits, tt))
