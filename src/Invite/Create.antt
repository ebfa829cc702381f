-- ===== src/Invite/Create.antt =====
-- `HandleCreate` of src/internal/invite/handler.go. The ids, the token and the code are given as they
-- were drawn; a code that could not be drawn is `none`.
pub mod Landing
use unet.Base.{
  ℕ, suc, ◌+◌, ◌-◌, ◌*◌, ◌/◌, ◌%◌, ◌^◌, Bool, true, false, not, List, [], ◌∷◌, Option, none, some,
  ltb, if◌then◌else◌, Text, codes, text_eq,
}
use unet.Base.Int.{ℤ, pos, negsuc}
use unet.Invite.Store.{InviteLink, InviteMode, hmac, short_code, Store, Fault, append}
use unet.Invite.Handler.{
  Environment, Response, refused, served, bad_request, internal_error, sign_url,
}

pub record CreateInviteRequest : Type 0 where
  pub body_peer_id : Text
  pub mode_name : Text
  pub ttl_seconds : ℤ
  pub uses : ℤ

-- What the handler draws at random.
pub record Drawn : Type 0 where
  pub new_id : Text
  pub new_token : Text
  pub new_code : Option Text

-- What the answer says of the new invitation: the query of its URL, or its code.
pub data Created : Type 0 where
  by_url : (inv : InviteLink) (token expires sig : Text) → Created
  by_code : (inv : InviteLink) (code : Text) → Created

abbrev pub or_default : ℕ → ℤ → ℕ
or_default n (pos (suc k)) = suc k
or_default n _ = n

unfoldable pub mode_of_name : Text → Option InviteMode
mode_of_name name =
    if text_eq name []
    then some hmac
    else if text_eq name (codes "hmac")
    then some hmac
    else if text_eq name (codes "shortcode")
    then some short_code
    else none

-- `now.Add(time.Duration(ttl) * time.Second)`, where the product is an int64 that wraps around.
unfoldable pub expiry : ℕ → ℕ → ℕ
expiry now ttl =
    let d = ttl * 1000000000 % 2 ^ 64 in if ltb d (2 ^ 63) then now + d else now - (2 ^ 64 - d)

abbrev pub unix : ℕ → ℕ
unix t = t / 1000000000

abbrev pub peer_of : Text → CreateInviteRequest → Text
peer_of path_peer r = if text_eq r.body_peer_id [] then path_peer else r.body_peer_id

module _ (env : Environment) where
  abbrev pub new_invite : Drawn → ℕ → Text → CreateInviteRequest → InviteMode → Text → InviteLink
  new_invite drawn now path_peer r mode secret = record {
    id = drawn.new_id;
    peer_id = peer_of path_peer r;
    mode = mode;
    token_hash = env.hash_of secret;
    code = [];
    expires_at = expiry now (or_default 3600 r.ttl_seconds);
    max_uses = or_default 1 r.uses;
    use_count = 0;
    created_at = now;
    created_by = codes "system";
    claimed_at = none;
    claimed_ip = [];
    config_enc = [];
    hmac_sig = [];
  }

  abbrev pub signature_of : InviteLink → Text → Text
  signature_of inv token = env.encode_hex (sign_url env token inv.peer_id (unix inv.expires_at))

  abbrev pub keep_it : Fault → InviteLink → Created → Store → Store × Response Created
  keep_it fault inv answer s = elim (append env.codec fault inv s).1 [
    | none ↦ ((append env.codec fault inv s).0, served answer)
    | some _ ↦ ((append env.codec fault inv s).0, refused 500 internal_error)
  ]

  unfoldable pub create_hmac :
      Fault → Drawn → ℕ → Text → CreateInviteRequest → Store → Store × Response Created
  create_hmac fault drawn now path_peer r s =
      let plain = new_invite drawn now path_peer r hmac drawn.new_token in
      let sig = signature_of plain drawn.new_token in
      let inv = record plain { hmac_sig = sig } in
      keep_it fault inv (by_url inv drawn.new_token (env.print_int (unix inv.expires_at)) sig) s

  unfoldable pub create_code :
      Fault → Drawn → ℕ → Text → CreateInviteRequest → Store → Store × Response Created
  create_code fault drawn now path_peer r s = elim drawn.new_code [
    | none ↦ (s, refused 500 internal_error)
    | some code ↦
        let inv = record (new_invite drawn now path_peer r short_code code) { code = code } in
        keep_it fault inv (by_code inv code) s
  ]

  -- `none` is a body that does not parse.
  unfoldable pub handle_create :
      Fault → Drawn → ℕ → Text → Option CreateInviteRequest → Store → Store × Response Created
  handle_create fault drawn now path_peer body s =
      if text_eq path_peer [] then (s, refused 400 bad_request) else elim body [
        | none ↦ (s, refused 400 bad_request)
        | some r ↦ elim (mode_of_name r.mode_name) [
          | none ↦ (s, refused 400 bad_request)
          | some mode ↦ elim mode [
            | hmac ↦ create_hmac fault drawn now path_peer r s
            | short_code ↦ create_code fault drawn now path_peer r s
          ]
        ]
      ]
