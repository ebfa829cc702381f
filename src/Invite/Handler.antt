-- ===== src/Invite/Handler.antt =====
-- `HandleLanding` and `HandleDownload` of src/internal/invite/handler.go, with hmac.go and the
-- decryption of crypto.go. The cryptography and the decoders are given. One time stands for the
-- readings of the clock in one request.
pub mod Agreement
use unet.Base.{
  ℕ, ◌*◌, ◌/◌, ◌%◌, ◌^◌, ◌≡◌, Bool, true, false, not, ◌&&◌, List, [], ◌∷◌, ◌++◌, Option, none, some,
  ltb, leb, if◌then◌else◌, Text, codes, text_eq, take, drop, length,
}
use unet.Invite.Store.{
  InviteLink, Codec, Store, Found, missing, bad_seek, bad_line, found, find_by_token_hash,
}
use unet.Invite.Attempts.{Attempts, check_rate_limit}

pub record Request : Type 0 where
  pub peer_id : Text
  pub forwarded_for : Text
  pub remote_addr : Text
  pub token : Text
  pub code : Text
  pub expires : Text
  pub sig : Text

pub data Refusal : Type 0 where
  bad_request not_found expired consumed unauthorized rate_limited internal_error : Refusal

pub data Response {ℓ} (A : Type ℓ) : Type ℓ where
  refused : ℕ → Refusal → Response A
  served : A → Response A

-- The libraries' part. A hash in hexadecimal is not empty, and what is printed reads back.
pub record Environment : Type 0 where
  pub codec : Codec
  pub hash_of : Text → Text  -- SHA-256, in hexadecimal
  pub mac : Text → Text → Text  -- HMAC with a key
  pub print_int : ℕ → Text
  pub scan_int : Text → ℕ  -- `fmt.Sscanf` with `%d`, as 64 bits
  pub encode_hex : Text → Text
  pub decode_hex : Text → Text
  pub decode_base64 : Text → Option Text
  pub nonce_size : ℕ
  pub open_gcm : Text → Text → Text → Option Text  -- key, nonce and ciphertext
  pub hmac_key : Text
  pub enc_key : Text
  pub hash_full : (s : Text) → text_eq (hash_of s) [] ≡ false
  pub scan-print : (n : ℕ) → scan_int (print_int n) ≡ n
  pub decode-encode : (s : Text) → decode_hex (encode_hex s) ≡ s

abbrev pub byte_at : ℕ → ℕ → ℕ
byte_at v k = v / 2 ^ (8 * k) % 256

-- `binPutUint64`.
unfoldable pub bin_put_uint64 : ℕ → Text
bin_put_uint64 v =
    byte_at v 7
    ∷ byte_at v 6
    ∷ byte_at v 5
    ∷ byte_at v 4
    ∷ byte_at v 3
    ∷ byte_at v 2
    ∷ byte_at v 1
    ∷ byte_at v 0
    ∷ []

unfoldable pub extract_ip : Request → Text
extract_ip r = if text_eq r.forwarded_for [] then r.remote_addr else r.forwarded_for

-- The tests that both handlers make of an invitation they have looked up.
unfoldable pub admit : Text → ℕ → Found → Response InviteLink
admit peer_id now bad_seek = refused 500 internal_error
admit peer_id now bad_line = refused 500 internal_error
admit peer_id now missing = refused 404 not_found
admit peer_id now (found inv) =
    if not (text_eq inv.peer_id peer_id)
    then refused 404 not_found
    else if leb inv.expires_at now
    then refused 410 expired
    else if ltb 0 inv.max_uses && leb inv.max_uses inv.use_count
    then refused 410 consumed
    else served inv

module _ (env : Environment) where
  unfoldable pub sign_url : Text → Text → ℕ → Text
  sign_url token peer_id expires_at =
      env.mac env.hmac_key (token ++ peer_id ++ bin_put_uint64 expires_at)

  unfoldable pub validate_url : Text → Text → ℕ → Text → Bool
  validate_url token peer_id expires_at signature =
      text_eq signature (sign_url token peer_id expires_at)

  unfoldable pub decrypt_config : Text → Option Text
  decrypt_config blob = elim (env.decode_base64 blob) [
    | none ↦ none
    | some bytes ↦
        if ltb (length bytes) env.nonce_size
        then none
        else env.open_gcm env.enc_key (take env.nonce_size bytes) (drop env.nonce_size bytes)
  ]

  abbrev find : Text → Store → Found
  find secret s = find_by_token_hash env.codec true (env.hash_of secret) s

  -- The signature is looked at only if the link has both of its parts.
  unfoldable pub check_sig : Request → InviteLink → Response InviteLink
  check_sig r inv =
      if not (text_eq r.expires [])
        && not (text_eq r.sig [])
        && not (validate_url r.token r.peer_id (env.scan_int r.expires) (env.decode_hex r.sig))
      then refused 403 unauthorized
      else served inv

  unfoldable pub signed : Request → Response InviteLink → Response InviteLink
  signed r (refused status e) = refused status e
  signed r (served inv) = check_sig r inv

  unfoldable pub land : Request → ℕ → Store → Response InviteLink
  land r now s =
      if not (text_eq r.token [])
      then signed r (admit r.peer_id now (find r.token s))
      else if not (text_eq r.code [])
      then admit r.peer_id now (find r.code s)
      else refused 400 bad_request

  -- `HandleLanding`, up to the JSON that it writes of the invitation.
  unfoldable pub handle_landing : Request → ℕ → Store → Attempts → Attempts × Response InviteLink
  handle_landing r now s a =
      let (a', within) = check_rate_limit (extract_ip r) now a in
      if text_eq r.peer_id []
      then (a, refused 400 bad_request)
      else if not within
      then (a', refused 429 rate_limited)
      else (a', land r now s)

  unfoldable pub config_of : Response InviteLink → Response Text
  config_of (refused status e) = refused status e
  config_of (served inv) =
      if text_eq inv.config_enc []
      then refused 404 not_found
      else elim (decrypt_config inv.config_enc) [
        | none ↦ refused 500 internal_error
        | some text ↦ served text
      ]

  unfoldable pub download : Request → ℕ → Store → Response Text
  download r now s =
      if not (text_eq r.token [])
      then config_of (admit r.peer_id now (find r.token s))
      else if not (text_eq r.code [])
      then config_of (admit r.peer_id now (find r.code s))
      else refused 400 bad_request

  -- `HandleDownload`, up to the attachment that it writes.
  unfoldable pub handle_download : Request → ℕ → Store → Attempts → Attempts × Response Text
  handle_download r now s a =
      let (a', within) = check_rate_limit (extract_ip r) now a in
      if text_eq r.peer_id []
      then (a, refused 400 bad_request)
      else if not within
      then (a', refused 429 rate_limited)
      else (a', download r now s)
