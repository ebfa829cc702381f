-- ===== src/Samples.antt =====
-- Concrete instances of what src/internal/auth and src/internal/invite take from the libraries: toy
-- codecs that write a text as its length and its bytes.
pub mod Enc
use unet.Base.{
  ℕ, zero, suc, ◌+◌, ◌-◌, ◌≡◌, refl, sym, ap, ◌∙◌, subst, ◌≢◌, Bool, true, false, List, [], ◌∷◌,
  ◌++◌, Option, none, some, arith, ◌==◌, Text, take, drop, length, drop-length, All,
}
use unet.Auth.Token.{ApiToken}
use unet.Auth.Store
use unet.Auth.Jwt.{JwtClaims, JwtLibrary, dot}
use unet.Invite.Store.{InviteLink, InviteMode, hmac, short_code, is_plain}
use unet.Invite.Store as Links

pub some_inj {ℓ} : {A : Type ℓ} {a b : A} → some a ≡ some b → a ≡ b
some_inj h = cc h

abbrev put_texts : List Text → Text → Text
put_texts [] r = r
put_texts (s ∷ ss) r = length s ∷ (s ++ put_texts ss r)

abbrev get_texts {ℓ} : {B : Type ℓ} → ℕ → Text → (List Text → Text → Option B) → Option B
get_texts zero s k = k [] s
get_texts (suc n) [] k = none
get_texts (suc n) (m ∷ s) k = get_texts n (drop m s) (λ ss r. k (take m s ∷ ss) r)

pub take-length : (s r : Text) → take (length s) (s ++ r) ≡ s
take-length [] r = refl
take-length (b ∷ s) r = ap (◌∷◌ b) (take-length s r)

get-put {ℓ} :
    {B : Type ℓ} (ss : List Text) (r : Text) (k : List Text → Text → Option B)
    → get_texts (length ss) (put_texts ss r) k ≡ k ss r
get-put [] r k = refl
get-put (s ∷ ss) r k =
    rw (take-length s (put_texts ss r), drop-length s (put_texts ss r))
      (get-put ss r (λ us q. k (s ∷ us) q))

abbrev tag : Option ℕ → ℕ
tag none = 0
tag (some n) = 1

abbrev value : Option ℕ → ℕ
value none = 0
value (some n) = n

abbrev time_of : ℕ → ℕ → Option ℕ
time_of zero n = none
time_of (suc k) n = some n

time-back : (o : Option ℕ) → time_of (tag o) (value o) ≡ o
time-back none = refl
time-back (some n) = refl

abbrev pub flag : Bool → ℕ
flag true = 1
flag false = 0

pub flag-back : (b : Bool) → (flag b == 1) ≡ b
flag-back true = refl
flag-back false = refl

abbrev texts_of_token : ApiToken → List Text
texts_of_token t = t.id ∷ t.name ∷ t.token_hash ∷ t.token_prefix ∷ t.scope ∷ t.created_by ∷ []

abbrev put_token : ApiToken → Text → Text
put_token t r = put_texts (texts_of_token t) (
    t.created_at
    ∷ t.request_count
    ∷ flag t.enabled
    ∷ tag t.expires_at
    ∷ value t.expires_at
    ∷ tag t.last_used_at
    ∷ value t.last_used_at
    ∷ r)

abbrev token_of {ℓ} : {B : Type ℓ} → (ApiToken → Text → Option B) → List Text → Text → Option B
token_of k (id ∷ name ∷ hash ∷ prefix ∷ scope ∷ by ∷ []) (at ∷ count ∷ on ∷ a ∷ b ∷ c ∷ d ∷ r) =
    k
      (record {
        id = id;
        name = name;
        token_hash = hash;
        token_prefix = prefix;
        scope = scope;
        created_by = by;
        created_at = at;
        expires_at = time_of a b;
        last_used_at = time_of c d;
        request_count = count;
        enabled = on == 1;
      })
      r
token_of k _ _ = none

abbrev get_token {ℓ} : {B : Type ℓ} → Text → (ApiToken → Text → Option B) → Option B
get_token s k = get_texts 6 s (token_of k)

get-put_token {ℓ} :
    {B : Type ℓ} (t : ApiToken) (r : Text) (k : ApiToken → Text → Option B)
    → get_token (put_token t r) k ≡ k t r
get-put_token t r k =
    get-put (texts_of_token t) _ (token_of k)
    ∙ rw (flag-back t.enabled, time-back t.expires_at, time-back t.last_used_at) refl

abbrev put_tokens : List ApiToken → Text
put_tokens [] = []
put_tokens (t ∷ ts) = put_token t (put_tokens ts)

abbrev onto : ApiToken → Option (List ApiToken) → Option (List ApiToken)
onto t none = none
onto t (some ts) = some (t ∷ ts)

abbrev get_tokens : ℕ → Text → Option (List ApiToken)
get_tokens zero s = some []
get_tokens (suc n) s = get_token s (λ t s. onto t (get_tokens n s))

pub get-put_tokens : (ts : List ApiToken) → get_tokens (length ts) (put_tokens ts) ≡ some ts
get-put_tokens [] = refl
get-put_tokens (t ∷ ts) =
    get-put_token t (put_tokens ts) (λ u s. onto u (get_tokens (length ts) s))
    ∙ ap (onto t) (get-put_tokens ts)

abbrev read_tokens : Text → Option (List ApiToken)
read_tokens [] = none
read_tokens (n ∷ s) = get_tokens n s

abbrev write_tokens : List ApiToken → Text
write_tokens ts = length ts ∷ put_tokens ts

abbrev pub token_codec : Store.Codec
token_codec = record {
  marshal = λ ts. some (write_tokens ts);
  unmarshal = read_tokens;
  marshal_back = λ ts h. ap read_tokens (sym (some_inj h)) ∙ get-put_tokens ts;
}

abbrev texts_of_claims : JwtClaims → List Text
texts_of_claims c = c.sub ∷ c.name ∷ c.scope ∷ c.iss ∷ c.jti ∷ []

abbrev write_claims : JwtClaims → Text
write_claims c = put_texts (texts_of_claims c) (c.iat ∷ c.exp ∷ [])

abbrev claims_of : List Text → Text → Option JwtClaims
claims_of (sub ∷ name ∷ scope ∷ iss ∷ jti ∷ []) (iat ∷ exp ∷ []) =
    some
      (record { sub = sub; name = name; scope = scope; iss = iss; iat = iat; exp = exp; jti = jti })
claims_of _ _ = none

abbrev read_claims : Text → Option JwtClaims
read_claims s = get_texts 5 s claims_of

pub read_claims-write : (c : JwtClaims) → read_claims (write_claims c) ≡ some c
read_claims-write c = get-put (texts_of_claims c) _ claims_of

-- Every byte is raised by 47, past the dot, the line feed and the carriage return.
abbrev pub raise : Text → Text
raise [] = []
raise (b ∷ s) = (b + 47) ∷ raise s

abbrev pub lower : Text → Text
lower [] = []
lower (b ∷ s) = (b - 47) ∷ lower s

pub lower-raise : (s : Text) → lower (raise s) ≡ s
lower-raise [] = refl
lower-raise (b ∷ s) = let e : b + 47 - 47 ≡ b = omega arith in rw (e, lower-raise s) refl

pub raise-dotless : (s : Text) → All (λ c. c ≢ dot) (raise s)
raise-dotless [] = tt
raise-dotless (b ∷ s) = (λ e. omega arith, raise-dotless s)

pub raise-plain : (s : Text) → is_plain (raise s) ≡ true
unfolding is_plain
raise-plain [] = refl
raise-plain (b ∷ s) = ground (arith, raise-plain s)

-- The MAC is the key, the length of the message, and the message.
abbrev toy_mac : Text → Text → Text
toy_mac key s = put_texts (key ∷ []) s

abbrev pub jwt_library : JwtLibrary
jwt_library = record {
  hmac = toy_mac;
  encode = raise;
  decode = λ s. some (lower s);
  marshal = λ c. some (write_claims c);
  unmarshal = read_claims;
  decode-encode = λ s. ap (λ (x : Text). some x) (lower-raise s);
  encode_plain = raise-dotless;
  marshal_back = λ c h. ap read_claims (sym (some_inj h)) ∙ read_claims-write c;
}

abbrev mode_flag : InviteMode → ℕ
mode_flag hmac = 1
mode_flag short_code = 0

abbrev mode_of : ℕ → InviteMode
mode_of zero = short_code
mode_of (suc n) = hmac

mode-back : (m : InviteMode) → mode_of (mode_flag m) ≡ m
mode-back hmac = refl
mode-back short_code = refl

abbrev texts_of_link : InviteLink → List Text
texts_of_link v =
    v.id ∷ v.peer_id ∷ v.token_hash ∷ v.code ∷ v.created_by ∷ v.claimed_ip ∷ v.config_enc
    ∷ v.hmac_sig ∷ []

abbrev write_link : InviteLink → Text
write_link v = put_texts (texts_of_link v) (
    mode_flag v.mode
    ∷ v.expires_at
    ∷ v.max_uses
    ∷ v.use_count
    ∷ v.created_at
    ∷ tag v.claimed_at
    ∷ value v.claimed_at
    ∷ [])

abbrev link_of : List Text → Text → Option InviteLink
link_of (id ∷ peer_id ∷ hash ∷ code ∷ by ∷ ip ∷ config ∷ sig ∷ [])
      (mode ∷ expires_at ∷ max_uses ∷ use_count ∷ created_at ∷ a ∷ b ∷ []) =
    some (record {
      id = id;
      peer_id = peer_id;
      mode = mode_of mode;
      token_hash = hash;
      code = code;
      expires_at = expires_at;
      max_uses = max_uses;
      use_count = use_count;
      created_at = created_at;
      created_by = by;
      claimed_at = time_of a b;
      claimed_ip = ip;
      config_enc = config;
      hmac_sig = sig;
    })
link_of _ _ = none

abbrev read_link : Text → Option InviteLink
read_link s = get_texts 8 s link_of

pub read_link-write : (v : InviteLink) → read_link (write_link v) ≡ some v
read_link-write v =
    get-put (texts_of_link v) _ link_of ∙ rw (mode-back v.mode, time-back v.claimed_at) refl

abbrev pub link_codec : Links.Codec
link_codec = record {
  marshal = λ v. some (raise (write_link v));
  unmarshal = λ s. read_link (lower s);
  marshal_back = λ v h.
      ap (λ (x : Text). read_link (lower x)) (sym (some_inj h))
      ∙ ap read_link (lower-raise (write_link v))
      ∙ read_link-write v;
  marshal_plain = λ v h. subst (λ x. is_plain x ≡ true) (some_inj h) (raise-plain (write_link v));
}
