-- ===== src/Auth/Jwt.antt =====
-- src/internal/auth/jwt.go: session tokens `header.payload.signature`. HMAC, base64 and JSON are
-- given; times are nanoseconds, and claims hold seconds.
pub mod Splitting
pub mod Sessions
use unet.Base.{
  ℕ, zero, suc, ◌+◌, ◌/◌, ◌<◌, ◌≡◌, refl, ◌⊎◌, inl, inr, ◌≢◌, ◌↔◌, Bool, true, false, List, [], ◌∷◌,
  ◌++◌, Option, none, some, ltb, ◌==◌, if◌then◌else◌, Text, codes, text_eq, length, All,
}
use unet.Auth.Scope.{Scope}

pub record JwtClaims : Type 0 where
  pub sub : Text
  pub name : Text
  pub scope : Scope
  pub iss : Text
  pub iat : ℕ
  pub exp : ℕ
  pub jti : Text

abbrev pub dot : ℕ
dot = b'.'

-- The libraries' part: what is encoded decodes again, and base64url has no dot.
pub record JwtLibrary : Type 0 where
  pub hmac : Text → Text → Text  -- key, message
  pub encode : Text → Text
  pub decode : Text → Option Text
  pub marshal : JwtClaims → Option Text
  pub unmarshal : Text → Option JwtClaims
  pub decode-encode : (b : Text) → decode (encode b) ≡ some b
  pub encode_plain : (b : Text) → All (λ c. c ≢ dot) (encode b)
  pub marshal_back : (c : JwtClaims) {b : Text} → marshal c ≡ some b → unmarshal b ≡ some c

pub record JwtIssuer : Type 0 where
  pub signing_key : Text
  pub ttl : ℕ

pub data JwtError : Type 0 where
  key_encoding short_key marshal_failed format signature payload claims issuer expired : JwtError

pub data JwtResult {ℓ} (A : Type ℓ) : Type ℓ where
  ok : A → JwtResult A
  err : JwtError → JwtResult A

pub JwtResult-cases {ℓ} :
    {A : Type ℓ} (r : JwtResult A) → ((e : JwtError) × (r ≡ err e)) ⊎ ((a : A) × (r ≡ ok a))
JwtResult-cases (ok a) = inr (a, refl)
JwtResult-cases (err e) = inl (e, refl)

abbrev pub default_jwt_ttl : ℕ
default_jwt_ttl = 900000000000

-- `NewJWTIssuer`, by the standard base64 decoder.
unfoldable pub new_jwt_issuer : (Text → Option Text) → Text → JwtResult JwtIssuer
new_jwt_issuer decode signing_key = elim (decode signing_key) [
  | none ↦ err key_encoding
  | some key ↦
      if ltb (length key) 32
      then err short_key
      else ok (record { signing_key = key; ttl = default_jwt_ttl })
]

abbrev pub seconds : ℕ → ℕ
seconds t = t / 1000000000

abbrev pub daemon_name : Text
daemon_name = codes "unet-daemon"

-- The loop of `splitJWT`: `parts` so far, the part begun, and the bytes left. It returns at the
-- second dot, and the rest is the third part.
unfoldable pub split_from : List Text → Text → Text → List Text
split_from parts cur [] = []
split_from parts cur (c ∷ s) =
    let parts' = parts ++ cur ∷ [] in
    elim (c == dot) [
      | true ↦ elim (length parts' == 2) [
        | true ↦ parts' ++ s ∷ []
        | false ↦ split_from parts' [] s
      ]
      | false ↦ split_from parts (cur ++ c ∷ []) s
    ]

unfoldable pub split_jwt : Text → List Text
split_jwt s = split_from [] [] s

module _ (lib : JwtLibrary) where
  abbrev pub sign : JwtIssuer → Text → Text
  sign j input = lib.encode (lib.hmac j.signing_key input)

  abbrev pub claims_at : JwtIssuer → ℕ → Text → Text → Text → Scope → JwtClaims
  claims_at j now jti token_id token_name scope = record {
    sub = token_id;
    name = token_name;
    scope = scope;
    iss = daemon_name;
    iat = seconds now;
    exp = seconds (now + j.ttl);
    jti = jti;
  }

  -- `Issue`, at time `now` and with the new id `jti`.
  unfoldable pub issue : JwtIssuer → ℕ → Text → Text → Text → Scope → JwtResult Text
  issue j now jti token_id token_name scope =
      elim (lib.marshal (claims_at j now jti token_id token_name scope)) [
        | none ↦ err marshal_failed
        | some p ↦
            let input =
              lib.encode (codes "{\"alg\":\"HS256\",\"typ\":\"JWT\"}") ++ dot ∷ lib.encode p in
            ok (input ++ dot ∷ sign j input)
      ]

  -- The checks of the claims.
  unfoldable pub check_claims : ℕ → JwtClaims → JwtResult JwtClaims
  check_claims now c =
      if text_eq c.iss daemon_name
      then (if ltb c.exp (seconds now) then err expired else ok c)
      else err issuer

  unfoldable pub check_payload : ℕ → Text → JwtResult JwtClaims
  unfolding check_claims
  check_payload now part = elim (lib.decode part) [
    | none ↦ err payload
    | some p ↦ elim (lib.unmarshal p) [ none ↦ err claims | some c ↦ check_claims now c ]
  ]

  unfoldable pub check_parts : JwtIssuer → ℕ → List Text → JwtResult JwtClaims
  check_parts j now (a ∷ b ∷ c ∷ []) =
      if text_eq c (sign j (a ++ dot ∷ b)) then check_payload now b else err signature
  check_parts j now _ = err format

  -- `Validate`, at time `now`.
  unfoldable pub validate : JwtIssuer → ℕ → Text → JwtResult JwtClaims
  unfolding check_parts
  validate j now token = check_parts j now (split_jwt token)
