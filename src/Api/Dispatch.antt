-- ===== src/Api/Dispatch.antt =====
-- src/internal/api/middleware/auth.go and scope.go, and the order in which
-- src/internal/api/remote/routes.go chains the middleware.
pub mod Access
pub mod Revoked
use unet.Base.{
  ℕ, Bool, true, false, ◌&&◌, ◌||◌, List, [], ◌∷◌, Option, none, some, if◌then◌else◌, Text, codes,
  text_eq, has_prefix, drop,
}
use unet.Base.Float.{Float64}
use unet.Auth.Scope.{Scope, allows, scope_admin}
use unet.Auth.Token.{ApiToken, Result}
use unet.Auth.Store.{Disk, load}
use unet.Auth.Cache.{TokenCache, Environment}
use unet.Auth.Cache
use unet.Auth.Jwt.{JwtLibrary, JwtIssuer, JwtResult, JwtClaims}
use unet.Auth.Jwt
use unet.Api.Context.{
  AuthInfo, localhost, Outcome, rejected, passed, panicked, unauthorized, forbidden_scope,
}
use unet.Api.RateLimit.{Visitors, limit}

-- What the middleware reads of a request; a header that is absent is empty.
pub record Request : Type 0 where
  pub forwarded_for : Text
  pub remote_addr : Text
  pub authorization : Text

-- The libraries, the issuer of sessions, `net.SplitHostPort`, which gives the host, and the
-- arithmetic of float64.
pub record Deps : Type 0 where
  pub env : Environment
  pub lib : JwtLibrary
  pub issuer : JwtIssuer
  pub split_host_port : Text → Option Text
  pub float : Float64

-- The token file and the cache, which is optional in `AuthDispatcherDeps`.
pub record World : Type 0 where
  pub disk : Disk
  pub cache : Option TokenCache

unfoldable pub is_loopback : Text → Bool
is_loopback host =
    text_eq host (codes "127.0.0.1")
    || text_eq host (codes "::1")
    || text_eq host localhost
    || has_prefix host (codes "127.")

abbrev pub localhost_info : AuthInfo
localhost_info = record {
  token_id = localhost;
  token_name = localhost;
  scope = scope_admin;
  source = localhost;
  session_id = [];
}

abbrev pub pat_info : Cache.ValidationResult → AuthInfo
pat_info r = record {
  token_id = r.token_id;
  token_name = r.token_name;
  scope = r.scope;
  source = codes "pat";
  session_id = [];
}

abbrev pub jwt_info : JwtClaims → AuthInfo
jwt_info c = record {
  token_id = c.sub;
  token_name = c.name;
  scope = c.scope;
  source = codes "jwt";
  session_id = c.jti;
}

abbrev denied : Outcome AuthInfo
denied = rejected 401 unauthorized

-- The loop of `handleJWT`: some enabled token has the id.
unfoldable pub has_enabled : Text → List ApiToken → Bool
has_enabled id [] = false
has_enabled id (t ∷ ts) = if text_eq t.id id && t.enabled then true else has_enabled id ts

module _ (deps : Deps) where
  unfoldable pub handle_pat : Text → ℕ → World → World × Outcome AuthInfo
  handle_pat plain now w = elim w.cache [
    | none ↦ (w, panicked)
    | some c ↦
        let (c', r) = Cache.validate deps.env plain now w.disk c in
        (
          record w { cache = some c' },
          elim r [ Result.ok v ↦ passed (pat_info v) | Result.err _ ↦ denied ],
        )
  ]

  -- The check that the token behind a session is still enabled.
  unfoldable pub check_subject : JwtClaims → World → Outcome AuthInfo
  check_subject c w = elim w.cache [
    | none ↦ passed (jwt_info c)
    | some _ ↦ elim (load deps.env.codec w.disk) [
      | Result.err _ ↦ denied
      | Result.ok ts ↦ if has_enabled c.sub ts then passed (jwt_info c) else denied
    ]
  ]

  unfoldable pub handle_jwt : Text → ℕ → World → Outcome AuthInfo
  handle_jwt token now w = elim (Jwt.validate deps.lib deps.issuer now token) [
    | JwtResult.err _ ↦ denied
    | JwtResult.ok c ↦ check_subject c w
  ]

  -- Past the header: `strings.TrimPrefix` leaves a string without the prefix as it is.
  unfoldable pub handle_token : Text → ℕ → World → World × Outcome AuthInfo
  handle_token header now w =
      let token = if has_prefix header (codes "Bearer ") then drop 7 header else header in
      if text_eq header []
      then (w, denied)
      else if text_eq token header
      then (w, denied)
      else if has_prefix token (codes "unet_")
      then handle_pat token now w
      else if has_prefix token (codes "eyJ")
      then (w, handle_jwt token now w)
      else (w, denied)

  abbrev pub host_of : Request → Text
  host_of r = elim (deps.split_host_port r.remote_addr) [ none ↦ r.remote_addr | some host ↦ host ]

  -- `AuthDispatcher`.
  unfoldable pub dispatch : Request → ℕ → World → World × Outcome AuthInfo
  dispatch r now w =
      if text_eq r.forwarded_for [] && is_loopback (host_of r)
      then (w, passed localhost_info)
      else handle_token r.authorization now w

-- `RequireScope`.
unfoldable pub require_scope : Scope → Option AuthInfo → Outcome AuthInfo
require_scope required none = rejected 401 unauthorized
require_scope required (some info) =
    if allows info.scope required then passed info else rejected 403 forbidden_scope

-- A route of `RegisterRoutes`: the dispatcher, then the scope, then the rate limit. The handler is
-- called exactly if the outcome is `passed`, with the authentication that it carries.
unfoldable pub serve :
    Deps → Scope → Request → ℕ → World → Visitors → World × Visitors × Outcome (Option AuthInfo)
serve deps required r now w visitors =
    let (w', who) = dispatch deps r now w in
    elim who [
      | rejected s c ↦ (w', visitors, rejected s c)
      | panicked ↦ (w', visitors, panicked)
      | passed info ↦ elim (require_scope required (some info)) [
        | rejected s c ↦ (w', visitors, rejected s c)
        | panicked ↦ (w', visitors, panicked)
        | passed info' ↦
            (let (visitors', out) = limit deps.float (some info') now visitors in
              (w', visitors', out))
      ]
    ]
