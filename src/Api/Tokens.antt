-- ===== src/Api/Tokens.antt =====
-- `CreateToken` and `CreateSession` of src/internal/api/v1/mutations.go, behind the middleware. What
-- is drawn at random, the hash and the clock are given.
pub mod Sessions
pub mod Creation
use unet.Base.{
  ℕ, Bool, true, false, not, ◌&&◌, List, [], ◌∷◌, Option, none, some, if◌then◌else◌, Text, codes,
  text_eq,
}
use unet.Auth.Scope.{Scope, scope_read, scope_write, scope_admin}
use unet.Auth.Token.{ApiToken, Error, duplicate_name, Result, new_api_token}
use unet.Auth.Store.{Codec, Disk, Faults, create}
use unet.Auth.Jwt.{JwtLibrary, JwtIssuer, JwtResult, issue}
use unet.Api.Context.{
  AuthInfo, localhost, Outcome, rejected, passed, unauthorized, bad_request, name_conflict,
  internal_error,
}

pub record TokenRequest : Type 0 where
  pub name : Text
  pub scope : Text
  pub expires_at : Option ℕ

abbrev pub creator : Option AuthInfo → Text
creator none = codes "system"
creator (some info) = if text_eq info.token_id localhost then codes "system" else info.token_id

abbrev pub answer_of : Option Error → ApiToken × Text → Outcome (ApiToken × Text)
answer_of none made = passed made
answer_of (some duplicate_name) made = rejected 409 name_conflict
answer_of (some _) made = rejected 500 internal_error

-- `CreateToken`; `none` is a body that does not parse.
unfoldable pub create_token :
    (codec : Codec) (hash : Text → Option Text) (plain new_id : Text) (now : ℕ) (f : Faults)
    → Option AuthInfo
    → Option TokenRequest
    → Disk
    → Disk × Outcome (ApiToken × Text)
create_token codec hash plain new_id now f info none d = (d, rejected 400 bad_request)
create_token codec hash plain new_id now f info (some r) d =
    if text_eq r.name []
    then (d, rejected 400 bad_request)
    else if not (text_eq r.scope scope_read)
        && not (text_eq r.scope scope_write)
        && not (text_eq r.scope scope_admin)
    then (d, rejected 400 bad_request)
    else elim (new_api_token hash plain new_id now r.name r.scope (creator info) r.expires_at) [
      | Result.err _ ↦ (d, rejected 400 bad_request)
      | Result.ok made ↦ ((create codec f made.0 d).0, answer_of ((create codec f made.0 d).1) made)
    ]

-- `CreateSession`, up to the lifetime and the scope that the answer repeats.
unfoldable pub create_session : JwtLibrary → JwtIssuer → ℕ → Text → Option AuthInfo → Outcome Text
create_session lib j now jti none = rejected 401 unauthorized
create_session lib j now jti (some info) =
    if text_eq info.source (codes "jwt")
    then rejected 401 unauthorized
    else elim (issue lib j now jti info.token_id info.token_name info.scope) [
      | JwtResult.err _ ↦ rejected 500 internal_error
      | JwtResult.ok token ↦ passed token
    ]
