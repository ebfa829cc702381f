-- ===== src/Api/Tests.antt =====
-- The theorems on src/internal/api at a store of two tokens and a caller from outside.
use unet.Base.{
  ℕ, ◌≡◌, refl, ◌≢◌, ◌⊎◌, true, List, [], ◌∷◌, ◌++◌, none, some, arith, Text, codes, text_eq, take,
  has_prefix,
}
use unet.Base.Map.{lookup, insert, delete}
use unet.Samples.{token_codec, jwt_library, raise}
use unet.Base.Sample.{whole, whole-IsRounding}
use unet.Auth.Scope.{scope_admin, scope_read, allows}
use unet.Auth.Token.{ApiToken, ok}
use unet.Auth.Store.{Disk, no_faults, load, disable, find_id, save, soft_delete, get_by_id}
use unet.Auth.Store.Names.{occurs, unique, ids}
use unet.Auth.Cache.{
  TokenCache, Environment, new_token_cache, check, scan, remember, validate, invalidate, revoke,
}
use unet.Auth.Cache.Revocation.{Traces}
use unet.Auth.Jwt.{JwtIssuer, default_jwt_ttl}
use unet.Api.Context.{Outcome, AuthInfo}
use unet.Api.RateLimit.{run, limit, allow, evict, visit}
use unet.Api.RateLimit.Eviction.{run_ideal, nobody, run-run_ideal}
use unet.Api.Dispatch.{
  Request, Deps, World, dispatch, serve, localhost_info, is_loopback, handle_token, handle_pat,
  require_scope,
}
use unet.Api.Tokens.{create_session}
use unet.Api.Dispatch.Access.{Authentic, serve-passed}
use unet.Api.Dispatch.Revoked.{revoke-serve}

abbrev alice_key : Text
alice_key = codes "unet_alice"

abbrev token : Text → Text → Text → ApiToken
token id name key = record {
  id = id;
  name = name;
  token_hash = key;
  token_prefix = take 8 key;
  scope = scope_admin;
  created_by = codes "cli";
  created_at = 1;
  expires_at = none;
  last_used_at = none;
  request_count = 0;
  enabled = true;
}

abbrev alice : ApiToken
alice = token (codes "a") (codes "alice") alice_key

abbrev bob : ApiToken
bob = token (codes "b") (codes "bob") (codes "unet_bob")

abbrev both : List ApiToken
both = alice ∷ bob ∷ []

abbrev disk : Disk
disk = record { file = token_codec.marshal both; readable = true; temps = [] }

abbrev env : Environment
env = record { codec = token_codec; sha256 = raise; verify = text_eq }

abbrev cold : TokenCache
cold = new_token_cache 0

abbrev issuer : JwtIssuer
issuer = record { signing_key = codes "a key of 32 bytes, more or less!"; ttl = default_jwt_ttl }

abbrev deps : Deps
deps = record {
  env = env;
  lib = jwt_library;
  issuer = issuer;
  split_host_port = λ s. some s;
  float = whole;
}

abbrev world : World
world = record { disk = disk; cache = some cold }

-- What is left once Bob's token is revoked.
abbrev revoked : World
revoked = record {
  disk = (revoke token_codec no_faults bob.id disk cold).0;
  cache = some ((revoke token_codec no_faults bob.id disk cold).1);
}

abbrev request : Request
request = record {
  forwarded_for = [];
  remote_addr = codes "192.0.2.1";
  authorization = codes "Bearer " ++ alice_key;
}

abbrev info : AuthInfo
info = record {
  token_id = alice.id;
  token_name = alice.name;
  scope = scope_admin;
  source = codes "pat";
  session_id = [];
}

serve-passed_example :
    (who : AuthInfo) × (some info ≡ some who)
    × Authentic deps request 5 world who
    × (allows who.scope scope_read ≡ true)
unfolding serve dispatch is_loopback handle_token handle_pat has_prefix text_eq validate check scan
    remember load new_token_cache lookup insert require_scope allows limit allow evict visit
serve-passed_example = serve-passed deps scope_read request 5 world [] (some info) refl

loaded : load token_codec disk ≡ ok both
unfolding load
loaded = refl

apart : unique (ids both) ≡ true
unfolding unique occurs text_eq
apart = refl

cold-Traces : Traces cold both
unfolding new_token_cache lookup
cold-Traces k e h = cc h

revoke-serve_example : (info ≡ localhost_info) ⊎ (info.token_id ≢ bob.id)
unfolding revoke get_by_id find_id soft_delete disable save invalidate delete serve dispatch
    is_loopback handle_token handle_pat has_prefix text_eq validate check scan remember load
    new_token_cache lookup insert require_scope allows limit allow evict visit
revoke-serve_example =
    revoke-serve deps no_faults bob.id disk cold both scope_read request 9 [] info refl loaded apart
      cold-Traces refl refl

abbrev calls : List (Text × ℕ)
calls = (codes "k", 1) ∷ (codes "k", 2) ∷ (codes "l", 5000000000) ∷ []

run-run_ideal_example : run whole [] calls ≡ run_ideal whole whole-IsRounding nobody calls
run-run_ideal_example =
    run-run_ideal whole whole-IsRounding 0 calls (omega arith, (omega arith, (omega arith, tt)))

abbrev session_of : Outcome Text → Text
session_of (Outcome.passed token) = token
session_of _ = []

abbrev alice_session : Text
alice_session = session_of (create_session jwt_library issuer 0 (codes "j") (some info))

abbrev local_session : Text
local_session = session_of (create_session jwt_library issuer 0 (codes "j") (some localhost_info))
