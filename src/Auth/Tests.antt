-- ===== src/Auth/Tests.antt =====
-- The theorems on src/internal/auth at a store of two tokens.
use unet.Base.{
  ℕ, ◌+◌, ◌<◌, ◌≡◌, refl, ◌≢◌, ◌⊎◌, true, List, [], ◌∷◌, ◌++◌, Option, none, some, Text, codes,
  text_eq, take,
}
use unet.Samples.{token_codec, jwt_library, raise}
use unet.Auth.Scope.{scope_admin, scope_read}
use unet.Auth.Token.{ApiToken, ok, Error, ◌>>=◌}
use unet.Auth.Store.{
  Disk, no_faults, load, has_name, add, disable, find_id, save, create, soft_delete, get_by_id,
}
use unet.Auth.Store.Saving.{
  IsUnchanged, creating, deleting, handle, change_of, handle_done, handle_failed,
}
use unet.Auth.Store.Names.{occurs, unique, ids, IsDistinct, change_of-IsDistinct}
use unet.Auth.Store.Reads.{expected, get_by_id-handle}
use unet.Base.Map.{lookup, insert, delete}
use unet.Auth.Cache.{
  TokenCache, CacheEntry, Environment, new_token_cache, check, scan, remember, validate, invalidate,
  revoke, result_of_token,
}
use unet.Auth.Cache.Revocation.{Traces, IsLive, revoke-validate, validate-Traces}
use unet.Auth.Cache.Staleness.{WasLive, validate-IsSound, validate-vouched}
use unet.Auth.Jwt.{JwtIssuer, JwtClaims, JwtResult, issue, claims_at, seconds}
use unet.Auth.Jwt
use unet.Auth.Jwt.Sessions.{issue-validate}

abbrev alice_key : Text
alice_key = codes "unet_alice"

abbrev bob_key : Text
bob_key = codes "unet_bob"

abbrev token : Text → Text → Text → Option ℕ → ApiToken
token id name key expires_at = record {
  id = id;
  name = name;
  token_hash = key;
  token_prefix = take 8 key;
  scope = scope_admin;
  created_by = codes "cli";
  created_at = 1;
  expires_at = expires_at;
  last_used_at = none;
  request_count = 0;
  enabled = true;
}

abbrev alice : ApiToken
alice = token (codes "a") (codes "alice") alice_key (some 50)

abbrev bob : ApiToken
bob = token (codes "b") (codes "bob") bob_key none

abbrev carol : ApiToken
carol = token (codes "c") (codes "carol") (codes "unet_carol") none

abbrev two : List ApiToken
two = alice ∷ bob ∷ []

abbrev disk : Disk
disk = record { file = token_codec.marshal two; readable = true; temps = [] }

abbrev env : Environment
env = record { codec = token_codec; sha256 = raise; verify = text_eq }

abbrev cold : TokenCache
cold = new_token_cache 0

loaded : load token_codec disk ≡ ok two
unfolding load
loaded = refl

apart : unique (ids two) ≡ true
unfolding unique text_eq
apart = refl

two-IsDistinct : IsDistinct two
unfolding unique text_eq
two-IsDistinct = record { unique_ids = refl; unique_names = refl }

cold-Traces : Traces cold two
unfolding new_token_cache lookup text_eq
cold-Traces k e h = cc h

handle_done_example :
    (ts : List ApiToken) × (load token_codec disk >>= change_of (creating carol) ≡ ok ts)
    × (load token_codec (handle token_codec no_faults (creating carol) disk).0 ≡ ok ts)
    × ((handle token_codec no_faults (creating carol) disk).0.temps ≡ [])
unfolding create load add has_name save text_eq
handle_done_example = handle_done token_codec no_faults (creating carol) disk refl refl

handle_failed_example :
    IsUnchanged
      (record no_faults { rename = true; remove_temp = true })
      disk
      (handle token_codec
        (record no_faults { rename = true; remove_temp = true })
        (deleting (codes "a"))
        disk).0
unfolding soft_delete load disable save text_eq
handle_failed_example =
    handle_failed token_codec (record no_faults { rename = true; remove_temp = true })
      (deleting (codes "a")) disk {e = Error.io} refl

change_of-IsDistinct_example : IsDistinct (two ++ carol ∷ [])
unfolding add has_name occurs text_eq
change_of-IsDistinct_example =
    change_of-IsDistinct (creating carol) two (two ++ carol ∷ []) two-IsDistinct refl refl

get_by_id-handle_example :
    get_by_id token_codec (codes "b") (handle token_codec no_faults (deleting (codes "b")) disk).0
    ≡ expected (deleting (codes "b")) (codes "b") (get_by_id token_codec (codes "b") disk)
unfolding soft_delete load disable save text_eq
get_by_id-handle_example =
    get_by_id-handle token_codec no_faults (deleting (codes "b")) disk (codes "b") refl refl

-- Bob's token is revoked while Alice's is in the cache.
abbrev warm : TokenCache
warm = (validate env alice_key 5 disk cold).0

warm-Traces : Traces warm two
warm-Traces = validate-Traces env alice_key 5 disk cold two loaded apart cold-Traces

revoke-validate_example : (result_of_token alice).token_id ≢ bob.id
unfolding revoke get_by_id load find_id soft_delete disable save validate check scan remember
    new_token_cache invalidate lookup insert delete text_eq
revoke-validate_example =
    revoke-validate env no_faults bob.id disk warm two alice_key 7 (result_of_token alice) refl
      loaded apart warm-Traces refl refl

abbrev always : ℕ → List ApiToken
always at = two

cold-IsSound : (k : Text) (e : CacheEntry) → lookup k cold.entries ≡ some e → WasLive env always e
unfolding new_token_cache lookup
cold-IsSound k e h = cc h

warm-IsSound : (k : Text) (e : CacheEntry) → lookup k warm.entries ≡ some e → WasLive env always e
warm-IsSound = validate-IsSound env always alice_key 5 disk cold two loaded apart refl cold-IsSound

validate-vouched_example :
    (t : ApiToken) × (plain : Text) × (at : ℕ) × ((at ≡ 7) ⊎ (7 < at + warm.ttl))
    × IsLive env plain at t
    × (find_id t.id (always at) ≡ ok t)
    × (raise alice_key ≡ raise plain)
    × (alice.id ≡ t.id)
    × (alice.name ≡ t.name)
    × (alice.scope ≡ t.scope)
unfolding load validate check scan remember new_token_cache lookup insert text_eq
validate-vouched_example =
    validate-vouched env always alice_key 7 disk warm two (result_of_token alice) loaded apart refl
      warm-IsSound refl

alice-IsLive : IsLive env alice_key 5 alice
unfolding text_eq
alice-IsLive = record { enabled = refl; unexpired = refl; verified = refl }

abbrev issuer : JwtIssuer
issuer = record {
  signing_key = codes "a key of 32 bytes, more or less!";
  ttl = Jwt.default_jwt_ttl;
}

abbrev session_of : JwtResult Text → Text
session_of (JwtResult.ok s) = s
session_of (JwtResult.err e) = []

abbrev session : Text
session =
    session_of (issue jwt_library issuer 1000000000 (codes "j") alice.id alice.name scope_read)

abbrev claims : JwtClaims
claims = claims_at jwt_library issuer 1000000000 (codes "j") alice.id alice.name scope_read

issue-validate_example : Jwt.validate jwt_library issuer 901999999999 session ≡ JwtResult.ok claims
unfolding issue
issue-validate_example =
    issue-validate jwt_library issuer 1000000000 901999999999 (codes "j") alice.id alice.name
      scope_read session refl
