-- ===== src/Auth/Cache.antt =====
-- src/internal/auth/cache.go: validated tokens, by the prefix of the token. SHA-256, bcrypt and the
-- token file are given; the semaphore round bcrypt changes no result. Each method of the map runs
-- under its lock; `Validate` holds it for the check and for the insertion only, so these are
-- steps of their own. One time stands for the readings of the clock in one call.
pub mod Revocation
pub mod Staleness
use unet.Base.{
  ℕ, ◌+◌, Bool, true, false, not, ◌&&◌, List, [], ◌∷◌, Option, none, some, ltb, ◌==◌, if◌then◌else◌,
  Text, text_eq, take,
}
use unet.Base.Map.{Map, lookup, insert, delete}
use unet.Auth.Scope.{Scope}
use unet.Auth.Token.{ApiToken, Error, token_not_found, Result, ok, err, is_past}
use unet.Auth.Store.{Codec, Disk, Faults, load, get_by_id, soft_delete}

pub record CacheEntry : Type 0 where
  pub token_id : Text
  pub token_name : Text
  pub scope : Scope
  pub hash : Text
  pub sha256_sum : Text
  pub enabled : Bool
  pub expires_at : Option ℕ
  pub cached_at : ℕ

pub record TokenCache : Type 0 where
  pub entries : Map CacheEntry
  pub ttl : ℕ

abbrev pub five_minutes : ℕ
five_minutes = 300000000000

unfoldable pub new_token_cache : ℕ → TokenCache
new_token_cache ttl = record { entries = []; ttl = if ttl == 0 then five_minutes else ttl }

pub record ValidationResult : Type 0 where
  pub token_id : Text
  pub token_name : Text
  pub scope : Scope

-- The first 8 bytes of a token, or all of a shorter one.
abbrev pub prefix_of : Text → Text
prefix_of plain = take 8 plain

-- What the file and the cryptography provide.
pub record Environment : Type 0 where
  pub codec : Codec
  pub sha256 : Text → Text
  pub verify : Text → Text → Bool  -- `VerifyToken(plain, hash)`

abbrev pub result_of_entry : CacheEntry → ValidationResult
result_of_entry e = record { token_id = e.token_id; token_name = e.token_name; scope = e.scope }

abbrev pub result_of_token : ApiToken → ValidationResult
result_of_token t = record { token_id = t.id; token_name = t.name; scope = t.scope }

module _ (env : Environment) where
  -- The check of the cache, under the read lock.
  unfoldable pub check : Text → ℕ → TokenCache → Option CacheEntry
  check plain now c = elim (lookup (prefix_of plain) c.entries) [
    | none ↦ none
    | some e ↦
        if ltb now (e.cached_at + c.ttl) && e.enabled
        then (if text_eq (env.sha256 plain) e.sha256_sum then some e else none)
        else none
  ]

  -- The loop over the stored tokens.
  unfoldable pub scan : Text → ℕ → List ApiToken → Option ApiToken
  scan plain now [] = none
  scan plain now (t ∷ ts) =
      let rest = scan plain now ts in
      if not t.enabled
      then rest
      else if is_past t.expires_at now
      then rest
      else if env.verify plain t.token_hash
      then some t
      else rest

  abbrev pub entry_of : Text → ℕ → ApiToken → CacheEntry
  entry_of plain now t = record {
    token_id = t.id;
    token_name = t.name;
    scope = t.scope;
    hash = t.token_hash;
    sha256_sum = env.sha256 plain;
    enabled = t.enabled;
    expires_at = t.expires_at;
    cached_at = now;
  }

  -- The insertion, under the write lock.
  unfoldable pub remember : Text → ℕ → ApiToken → TokenCache → TokenCache
  remember plain now t c = record c {
    entries = insert t.token_prefix (entry_of plain now t) c.entries;
  }

  unfoldable pub validate : Text → ℕ → Disk → TokenCache → TokenCache × Result ValidationResult
  validate plain now d c = elim (check plain now c) [
    | some e ↦ (c, ok (result_of_entry e))
    | none ↦ elim (load env.codec d) [
      | err e ↦ (c, err e)
      | ok ts ↦ elim (scan plain now ts) [
        | none ↦ (c, err token_not_found)
        | some t ↦ (remember plain now t c, ok (result_of_token t))
      ]
    ]
  ]

unfoldable pub invalidate : Text → TokenCache → TokenCache
invalidate token_prefix c = record c { entries = delete token_prefix c.entries }

unfoldable pub invalidate_all : TokenCache → TokenCache
invalidate_all c = record c { entries = [] }

-- `RevokeToken` of src/internal/api/v1/mutations.go, past its request checks: the token is looked
-- up, disabled on disk, and its prefix dropped from the cache.
unfoldable pub revoke : Codec → Faults → Text → Disk → TokenCache → Disk × TokenCache × Option Error
revoke codec f id d c = elim (get_by_id codec id d) [
  | err e ↦ (d, c, some e)
  | ok t ↦ elim ((soft_delete codec f id d).1) [
    | some e ↦ ((soft_delete codec f id d).0, c, some e)
    | none ↦ ((soft_delete codec f id d).0, invalidate t.token_prefix c, none)
  ]
]
