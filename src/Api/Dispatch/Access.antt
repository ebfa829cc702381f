-- ===== src/Api/Dispatch/Access.antt =====
-- Who reaches a handler.
use unet.Base.{
  ℕ, ◌≡◌, refl, ap, ◌∙◌, ◌⊎◌, inl, inr, true, ◌&&◌, ◌||◌, [], ◌++◌, Option, some, arith, Text,
  codes, text_eq, text_eq_iff, text_eq_refl, has_prefix, drop, Bool-cases, Option-cases,
  and-eq-true, has_prefix-eq,
}
use unet.Base.Float.{Float64}
use unet.Auth.Scope.{Scope, allows}
use unet.Auth.Token.{Result, Result-cases}
use unet.Auth.Store.{load}
use unet.Auth.Cache.{TokenCache, Environment}
use unet.Auth.Cache
use unet.Auth.Jwt.{JwtLibrary, JwtIssuer, JwtResult, JwtClaims, JwtResult-cases}
use unet.Auth.Jwt
use unet.Api.Context.{AuthInfo, localhost, Outcome, rejected, passed, panicked, ErrorCode}
use unet.Api.RateLimit.{Visitors, limit, allow}
use unet.Api.Dispatch.{
  Request, Deps, World, is_loopback, localhost_info, pat_info, jwt_info, has_enabled, handle_pat,
  check_subject, handle_jwt, handle_token, host_of, dispatch, require_scope, serve,
}

abbrev pub bearer : Text
bearer = codes "Bearer "

-- The three ways to be authenticated.
pub data Authentic (deps : Deps) (r : Request) (now : ℕ) (w : World) (info : AuthInfo)
    : Type 0 where
  local :
      r.forwarded_for ≡ []
      → is_loopback (host_of deps r) ≡ true
      → info ≡ localhost_info
      → Authentic deps r now w info
  by_token :
      (plain : Text) (c : TokenCache) (v : Cache.ValidationResult)
      → r.authorization ≡ bearer ++ plain
      → w.cache ≡ some c
      → (Cache.validate deps.env plain now w.disk c).1 ≡ Result.ok v
      → info ≡ pat_info v
      → Authentic deps r now w info
  by_session :
      (token : Text) (claims : JwtClaims)
      → r.authorization ≡ bearer ++ token
      → Jwt.validate deps.lib deps.issuer now token ≡ JwtResult.ok claims
      → check_subject deps claims w ≡ passed info
      → info ≡ jwt_info claims
      → Authentic deps r now w info

module _ (deps : Deps) (r : Request) (now : ℕ) (w : World) (info : AuthInfo) where
  check_subject-passed : (c : JwtClaims) → check_subject deps c w ≡ passed info → info ≡ jwt_info c
  unfolding check_subject
  check_subject-passed c h = elim (Option-cases w.cache) [
    | inl n ↦ (let q = rw (n, check_subject) at h in cc q)
    | inr (k, y) ↦
        let q = rw (y, check_subject) at h in
        elim (Result-cases (load deps.env.codec w.disk)) [
          | inl (e, v) ↦ (let q' = rw v at q in cc q')
          | inr (ts, v) ↦
              let q' = rw v at q in
              elim (Bool-cases (has_enabled c.sub ts)) [
                | inl b ↦ (let q'' = rw b at q' in cc q'')
                | inr b ↦ (let q'' = rw b at q' in cc q'')
              ]
        ]
  ]

  jwt-Authentic :
      (token : Text)
      → r.authorization ≡ bearer ++ token
      → handle_jwt deps token now w ≡ passed info
      → Authentic deps r now w info
  unfolding handle_jwt
  jwt-Authentic token a h = elim (JwtResult-cases (Jwt.validate deps.lib deps.issuer now token)) [
    | inl (e, v) ↦ (let q = rw (v, handle_jwt) at h in cc q)
    | inr (c, v) ↦
        let q = rw (v, handle_jwt) at h in by_session token c a v q (check_subject-passed c q)
  ]

  pat-Authentic :
      (plain : Text)
      → r.authorization ≡ bearer ++ plain
      → (handle_pat deps plain now w).1 ≡ passed info
      → Authentic deps r now w info
  unfolding handle_pat
  pat-Authentic plain a h = elim (Option-cases w.cache) [
    | inl n ↦ (let q = rw (n, handle_pat) at h in cc q)
    | inr (c, y) ↦
        let q = rw (y, handle_pat) at h in
        elim (Result-cases ((Cache.validate deps.env plain now w.disk c).1)) [
          | inl (e, v) ↦ (let q' = rw v at q in cc q')
          | inr (k, v) ↦ by_token plain c k a y v (let q' = rw v at q in cc q')
        ]
  ]

  -- Past `Bearer `, the token is of one kind or the other.
  bearer-Authentic :
      has_prefix r.authorization bearer ≡ true
      → (handle_token deps r.authorization now w).1 ≡ passed info
      → Authentic deps r now w info
  unfolding handle_token
  bearer-Authentic p h =
      let a = has_prefix-eq r.authorization bearer p in
      elim (Bool-cases (text_eq r.authorization [])) [
        | inl b ↦ (let q = rw (b, handle_token) at h in cc q)
        | inr b ↦ elim (Bool-cases (text_eq (drop 7 r.authorization) r.authorization)) [
          | inl e ↦ (let q = rw (b, p, e, handle_token) at h in cc q)
          | inr e ↦ elim (Bool-cases (has_prefix (drop 7 r.authorization) (codes "unet_"))) [
            | inl u ↦
                (let q = rw (b, p, e, u, handle_token) at h in
                  pat-Authentic (drop 7 r.authorization) a q)
            | inr u ↦ elim (Bool-cases (has_prefix (drop 7 r.authorization) (codes "eyJ"))) [
              | inl j ↦
                  (let q = rw (b, p, e, u, j, handle_token) at h in
                    jwt-Authentic (drop 7 r.authorization) a q)
              | inr j ↦ (let q = rw (b, p, e, u, j, handle_token) at h in cc q)
            ]
          ]
        ]
      ]

  token-Authentic :
      (handle_token deps r.authorization now w).1 ≡ passed info → Authentic deps r now w info
  unfolding handle_token
  token-Authentic h = elim (Bool-cases (has_prefix r.authorization bearer)) [
    | inl p ↦ bearer-Authentic p h
    | inr p ↦ elim (Bool-cases (text_eq r.authorization [])) [
      | inl b ↦ (let q = rw (b, handle_token) at h in cc q)
      | inr b ↦ (let q = rw (b, p, text_eq_refl r.authorization, handle_token) at h in cc q)
    ]
  ]

  dispatch-Authentic : (dispatch deps r now w).1 ≡ passed info → Authentic deps r now w info
  unfolding dispatch
  dispatch-Authentic h =
      elim (Bool-cases (text_eq r.forwarded_for [] && is_loopback (host_of deps r))) [
        | inl b ↦
            let q = rw (b, dispatch) at h in
            let both = and-eq-true (text_eq r.forwarded_for []) (is_loopback (host_of deps r)) b in
            local ((text_eq_iff r.forwarded_for []).0 both.0) both.1 (cc q)
        | inr b ↦ (let q = rw (b, dispatch) at h in token-Authentic q)
      ]

require_scope-passed :
    (required : Scope) (info out : AuthInfo)
    → require_scope required (some info) ≡ passed out
    → (out ≡ info) × (allows info.scope required ≡ true)
unfolding require_scope
require_scope-passed required info out h = ground arith

limit-passed :
    (fl : Float64) (info : AuthInfo) (now : ℕ) (visitors : Visitors) (out : Option AuthInfo)
    → (limit fl (some info) now visitors).1 ≡ passed out
    → out ≡ some info
unfolding limit
limit-passed fl info now visitors out h =
    elim (Bool-cases (text_eq info.token_id [] || text_eq info.source localhost)) [
      | inl b ↦ (let q = rw (b, limit) at h in cc q)
      | inr b ↦ elim (Bool-cases ((allow fl info.token_id now visitors).1)) [
        | inl a ↦ (let q = rw (b, a, limit) at h in cc q)
        | inr a ↦ (let q = rw (b, a, limit) at h in cc q)
      ]
    ]

Outcome-cases {ℓ} :
    {A : Type ℓ} (o : Outcome A)
    → ((s : ℕ) × (c : ErrorCode) × (o ≡ rejected s c))
      ⊎ ((o ≡ panicked) ⊎ ((a : A) × (o ≡ passed a)))
Outcome-cases (rejected s c) = inl (s, c, refl)
Outcome-cases (passed a) = inr (inr (a, refl))
Outcome-cases panicked = inr (inl refl)

-- A handler behind the chain is called only for a caller that the dispatcher authenticated, as
-- local, by a token or by a session, and whose scope allows the route's, and it is told who that
-- is.
pub serve-passed :
    (deps : Deps) (required : Scope) (r : Request) (now : ℕ) (w : World) (visitors : Visitors)
    (out : Option AuthInfo)
    → (serve deps required r now w visitors).2 ≡ passed out
    → (info : AuthInfo) × (out ≡ some info)
      × Authentic deps r now w info
      × (allows info.scope required ≡ true)
unfolding serve
serve-passed deps required r now w visitors out h =
    elim (Outcome-cases ((dispatch deps r now w).1)) [
      | inl (s, c, e) ↦ (let q = rw (e, serve) at h in cc q)
      | inr (inl e) ↦ (let q = rw (e, serve) at h in cc q)
      | inr (inr (info, e)) ↦
          let q = rw (e, serve) at h in
          elim (Outcome-cases (require_scope required (some info))) [
            | inl (s, c, e') ↦ (let q' = rw e' at q in cc q')
            | inr (inl e') ↦ (let q' = rw e' at q in cc q')
            | inr (inr (info', e')) ↦
                let q' = rw e' at q in
                let (same, may) = require_scope-passed required info info' e' in
                (
                  info,
                  limit-passed deps.float info' now visitors out q'
                      ∙ ap (λ (x : AuthInfo). some x) same,
                  dispatch-Authentic deps r now w info e,
                  may,
                )
          ]
    ]
