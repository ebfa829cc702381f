-- ===== src/Api/Tokens/Sessions.antt =====
-- What a session that was created is good for.
use unet.Base.{
  ℕ, ◌+◌, ◌≡◌, refl, ap, ◌∙◌, inl, inr, false, List, some, ltb, if◌then◌else◌, Text, codes, text_eq,
  Bool-cases,
}
use unet.Auth.Token.{ApiToken, Result}
use unet.Auth.Store.{load}
use unet.Auth.Cache.{TokenCache}
use unet.Auth.Jwt.{JwtResult, JwtResult-cases, issue, claims_at, seconds}
use unet.Auth.Jwt.Sessions.{issue-validate}
use unet.Api.Context.{AuthInfo, localhost, rejected, passed, unauthorized}
use unet.Api.Dispatch.{Deps, World, localhost_info, has_enabled, check_subject, handle_jwt}
use unet.Api.Tokens.{create_session}

module _ (deps : Deps) (now : ℕ) (jti token : Text) where
  create_session-issue :
      (info : AuthInfo)
      → create_session deps.lib deps.issuer now jti (some info) ≡ passed token
      → issue deps.lib deps.issuer now jti info.token_id info.token_name info.scope
        ≡ JwtResult.ok token
  unfolding create_session
  create_session-issue info h = elim (Bool-cases (text_eq info.source (codes "jwt"))) [
    | inl b ↦ (let q = rw (b, create_session) at h in cc q)
    | inr b ↦
        elim (JwtResult-cases
          (issue deps.lib deps.issuer now jti info.token_id info.token_name info.scope)) [
            | inl (e, v) ↦ (let q = rw (b, v, create_session) at h in cc q)
            | inr (t, v) ↦
                (let q = rw (b, v, create_session) at h in
                  v ∙ ap (λ (x : Text). JwtResult.ok x) (cc q))
          ]
  ]

  -- A session that was created for a caller stands for the same id, name and scope at the
  -- dispatcher, as long as the check of its subject lets it, and is refused from the second after
  -- its lifetime on.
  pub create_session-handle_jwt :
      (info : AuthInfo) (later : ℕ) (w : World)
      → create_session deps.lib deps.issuer now jti (some info) ≡ passed token
      → handle_jwt deps token later w ≡ (
          if ltb (seconds (now + deps.issuer.ttl)) (seconds later)
          then rejected 401 unauthorized
          else check_subject deps
              (claims_at deps.lib deps.issuer now jti info.token_id info.token_name info.scope)
              w)
  unfolding handle_jwt
  create_session-handle_jwt info later w h =
      let v =
        issue-validate deps.lib deps.issuer now later jti info.token_id info.token_name info.scope
          token (create_session-issue info h) in
      elim (Bool-cases (ltb (seconds (now + deps.issuer.ttl)) (seconds later))) [
        | inl b ↦ (let q = rw b at v in rw (b, q, handle_jwt) refl)
        | inr b ↦ (let q = rw b at v in rw (b, q, handle_jwt) refl)
      ]

  -- A session that was created for the caller on the machine itself is refused by a dispatcher
  -- with a cache at every time, if the token file loads and no enabled token in it has the id
  -- `localhost`.
  pub create_session-localhost :
      (later : ℕ) (w : World) (c : TokenCache) (ts : List ApiToken)
      → create_session deps.lib deps.issuer now jti (some localhost_info) ≡ passed token
      → w.cache ≡ some c
      → load deps.env.codec w.disk ≡ Result.ok ts
      → has_enabled localhost ts ≡ false
      → handle_jwt deps token later w ≡ rejected 401 unauthorized
  unfolding check_subject
  create_session-localhost later w c ts h held loads nobody =
      let all = create_session-handle_jwt localhost_info later w h in
      elim (Bool-cases (ltb (seconds (now + deps.issuer.ttl)) (seconds later))) [
        | inl b ↦ all ∙ rw b refl
        | inr b ↦ all ∙ rw (b, held, loads, nobody, check_subject) refl
      ]
