-- ===== src/Auth/Jwt/Sessions.antt =====
-- Issued tokens validate until they expire, and nothing else than a signed token does.
use unet.Base.{
  ℕ, ◌+◌, ◌≤◌, ◌≡◌, refl, inl, inr, ◌∷◌, ◌++◌, some, arith, ltb, if◌then◌else◌, Text, codes,
  text_eq, text_eq_iff, text_eq_refl, Bool-cases, Option-cases,
}
use unet.Auth.Scope.{Scope}
use unet.Auth.Jwt.{
  JwtClaims, JwtLibrary, JwtIssuer, ok, err, expired, dot, seconds, daemon_name, sign, claims_at,
  issue, check_claims, check_payload, validate,
}
use unet.Auth.Jwt.Splitting.{split_jwt-parts, split_jwt-cases}

module _ (lib : JwtLibrary) (j : JwtIssuer) where
  abbrev header : Text
  header = lib.encode (codes "{\"alg\":\"HS256\",\"typ\":\"JWT\"}")

  -- What `Issue` returns, in its parts.
  issue-ok :
      (now : ℕ) (jti token_id token_name : Text) (scope : Scope) (token : Text)
      → issue lib j now jti token_id token_name scope ≡ ok token
      → (p : Text) × (lib.unmarshal p ≡ some (claims_at lib j now jti token_id token_name scope))
        × (token
            ≡ (header ++ dot ∷ lib.encode p) ++ dot ∷ sign lib j (header ++ dot ∷ lib.encode p))
  unfolding issue
  issue-ok now jti token_id token_name scope token h =
      let c = claims_at lib j now jti token_id token_name scope in
      elim (Option-cases (lib.marshal c)) [
        | inl e ↦ (let q = rw (e, issue) at h in cc q)
        | inr (p, e) ↦ (p, lib.marshal_back c e, let q = rw (e, issue) at h in cc q)
      ]

  check_claims-issued :
      (now later : ℕ) (jti token_id token_name : Text) (scope : Scope)
      → let c = claims_at lib j now jti token_id token_name scope in
        check_claims lib later c
        ≡ (if ltb (seconds (now + j.ttl)) (seconds later) then err expired else ok c)
  unfolding check_claims
  check_claims-issued now later jti token_id token_name scope = rw (text_eq_refl daemon_name) refl

  -- A token that Issue made gives its claims back, id, name and scope, up to the second in which
  -- its lifetime ends, and the error `expired` from the next second on.
  pub issue-validate :
      (now later : ℕ) (jti token_id token_name : Text) (scope : Scope) (token : Text)
      → issue lib j now jti token_id token_name scope ≡ ok token
      → validate lib j later token ≡ (
          if ltb (seconds (now + j.ttl)) (seconds later)
          then err expired
          else ok (claims_at lib j now jti token_id token_name scope))
  unfolding validate check_payload
  issue-validate now later jti token_id token_name scope token h =
      let (p, back, shape) = issue-ok now jti token_id token_name scope token h in
      let input = header ++ dot ∷ lib.encode p in
      rw
        (
          shape,
          split_jwt-parts header (lib.encode p) (sign lib j input) (lib.encode_plain _)
              (lib.encode_plain p),
          text_eq_refl (sign lib j input),
          lib.decode-encode p,
          check_payload,
        )
        (rw (back, check_payload) (check_claims-issued now later jti token_id token_name scope))

  check_claims-ok :
      (now : ℕ) (c c' : JwtClaims)
      → check_claims lib now c ≡ ok c'
      → (c ≡ c') × (c.iss ≡ daemon_name) × (seconds now ≤ c.exp)
  unfolding check_claims
  check_claims-ok now c c' h = ground (arith, text_eq_iff c.iss daemon_name)

  -- Whatever Validate accepts has three parts, of which the third is the signature of the first
  -- two under the issuer's key; the claims returned are those of the second part, name the daemon
  -- as issuer, and have not expired.
  pub validate-signed :
      (now : ℕ) (token : Text) (c : JwtClaims)
      → validate lib j now token ≡ ok c
      → (a : Text) × (b : Text) × (p : Text) × (token
          ≡ (a ++ dot ∷ b) ++ dot ∷ sign lib j (a ++ dot ∷ b))
        × (lib.decode b ≡ some p)
        × (lib.unmarshal p ≡ some c)
        × (c.iss ≡ daemon_name)
        × (seconds now ≤ c.exp)
  unfolding validate check_payload
  validate-signed now token c h = elim (split_jwt-cases token) [
    | inl nothing ↦ (let q = rw (nothing, validate) at h in cc q)
    | inr (a, b, s, parts, shape, na, nb) ↦
        let h' = rw parts at h in
        elim (Bool-cases (text_eq s (sign lib j (a ++ dot ∷ b)))) [
          | inr e ↦ (let q = rw e at h' in cc q)
          | inl e ↦
              let signed = (text_eq_iff s (sign lib j (a ++ dot ∷ b))).0 e in
              elim (Option-cases (lib.decode b)) [
                | inl d ↦ (let q = rw (e, d, check_payload) at h' in cc q)
                | inr (p, d) ↦ elim (Option-cases (lib.unmarshal p)) [
                  | inl u ↦
                      (let q = rw (e, d, check_payload) at h' in
                        let q' = rw (u, check_payload) at q in cc q')
                  | inr (k, u) ↦
                      let q = rw (e, d, check_payload) at h' in
                      let q' = rw (u, check_payload) at q in
                      let (same, iss, fresh) = check_claims-ok now k c q' in
                      (
                        a,
                        b,
                        p,
                        rw (← signed) shape,
                        d,
                        rw (← same) u,
                        rw (← same) iss,
                        rw (← same) fresh,
                      )
                ]
              ]
        ]
  ]
