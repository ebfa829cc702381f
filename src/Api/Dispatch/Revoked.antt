-- ===== src/Api/Dispatch/Revoked.antt =====
-- A revoked token at the doors of the API: as a token, and as the subject of a session.
use unet.Base.{
  ℕ, ◌≡◌, refl, sym, ap, ◌∙◌, ◌≢◌, ◌⊎◌, inl, inr, Bool, true, false, List, [], ◌∷◌, none, some,
  arith, Text, text_eq_iff, not, subst, and-eq-true,
}
use unet.Auth.Scope.{Scope}
use unet.Auth.Token.{ApiToken, ok}
use unet.Auth.Store.{Disk, Faults, load, disable}
use unet.Auth.Store.Names.{occurs, unique, ids, disable-ok}
use unet.Auth.Cache.{TokenCache, revoke}
use unet.Auth.Cache.Revocation.{Traces, revoke-done, revoke-validate}
use unet.Auth.Jwt.{JwtClaims}
use unet.Api.Context.{AuthInfo, passed}
use unet.Api.RateLimit.{Visitors}
use unet.Api.Dispatch.{Request, Deps, World, localhost_info, has_enabled, check_subject, serve}
use unet.Api.Dispatch.Access.{local, by_token, by_session, serve-passed}

some_inj {ℓ} : {A : Type ℓ} {a b : A} → some a ≡ some b → a ≡ b
some_inj h = cc h

not-true : (b : Bool) → not b ≡ true → b ≡ false
not-true true h = cc h
not-true false h = refl

has_enabled-occurs :
    (id : Text) (ts : List ApiToken) → occurs id (ids ts) ≡ false → has_enabled id ts ≡ false
unfolding occurs has_enabled
has_enabled-occurs id [] h = refl
has_enabled-occurs id (t ∷ ts) h = ground (arith, has_enabled-occurs id ts)

-- With distinct ids, no token with the id is enabled once it is disabled.
has_enabled-disable :
    (id : Text) (ts us : List ApiToken)
    → disable id ts ≡ ok us
    → unique (ids ts) ≡ true
    → has_enabled id us ≡ false
unfolding has_enabled unique
has_enabled-disable id [] us h u = unfold disable in cc h
has_enabled-disable id (t ∷ ts) us h u =
    let (fresh, rest) = and-eq-true (not (occurs t.id (ids ts))) (unique (ids ts)) u in
    elim (disable-ok id t ts h) [
      | inl (e, q) ↦
          let gone =
            subst (λ k. occurs k (ids ts) ≡ false) ((text_eq_iff t.id id).0 e)
              (not-true (occurs t.id (ids ts)) fresh) in
          rw (q, e) (has_enabled-occurs id ts gone)
      | inr (vs, e, p, q) ↦ rw (q, e) (has_enabled-disable id ts vs p rest)
    ]

module _ (deps : Deps) (f : Faults) (id : Text) (d : Disk) (c : TokenCache)
    (ts : List ApiToken) where
  -- What `revoke` leaves.
  abbrev after : World
  after = record {
    disk = (revoke deps.env.codec f id d c).0;
    cache = some ((revoke deps.env.codec f id d c).1);
  }

  session_is_other :
      (claims : JwtClaims) (info : AuthInfo)
      → d.readable ≡ true
      → load deps.env.codec d ≡ ok ts
      → unique (ids ts) ≡ true
      → (revoke deps.env.codec f id d c).2 ≡ none
      → check_subject deps claims after ≡ passed info
      → claims.sub ≢ id
  unfolding check_subject
  session_is_other claims info readable l u done h same =
      let (t, us, p, changed, loads, dropped) = revoke-done deps.env f id d c ts readable l done in
      let q = rw (loads, check_subject) at h in
      let off = has_enabled-disable id ts us changed u in let off' = rw (same, off) at q in cc off'

  -- Once a revocation has reported success, from a readable token file with distinct ids and a
  -- cache whose entries stand under their tokens' prefixes, the handlers behind the chain see no
  -- caller with the revoked token's id, neither with a token nor with a session issued to it
  -- before, whatever the request and the time; only the caller on the machine itself is let in
  -- unasked.
  pub revoke-serve :
      (required : Scope) (r : Request) (now : ℕ) (visitors : Visitors) (info : AuthInfo)
      → d.readable ≡ true
      → load deps.env.codec d ≡ ok ts
      → unique (ids ts) ≡ true
      → Traces c ts
      → (revoke deps.env.codec f id d c).2 ≡ none
      → (serve deps required r now after visitors).2 ≡ passed (some info)
      → (info ≡ localhost_info) ⊎ (info.token_id ≢ id)
  revoke-serve required r now visitors info readable l u tr done h =
      let (who, same, how, may) = serve-passed deps required r now after visitors (some info) h in
      elim how [
        | local _ _ q ↦ inl (some_inj same ∙ q)
        | by_token plain c' v _ held ok_v q ↦ inr (λ e.
            revoke-validate deps.env f id d c ts plain now v readable l u tr done
              (rw (← some_inj held) at ok_v)
              (sym (ap (λ (x : AuthInfo). x.token_id) (some_inj same ∙ q)) ∙ e))
        | by_session token claims _ _ passes q ↦ inr (λ e.
            session_is_other claims who readable l u done passes
              (sym (ap (λ (x : AuthInfo). x.token_id) (some_inj same ∙ q)) ∙ e))
      ]
