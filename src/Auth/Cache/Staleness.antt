-- ===== src/Auth/Cache/Staleness.antt =====
-- What a cache hit rests on, and how far it can lag behind the store.
use unet.Base.{
  ℕ, ◌+◌, ◌<◌, ◌≡◌, refl, sym, ap, ◌∙◌, subst, ◌⊎◌, inl, inr, true, List, some, arith, Text,
  text_eq, text_eq_iff, text_eq_refl, lt→ltb, Bool-cases, Option-cases,
}
use unet.Base.Map.{lookup, lookup-insert}
use unet.Auth.Token.{ApiToken, ok, is_past}
use unet.Auth.Store.{Disk, Faults, find_id, load}
use unet.Auth.Store.Names.{unique, ids}
use unet.Auth.Cache.{
  TokenCache, CacheEntry, ValidationResult, Environment, prefix_of, check, scan, remember, validate,
  revoke, invalidate, entry_of, result_of_entry, result_of_token,
}
use unet.Auth.Cache.Revocation.{IsLive, scan-live, validate-ok}

-- `files` is the history of the token file: the tokens that it had at a time.
module _ (env : Environment) (files : ℕ → List ApiToken) where
  -- An entry records a token of the file that was live when it was cached, for some string.
  pub record WasLive (e : CacheEntry) : Type 0 where
    pub plain : Text
    pub token : ApiToken
    pub live : IsLive env plain e.cached_at token
    pub listed : find_id token.id (files e.cached_at) ≡ ok token
    pub entry : e ≡ entry_of env plain e.cached_at token

  abbrev pub IsSound : TokenCache → Type 0
  IsSound c = (k : Text) (e : CacheEntry) → lookup k c.entries ≡ some e → WasLive e

  remember-IsSound :
      (plain : Text) (now : ℕ) (t : ApiToken) (c : TokenCache)
      → IsLive env plain now t
      → find_id t.id (files now) ≡ ok t
      → IsSound c
      → IsSound (remember env plain now t c)
  unfolding remember
  remember-IsSound plain now t c live here s k e h =
      let split = rw lookup-insert at h in
      elim (Bool-cases (text_eq t.token_prefix k)) [
        | inl same ↦
            let q : entry_of env plain now t ≡ e = (let p = rw same at split in cc p) in
            subst WasLive q
              (record { plain = plain; token = t; live = live; listed = here; entry = refl })
        | inr other ↦ s k e (rw other at split)
      ]

  -- If the token file loads with distinct ids and every entry of the cache was made of a token that
  -- the file had at the time of the entry, enabled, not expired and verified, then this still holds
  -- after a validation.
  pub validate-IsSound :
      (plain : Text) (now : ℕ) (d : Disk) (c : TokenCache) (ts : List ApiToken)
      → load env.codec d ≡ ok ts
      → unique (ids ts) ≡ true
      → files now ≡ ts
      → IsSound c
      → IsSound (validate env plain now d c).0
  unfolding validate
  validate-IsSound plain now d c ts l u f s = elim (Option-cases (check env plain now c)) [
    | inr (e, p) ↦ rw (p, validate) s
    | inl p ↦ elim (Option-cases (scan env plain now ts)) [
      | inl q ↦ rw (p, l, q, validate) s
      | inr (t, q) ↦
          rw (p, l, q, validate)
            (remember-IsSound plain now t c (scan-live env plain now ts t u q).0
              (subst (λ x. find_id t.id x ≡ ok t) (sym f) (scan-live env plain now ts t u q).1) s)
    ]
  ]

  -- What a cache hit has checked.
  check-some :
      (plain : Text) (now : ℕ) (c : TokenCache) (e : CacheEntry)
      → check env plain now c ≡ some e
      → (lookup (prefix_of plain) c.entries ≡ some e)
        × (now < e.cached_at + c.ttl)
        × (env.sha256 plain ≡ e.sha256_sum)
  unfolding check
  check-some plain now c e h = ground (arith, text_eq_iff (env.sha256 plain) e.sha256_sum)

  -- If the token file loads with distinct ids and every cached entry was made of a live token
  -- that the file had at the time of the entry, every string that is accepted was vouched for: at
  -- some time less than the cache's lifetime ago, or now, the file had a token that was enabled,
  -- not expired, and verified a string of the same digest; and the answer has the id, the name
  -- and the scope of that token.
  pub validate-vouched :
      (plain : Text) (now : ℕ) (d : Disk) (c : TokenCache) (ts : List ApiToken)
      (r : ValidationResult)
      → load env.codec d ≡ ok ts
      → unique (ids ts) ≡ true
      → files now ≡ ts
      → IsSound c
      → (validate env plain now d c).1 ≡ ok r
      → (t : ApiToken) × (plain' : Text) × (at : ℕ) × ((at ≡ now) ⊎ (now < at + c.ttl))
        × IsLive env plain' at t
        × (find_id t.id (files at) ≡ ok t)
        × (env.sha256 plain ≡ env.sha256 plain')
        × (r.token_id ≡ t.id)
        × (r.token_name ≡ t.name)
        × (r.scope ≡ t.scope)
  validate-vouched plain now d c ts r l u f s h = elim (validate-ok env plain now d c ts r l h) [
    | inl (e, hit, q) ↦
        let (found, fresh, digest) = check-some plain now c e hit in
        let w = s (prefix_of plain) e found in
        (
          w.token,
          w.plain,
          e.cached_at,
          inr fresh,
          w.live,
          w.listed,
          digest ∙ ap (λ (x : CacheEntry). x.sha256_sum) w.entry,
          ap (λ (x : ValidationResult). x.token_id) (named e w q),
          ap (λ (x : ValidationResult). x.token_name) (named e w q),
          ap (λ (x : ValidationResult). x.scope) (named e w q),
        )
    | inr (t, found, q) ↦ (
      t,
      plain,
      now,
      inl refl,
      (scan-live env plain now ts t u found).0,
      subst (λ x. find_id t.id x ≡ ok t) (sym f) (scan-live env plain now ts t u found).1,
      refl,
      ap (λ (x : ValidationResult). x.token_id) (sym q),
      ap (λ (x : ValidationResult). x.token_name) (sym q),
      ap (λ (x : ValidationResult). x.scope) (sym q),
    )
  ]
    where
      named : (e : CacheEntry) (w : WasLive e) → result_of_entry e ≡ r → r ≡ result_of_token w.token
      named e w q = sym q ∙ ap (λ (x : CacheEntry). result_of_entry x) w.entry

module _ (env : Environment) where
  -- A remembered token is hit until the entry's lifetime is over.
  check-remember :
      (plain : Text) (now later : ℕ) (t : ApiToken) (c : TokenCache)
      → t.token_prefix ≡ prefix_of plain
      → t.enabled ≡ true
      → later < now + c.ttl
      → check env plain later (remember env plain now t c) ≡ some (entry_of env plain now t)
  unfolding check remember
  check-remember plain now later t c p on soon =
      rw
        (
          lookup-insert t.token_prefix (prefix_of plain) (entry_of env plain now t) c.entries,
          p,
          check,
        )
        (rw (text_eq_refl (prefix_of plain))
          (rw (lt→ltb _ _ soon, on, text_eq_refl (env.sha256 plain)) refl))

  -- A live token with a time of expiry that is remembered and expires while its entry is in the
  -- cache is accepted after that time until the entry's lifetime is over, whatever the token file
  -- says.
  pub validate-expired :
      (plain : Text) (now later x : ℕ) (t : ApiToken) (c : TokenCache) (d : Disk)
      → t.token_prefix ≡ prefix_of plain
      → IsLive env plain now t
      → t.expires_at ≡ some x
      → x < later
      → later < now + c.ttl
      → ((validate env plain later d (remember env plain now t c)).1 ≡ ok (result_of_token t))
        × (is_past t.expires_at later ≡ true)
  unfolding validate
  validate-expired plain now later x t c d p live exp over soon = (
    rw (check-remember plain now later t c p live.enabled soon, validate) refl,
    rw exp (lt→ltb _ _ over),
  )

  ttl-revoke :
      (f : Faults) (id : Text) (d : Disk) (c : TokenCache)
      → (revoke env.codec f id d c).1.ttl ≡ c.ttl
  unfolding revoke invalidate
  ttl-revoke f id d c = ground arith

  -- Validate searches the file before it takes the lock for the insertion. If a revocation of the
  -- token it found, in a file with distinct ids, runs in between, the insertion brings the token
  -- back: it is accepted until the entry's lifetime is over.
  pub revoke-remember :
      (f : Faults) (plain : Text) (now later : ℕ) (d : Disk) (c : TokenCache) (ts : List ApiToken)
      (t : ApiToken)
      → load env.codec d ≡ ok ts
      → unique (ids ts) ≡ true
      → scan env plain now ts ≡ some t
      → t.token_prefix ≡ prefix_of plain
      → later < now + c.ttl
      → let (d', c', e) = revoke env.codec f t.id d c in
        (validate env plain later d' (remember env plain now t c')).1 ≡ ok (result_of_token t)
  unfolding validate
  revoke-remember f plain now later d c ts t l u found p soon =
      let (d', c', e) = revoke env.codec f t.id d c in
      let on = (scan-live env plain now ts t u found).0.enabled in
      rw (check-remember plain now later t c' p on (omega (arith, ttl-revoke f t.id d c)), validate)
        refl
