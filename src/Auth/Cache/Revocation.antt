-- ===== src/Auth/Cache/Revocation.antt =====
-- A revoked token is refused.
use unet.Base.{
  ℕ, ◌≡◌, refl, ap, subst, text_eq_refl, ◌∙◌, ◌≢◌, ◌⊎◌, inl, inr, true, false, List, [], ◌∷◌,
  Option, none, some, arith, Text, text_eq, text_eq_iff, Bool-cases, Option-cases,
}
use unet.Base.Map.{lookup, lookup-insert, lookup-delete}
use unet.Auth.Token.{ApiToken, Error, ok, Result-cases, is_past, ◌>>=◌}
use unet.Auth.Store.{Disk, Faults, find_id, load, get_by_id, soft_delete, disable}
use unet.Auth.Store.Names.{occurs, unique, ids, disable-keeps}
use unet.Auth.Store.Saving.{deleting, handle_done}
use unet.Auth.Store.Reads.{find_id-disable}
use unet.Auth.Cache.{
  TokenCache, CacheEntry, ValidationResult, Environment, prefix_of, check, scan, remember, validate,
  invalidate, revoke, entry_of, result_of_entry, result_of_token,
}

-- What a successful search guarantees of the token that it finds.
pub record IsLive (env : Environment) (plain : Text) (now : ℕ) (t : ApiToken) : Type 0 where
  pub enabled : t.enabled ≡ true
  pub unexpired : is_past t.expires_at now ≡ false
  pub verified : env.verify plain t.token_hash ≡ true

-- Each entry stands under the prefix of the stored token whose id it has.
abbrev pub Traces : TokenCache → List ApiToken → Type 0
Traces c ts =
    (k : Text) (e : CacheEntry)
    → lookup k c.entries ≡ some e
    → (t : ApiToken) × (find_id e.token_id ts ≡ ok t) × (t.token_prefix ≡ k)

find_id-occurs :
    (id : Text) (ts : List ApiToken) (t : ApiToken)
    → find_id id ts ≡ ok t
    → (t.id ≡ id) × (occurs id (ids ts) ≡ true)
unfolding find_id occurs
find_id-occurs id [] t h = cc
find_id-occurs id (x ∷ ts) t h = ground (arith, find_id-occurs id ts t, text_eq_iff x.id id)

module _ (env : Environment) where
  scan-cons :
      (plain : Text) (now : ℕ) (x : ApiToken) (ts : List ApiToken) (t : ApiToken)
      → scan env plain now (x ∷ ts) ≡ some t
      → ((x ≡ t) × IsLive env plain now x) ⊎ (scan env plain now ts ≡ some t)
  unfolding scan
  scan-cons plain now x ts t h = ground arith

  -- A token that the search finds is live, and is the one that its id leads to.
  pub scan-live :
      (plain : Text) (now : ℕ) (ts : List ApiToken) (t : ApiToken)
      → unique (ids ts) ≡ true
      → scan env plain now ts ≡ some t
      → IsLive env plain now t × (find_id t.id ts ≡ ok t)
  unfolding find_id unique
  scan-live plain now [] t u h = unfold scan in cc h
  scan-live plain now (x ∷ ts) t u h = elim (scan-cons plain now x ts t h) [
    | inl (e, l) ↦ (subst (IsLive env plain now) e l, ground (arith, text_eq_iff x.id t.id))
    | inr later ↦
        let (l, f) = scan-live plain now ts t (ground arith) later in
        (l, ground (arith, f, find_id-occurs t.id ts t, text_eq_iff x.id t.id))
  ]

  check-lookup :
      (plain : Text) (now : ℕ) (c : TokenCache) (e : CacheEntry)
      → check env plain now c ≡ some e
      → lookup (prefix_of plain) c.entries ≡ some e
  unfolding check
  check-lookup plain now c e h = ground arith

  -- The ways in which a call succeeds.
  pub validate-ok :
      (plain : Text) (now : ℕ) (d : Disk) (c : TokenCache) (ts : List ApiToken)
      (r : ValidationResult)
      → load env.codec d ≡ ok ts
      → (validate env plain now d c).1 ≡ ok r
      → ((e : CacheEntry) × (check env plain now c ≡ some e) × (result_of_entry e ≡ r))
        ⊎ ((t : ApiToken) × (scan env plain now ts ≡ some t) × (result_of_token t ≡ r))
  unfolding validate
  validate-ok plain now d c ts r l h = elim (Option-cases (check env plain now c)) [
    | inr (e, p) ↦ inl (e, p, let q = rw (p, validate) at h in cc q)
    | inl p ↦ elim (Option-cases (scan env plain now ts)) [
      | inr (t, s) ↦ inr (t, s, let q = rw (p, l, s, validate) at h in cc q)
      | inl s ↦ let q = rw (p, l, s, validate) at h in cc q
    ]
  ]

  remember-Traces :
      (plain : Text) (now : ℕ) (t : ApiToken) (c : TokenCache) (ts : List ApiToken)
      → find_id t.id ts ≡ ok t
      → Traces c ts
      → Traces (remember env plain now t c) ts
  unfolding remember
  remember-Traces plain now t c ts f tr k e h =
      let split = rw lookup-insert at h in
      elim (Bool-cases (text_eq t.token_prefix k)) [
        | inl same ↦
            let q : entry_of env plain now t ≡ e = (let p = rw same at split in cc p) in
            (t, rw (← q) f, (text_eq_iff t.token_prefix k).0 same)
        | inr other ↦ tr k e (rw other at split)
      ]

  -- If the token file loads with distinct ids and each entry of the cache stands under the prefix
  -- of the stored token with its id, then this still holds after a validation.
  pub validate-Traces :
      (plain : Text) (now : ℕ) (d : Disk) (c : TokenCache) (ts : List ApiToken)
      → load env.codec d ≡ ok ts
      → unique (ids ts) ≡ true
      → Traces c ts
      → Traces (validate env plain now d c).0 ts
  unfolding validate
  validate-Traces plain now d c ts l u tr = elim (Option-cases (check env plain now c)) [
    | inr (e, p) ↦ rw (p, validate) tr
    | inl p ↦ elim (Option-cases (scan env plain now ts)) [
      | inl s ↦ rw (p, l, s, validate) tr
      | inr (t, s) ↦
          rw (p, l, s, validate)
            (remember-Traces plain now t c ts (scan-live plain now ts t u s).1 tr)
    ]
  ]

  module _ (f : Faults) (id : Text) (d : Disk) (c : TokenCache) (ts : List ApiToken) where
    abbrev d' : Disk
    d' = (revoke env.codec f id d c).0

    abbrev c' : TokenCache
    c' = (revoke env.codec f id d c).1

    get_by_id-find_id : load env.codec d ≡ ok ts → get_by_id env.codec id d ≡ find_id id ts
    unfolding get_by_id
    get_by_id-find_id l = rw (l, ◌>>=◌) refl

    abbrev Outcome : Type 0
    Outcome = Disk × TokenCache × Option Error

    revoke-eq :
        (t : ApiToken)
        → get_by_id env.codec id d ≡ ok t
        → (soft_delete env.codec f id d).1 ≡ none
        → revoke env.codec f id d c
          ≡ ((soft_delete env.codec f id d).0, invalidate t.token_prefix c, none)
    unfolding revoke
    revoke-eq t got q = rw (got, revoke) (rw (q, revoke) refl)

    -- What a revocation that reports no error has done.
    pub revoke-done :
        d.readable ≡ true
        → load env.codec d ≡ ok ts
        → (revoke env.codec f id d c).2 ≡ none
        → (t : ApiToken) × (us : List ApiToken) × (find_id id ts ≡ ok t)
          × (disable id ts ≡ ok us)
          × (load env.codec d' ≡ ok us)
          × (c' ≡ invalidate t.token_prefix c)
    unfolding revoke
    revoke-done readable l h = elim (Result-cases (find_id id ts)) [
      | inl (e, p) ↦ absurd (ground (arith, get_by_id-find_id l))
      | inr (t, p) ↦ elim (Option-cases ((soft_delete env.codec f id d).1)) [
        | inr (e, q) ↦ absurd (ground (arith, get_by_id-find_id l))
        | inl q ↦
            let got = get_by_id-find_id l ∙ p in
            let (us, changed, loads, clean) = handle_done env.codec f (deleting id) d readable q in
            (
              t,
              us,
              p,
              (rw (l, ◌>>=◌) at changed),
              ap (λ (x : Outcome). load env.codec x.0) (revoke-eq t got q) ∙ loads,
              ap (λ (x : Outcome). x.1) (revoke-eq t got q),
            )
      ]
    ]

    -- A cached entry of the revoked token would stand under the dropped prefix.
    hit_is_other :
        (t : ApiToken) (plain : Text) (now : ℕ) (e : CacheEntry)
        → find_id id ts ≡ ok t
        → Traces c ts
        → check env plain now (invalidate t.token_prefix c) ≡ some e
        → e.token_id ≢ id
    unfolding invalidate
    hit_is_other t plain now e p tr h same =
        let found = check-lookup plain now (invalidate t.token_prefix c) e h in
        let split = rw lookup-delete at found in
        elim (Bool-cases (text_eq t.token_prefix (prefix_of plain))) [
          | inl q ↦ (let dropped = rw q at split in cc dropped)
          | inr q ↦
              let (t', f', k') = tr (prefix_of plain) e (rw q at split) in
              let twin : t ≡ t' = cc (p, f', same) in
              ground (
                arith,
                k',
                ap (λ x. x.token_prefix) twin,
                text_eq_iff t.token_prefix (prefix_of plain),
              )
        ]

    -- The search passes over the revoked token, which is disabled.
    scan_is_other :
        (t t' : ApiToken) (us : List ApiToken) (plain : Text) (now : ℕ)
        → find_id id ts ≡ ok t
        → disable id ts ≡ ok us
        → unique (ids ts) ≡ true
        → scan env plain now us ≡ some t'
        → t'.id ≢ id
    scan_is_other t t' us plain now p changed u h same =
        let (live, found) = scan-live plain now us t' (rw (disable-keeps id ts changed).0 u) h in
        let marked = find_id-disable id id ts changed in
        let mine : find_id id us ≡ ok (record t { enabled = false }) =
          (rw (p, text_eq_refl id) at marked) in
        let twin : record t { enabled = false } ≡ t' = cc (mine, found, same) in
        ground (arith, live.enabled, ap (λ x. x.enabled) twin)

    -- Once a revocation has reported success, from a readable token file with distinct ids and a
    -- cache whose entries stand under their tokens' prefixes, no token string whatever is
    -- accepted under the revoked token's id, from the cache or from the file.
    pub revoke-validate :
        (plain : Text) (now : ℕ) (r : ValidationResult)
        → d.readable ≡ true
        → load env.codec d ≡ ok ts
        → unique (ids ts) ≡ true
        → Traces c ts
        → (revoke env.codec f id d c).2 ≡ none
        → (validate env plain now d' c').1 ≡ ok r
        → r.token_id ≢ id
    revoke-validate plain now r readable l u tr done accepted =
        let (t, us, p, changed, loads, dropped) = revoke-done readable l done in
        elim (validate-ok plain now d' c' us r loads accepted) [
          | inl (e, hit, q) ↦ rw (← q) (hit_is_other t plain now e p tr (rw dropped at hit))
          | inr (t', found, q) ↦ rw (← q) (scan_is_other t t' us plain now p changed u found)
        ]
