-- ===== src/Invite/Handler/Agreement.antt =====
-- What a download that is served says of the invitation, and of the landing page.
use unet.Base.{
  ℕ, ◌<◌, ◌≡◌, refl, ap, ◌∙◌, subst, ◌⊎◌, inl, inr, true, ◌&&◌, [], some, arith, ltb, leb,
  if◌then◌else◌, Text, text_eq, text_eq_iff, text_eq_refl, Bool-cases, Option-cases,
}
use unet.Invite.Store.{
  InviteLink, Store, Found, missing, bad_seek, bad_line, found, find_by_token_hash,
}
use unet.Invite.Attempts.{Attempts, check_rate_limit}
use unet.Invite.Handler.{
  Request, Refusal, Response, refused, served, Environment, extract_ip, admit, decrypt_config,
  check_sig, signed, land, handle_landing, config_of, download, handle_download,
}

Response-cases {ℓ} :
    {A : Type ℓ} (o : Response A)
    → ((a : A) × (o ≡ served a)) ⊎ ((n : ℕ) × (e : Refusal) × (o ≡ refused n e))
Response-cases (served a) = inl (a, refl)
Response-cases (refused n e) = inr (n, e, refl)

-- An invitation that may be used by the peer at the time.
pub record IsValid (peer_id : Text) (now : ℕ) (inv : InviteLink) : Type 0 where
  pub peer : inv.peer_id ≡ peer_id
  pub in_time : now < inv.expires_at
  pub uses_left : (inv.max_uses ≡ 0) ⊎ (inv.use_count < inv.max_uses)

admit-served :
    (peer_id : Text) (now : ℕ) (f : Found) (inv : InviteLink)
    → admit peer_id now f ≡ served inv
    → (f ≡ found inv) × IsValid peer_id now inv
unfolding admit
admit-served peer_id now bad_seek inv h = cc h
admit-served peer_id now bad_line inv h = cc h
admit-served peer_id now missing inv h = cc h
admit-served peer_id now (found i) inv h = elim (Bool-cases (text_eq i.peer_id peer_id)) [
  | inr p ↦ (let q = rw p at h in cc q)
  | inl p ↦ elim (Bool-cases (leb i.expires_at now)) [
    | inl t ↦ (let q = rw (p, t) at h in cc q)
    | inr t ↦ elim (Bool-cases (ltb 0 i.max_uses && leb i.max_uses i.use_count)) [
      | inl u ↦ (let q = rw (p, t, u) at h in cc q)
      | inr u ↦
          let same : i ≡ inv = (let q = rw (p, t, u) at h in cc q) in
          (
            ap (λ (x : InviteLink). found x) same,
            subst (λ x. IsValid peer_id now x) same
                record {
                  peer = (text_eq_iff i.peer_id peer_id).0 p;
                  in_time = ground arith;
                  uses_left = ground arith;
                },
          )
    ]
  ]
]

module _ (env : Environment) where
  -- The secret of a request: the token, or else the code.
  abbrev secret : Request → Text
  secret r = if text_eq r.token [] then r.code else r.token

  abbrev at : Text → Store → Found
  at k s = find_by_token_hash env.codec true (env.hash_of k) s

  config_of-served :
      (o : Response InviteLink) (text : Text)
      → config_of env o ≡ served text
      → (inv : InviteLink) × (o ≡ served inv) × (decrypt_config env inv.config_enc ≡ some text)
  unfolding config_of
  config_of-served (refused n e) text h = cc h
  config_of-served (served inv) text h = elim (Bool-cases (text_eq inv.config_enc [])) [
    | inl b ↦ (let q = rw b at h in cc q)
    | inr b ↦ elim (Option-cases (decrypt_config env inv.config_enc)) [
      | inl d ↦ (let q = rw (b, d) at h in cc q)
      | inr (t, d) ↦ (inv, refl, d ∙ (let q = rw (b, d) at h in cc q))
    ]
  ]

  check_sig-unsigned :
      (r : Request) (inv : InviteLink) → r.sig ≡ [] → check_sig env r inv ≡ served inv
  unfolding check_sig
  check_sig-unsigned r inv h = elim (Bool-cases (text_eq r.expires [])) [
    | inl e ↦ rw (h, e) refl
    | inr e ↦ rw (h, e, text_eq_refl []) refl
  ]

  -- The two bodies make the same tests of the same invitation.
  download-land :
      (r : Request) (now : ℕ) (s : Store) (text : Text)
      → r.sig ≡ []
      → download env r now s ≡ served text
      → (inv : InviteLink) × (admit r.peer_id now (at (secret r) s) ≡ served inv)
        × (decrypt_config env inv.config_enc ≡ some text)
        × (land env r now s ≡ served inv)
  unfolding download land signed
  download-land r now s text unsigned h = elim (Bool-cases (text_eq r.token [])) [
    | inr t ↦
        let q = rw (t, download) at h in
        let (inv, e, d) = config_of-served (admit r.peer_id now (at r.token s)) text q in
        (inv, rw t e, d, rw (t, e, land) (check_sig-unsigned r inv unsigned))
    | inl t ↦ elim (Bool-cases (text_eq r.code [])) [
      | inr c ↦
          let q = rw (t, c, download) at h in
          let (inv, e, d) = config_of-served (admit r.peer_id now (at r.code s)) text q in
          (inv, rw t e, d, rw (t, c, land) e)
      | inl c ↦ (let q = rw (t, c, download) at h in cc q)
    ]
  ]

  -- A download that is served, of a request without a signature, is served for an invitation
  -- found under the hash of the secret in the request, made for the peer, not past its time and
  -- with a use left, and serves its configuration decrypted. The landing page, asked the same by
  -- a caller with as many attempts, shows the same invitation.
  download-landing :
      (r : Request) (now : ℕ) (s : Store) (a : Attempts) (text : Text)
      → r.sig ≡ []
      → (handle_download env r now s a).1 ≡ served text
      → (inv : InviteLink) × (find_by_token_hash env.codec true (env.hash_of (secret r)) s
          ≡ found inv)
        × IsValid r.peer_id now inv
        × (decrypt_config env inv.config_enc ≡ some text)
        × (handle_landing env r now s a ≡ ((handle_download env r now s a).0, served inv))
  unfolding handle_download handle_landing
  download-landing r now s a text unsigned h = elim (Bool-cases (text_eq r.peer_id [])) [
    | inl p ↦ (let q = rw (p, handle_download) at h in cc q)
    | inr p ↦ elim (Bool-cases ((check_rate_limit (extract_ip r) now a).1)) [
      | inr l ↦ (let q = rw (p, l, handle_download) at h in cc q)
      | inl l ↦
          let q = rw (p, l, handle_download) at h in
          let (inv, e, d, shown) = download-land r now s text unsigned q in
          let (f, v) = admit-served r.peer_id now (at (secret r) s) inv e in
          (inv, f, v, d, rw (p, l, shown, handle_landing, handle_download) refl)
    ]
  ]
