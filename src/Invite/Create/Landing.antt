-- ===== src/Invite/Create/Landing.antt =====
-- An invitation that was created lets its holder land.
use unet.Base.{
  ℕ, ◌<◌, ◌&&◌, ◌≡◌, refl, sym, ap, subst, inl, inr, true, false, [], Option, none, some, arith,
  ltb, leb, Text, text_eq, text_eq_refl, length, Bool-cases, Option-cases,
}
use unet.Invite.Store.{
  InviteLink, hmac, short_code, Store, Fault, append, max_token, found, find_by_token_hash,
}
use unet.Invite.Store.Lookup.{IsIndexed, find-append}
use unet.Invite.Handler.{
  Environment, Request, Refusal, Response, refused, served, admit, check_sig, signed, land,
  extract_ip, handle_landing, sign_url, validate_url,
}
use unet.Invite.Attempts.{Attempts, check_rate_limit}
use unet.Invite.Create.{
  CreateInviteRequest, Drawn, Created, by_url, by_code, unix, new_invite, signature_of, keep_it,
  create_hmac, create_code, handle_create, mode_of_name,
}

abbrev pub link_of : Created → InviteLink
link_of (by_url inv token expires sig) = inv
link_of (by_code inv code) = inv

-- A request of the landing page with what the answer to the creation said.
abbrev pub Presents : Request → Created → Type 0
Presents r (by_url inv token expires sig) =
    (r.peer_id ≡ inv.peer_id)
    × (r.token ≡ token)
    × (r.expires ≡ expires)
    × (r.sig ≡ sig)
    × (text_eq token [] ≡ false)
Presents r (by_code inv code) =
    (r.peer_id ≡ inv.peer_id) × (r.token ≡ []) × (r.code ≡ code) × (text_eq code [] ≡ false)

admit-fresh :
    (peer_id : Text) (later : ℕ) (inv : InviteLink)
    → peer_id ≡ inv.peer_id
    → later < inv.expires_at
    → inv.use_count ≡ 0
    → admit peer_id later (found inv) ≡ served inv
unfolding admit
admit-fresh peer_id later inv p t u =
    let same = text_eq_refl inv.peer_id in
    let early : leb inv.expires_at later ≡ false = ground arith in
    let unused : (ltb 0 inv.max_uses && leb inv.max_uses inv.use_count) ≡ false = ground arith in
    rw (p, same, early, unused) refl

module _ (env : Environment) where
  abbrev kept : Fault → InviteLink → Store → Store
  kept fault inv s = (append env.codec fault inv s).0

  -- What an answer that is served says of the file.
  keep_it-served :
      (fault : Fault) (inv : InviteLink) (answer created : Created) (s s' : Store)
      → keep_it env fault inv answer s ≡ (s', served created)
      → ((append env.codec fault inv s).1 ≡ none) × (kept fault inv s ≡ s') × (answer ≡ created)
  keep_it-served fault inv answer created s s' h =
      elim (Option-cases ((append env.codec fault inv s).1)) [
        | inl e ↦
            let q = rw (e, keep_it) at h in
            (
              e,
              ap (λ (x : Store × Response Created). x.0) q,
              answer_of (ap (λ (x : Store × Response Created). x.1) q),
            )
        | inr (x, e) ↦
            (let q = rw (e, keep_it) at h in
              absurd (refused_of (ap (λ (y : Store × Response Created). y.1) q)))
      ]
    where
      answer_of : served answer ≡ served created → answer ≡ created
      answer_of q = cc q

      refused_of : {n : ℕ} {e : Refusal} → refused n e ≡ served created → ⊥
      refused_of q = cc q

  find-kept :
      (fault : Fault) (inv : InviteLink) (s : Store) (json secret : Text)
      → IsIndexed s
      → env.codec.marshal inv ≡ some json
      → length json < max_token
      → inv.token_hash ≡ env.hash_of secret
      → (append env.codec fault inv s).1 ≡ none
      → find_by_token_hash env.codec true (env.hash_of secret) (kept fault inv s) ≡ found inv
  find-kept fault inv s json secret i m short hashed e =
      let named = subst (λ k. text_eq k [] ≡ false) (sym hashed) (env.hash_full secret) in
      let all = find-append env.codec fault inv s json inv.token_hash i m short named in
      let q = rw (e, text_eq_refl inv.token_hash) at all in
      subst (λ k. find_by_token_hash env.codec true k (kept fault inv s) ≡ found inv) hashed q

  check_sig-signed :
      (r : Request) (inv : InviteLink) (token : Text)
      → r.peer_id ≡ inv.peer_id
      → r.token ≡ token
      → r.expires ≡ env.print_int (unix inv.expires_at)
      → r.sig ≡ signature_of env inv token
      → check_sig env r inv ≡ served inv
  unfolding check_sig validate_url
  check_sig-signed r inv token p t e g = unchecked refl
    where
      good :
          text_eq (env.decode_hex r.sig) (sign_url env r.token r.peer_id (env.scan_int r.expires))
          ≡ true
      good =
          rw
            (
              g,
              e,
              t,
              p,
              env.decode-encode (sign_url env token inv.peer_id (unix inv.expires_at)),
              env.scan-print (unix inv.expires_at),
            )
            (text_eq_refl (sign_url env token inv.peer_id (unix inv.expires_at)))

      unchecked : inv ≡ inv → check_sig env r inv ≡ served inv
      unchecked _ = elim (Bool-cases (text_eq r.expires [])) [
        | inl a ↦ rw (a, check_sig) refl
        | inr a ↦ elim (Bool-cases (text_eq r.sig [])) [
          | inl b ↦ rw (a, b, check_sig) refl
          | inr b ↦ rw (a, b, good, check_sig) refl
        ]
      ]

  land-kept :
      (fault : Fault) (inv : InviteLink) (s : Store) (json secret : Text) (r : Request) (later : ℕ)
      → IsIndexed s
      → env.codec.marshal inv ≡ some json
      → length json < max_token
      → inv.token_hash ≡ env.hash_of secret
      → inv.use_count ≡ 0
      → (append env.codec fault inv s).1 ≡ none
      → r.peer_id ≡ inv.peer_id
      → later < inv.expires_at
      → admit r.peer_id later
          (find_by_token_hash env.codec true (env.hash_of secret) (kept fault inv s))
        ≡ served inv
  land-kept fault inv s json secret r later i m short hashed unused e p t =
      rw (find-kept fault inv s json secret i m short hashed e)
        (admit-fresh r.peer_id later inv p t unused)

  url-land :
      (fault : Fault) (inv : InviteLink) (s : Store) (json token : Text) (r : Request) (later : ℕ)
      → IsIndexed s
      → env.codec.marshal inv ≡ some json
      → length json < max_token
      → inv.token_hash ≡ env.hash_of token
      → inv.use_count ≡ 0
      → (append env.codec fault inv s).1 ≡ none
      → Presents r
          (by_url inv token (env.print_int (unix inv.expires_at)) (signature_of env inv token))
      → later < inv.expires_at
      → land env r later (kept fault inv s) ≡ served inv
  unfolding land signed
  url-land fault inv s json token r later i m short hashed unused e (p, t, x, g, full) early =
      let ad = land-kept fault inv s json token r later i m short hashed unused e p early in
      let full' : text_eq r.token [] ≡ false = subst (λ k. text_eq k [] ≡ false) (sym t) full in
      let ad' =
        subst
          (λ k.
            admit r.peer_id later
              (find_by_token_hash env.codec true (env.hash_of k) (kept fault inv s))
            ≡ served inv)
          (sym t) ad in
      rw (full', ad', land) (check_sig-signed r inv token p t x g)

  code-land :
      (fault : Fault) (inv : InviteLink) (s : Store) (json code : Text) (r : Request) (later : ℕ)
      → IsIndexed s
      → env.codec.marshal inv ≡ some json
      → length json < max_token
      → inv.token_hash ≡ env.hash_of code
      → inv.use_count ≡ 0
      → (append env.codec fault inv s).1 ≡ none
      → Presents r (by_code inv code)
      → later < inv.expires_at
      → land env r later (kept fault inv s) ≡ served inv
  unfolding land
  code-land fault inv s json code r later i m short hashed unused e (p, t, c, full) early =
      let ad = land-kept fault inv s json code r later i m short hashed unused e p early in
      let no_token : text_eq r.token [] ≡ true =
        subst (λ k. text_eq k [] ≡ true) (sym t) (text_eq_refl []) in
      let full' : text_eq r.code [] ≡ false = subst (λ k. text_eq k [] ≡ false) (sym c) full in
      let ad' =
        subst
          (λ k.
            admit r.peer_id later
              (find_by_token_hash env.codec true (env.hash_of k) (kept fault inv s))
            ≡ served inv)
          (sym c) ad in
      rw (no_token, full', ad', land) refl

  module _ (fault : Fault) (drawn : Drawn) (now : ℕ) (path_peer : Text) (s s' : Store) (r : Request)
      (later : ℕ) where
    -- The answer lets its holder land.
    abbrev Lands : Created → Type 0
    Lands created =
        (json : Text)
        → env.codec.marshal (link_of created) ≡ some json
        → length json < max_token
        → Presents r created
        → later < (link_of created).expires_at
        → land env r later s' ≡ served (link_of created)

    create_hmac-land :
        (req : CreateInviteRequest) (created : Created)
        → IsIndexed s
        → create_hmac env fault drawn now path_peer req s ≡ (s', served created)
        → Lands created
    unfolding create_hmac
    create_hmac-land req created i h =
        let plain = new_invite env drawn now path_peer req hmac drawn.new_token in
        let sig = signature_of env plain drawn.new_token in
        let inv = record plain { hmac_sig = sig } in
        let answer = by_url inv drawn.new_token (env.print_int (unix inv.expires_at)) sig in
        let (e, stored, same) = keep_it-served fault inv answer created s s' h in
        subst Lands same (λ json m short shown early.
          subst (λ x. land env r later x ≡ served inv) stored
            (url-land fault inv s json drawn.new_token r later i m short refl refl e shown early))

    create_code-land :
        (req : CreateInviteRequest) (created : Created)
        → IsIndexed s
        → create_code env fault drawn now path_peer req s ≡ (s', served created)
        → Lands created
    unfolding create_code
    create_code-land req created i h = elim (Option-cases drawn.new_code) [
      | inl n ↦
          (let q = rw (n, create_code) at h in
            absurd (refusal (ap (λ (y : Store × Response Created). y.1) q)))
      | inr (code, y) ↦
          let q = rw (y, create_code) at h in
          let inv = record (new_invite env drawn now path_peer req short_code code) {
            code = code;
          } in
          let (e, stored, same) = keep_it-served fault inv (by_code inv code) created s s' q in
          subst Lands same (λ json m short shown early.
            subst (λ x. land env r later x ≡ served inv) stored
              (code-land fault inv s json code r later i m short refl refl e shown early))
    ]
      where
        refusal : {n : ℕ} {e : Refusal} → refused n e ≡ served created → ⊥
        refusal q = cc q

create-land :
    (env : Environment) (fault : Fault) (drawn : Drawn) (now : ℕ) (path_peer : Text)
    (body : Option CreateInviteRequest) (s s' : Store) (created : Created) (json : Text)
    (r : Request) (later : ℕ)
    → IsIndexed s
    → handle_create env fault drawn now path_peer body s ≡ (s', served created)
    → env.codec.marshal (link_of created) ≡ some json
    → length json < max_token
    → Presents r created
    → later < (link_of created).expires_at
    → land env r later s' ≡ served (link_of created)
unfolding handle_create
create-land env fault drawn now path_peer body s s' created json r later i h m short shown early =
    go h json m short shown early
  where
    refusal :
        {n : ℕ} {e : Refusal}
        → ◌≡◌ {A = Store × Response Created} (s, refused n e) (s', served created)
        → ⊥
    refusal q = (let k = ap (λ (y : Store × Response Created). y.1) q in cc k)

    go :
        handle_create env fault drawn now path_peer body s ≡ (s', served created)
        → Lands env fault drawn now path_peer s s' r later created
    go h = elim (Bool-cases (text_eq path_peer [])) [
      | inl b ↦ (let q = rw (b, handle_create) at h in absurd (refusal q))
      | inr b ↦ elim (Option-cases body) [
        | inl n ↦ (let q = rw (b, n, handle_create) at h in absurd (refusal q))
        | inr (req, y) ↦ elim (Option-cases (mode_of_name req.mode_name)) [
          | inl n ↦ (let q = rw (b, y, n, handle_create) at h in absurd (refusal q))
          | inr (hmac, v) ↦
              let q = rw (b, y, v, handle_create) at h in
              create_hmac-land env fault drawn now path_peer s s' r later req created i q
          | inr (short_code, v) ↦
              let q = rw (b, y, v, handle_create) at h in
              create_code-land env fault drawn now path_peer s s' r later req created i q
        ]
      ]
    ]

-- If every offset of the index is the beginning of a line and a creation answers with success,
-- whatever its faults, then whoever asks the landing page with what the answer said, for the
-- invitation's peer, before its time is over and within the limit on attempts of that address, is
-- shown that invitation, whichever attempts others have made: with the token, the time and the
-- signature of the URL, or with the code, neither of which may be empty. The invitation's line
-- must be shorter than the scanner's 64 KiB, and the file can be read.
pub create-handle_landing :
    (env : Environment) (fault : Fault) (drawn : Drawn) (now : ℕ) (path_peer : Text)
    (body : Option CreateInviteRequest) (s s' : Store) (created : Created) (json : Text)
    (r : Request) (later : ℕ) (a : Attempts)
    → IsIndexed s
    → handle_create env fault drawn now path_peer body s ≡ (s', served created)
    → env.codec.marshal (link_of created) ≡ some json
    → length json < max_token
    → Presents r created
    → text_eq r.peer_id [] ≡ false
    → later < (link_of created).expires_at
    → (check_rate_limit (extract_ip r) later a).1 ≡ true
    → handle_landing env r later s' a
      ≡ ((check_rate_limit (extract_ip r) later a).0, served (link_of created))
unfolding handle_landing
create-handle_landing env fault drawn now path_peer body s s' created json r later a i h m short
      shown named early within =
    rw
      (
        handle_landing,
        named,
        within,
        create-land env fault drawn now path_peer body s s' created json r later i h m short shown
            early,
      )
      refl
