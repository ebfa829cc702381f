-- ===== src/Proxy/Dns/Records.antt =====
-- What the methods of src/internal/proxy/dns.go leave in the zone.
use unet.Base.{
  ◌≡◌, refl, sym, ap, ◌∙◌, subst, true, false, ◌||◌, ◌⊎◌, inl, inr, List, [], ◌∷◌, ◌++◌, Option,
  none, some, leb, Text, codes, text_eq, text_eq_refl, text_eq_iff, keep, Bool-cases, Option-cases,
}
use unet.Config.{RootConfig}
use unet.Proxy.Dns.{
  DnsRecord, DnsError, replace_id, without_id, has_id, CloudflareApi, record_name, record_of,
  first_found, find_cloudflare_record, handled, put_record, create_cloudflare_record, drop_record,
  delete_cloudflare_record, by_provider, create_record, delete_record,
}

-- The record that the name stands for: the first one with it.
abbrev pub first_named : Text → List DnsRecord → Option DnsRecord
first_named name rs = first_found (keep (λ r. text_eq r.name name) rs)

first_named-append :
    (name : Text) (rs : List DnsRecord) (r : DnsRecord)
    → first_named name rs ≡ none
    → text_eq r.name name ≡ true
    → first_named name (rs ++ r ∷ []) ≡ some r
first_named-append name [] r h e = rw e refl
first_named-append name (x ∷ xs) r h e = elim (Bool-cases (text_eq x.name name)) [
  | inl a ↦ (let y = rw a at h in cc y)
  | inr a ↦ rw a (first_named-append name xs r (rw a at h) e)
]

first_named-replace_id :
    (name : Text) (rs : List DnsRecord) (x r : DnsRecord)
    → first_named name rs ≡ some x
    → text_eq r.name name ≡ true
    → first_named name (replace_id x.id r rs) ≡ some (record r { id = x.id })
first_named-replace_id name [] x r h e = cc
first_named-replace_id name (y ∷ ys) x r h e = elim (Bool-cases (text_eq y.id x.id)) [
  | inl a ↦ rw (a, e) refl
  | inr a ↦ elim (Bool-cases (text_eq y.name name)) [
    | inl b ↦
        let q : some y ≡ some x = rw b at h in
        let p : y ≡ x = cc q in
        let f : text_eq x.id x.id ≡ false = subst (λ z. text_eq z.id x.id ≡ false) p a in
        (let z = rw (text_eq_refl x.id) at f in cc z)
    | inr b ↦ rw (a, b) (first_named-replace_id name ys x r (rw b at h) e)
  ]
]

without_id-append :
    (rs : List DnsRecord) (r : DnsRecord)
    → has_id r.id rs ≡ false
    → without_id r.id (rs ++ r ∷ []) ≡ rs
without_id-append [] r h = rw (text_eq_refl r.id) refl
without_id-append (x ∷ xs) r h = elim (Bool-cases (text_eq x.id r.id)) [
  | inl e ↦ (let y = rw e at h in cc y)
  | inr e ↦ rw e (ap (◌∷◌ x) (without_id-append xs r (rw e at h)))
]

module _ (api : CloudflareApi) where
  -- A search without an error finds the record that the name stands for.
  find_cloudflare_record-named :
      (token zone name : Text) (s : api.State) (o : Option DnsRecord)
      → find_cloudflare_record api token zone name s ≡ inl o
      → o ≡ first_named name (api.records zone s)
  unfolding find_cloudflare_record
  find_cloudflare_record-named token zone name s o h =
      elim (Option-cases (api.get token zone name s)) [
        | inl e ↦ (let x = rw (e, find_cloudflare_record) at h in cc x)
        | inr ((code, body), e) ↦ elim (Bool-cases (leb 400 code)) [
          | inl q ↦ (let x = rw (e, find_cloudflare_record, q) at h in cc x)
          | inr q ↦ elim (Option-cases body) [
            | inl b ↦ (let x = rw (e, find_cloudflare_record, q, b) at h in cc x)
            | inr ((success, found), b) ↦
                let (works, all) = api.got token zone name s (rw b at e) q in
                let x = rw (e, find_cloudflare_record, q, b, works) at h in
                let y : first_found found ≡ o = cc x in sym y ∙ ap first_found all
          ]
        ]
      ]

  put_record-served :
      (token zone name content : Text) (s s' : api.State) (o : Option DnsRecord ⊎ DnsError)
      → find_cloudflare_record api token zone name s ≡ o
      → put_record api token zone name content o s ≡ (s', none)
      → (r : DnsRecord) × (first_named name (api.records zone s') ≡ some r) × (r.content ≡ content)
  unfolding put_record record_of
  put_record-served token zone name content s s' (inr e) f h =
      (let y : some e ≡ none = ap (λ z. z.1) h in cc y)
  put_record-served token zone name content s s' (inl none) f h =
      let absent = sym (find_cloudflare_record-named token zone name s none f) in
      let (id, fresh, left) = api.posted token zone (record_of name content) s (ap (λ z. z.1) h) in
      let r = record (record_of name content) { id = id } in
      (
        r,
        ap (λ z. first_named name (api.records zone z.0)) (sym h)
            ∙ ap (first_named name) left
            ∙ first_named-append name (api.records zone s) r absent (text_eq_refl name),
        refl,
      )
  put_record-served token zone name content s s' (inl (some x)) f h =
      let there = sym (find_cloudflare_record-named token zone name s (some x) f) in
      elim (Bool-cases (text_eq x.content content)) [
        | inl e ↦
            let g = rw e at h in
            let p : s ≡ s' = ap (λ z. z.0) g in
            (
              x,
              ap (λ z. first_named name (api.records zone z)) (sym p) ∙ there,
              (text_eq_iff x.content content).0 e,
            )
        | inr e ↦
            let g : handled api (api.put token zone x.id (record_of name content) s) ≡ (s', none) =
              rw e at h in
            let r = record (record_of name content) { id = x.id } in
            (
              r,
              ap (λ z. first_named name (api.records zone z.0)) (sym g)
                  ∙ ap (first_named name)
                      (api.changed token zone x.id (record_of name content) s (ap (λ z. z.1) g))
                  ∙ first_named-replace_id name (api.records zone s) x (record_of name content)
                      there (text_eq_refl name),
              refl,
            )
      ]

  create_record-put :
      (c : RootConfig) (subdomain : Text) (s s' : api.State)
      → text_eq (api.to_lower c.dns.provider) (codes "cloudflare") ≡ true
      → create_record api c subdomain s ≡ (s', none)
      → let name = record_name subdomain c.dns.zone in
        put_record api c.dns.token c.dns.zone name c.tunnel.server_ip
          (find_cloudflare_record api c.dns.token c.dns.zone name s)
          s
        ≡ (s', none)
  unfolding create_record by_provider create_cloudflare_record
  create_record-put c subdomain s s' cloudflare h =
      let g = rw (create_record, by_provider, cloudflare) at h in
      elim (Bool-cases (text_eq c.dns.token [])) [
        | inl e1 ↦ let y = ap (λ z. z.1) (rw (create_cloudflare_record, e1) at g) in cc y
        | inr e1 ↦ elim (Bool-cases (text_eq c.dns.zone [])) [
          | inl e2 ↦ let y = ap (λ z. z.1) (rw (create_cloudflare_record, e1, e2) at g) in cc y
          | inr e2 ↦ elim (Bool-cases (text_eq c.tunnel.server_ip [])) [
            | inl e3 ↦
                let y = ap (λ z. z.1) (rw (create_cloudflare_record, e1, e2, e3) at g) in cc y
            | inr e3 ↦ rw (create_cloudflare_record, e1, e2, e3) at g
          ]
        ]
      ]

  -- After a creation without an error the name stands for a record with the server's address.
  pub create_record-served :
      (c : RootConfig) (subdomain : Text) (s s' : api.State)
      → text_eq (api.to_lower c.dns.provider) (codes "cloudflare") ≡ true
      → create_record api c subdomain s ≡ (s', none)
      → (r : DnsRecord) × (first_named
            (record_name subdomain c.dns.zone)
            (api.records c.dns.zone s')
          ≡ some r)
        × (r.content ≡ c.tunnel.server_ip)
  create_record-served c subdomain s s' cloudflare h =
      let name = record_name subdomain c.dns.zone in
      put_record-served c.dns.token c.dns.zone name c.tunnel.server_ip s s'
        (find_cloudflare_record api c.dns.token c.dns.zone name s) refl
        (create_record-put c subdomain s s' cloudflare h)

  -- Under a name that stands for nothing, a record is added.
  put_record-added :
      (token zone name content : Text) (s s' : api.State) (o : Option DnsRecord ⊎ DnsError)
      → find_cloudflare_record api token zone name s ≡ o
      → first_named name (api.records zone s) ≡ none
      → put_record api token zone name content o s ≡ (s', none)
      → (id : Text) × (has_id id (api.records zone s) ≡ false)
        × (api.records zone s'
            ≡ api.records zone s ++ record (record_of name content) { id = id } ∷ [])
  unfolding put_record
  put_record-added token zone name content s s' (inr e) f absent h =
      (let y : some e ≡ none = ap (λ z. z.1) h in cc y)
  put_record-added token zone name content s s' (inl none) f absent h =
      let (id, fresh, left) = api.posted token zone (record_of name content) s (ap (λ z. z.1) h) in
      (id, fresh, ap (λ z. api.records zone z.0) (sym h) ∙ left)
  put_record-added token zone name content s s' (inl (some x)) f absent h =
      let there : some x ≡ none =
        find_cloudflare_record-named token zone name s (some x) f ∙ absent in
      cc there

  drop_record-without_id :
      (token zone name : Text) (r : DnsRecord) (s s' : api.State) (o : Option DnsRecord ⊎ DnsError)
      → find_cloudflare_record api token zone name s ≡ o
      → first_named name (api.records zone s) ≡ some r
      → drop_record api token zone o s ≡ (s', none)
      → api.records zone s' ≡ without_id r.id (api.records zone s)
  unfolding drop_record
  drop_record-without_id token zone name r s s' (inr e) f there h =
      (let y : some e ≡ none = ap (λ z. z.1) h in cc y)
  drop_record-without_id token zone name r s s' (inl none) f there h =
      let x = find_cloudflare_record-named token zone name s none f ∙ there in cc x
  drop_record-without_id token zone name r s s' (inl (some x)) f there h =
      let same = find_cloudflare_record-named token zone name s (some x) f ∙ there in
      let p : x ≡ r = cc same in
      ap (λ z. api.records zone z.0) (sym h)
      ∙ api.deleted token zone x.id s (ap (λ z. z.1) h)
      ∙ ap (λ z. without_id z.id (api.records zone s)) p

  delete_record-drop :
      (c : RootConfig) (subdomain : Text) (s s' : api.State)
      → text_eq (api.to_lower c.dns.provider) (codes "cloudflare") ≡ true
      → delete_record api c subdomain s ≡ (s', none)
      → drop_record api c.dns.token c.dns.zone
          (find_cloudflare_record api c.dns.token c.dns.zone (record_name subdomain c.dns.zone) s)
          s
        ≡ (s', none)
  unfolding delete_record by_provider delete_cloudflare_record
  delete_record-drop c subdomain s s' cloudflare h =
      let g = rw (delete_record, by_provider, cloudflare) at h in
      elim (Bool-cases (text_eq c.dns.token [] || text_eq c.dns.zone [])) [
        | inl e ↦ (let y = ap (λ z. z.1) (rw (delete_cloudflare_record, e) at g) in cc y)
        | inr e ↦ rw (delete_cloudflare_record, e) at g
      ]

  -- A record that was created under a new name and deleted again leaves the zone as it was.
  pub create_record-delete_record :
      (c : RootConfig) (subdomain : Text) (s s' s'' : api.State)
      → text_eq (api.to_lower c.dns.provider) (codes "cloudflare") ≡ true
      → first_named (record_name subdomain c.dns.zone) (api.records c.dns.zone s) ≡ none
      → create_record api c subdomain s ≡ (s', none)
      → delete_record api c subdomain s' ≡ (s'', none)
      → api.records c.dns.zone s'' ≡ api.records c.dns.zone s
  unfolding record_of
  create_record-delete_record c subdomain s s' s'' cloudflare absent h d =
      let name = record_name subdomain c.dns.zone in
      let zone = c.dns.zone in
      let (id, fresh, grown) =
        put_record-added c.dns.token zone name c.tunnel.server_ip s s'
          (find_cloudflare_record api c.dns.token zone name s) refl absent
          (create_record-put c subdomain s s' cloudflare h) in
      let r = record (record_of name c.tunnel.server_ip) { id = id } in
      let there : first_named name (api.records zone s') ≡ some r =
        ap (first_named name) grown
        ∙ first_named-append name (api.records zone s) r absent (text_eq_refl name) in
      drop_record-without_id c.dns.token zone name r s' s''
        (find_cloudflare_record api c.dns.token zone name s') refl there
        (delete_record-drop c subdomain s' s'' cloudflare d)
      ∙ ap (without_id id) grown
      ∙ without_id-append (api.records zone s) r fresh
