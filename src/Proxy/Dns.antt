-- ===== src/Proxy/Dns.antt =====
-- `DNSManager` of src/internal/proxy/dns.go. Cloudflare's API and `strings.ToLower` are given. The
-- lookup of the manual mode only logs, so it is not part of the model.
pub mod Records
use unet.Base.{
  ℕ, ◌≡◌, Bool, true, false, not, ◌||◌, ◌⊎◌, inl, inr, List, [], ◌∷◌, ◌++◌, Option, none, some, leb,
  if◌then◌else◌, Text, codes, text_eq, has_suffix, keep,
}
use unet.Base.Int.{ℤ, pos}
use unet.Config.{RootConfig}

pub record DnsRecord : Type 0 where
  pub id : Text
  pub type : Text
  pub name : Text
  pub content : Text
  pub proxied : Bool
  pub ttl : ℤ

pub data DnsError : Type 0 where
  unsupported no_token no_zone no_server_ip not_configured unreachable not_decoded refused :
      DnsError
  returned : ℕ → DnsError

-- `handleCFResponse` on what came back: nothing, or a status and, if the body decodes, its success.
unfoldable pub handle_cf_response : Option (ℕ × Option Bool) → Option DnsError
handle_cf_response none = some unreachable
handle_cf_response (some (code, none)) = if leb 400 code then some (returned code) else none
handle_cf_response (some (code, some success)) = if success then none else some refused

abbrev pub replace_id : Text → DnsRecord → List DnsRecord → List DnsRecord
replace_id id r [] = []
replace_id id r (x ∷ xs) =
    let rest = replace_id id r xs in if text_eq x.id id then record r { id = id } ∷ xs else x ∷ rest

abbrev pub without_id : Text → List DnsRecord → List DnsRecord
without_id id [] = []
without_id id (x ∷ xs) = let rest = without_id id xs in if text_eq x.id id then xs else x ∷ rest

abbrev pub has_id : Text → List DnsRecord → Bool
has_id id [] = false
has_id id (x ∷ xs) = let rest = has_id id xs in if text_eq x.id id then true else rest

-- Cloudflare's API: the records of a zone, and the four requests. A search that is answered below
-- 400 has succeeded and lists the records of the name; a request whose answer is no error has been
-- carried out, and a new record has a new id.
pub record CloudflareApi : Type 1 where
  pub State : Type 0
  pub records : Text → State → List DnsRecord
  pub get : Text → Text → Text → State → Option (ℕ × Option (Bool × List DnsRecord))
  pub post : Text → Text → DnsRecord → State → State × Option (ℕ × Option Bool)
  pub put : Text → Text → Text → DnsRecord → State → State × Option (ℕ × Option Bool)
  pub delete : Text → Text → Text → State → State × Option (ℕ × Option Bool)
  pub to_lower : Text → Text
  pub got :
      (token zone name : Text) (s : State) {code : ℕ} {success : Bool} {found : List DnsRecord}
      → get token zone name s ≡ some (code, some (success, found))
      → leb 400 code ≡ false
      → (success ≡ true) × (found ≡ keep (λ r. text_eq r.name name) (records zone s))
  pub posted :
      (token zone : Text) (r : DnsRecord) (s : State)
      → handle_cf_response (post token zone r s).1 ≡ none
      → (id : Text) × (has_id id (records zone s) ≡ false)
        × (records zone (post token zone r s).0 ≡ records zone s ++ record r { id = id } ∷ [])
  pub changed :
      (token zone id : Text) (r : DnsRecord) (s : State)
      → handle_cf_response (put token zone id r s).1 ≡ none
      → records zone (put token zone id r s).0 ≡ replace_id id r (records zone s)
  pub deleted :
      (token zone id : Text) (s : State)
      → handle_cf_response (delete token zone id s).1 ≡ none
      → records zone (delete token zone id s).0 ≡ without_id id (records zone s)

-- The subdomain, below the zone unless it ends with the zone.
unfoldable pub record_name : Text → Text → Text
record_name subdomain domain =
    if not (has_suffix subdomain domain) then subdomain ++ codes "." ++ domain else subdomain

unfoldable pub record_of : Text → Text → DnsRecord
record_of name content = record {
  id = [];
  type = codes "A";
  name = name;
  content = content;
  proxied = false;
  ttl = pos 1;
}

abbrev pub first_found : List DnsRecord → Option DnsRecord
first_found [] = none
first_found (r ∷ rs) = some r

module _ (api : CloudflareApi) where
  unfoldable pub find_cloudflare_record :
      Text → Text → Text → api.State → Option DnsRecord ⊎ DnsError
  find_cloudflare_record token zone name s = elim (api.get token zone name s) [
    | none ↦ inr unreachable
    | some (code, body) ↦ if leb 400 code then inr (returned code) else elim body [
      | none ↦ inr not_decoded
      | some (success, found) ↦ inl (if success then first_found found else none)
    ]
  ]

  abbrev handled : api.State × Option (ℕ × Option Bool) → api.State × Option DnsError
  handled (s, reply) = (s, handle_cf_response reply)

  -- What follows the search for the record.
  unfoldable pub put_record :
      Text
      → Text
      → Text
      → Text
      → Option DnsRecord ⊎ DnsError
      → api.State
      → api.State × Option DnsError
  put_record token zone name content (inr e) s = (s, some e)
  put_record token zone name content (inl none) s =
      handled (api.post token zone (record_of name content) s)
  put_record token zone name content (inl (some r)) s =
      if text_eq r.content content
      then (s, none)
      else handled (api.put token zone r.id (record_of name content) s)

  unfoldable pub create_cloudflare_record :
      RootConfig → Text → api.State → api.State × Option DnsError
  create_cloudflare_record c subdomain s =
      let name = record_name subdomain c.dns.zone in
      if text_eq c.dns.token []
      then (s, some no_token)
      else if text_eq c.dns.zone []
      then (s, some no_zone)
      else if text_eq c.tunnel.server_ip []
      then (s, some no_server_ip)
      else put_record c.dns.token c.dns.zone name c.tunnel.server_ip
          (find_cloudflare_record c.dns.token c.dns.zone name s) s

  unfoldable pub drop_record :
      Text → Text → Option DnsRecord ⊎ DnsError → api.State → api.State × Option DnsError
  drop_record token zone (inr e) s = (s, some e)
  drop_record token zone (inl none) s = (s, none)
  drop_record token zone (inl (some r)) s = handled (api.delete token zone r.id s)

  unfoldable pub delete_cloudflare_record :
      RootConfig → Text → api.State → api.State × Option DnsError
  delete_cloudflare_record c subdomain s =
      if text_eq c.dns.token [] || text_eq c.dns.zone []
      then (s, some not_configured)
      else drop_record c.dns.token c.dns.zone
          (find_cloudflare_record c.dns.token c.dns.zone (record_name subdomain c.dns.zone) s) s

  -- The choice by the provider: Cloudflare, or none where the user has a wildcard record.
  unfoldable pub by_provider {ℓ} : {A : Type ℓ} → RootConfig → A → A → A → A
  by_provider c cloudflare manual other =
      if text_eq (api.to_lower c.dns.provider) (codes "cloudflare")
      then cloudflare
      else if text_eq (api.to_lower c.dns.provider) (codes "manual")
          || text_eq (api.to_lower c.dns.provider) []
      then manual
      else other

  unfoldable pub create_record : RootConfig → Text → api.State → api.State × Option DnsError
  create_record c subdomain s =
      by_provider c (create_cloudflare_record c subdomain s) (s, none) (s, some unsupported)

  unfoldable pub delete_record : RootConfig → Text → api.State → api.State × Option DnsError
  delete_record c subdomain s =
      by_provider c (delete_cloudflare_record c subdomain s) (s, none) (s, some unsupported)
